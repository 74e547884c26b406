-- ===== src/Restart.antt =====
-- src/py_frp/restart.py and the ends of `_run_server_until_update` and `_run_client_until_update` in
-- src/py_frp/cli.py: what a child leaves behind when a new version is installed.
pub mod Request
pub mod Tls
pub mod Children
pub mod Runtime
pub mod Closing
