-- ===== src/Command.antt =====
-- src/py_frp/cli.py: what the arguments of the command line come to.
pub mod Address
pub mod Options
pub mod Limits
pub mod Elevation
