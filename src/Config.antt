-- ===== src/Config.antt =====
-- src/py_frp/config.py: the configurations of the two sides, and how they are read from parsed files.
pub mod Types
pub mod Fields
pub mod Native
pub mod Rathole
pub mod Ranges
pub mod Ini
pub mod Files
