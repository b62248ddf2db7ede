-- ===== src/Common.antt =====
-- python_plugins/src/common.py: the search path of modules and the configuration files.
pub mod Config
pub mod Paths
pub mod Log
