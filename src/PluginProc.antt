-- ===== src/PluginProc.antt =====
-- The main thread of python_plugins/src/plugin_proc.py: loading of the plugins, the poll loop, and
-- what the process does with requests, signals and the end.
pub mod State
pub mod Requests
pub mod Loading
pub mod Run
pub mod Startup
pub mod Program
