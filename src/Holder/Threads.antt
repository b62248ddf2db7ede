-- ===== src/Holder/Threads.antt =====
-- The two threads that share a `LoMPluginHolder` of python_plugins/src/plugin_proc.py: the main
-- thread, in the poll loop, and the request thread. Each step is one access to a shared attribute.
pub mod System
pub mod Control
pub mod Accounting
pub mod Wakeup
pub mod Instance
pub mod Refinement
pub mod Hazards
pub mod Work
pub mod Reach
