-- ===== src/Holder.antt =====
-- `LoMPluginHolder` of python_plugins/src/plugin_proc.py: one plugin, the thread that runs its
-- request, and the pipe by which the thread wakes the main thread. The attributes that both threads
-- touch are one record; each method is a function on it. A call of clib_bind, whose result every
-- method ignores, is an entry of the list that the method returns.
pub mod Defs
pub mod Methods
pub mod Threads
