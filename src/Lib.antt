-- ===== src/Lib.antt =====
-- The device health monitor's plugin process (src-c-python/python_plugins): a process that loads
-- action plugins, takes action requests from the engine through a C client library, runs each
-- request in a thread of its own, and sends heartbeats and responses back.
--
-- The parts, and how they meet:
-- * ClibBind (python_plugins/src/clib_bind.py): binding of the client library, requests, responses
--   and call wrappers. The library is the interface `ClibLibrary` with an abstract state; JSON text
--   is the interface `JsonModule`. `Gvars` holds the attribute names of python_plugins/src/gvars.py.
-- * Holder (class LoMPluginHolder of python_plugins/src/plugin_proc.py): `Holder.Methods` has each
--   method as a function on the attributes; `Holder.Threads` interleaves the main thread and the
--   request thread, one access to a shared attribute a step.
-- * PluginProc (the rest of python_plugins/src/plugin_proc.py): `Requests` is handle_server_request
--   and handle_shutdown, `Loading` the constructor of the holder and the loading loop, `Run` is
--   main_run and main. A call raises or returns, and keeps the state that it wrote.
--   `Startup` is what precedes the loading: the plugin paths of main and the wait of main_run for
--   the configuration, and `Program` the whole program, from its options to the end of main.
--   `Requests.Stable`, `Loading.Keep`, `Run.Keep` and `Run.Whole` are for all predicates that every
--   call keeps; `Holder.Threads.Reach`, with `Run.Reached`, ties a holder of the process to the
--   interleavings of its two threads.
-- * Common (python_plugins/src/common.py): `Config` is the global RC file, its cache and the
--   configuration files over the file system `Files`; `Paths` is syspath_append, os.path.join and
--   os.path.basename; `Log` is the log level and the lines that are written to the system log.
-- * Actions (python_plugins/src/vendors/sonic/actions): the plugins. `LinkFlap` is link_flap.py,
--   `LinkDown` link_down.py and `LinkSafety` link_safety.py; `Reported` is what the last two read of
--   the first one's response, and `Shipped` what a holder sees of the three.
-- * Publisher (python_plugins/src/vendors/sonic/support/helpers.py): the publisher of events.
-- * TestClient (python_plugins/tests/lib/test_client.py): the client library of the test mode, in
--   Python. `Cache` is CacheData, the queue between the process and the tests that act as the
--   server, `Cache.Channel` its two threads, access by access; `Services` is the server's side,
--   `Calls`, `Reads` and `Polls` are the clib_ functions, of which `Polls.as_library` makes a
--   `ClibLibrary`, so that the process runs on them.
-- * Prelude and Json: shared types, dictionaries, results, JSON values.
--
-- Bounds: the poll loop takes one `Turn` of a schedule each round, and a schedule that ends leaves
-- the process running. The request loop takes fuel, one unit for each request; as many units as
-- requests are queued, and one more, are enough for it to end by itself. Integers of the source are unbounded; times are
-- natural numbers, and only their differences are signed.
--
-- In `PluginProc` the request threads act while the main thread polls; their finer interleavings
-- are those of `Holder.Threads`. The pipe never fills up there, since a write may always go on, and
-- each call to the library returns. A call that raises is part of `PluginProc`: it ends `main_run` and
-- leaves the holder as it was before the call. An exception of the plugin ends the request thread.
--
-- The wait for the configuration takes the files as each test finds them, and ends the model's run,
-- not the process's, when the list of them does.
--
-- In `TestClient` a list of waits says what each select returns, what the server has written by
-- then, and, by its end, where the tests set `shutdown`. The loop of clib_poll_for_data takes fuel, one
-- unit for each wait to come and one more, which is enough since each round waits.
--
-- Not modelled: the log calls of the other files but for those whose arguments raise, what is
-- printed to the standard output, argument parsing, the C++ library, the YANG files, the unit
-- tests, the error reports of test_client.py, its three functions that only index a message and
-- reset_error, which nothing calls, the script vendors/sonic/actions/test.py,
-- python_plugins/src/misc.py, which does not parse and which nothing imports, and
-- services/cfg_monitor.py, which has only comments. Signals that arrive before the first poll are
-- left out, as are exceptions of os.pipe. The float percentage of link_safety.py is compared as a
-- ratio of naturals.
pub mod Prelude
pub mod Json
pub mod Gvars
pub mod ClibBind
pub mod Common
pub mod Holder
pub mod PluginProc
pub mod Actions
pub mod Publisher
pub mod TestClient
pub mod Tests
