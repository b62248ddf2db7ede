-- ===== src/ClibBind.antt =====
-- python_plugins/src/clib_bind.py: loading of the C client library, the request and response
-- objects, and the wrappers round the library's calls.
pub mod Load
pub mod Messages
pub mod Calls
pub mod Called
