-- ===== src/TestClient.antt =====
-- python_plugins/tests/lib/test_client.py: the client library that the process loads in the test mode,
-- with the queues between the process and the tests that act as the server.
pub mod Cache
pub mod Services
pub mod Calls
pub mod Reads
pub mod Polls
pub mod Ends
pub mod Kept
pub mod Found
pub mod Delivered
pub mod Server
pub mod Registered
pub mod Session
pub mod Drained
pub mod Count
pub mod Deregistered
pub mod Restart
