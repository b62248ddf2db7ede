-- ===== src/Actions.antt =====
-- The plugins under python_plugins/src/vendors/sonic/actions.
pub mod LinkFlap
pub mod Reported
pub mod LinkDown
pub mod LinkSafety
pub mod Shipped
