-- ===== src/Node.antt =====
-- src/coldwatch/node: the node's answers to a call, and the supervisor of the scans.
pub mod Json
pub mod Rpc
pub mod Scan
pub mod Futures
pub mod Supervisor
