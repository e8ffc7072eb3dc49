-- ===== src/Api.antt =====
-- crates/api: what the JSON-RPC servers read from the node, and the filters that they keep.
pub mod Logs
pub mod Backend
pub mod Hub
pub mod Blocks
pub mod Invariant
pub mod Steps
pub mod Web3
pub mod Calls
pub mod Requests
pub mod Range
pub mod LogFilters
pub mod Web3Types
pub mod Reads
pub mod Subscription
