-- ===== src/Executor.antt =====
-- crates/executor: the execution of transactions over the world state.
pub mod Adapter
pub mod Roots
pub mod Exec
pub mod Revert
pub mod Precompiles
