-- ===== src/Tests.antt =====
-- Runs of the operations on a small world, where the hypotheses of the theorems hold.
pub mod World
pub mod Decoding
pub mod Codecs
pub mod Transactions
pub mod Storing
pub mod Pooling
pub mod Executing
pub mod Producing
pub mod Contracts
pub mod Filtering
pub mod Calling
pub mod Starting
pub mod Texts
pub mod Searching
pub mod Following
