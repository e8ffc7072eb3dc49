-- ===== src/Model.antt =====
-- crates/model: transactions, blocks and receipts.
pub mod Rlp
pub mod Text
pub mod Reader
pub mod Codec
pub mod Transaction
pub mod Block
pub mod Response
