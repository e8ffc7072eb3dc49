-- ===== src/Api/Reads.antt =====
-- The methods of crates/api/src/jsonrpc/impls/web3.rs that answer with transactions, receipts and
-- blocks.
pub mod Fat
use rt_evm.Common.{
  ℕ, suc, ◌%◌, Bytes, Hash, H160, U256, Option, none, some, List, [], ◌∷◌, length, get_elem?,
  replicate, Bool, true, false, ltb, if◌then◌else◌, unwrap_or, u64_max, u64_mod,
}
use rt_evm.Common.Outcome.{
  Outcome, ok, err, panic, bad_request, not_found, or_err, reject_if, ◌>>=◌, ◌>>◌,
}
use rt_evm.Model.Rlp.{Externals}
use rt_evm.Model.Block.{Block, Header, block_hash}
use rt_evm.Model.Response.{Receipt}
use rt_evm.Model.Transaction.{SignedTransaction}
use rt_evm.Store.Table.{Tables}
use rt_evm.Store.Cache.{Caches}
use rt_evm.Store.Trie.{Tries}
use rt_evm.Storage.{get_tx_by_hash, get_receipt_by_hash, get_block_by_hash}
use rt_evm.Api.Logs.{BlockId, latest}
use rt_evm.Api.Hub.{expect}
use rt_evm.Api.Backend.{ApiAdapter, get_block_by_number, get_storage_at}
use rt_evm.Api.Web3.{number_of, count_of}
use rt_evm.Api.Web3Types.{
  Web3Transaction, FatTransactionOrHash, just_hash, fat, hash_in, from_signed, from_receipt,
  add_position,
}
use rt_evm.Api.Web3Types.Receipts.{Web3Receipt, new_receipt}
use rt_evm.Api.Web3Types.Blocks.{Web3Block, web3_block}

module _ ⦃ext : Externals⦄ ⦃tries : Tries⦄ ⦃tables : Tables⦄ ⦃caches : Caches⦄ where
  -- A transaction without a receipt is an error.
  abbrev pub with_receipt :
      {A : Type 0}
      → ApiAdapter
      → Hash
      → (SignedTransaction → Receipt → Outcome A)
      → Option SignedTransaction
      → Outcome (Option A)
  with_receipt a h answer none = ok none
  with_receipt a h answer (some stx) = do
    found ← get_receipt_by_hash a.storage h
    receipt ← or_err found not_found
    shown ← answer stx receipt
    ok (some shown)

  -- `eth_getTransactionByHash`
  unfoldable pub web3_tx : ApiAdapter → Hash → Outcome (Option Web3Transaction)
  web3_tx a h = get_tx_by_hash a.storage h >>= with_receipt a h from_receipt

  unfoldable pub get_tx_receipt : ApiAdapter → Hash → Outcome (Option Web3Receipt)
  get_tx_receipt a h =
      get_tx_by_hash a.storage h >>= with_receipt a h (λ stx receipt. ok (new_receipt receipt stx))

  -- The transactions of a block in full, from the index on.
  unfoldable pub fat_from :
      ApiAdapter → ℕ → Hash → ℕ → List FatTransactionOrHash → Outcome (List FatTransactionOrHash)
  fat_from a number hash i [] = ok []
  fat_from a number hash i (tx ∷ txs) = do
    found ← get_tx_by_hash a.storage (hash_in tx)
    stx ← expect found
    shown ← from_signed stx
    rest ← fat_from a number hash (suc i) txs
    ok (fat (add_position number hash i shown) ∷ rest)

  -- What the two methods for blocks do with a block.
  unfoldable pub show_block :
      (Header → ℕ) → ApiAdapter → Bool → Option Block → Outcome (Option Web3Block)
  show_block size a show_fat_tx none = ok none
  show_block size a false (some b) = ok (some (web3_block size b))
  show_block size a true (some b) =
      let ret = web3_block size b in
      fat_from a b.header.number (block_hash b) 0 ret.transactions >>= λ txs.
      ok (some (record ret { transactions = txs }))

  -- `eth_getBlockByNumber` and `eth_getBlockByHash`
  unfoldable pub web3_block_by_number :
      (Header → ℕ) → ApiAdapter → BlockId → Bool → Outcome (Option Web3Block)
  web3_block_by_number size a number show_fat_tx =
      get_block_by_number a (number_of number) >>= show_block size a show_fat_tx

  unfoldable pub web3_block_by_hash :
      (Header → ℕ) → ApiAdapter → Hash → Bool → Outcome (Option Web3Block)
  web3_block_by_hash size a h show_fat_tx =
      get_block_by_hash a.storage h >>= show_block size a show_fat_tx

  unfoldable pub get_block_tx_count_by_hash : ApiAdapter → Hash → Outcome U256
  get_block_tx_count_by_hash a h = get_block_by_hash a.storage h >>= λ b. ok (count_of b)

  abbrev pub tx_or_none : ApiAdapter → Option Hash → Outcome (Option Web3Transaction)
  tx_or_none a none = ok none
  tx_or_none a (some h) = web3_tx a h

  abbrev pub tx_at : ApiAdapter → ℕ → Option Block → Outcome (Option Web3Transaction)
  tx_at a index none = ok none
  tx_at a index (some b) = tx_or_none a (get_elem? b.tx_hashes index)

  -- A `usize` has 64 bits; the index is the low 64 bits of the position.
  unfoldable pub get_tx_by_block_hash_and_index :
      ApiAdapter → Hash → U256 → Outcome (Option Web3Transaction)
  get_tx_by_block_hash_and_index a h position = do
    reject_if (ltb u64_max position) bad_request
    b ← get_block_by_hash a.storage h
    tx_at a (position % u64_mod) b

  unfoldable pub get_tx_by_block_number_and_index :
      ApiAdapter → BlockId → U256 → Outcome (Option Web3Transaction)
  get_tx_by_block_number_and_index a number position = do
    reject_if (ltb u64_max position) bad_request
    b ← get_block_by_number a (number_of number)
    tx_at a (position % u64_mod) b

  -- `unwrap_or_else` with the bytes of an `H256` of zeros
  abbrev pub or_zeros : Outcome Bytes → Outcome Bytes
  or_zeros (ok bs) = ok bs
  or_zeros (err e) = ok (replicate 32 0)
  or_zeros panic = panic

  -- `eth_getStorageAt`
  unfoldable pub storage_at_block : ApiAdapter → H160 → U256 → Option BlockId → Outcome Bytes
  storage_at_block a address position number = do
    found ← get_block_by_number a (number_of (unwrap_or number latest))
    b ← or_err found not_found
    or_zeros (get_storage_at a address position b.header.state_root)
