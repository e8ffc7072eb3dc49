-- ===== src/Storage.antt =====
-- crates/storage/src/lib.rs: blocks, transactions, receipts and codes, each in a table of `DB` behind
-- a cache of `Cache`. The field `db.t` and the field `cache.t` of the code are here the two parts of
-- one field `t`.
pub mod Coherence
pub mod History
pub mod Blocks
pub mod Txs
pub mod Accounts
use rt_evm.Common.{
  ℕ, Bytes, Hash, H160, Option, none, some, List, [], ◌∷◌, map, Bool, or_else, if◌then◌else◌, ltb,
  length, map_option, ◌==◌,
}
use rt_evm.Common.Outcome.{
  Outcome, ok, err, panic, no_blocks, request_too_large, block_missing, reject_if, or_err, ◌>>=◌,
  ◌>>◌,
}
use rt_evm.Model.Rlp.{Externals}
use rt_evm.Model.Transaction.{SignedTransaction}
use rt_evm.Model.Block.{Block, Header, FatBlock, block_hash}
use rt_evm.Model.Response.{Receipt}
use rt_evm.Store.Table.{Tables}
use rt_evm.Store.Cache.{Caches}
use rt_evm.Store.Cached.{Cached, fresh, write, read}

abbrev pub batch_limit : ℕ
batch_limit = 1000

-- the value of `transactions`
abbrev pub Located : Type 0
Located = ℕ × SignedTransaction

module _ ⦃tables : Tables⦄ ⦃caches : Caches⦄ where
  pub record FunStorage : Type 0 where
    pub blocks : Cached Block
    pub block_numbers : Cached ℕ
    pub headers : Cached Header
    pub transactions : Cached Located
    pub codes : Cached Bytes
    pub codes_addr_to_hash : Cached Hash
    pub receipts : Cached Receipt
    pub latest_block : Option Block

  unfoldable pub new : FunStorage
  new = record {
    blocks = fresh Block;
    block_numbers = fresh ℕ;
    headers = fresh Header;
    transactions = fresh Located;
    codes = fresh Bytes;
    codes_addr_to_hash = fresh Hash;
    receipts = fresh Receipt;
    latest_block = none;
  }

  unfoldable pub set_latest_block : FunStorage → Block → FunStorage
  set_latest_block s b = record s { latest_block = some b }

  unfoldable pub set_block : ⦃ext : Externals⦄ → FunStorage → Block → FunStorage
  set_block s b =
      set_latest_block
        (record s {
          block_numbers = write ℕ s.block_numbers (block_hash b) b.header.number;
          headers = write Header s.headers b.header.number b.header;
          blocks = write Block s.blocks b.header.number b;
        })
        b

  unfoldable pub get_block : FunStorage → ℕ → Outcome (Option Block)
  get_block s n = ok (read Block s.blocks n)

  unfoldable pub get_block_header : FunStorage → ℕ → Outcome (Option Header)
  get_block_header s n = ok (read Header s.headers n)

  unfoldable pub get_latest_block : FunStorage → Outcome Block
  get_latest_block s =
      or_err (or_else s.latest_block (map_option (λ e. e.1) (tables.last Block s.blocks.table)))
        no_blocks

  unfoldable pub get_latest_block_header : FunStorage → Outcome Header
  get_latest_block_header s = get_latest_block s >>= λ b. ok b.header

  unfoldable pub get_txs_unlimited : FunStorage → List Hash → List (Option Located)
  get_txs_unlimited s hashes = map (read Located s.transactions) hashes

  -- `pnk!(maybe_tx).1` over the whole list
  unfoldable pub unwrap_txs : List (Option Located) → Outcome (List SignedTransaction)
  unwrap_txs [] = ok []
  unwrap_txs (none ∷ rest) = panic
  unwrap_txs (some (n, tx) ∷ rest) = unwrap_txs rest >>= λ txs. ok (tx ∷ txs)

  unfoldable pub fat_of : FunStorage → Option Block → Outcome (Option FatBlock)
  fat_of s none = ok none
  fat_of s (some b) = unwrap_txs (get_txs_unlimited s b.tx_hashes) >>= λ txs.
      ok (some (record { block = b; txs = txs }))

  unfoldable pub get_fatblock : FunStorage → ℕ → Outcome (Option FatBlock)
  get_fatblock s n = get_block s n >>= fat_of s

  -- one round of the loop of `insert_txs`
  unfoldable pub insert_tx : FunStorage → ℕ → SignedTransaction → FunStorage
  insert_tx s n tx = record s {
    transactions = write Located s.transactions tx.transaction.hash (n, tx);
  }

  unfoldable pub insert_txs : FunStorage → ℕ → List SignedTransaction → FunStorage
  insert_txs s n [] = s
  insert_txs s n (tx ∷ txs) = insert_txs (insert_tx s n tx) n txs

  unfoldable pub block_at : FunStorage → Option ℕ → Outcome (Option Block)
  block_at s none = ok none
  block_at s (some n) = or_err (read Block s.blocks n) block_missing >>= λ b. ok (some b)

  unfoldable pub get_block_by_hash : FunStorage → Hash → Outcome (Option Block)
  get_block_by_hash s h = block_at s (read ℕ s.block_numbers h)

  abbrev pub tx_in_block : ℕ → Option Located → Option SignedTransaction
  tx_in_block n none = none
  tx_in_block n (some (m, tx)) = if m == n then some tx else none

  unfoldable pub get_txs : FunStorage → ℕ → List Hash → Outcome (List (Option SignedTransaction))
  get_txs s n hashes = do
    reject_if (ltb batch_limit (length hashes)) request_too_large
    ok (map (tx_in_block n) (get_txs_unlimited s hashes))

  unfoldable pub get_tx_by_hash : FunStorage → Hash → Outcome (Option SignedTransaction)
  get_tx_by_hash s h = ok (map_option (λ e. e.1) (read Located s.transactions h))

  -- one round of the loop of `insert_receipts`
  unfoldable pub insert_receipt : FunStorage → Receipt → FunStorage
  insert_receipt s r = record s { receipts = write Receipt s.receipts r.tx_hash r }

  unfoldable pub insert_receipts : FunStorage → ℕ → List Receipt → FunStorage
  insert_receipts s n [] = s
  insert_receipts s n (r ∷ rs) = insert_receipts (insert_receipt s r) n rs

  unfoldable pub get_receipt_by_hash : FunStorage → Hash → Outcome (Option Receipt)
  get_receipt_by_hash s h = ok (read Receipt s.receipts h)

  abbrev pub receipt_in_block : ℕ → Option Receipt → Option Receipt
  receipt_in_block n none = none
  receipt_in_block n (some r) = if r.block_number == n then some r else none

  unfoldable pub get_receipts : FunStorage → ℕ → List Hash → Outcome (List (Option Receipt))
  get_receipts s n hashes = do
    reject_if (ltb batch_limit (length hashes)) request_too_large
    ok (map (λ h. receipt_in_block n (read Receipt s.receipts h)) hashes)

  unfoldable pub insert_code : FunStorage → Hash → Hash → Bytes → FunStorage
  insert_code s addr code_hash code = record s {
    codes_addr_to_hash = write Hash s.codes_addr_to_hash addr code_hash;
    codes = write Bytes s.codes code_hash code;
  }

  unfoldable pub get_code_by_hash : FunStorage → Hash → Outcome (Option Bytes)
  get_code_by_hash s h = ok (read Bytes s.codes h)

  unfoldable pub code_at : FunStorage → Option Hash → Outcome (Option Bytes)
  code_at s none = ok none
  code_at s (some h) = get_code_by_hash s h

  unfoldable pub get_code_by_address : FunStorage → Hash → Outcome (Option Bytes)
  get_code_by_address s addr = code_at s (read Hash s.codes_addr_to_hash addr)
