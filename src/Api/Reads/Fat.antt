-- ===== src/Api/Reads/Fat.antt =====
-- Blocks with their transactions in full, and the two answers for one transaction.
use rt_evm.Common.{
  ℕ, suc, ◌≤◌, ◌≡◌, refl, Bytes, Hash, none, some, List, [], ◌∷◌, map, length, true, false, le→leb,
  unwrap_or, from_big_endian, All,
}
use rt_evm.Common.Outcome.{ok}
use rt_evm.Model.Rlp.{Externals}
use rt_evm.Model.Block.{Block, Header, block_hash}
use rt_evm.Model.Transaction.{SignedTransaction}
use rt_evm.Store.Table.{Tables}
use rt_evm.Store.Cache.{Caches}
use rt_evm.Store.Trie.{Tries}
use rt_evm.Storage.{get_tx_by_hash}
use rt_evm.Api.Logs.{BlockId}
use rt_evm.Api.Backend.{ApiAdapter, get_block_by_number}
use rt_evm.Api.Web3.{number_of}
use rt_evm.Api.Web3Types.{
  Web3Transaction, FatTransactionOrHash, just_hash, fat, hash_in, slice_number, no_signature,
  fields_with, from_signed, add_position,
}
use rt_evm.Api.Web3Types.Blocks.{Web3Block, web3_block}
use rt_evm.Api.Reads.{fat_from, show_block, web3_block_by_number}

-- The numbers of a signature fit a `U256`.
abbrev pub HasNumbers : SignedTransaction → Type 0
HasNumbers stx =
    let sig = unwrap_or stx.transaction.signature no_signature in
    (length sig.r ≤ 32) × (length sig.s ≤ 32)

-- The transactions stand in full at the places of a block, from the index on.
abbrev pub Placed : ℕ → Hash → ℕ → List FatTransactionOrHash → Type 0
Placed number hash i [] = Unit {0}
Placed number hash i (just_hash h ∷ txs) = true ≡ false
Placed number hash i (fat tx ∷ txs) =
    (tx.block_number ≡ some number)
    × (tx.block_hash ≡ some hash)
    × (tx.transaction_index ≡ some i)
    × Placed number hash (suc i) txs

slice_number-ok : (bs : Bytes) → length bs ≤ 32 → slice_number bs ≡ ok (from_big_endian bs)
slice_number-ok bs h = rw (le→leb (length bs) 32 h) refl

module _ ⦃ext : Externals⦄ ⦃tries : Tries⦄ ⦃tables : Tables⦄ ⦃caches : Caches⦄ where
  -- A transaction is stored under its own hash.
  abbrev pub Stores : ApiAdapter → Hash → Type 0
  Stores a h =
      (stx : SignedTransaction) × (get_tx_by_hash a.storage h ≡ ok (some stx))
      × (stx.transaction.hash ≡ h)
      × HasNumbers stx

  from_signed-hash :
      (stx : SignedTransaction)
      → HasNumbers stx
      → (tx : Web3Transaction) × (from_signed stx ≡ ok tx) × (tx.hash ≡ stx.transaction.hash)
  unfolding from_signed
  from_signed-hash stx (short_r, short_s) =
      let sig = unwrap_or stx.transaction.signature no_signature in
      (
        fields_with stx none none none 0 stx.transaction.hash (from_big_endian sig.r)
            (from_big_endian sig.s),
        rw (slice_number-ok sig.r short_r, slice_number-ok sig.s short_s) refl,
        refl,
      )

  fat_from-Placed :
      (a : ApiAdapter) (number : ℕ) (hash : Hash) (i : ℕ) (hs : List Hash)
      → All (Stores a) hs
      → (txs : List FatTransactionOrHash) × (fat_from a number hash i (map just_hash hs) ≡ ok txs)
        × (map hash_in txs ≡ hs)
        × Placed number hash i txs
  unfolding fat_from hash_in add_position
  fat_from-Placed a number hash i [] stored = ([], refl, refl, tt)
  fat_from-Placed a number hash i (h ∷ hs) ((stx, found, own, numbers), stored) =
      let (tx, shown, kept) = from_signed-hash stx numbers in
      let (txs, run, hashes, placed) = fat_from-Placed a number hash (suc i) hs stored in
      (
        fat (add_position number hash i tx) ∷ txs,
        rw (found, shown, run) refl,
        cc,
        (refl, refl, refl, placed),
      )

  -- A block that is asked for with its transactions, all of which are stored under their own hashes
  -- with signatures of numbers of at most 32 bytes, is answered without a panic: its transactions have the hashes of the block in order, and each of
  -- them the number and the hash of the block and its own index.
  pub web3_block_by_number-Placed :
      (size : Header → ℕ) (a : ApiAdapter) (number : BlockId) (b : Block)
      → get_block_by_number a (number_of number) ≡ ok (some b)
      → All (Stores a) b.tx_hashes
      → (shown : Web3Block) × (web3_block_by_number size a number true ≡ ok (some shown))
        × (shown.hash ≡ block_hash b)
        × (map hash_in shown.transactions ≡ b.tx_hashes)
        × Placed b.header.number (block_hash b) 0 shown.transactions
  unfolding web3_block_by_number show_block web3_block
  web3_block_by_number-Placed size a number b found stored =
      let (txs, run, hashes, placed) =
        fat_from-Placed a b.header.number (block_hash b) 0 b.tx_hashes stored in
      (
        record (web3_block size b) { transactions = txs },
        rw (found, run) refl,
        refl,
        hashes,
        placed,
      )
