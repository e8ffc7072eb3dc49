-- ===== src/Runtime.antt =====
-- src/lib.rs: a node is created with the first balances, written to files, and restored from them.
-- The databases themselves are kept by the crate vsdb: what is written to the files of the trie store
-- and of the storage are the handles to them.
pub mod Restart
pub mod Genesis
use rt_evm.Common.{
  ℕ, ◌+◌, ◌≡◌, ◌≢◌, Bytes, H160, U256, Option, none, some, List, [], ◌∷◌, map, length, not, true,
  false, if◌then◌else◌, ◌==◌, to_be, from_big_endian, saturating_add,
}
use rt_evm.Common.Map.{Map, lookup, insert, values}
use rt_evm.Common.Outcome.{
  Outcome, ok, err, or_err, reject_if, bad_codec, bad_length, bad_meta, write_failed, ◌>>=◌, ◌>>◌,
}
use rt_evm.Model.Rlp.{Externals}
use rt_evm.Model.Block.{ExecutorContext, mock}
use rt_evm.Model.Transaction.{SignedTransaction}
use rt_evm.Store.Table.{Tables}
use rt_evm.Store.Cache.{Caches}
use rt_evm.Store.Trie.{Tries}
use rt_evm.Storage.{FunStorage, set_block}
use rt_evm.Storage
use rt_evm.Mempool.{TinyMempool, tx_insert, tx_pre_check}
use rt_evm.Mempool
use rt_evm.Executor.Adapter.{Adapter, Basic, Modify, apply, commit, new as new_backend}
use rt_evm.BlockMgmt.{BlockMgmt}
use rt_evm.BlockMgmt

pub record TokenDistributon : Type 0 where
  pub address : H160
  pub amount : U256

unfoldable pub basic : TokenDistributon → Basic
basic td = record { balance = td.amount; nonce = 0 }

-- What `entry` and `or_insert` find for an address, and the sum that is kept there: an amount that
-- equals the one found is not added.
abbrev pub entry_of : Option TokenDistributon → TokenDistributon → TokenDistributon
entry_of none td = td
entry_of (some hdr) td =
    if td.amount == hdr.amount
    then hdr
    else record hdr { amount = saturating_add hdr.amount td.amount }

-- The `fold` over the distributions; `into_values` goes through the map in the order of its keys.
unfoldable pub collect : Map TokenDistributon → List TokenDistributon → Map TokenDistributon
collect acc [] = acc
collect acc (td ∷ tds) = collect (insert td.address (entry_of (lookup td.address acc) td) acc) tds

-- The arguments of `apply` for a distribution.
abbrev pub grant : TokenDistributon → Modify
grant td = record {
  address = td.address;
  basic = basic td;
  code = none;
  storage = [];
  reset_storage = true;
}

abbrev pub mem_pool_cap : ℕ
mem_pool_cap = 200_000

-- `Default` of `ExecutorContext`
abbrev pub default_context : ExecutorContext
default_context = record {
  block_number = 0;
  block_hash = 0;
  block_coinbase = 0;
  block_timestamp = 0;
  chain_id = 0;
  difficulty = 0;
  origin = 0;
  gas_price = 0;
  block_gas_limit = 0;
  block_base_fee_per_gas = 0;
  logs = [];
}

-- `MetaPath`
pub data MetaPath : Type 0 where
  chain_id trie_db storage : MetaPath

-- `std::io::Result` of a read
pub data FileRead : Type 0 where
  contents : Bytes → FileRead
  missing unreadable : FileRead

module _ ⦃tries : Tries⦄ ⦃tables : Tables⦄ ⦃caches : Caches⦄ where
  -- `std::fs`, and the crate bcs on the two kinds of handles
  pub record Files : Type 1 where
    pub Disk : Type 0
    pub read : Disk → MetaPath → FileRead
    pub write : Disk → MetaPath → Bytes → Option Disk
    pub trie_to_bytes : tries.Store → Option Bytes
    pub trie_from_bytes : Bytes → Option tries.Store
    pub storage_to_bytes : FunStorage → Option Bytes
    pub storage_from_bytes : Bytes → Option FunStorage

  pub record EvmRuntime : Type 0 where
    pub chain_id : ℕ
    pub mempool : TinyMempool
    pub trie_db : tries.Store
    pub storage : FunStorage

  -- The counter of the pool's transactions goes on from where it stands in the process.
  unfoldable pub new : ℕ → ℕ → tries.Store → FunStorage → EvmRuntime
  new indexer chain t s = record {
    chain_id = chain;
    mempool = Mempool.new mem_pool_cap 600 none indexer;
    trie_db = t;
    storage = s;
  }

  module _ ⦃ext : Externals⦄ where
    unfoldable pub apply_grants : Adapter → List TokenDistributon → Outcome Adapter
    apply_grants b [] = ok b
    apply_grants b (td ∷ tds) = apply b (grant td) >>= λ r. apply_grants r.0 tds

    -- The first part of `create`: the balances, and the block with their root. `t` is a new trie
    -- store.
    unfoldable pub genesis : ℕ → ℕ → tries.Store → List TokenDistributon → Outcome EvmRuntime
    genesis indexer chain t tds = do
      backend ← new_backend t Storage.new default_context
      granted ← apply_grants backend (values (collect [] tds))
      let (committed, root) = commit granted
      ok (new indexer chain committed.trie_db (set_block committed.storage (mock chain 0 root 0)))

    module _ ⦃files : Files⦄ where
      unfoldable pub save : EvmRuntime → files.Disk → Outcome files.Disk
      save r d = do
        with_id ← or_err (files.write d chain_id (to_be 8 r.chain_id)) write_failed
        trie_bytes ← or_err (files.trie_to_bytes r.trie_db) bad_codec
        with_trie ← or_err (files.write with_id trie_db trie_bytes) write_failed
        storage_bytes ← or_err (files.storage_to_bytes r.storage) bad_codec
        or_err (files.write with_trie storage storage_bytes) write_failed

      unfoldable pub create :
          ℕ
          → ℕ
          → tries.Store
          → List TokenDistributon
          → files.Disk
          → Outcome (EvmRuntime × files.Disk)
      create indexer chain t tds d =
          genesis indexer chain t tds >>= λ r. save r d >>= λ d'. ok (r, d')

      abbrev pub load : ℕ → Bytes → Bytes → Bytes → Outcome EvmRuntime
      load indexer id_bytes trie_bytes storage_bytes = do
        reject_if (not (length id_bytes == 8)) bad_length
        t ← or_err (files.trie_from_bytes trie_bytes) bad_codec
        s ← or_err (files.storage_from_bytes storage_bytes) bad_codec
        ok (new indexer (from_big_endian id_bytes) t s)

      abbrev pub restored : ℕ → FileRead → FileRead → FileRead → Outcome (Option EvmRuntime)
      restored indexer (contents a) (contents b) (contents c) =
          load indexer a b c >>= λ r. ok (some r)
      restored indexer (contents a) (contents b) missing = err bad_meta
      restored indexer (contents a) (contents b) unreadable = err bad_meta
      restored indexer (contents a) missing c = err bad_meta
      restored indexer (contents a) unreadable c = err bad_meta
      restored indexer missing missing missing = ok none
      restored indexer missing missing (contents c) = err bad_meta
      restored indexer missing missing unreadable = err bad_meta
      restored indexer missing (contents b) c = err bad_meta
      restored indexer missing unreadable c = err bad_meta
      restored indexer unreadable b c = err bad_meta

      unfoldable pub restore : ℕ → files.Disk → Outcome (Option EvmRuntime)
      restore indexer d =
          restored indexer (files.read d chain_id) (files.read d trie_db) (files.read d storage)

      unfoldable pub restore_or_create :
          ℕ
          → ℕ
          → tries.Store
          → List TokenDistributon
          → files.Disk
          → Outcome (EvmRuntime × files.Disk)
      restore_or_create indexer chain t tds d = restore indexer d >>= λ found. elim found [
        | some r ↦ ok (r, d)
        | none ↦ create indexer chain t tds d
      ]

    unfoldable pub generate_blockproducer : EvmRuntime → H160 → ℕ → Outcome BlockMgmt
    generate_blockproducer r proposer timestamp =
        BlockMgmt.new proposer timestamp r.mempool r.trie_db r.storage

    unfoldable pub check_signed_tx : EvmRuntime → SignedTransaction → Outcome (Unit {0})
    check_signed_tx r tx = tx_pre_check r.trie_db r.storage r.mempool tx false

    unfoldable pub cache_signed_tx : EvmRuntime → SignedTransaction → ℕ → Outcome EvmRuntime
    cache_signed_tx r tx now =
        tx_insert r.trie_db r.storage r.mempool tx false now >>= λ m. ok (record r { mempool = m })
