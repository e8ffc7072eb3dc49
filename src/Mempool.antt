-- ===== src/Mempool.antt =====
-- crates/mempool/src/lib.rs: the pool of pending transactions. Each call, and each round of the
-- cleaner thread, is one step: the locks that it takes one after another are not interleaved with
-- those of other calls. The time that `ts!()` reads is an argument.
pub mod Frames
pub mod Pending
pub mod History
pub mod Lifetime
pub mod Cleanup
pub mod PreCheck
pub mod Invariant
pub mod Propose
pub mod Cleaner
use rt_evm.Common.{
  ℕ, ◌+◌, ◌-◌, ◌%◌, Bytes, Hash, H160, U256, u64_max, u64_mod, Option, none, some, List, [], ◌∷◌,
  ◌++◌, map, Bool, true, false, not, ◌&&◌, is_some, if◌then◌else◌, ltb, leb, ◌==◌, length,
  unwrap_or, map_option, take, saturating_mul,
}
use rt_evm.Common.Map.{Map, lookup, insert, remove, below, at_least, values, last}
use rt_evm.Common.Outcome.{
  Outcome, ok, err, panic, mempool_full, already_cached, gas_price_zero, gas_price_limit,
  gas_limit_low, gas_limit_high, signature_failed, invalid_nonce, insufficient_balance,
  historical_tx, reject_if, ◌>>=◌, ◌>>◌,
}
use rt_evm.Model.Rlp.{Externals, Account}
use rt_evm.Model.Block.{max_block_gas_limit}
use rt_evm.Model.Transaction.{
  SignedTransaction, UnverifiedTransaction, gas_price, gas_limit, nonce, min_transaction_gas_limit,
}
use rt_evm.Model.Transaction.Encode.{check_hash, try_from}
use rt_evm.Model.Transaction.Equality.{SignedTransaction-discrete}
use rt_evm.Store.Table.{Tables}
use rt_evm.Store.Cache.{Caches}
use rt_evm.Store.Trie.{Tries}
use rt_evm.Storage.{FunStorage, get_tx_by_hash}
use rt_evm.Storage.Accounts.{get_account_by_backend}
use mathlib.Core.Bool.{decide}
use mathlib.Core.List.{reverse}
use Pending.{PendingMap, pending_in, put, drop_entry}

pub record TinyMempoolCfg : Type 0 where
  pub capacity : ℕ
  pub tx_lifetime_in_secs : ℕ
  pub tx_gas_cap : U256

-- `indexer` is the static `TX_INDEXER`. The handles of the trie store and the storage are arguments
-- of the calls that read them.
pub record TinyMempool : Type 0 where
  pub txs : Map SignedTransaction
  pub tx_lifetime_fields : Map ℕ
  pub broadcast_queue : List SignedTransaction
  pub address_pending_cnter : PendingMap
  pub stop_cleaner : Bool
  pub cfg : TinyMempoolCfg
  pub indexer : ℕ

abbrev pub hash_of : SignedTransaction → Hash
hash_of tx = tx.transaction.hash

-- A new pool, with the index counter where it stands.
unfoldable pub new : ℕ → ℕ → Option ℕ → ℕ → TinyMempool
new capacity lifetime gas_cap indexer = record {
  txs = [];
  tx_lifetime_fields = [];
  broadcast_queue = [];
  address_pending_cnter = [];
  stop_cleaner = false;
  cfg = record {
    capacity = capacity;
    tx_lifetime_in_secs = lifetime;
    tx_gas_cap = unwrap_or gas_cap max_block_gas_limit;
  };
  indexer = indexer;
}

unfoldable pub tx_pending_cnt : TinyMempool → Option H160 → ℕ
tx_pending_cnt m (some a) = unwrap_or (map_option length (lookup a m.address_pending_cnter)) 0
tx_pending_cnt m none = length m.txs

-- The writes of `tx_insert`, at time `now`.
unfoldable pub admit : TinyMempool → SignedTransaction → ℕ → TinyMempool
admit m tx now = record m {
  broadcast_queue = m.broadcast_queue ++ tx ∷ [];
  indexer = (m.indexer + u64_max) % u64_mod;
  address_pending_cnter = put tx.sender (hash_of tx) m.indexer m.address_pending_cnter;
  tx_lifetime_fields = insert (now % m.cfg.tx_lifetime_in_secs) m.indexer m.tx_lifetime_fields;
  txs = insert m.indexer tx m.txs;
}

unfoldable pub tx_take_broadcast : TinyMempool → TinyMempool × List SignedTransaction
tx_take_broadcast m = (record m { broadcast_queue = [] }, m.broadcast_queue)

-- The order of `sort_unstable_by`: the dearer gas price first, then the smaller nonce.
unfoldable pub goes_before : SignedTransaction → SignedTransaction → Bool
goes_before a b =
    let pa = gas_price a.transaction.unsigned in
    let pb = gas_price b.transaction.unsigned in
    if pa == pb
    then leb (nonce a.transaction.unsigned) (nonce b.transaction.unsigned)
    else ltb pb pa

unfoldable pub insert_sorted : SignedTransaction → List SignedTransaction → List SignedTransaction
insert_sorted tx [] = tx ∷ []
insert_sorted tx (u ∷ us) = if goes_before tx u then tx ∷ u ∷ us else u ∷ insert_sorted tx us

unfoldable pub sort : List SignedTransaction → List SignedTransaction
sort [] = []
sort (tx ∷ txs) = insert_sorted tx (sort txs)

unfoldable pub tx_take_propose : TinyMempool → ℕ → List SignedTransaction
tx_take_propose m limit = sort (take limit (reverse (values m.txs)))

-- One round of the loop of `tx_cleanup`.
unfoldable pub forget : TinyMempool → SignedTransaction → TinyMempool
forget m tx = elim (pending_in m.address_pending_cnter tx.sender (hash_of tx)) [
  | none ↦ m
  | some idx ↦ record m {
    address_pending_cnter = drop_entry tx.sender (hash_of tx) m.address_pending_cnter;
    txs = remove idx m.txs;
  }
]

unfoldable pub tx_cleanup : TinyMempool → List SignedTransaction → TinyMempool
tx_cleanup m [] = m
tx_cleanup m (tx ∷ txs) = tx_cleanup (forget m tx) txs

-- The last loop of a round of the cleaner.
unfoldable pub drop_entries : List SignedTransaction → PendingMap → PendingMap
drop_entries [] p = p
drop_entries (tx ∷ txs) p = drop_entries txs (drop_entry tx.sender (hash_of tx) p)

-- What a round of the cleaner does once the lifetime entries are split: `kept` stays, and the
-- newest of the discarded entries, if any, says from which index on transactions are dropped.
unfoldable pub discard : TinyMempool → Map ℕ → Option (ℕ × ℕ) → TinyMempool
discard m kept none = record m { tx_lifetime_fields = kept }
discard m kept (some (field, idx)) = record m {
  tx_lifetime_fields = kept;
  txs = below idx m.txs;
  address_pending_cnter = drop_entries (values (at_least idx m.txs)) m.address_pending_cnter;
}

-- One round of the cleaner thread at time `now`, where `try_lock` succeeds.
unfoldable pub clean : TinyMempool → ℕ → TinyMempool
clean m now =
    let guard = now % m.cfg.tx_lifetime_in_secs in
    if ltb guard 3
    then m
    else discard m (at_least (guard - 2) m.tx_lifetime_fields)
        (last (below (guard - 2) m.tx_lifetime_fields))

-- The gas part of `tx_pre_check`.
unfoldable pub check_gas : TinyMempool → SignedTransaction → Outcome (Unit {0})
check_gas m tx = do
  let price = gas_price tx.transaction.unsigned
  reject_if (price == 0) gas_price_zero
  reject_if (leb u64_max price) gas_price_limit
  let limit = gas_limit tx.transaction.unsigned
  reject_if (ltb limit min_transaction_gas_limit) gas_limit_low
  reject_if (ltb m.cfg.tx_gas_cap limit) gas_limit_high

-- The account part of `tx_pre_check`.
unfoldable pub check_account : SignedTransaction → Account → Outcome (Unit {0})
check_account tx acc = do
  reject_if (ltb (nonce tx.transaction.unsigned) acc.nonce) invalid_nonce
  reject_if
      (ltb acc.balance
        (saturating_mul (gas_price tx.transaction.unsigned) min_transaction_gas_limit))
      insufficient_balance

module _ ⦃ext : Externals⦄ where
  -- `!signature_checked && tx != &SignedTx::try_from(utx.clone()).c(d!())?`
  unfoldable pub check_signature : SignedTransaction → Bool → Outcome (Unit {0})
  check_signature tx true = ok tt
  check_signature tx false = do
    recovered ← try_from tx.transaction
    reject_if (not (decide (SignedTransaction-discrete tx recovered))) signature_failed

module _ ⦃ext : Externals⦄ ⦃tries : Tries⦄ ⦃tables : Tables⦄ ⦃caches : Caches⦄ where
  unfoldable pub tx_pre_check :
      tries.Store → FunStorage → TinyMempool → SignedTransaction → Bool → Outcome (Unit {0})
  tx_pre_check store s m tx signature_checked = do
    check_gas m tx
    check_hash tx.transaction
    check_signature tx signature_checked
    acc ← get_account_by_backend store s tx.sender none
    check_account tx acc
    known ← get_tx_by_hash s tx.transaction.hash
    reject_if (is_some known) historical_tx

  -- `ts!() % 0` panics.
  unfoldable pub tx_insert :
      tries.Store → FunStorage → TinyMempool → SignedTransaction → Bool → ℕ → Outcome TinyMempool
  tx_insert store s m tx signature_checked now = do
    reject_if (ltb m.cfg.capacity (tx_pending_cnt m none)) mempool_full
    reject_if (is_some (pending_in m.address_pending_cnter tx.sender (hash_of tx))) already_cached
    tx_pre_check store s m tx signature_checked
    if m.cfg.tx_lifetime_in_secs == 0 then panic else ok (admit m tx now)
