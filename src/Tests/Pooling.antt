-- ===== src/Tests/Pooling.antt =====
-- The pool at concrete values.
use Prim.Native.Nat.{min}
use mathlib.Core.List.{Perm}
use rt_evm.Common.{◌<◌, ◌≡◌, ◌⊎◌, refl, none, some, true, false, length, arith}
use rt_evm.Common.Map.{lookup}
use rt_evm.Common.Outcome.{ok, err, mempool_full, already_cached}
use rt_evm.Model.Transaction.{SignedTransaction, gas_price, gas_limit, nonce}
use rt_evm.Model.Transaction.Encode.{
  try_from, public_to_address, calc_hash, get_hash, encode, rlp_bytes, signature_hash, legacy_item,
  rlp_append,
}
use rt_evm.Store.Cached.{read, write, fresh}
use rt_evm.Storage.{
  new as new_storage, set_block, set_latest_block, get_latest_block, get_latest_block_header,
  get_tx_by_hash,
}
use rt_evm.Storage.Accounts.{get_account_by_backend, header_for, get_account_by_state, account_of}
use rt_evm.Model.Block.{mock}
use rt_evm.Mempool.{
  TinyMempool, new, admit, hash_of, tx_insert, tx_pre_check, tx_pending_cnt, tx_take_propose, clean,
}
use rt_evm.Mempool.Pending.{pending_in}
use rt_evm.Mempool.Invariant.{index_of}
use rt_evm.Mempool.PreCheck.{Passes, tx_pre_check_sound, tx_pre_check_complete}
use rt_evm.Mempool.History.{tx_insert_twice, inserts, here, next, Reach-new-IsValid}
use rt_evm.Mempool.Frames.{IsValid}
use rt_evm.Mempool.Propose.{IsOrdered, oldest, tx_take_propose_lem}
use rt_evm.Mempool.Lifetime.{clean-admit_drops}
use rt_evm.Tests.World.{tables, caches, tries, externals, evm, payment, sign, store, chain, funds}

abbrev pub pool : TinyMempool
pool = new 10 600 none 1

abbrev pub tx : SignedTransaction
tx = sign (payment 5)

abbrev pool_with_tx : TinyMempool
pool_with_tx = admit pool tx 100

checks : Passes store chain pool tx false
unfolding try_from public_to_address calc_hash get_hash encode rlp_bytes signature_hash rlp_append
    legacy_item get_account_by_backend header_for get_account_by_state account_of
    get_latest_block_header get_latest_block set_block set_latest_block new_storage mock
    get_tx_by_hash read write fresh new gas_price gas_limit nonce
checks = record {
  priced = omega arith;
  price_fits = omega arith;
  limit_enough = omega arith;
  limit_capped = omega arith;
  hashed = refl;
  authentic = refl;
  account = (funds, refl, record { nonce_reached = omega arith; covered = omega arith });
  unseen = refl;
}

pub passes : tx_pre_check store chain pool tx false ≡ ok tt
passes = tx_pre_check_complete store chain pool tx false checks

tx_pre_check_sound_example : Passes store chain pool tx false
tx_pre_check_sound_example = tx_pre_check_sound store chain pool tx false passes

inserted : tx_insert store chain pool tx false 100 ≡ ok pool_with_tx
unfolding tx_insert new tx_pending_cnt pending_in lookup
inserted = rw (passes) refl

tx_insert_twice_example :
    (index_of pool_with_tx tx.sender (hash_of tx) ≡ some pool.indexer)
    × ((tx_insert store chain pool_with_tx tx true 200 ≡ err mempool_full)
        ⊎ (tx_insert store chain pool_with_tx tx true 200 ≡ err already_cached))
tx_insert_twice_example =
    tx_insert_twice store chain pool tx false 100 pool_with_tx true 200 inserted

indexer_positive : 0 < pool.indexer
unfolding new
indexer_positive = omega arith

Reach-new-IsValid_example : IsValid pool_with_tx
Reach-new-IsValid_example =
    Reach-new-IsValid 10 600 none 1 pool_with_tx (omega arith)
      (next here (inserts store chain tx false 100 indexer_positive inserted))

-- The older of the two has the higher nonce.
abbrev pool_with_two : TinyMempool
pool_with_two = admit (admit pool (sign (payment 6)) 100) tx 101

tx_take_propose_lem_example :
    IsOrdered (tx_take_propose pool_with_two 3)
    × Perm (tx_take_propose pool_with_two 3) (oldest pool_with_two 3)
    × (length (tx_take_propose pool_with_two 3) ≡ min 3 (length pool_with_two.txs))
tx_take_propose_lem_example = tx_take_propose_lem pool_with_two 3

-- A transaction is dropped three seconds after its insertion, with a lifetime of 600 seconds.
clean-admit_drops_example : lookup pool.indexer (clean pool_with_tx 103).txs ≡ none
unfolding new
clean-admit_drops_example = clean-admit_drops pool tx 100 103 tt tt (omega arith)
