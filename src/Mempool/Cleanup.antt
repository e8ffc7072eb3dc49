-- ===== src/Mempool/Cleanup.antt =====
-- What `tx_cleanup` removes after a block: the entries of the given transactions, and with them the
-- transactions.
use rt_evm.Common.{
  ◌≡◌, refl, Hash, H160, none, List, [], ◌∷◌, ◌&&◌, if◌then◌else◌, ◌==◌, arith, inl, inr,
  Option-cases,
}
use rt_evm.Model.Transaction.{SignedTransaction}
use rt_evm.Mempool.{TinyMempool, hash_of, forget, tx_cleanup}
use rt_evm.Mempool.Pending.{pending-drop_entry}
use rt_evm.Mempool.Invariant.{IsIndexed, index_of, forget-IsIndexed}
use rt_evm.Mempool.Cleaner.{mentions}

index_of-forget :
    (m : TinyMempool) (tx : SignedTransaction) (a : H160) (h : Hash)
    → IsIndexed m
    → index_of (forget m tx) a h
      ≡ (if (tx.sender == a) && (hash_of tx == h) then none else index_of m a h)
unfolding forget
index_of-forget m tx a h v = elim (Option-cases (index_of m tx.sender (hash_of tx))) [
  | inl e ↦ rw (forget, e) (ground (arith, e))
  | inr (idx, e) ↦
      rw (forget, e)
        (pending-drop_entry tx.sender (hash_of tx) m.address_pending_cnter a h v.entries_sorted)
]

-- After the clean-up the pool has no entry for a sender and hash of the given transactions, and the
-- entries for all other senders and hashes are as before.
pub tx_cleanup_entries :
    (txs : List SignedTransaction) (m : TinyMempool) (a : H160) (h : Hash)
    → IsIndexed m
    → index_of (tx_cleanup m txs) a h ≡ (if mentions txs a h then none else index_of m a h)
unfolding tx_cleanup
tx_cleanup_entries [] m a h v = refl
tx_cleanup_entries (tx ∷ txs) m a h v = ground (
  arith,
  tx_cleanup_entries txs (forget m tx) a h (forget-IsIndexed m tx v),
  index_of-forget m tx a h v,
)
