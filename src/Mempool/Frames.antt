-- ===== src/Mempool/Frames.antt =====
-- Pools within their capacity, and what clean-ups and the cleaner leave as it is.
use rt_evm.Common.{
  ℕ, ◌+◌, ◌%◌, ◌≤◌, ◌<◌, ◌≡◌, refl, ◌∙◌, Option, none, some, List, [], ◌∷◌, ltb, length, u64_mod,
  arith, Bool-cases, Option-cases, inl, inr,
}
use rt_evm.Common.Map.{Map, length-remove-le, length-below-le}
use rt_evm.Model.Transaction.{SignedTransaction}
use rt_evm.Mempool.{TinyMempool, hash_of, forget, tx_cleanup, discard, clean, tx_pending_cnt}
use rt_evm.Mempool.Invariant.{IsIndexed, index_of}

-- The pool is indexed, and at most one transaction over its capacity.
pub record IsValid (m : TinyMempool) : Type 0 where
  pub indexed : IsIndexed m
  pub counter_fits : m.indexer < u64_mod
  pub bounded : tx_pending_cnt m none ≤ m.cfg.capacity + 1

length-forget : (m : TinyMempool) (tx : SignedTransaction) → length (forget m tx).txs ≤ length m.txs
unfolding forget
length-forget m tx = elim (Option-cases (index_of m tx.sender (hash_of tx))) [
  | inl e ↦ rw (forget, e) (omega arith)
  | inr (idx, e) ↦ rw (forget, e) (length-remove-le idx m.txs)
]

-- What `forget` and `tx_cleanup` leave alone.
forget_frame :
    (m : TinyMempool) (tx : SignedTransaction)
    → ((forget m tx).cfg ≡ m.cfg) × ((forget m tx).indexer ≡ m.indexer)
unfolding forget
forget_frame m tx = elim (Option-cases (index_of m tx.sender (hash_of tx))) [
  | inl e ↦ rw (forget, e) (refl, refl)
  | inr (idx, e) ↦ rw (forget, e) (refl, refl)
]

pub tx_cleanup_frame :
    (txs : List SignedTransaction) (m : TinyMempool)
    → ((tx_cleanup m txs).cfg ≡ m.cfg)
      × ((tx_cleanup m txs).indexer ≡ m.indexer)
      × (length (tx_cleanup m txs).txs ≤ length m.txs)
unfolding tx_cleanup
tx_cleanup_frame [] m = (refl, refl, omega arith)
tx_cleanup_frame (tx ∷ txs) m =
    let (cfg, indexer, shorter) = tx_cleanup_frame txs (forget m tx) in
    let (cfg', indexer') = forget_frame m tx in
    (cfg ∙ cfg', indexer ∙ indexer', omega (arith, length-forget m tx))

discard_frame :
    (m : TinyMempool) (kept : Map ℕ) (o : Option (ℕ × ℕ))
    → ((discard m kept o).cfg ≡ m.cfg)
      × ((discard m kept o).indexer ≡ m.indexer)
      × (length (discard m kept o).txs ≤ length m.txs)
unfolding discard
discard_frame m kept none = (refl, refl, omega arith)
discard_frame m kept (some (f, idx)) = (refl, refl, length-below-le idx m.txs)

pub clean_frame :
    (m : TinyMempool) (now : ℕ)
    → ((clean m now).cfg ≡ m.cfg)
      × ((clean m now).indexer ≡ m.indexer)
      × (length (clean m now).txs ≤ length m.txs)
unfolding clean
clean_frame m now = elim (Bool-cases (ltb (now % m.cfg.tx_lifetime_in_secs) 3)) [
  | inl e ↦ rw (clean, e) (refl, refl, omega arith)
  | inr e ↦ rw (clean, e) (discard_frame m _ _)
]
