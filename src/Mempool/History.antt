-- ===== src/Mempool/History.antt =====
-- Histories of the pool: any sequence of insertions, broadcasts, clean-ups after a block and rounds
-- of the cleaner.
use rt_evm.Common.{
  ℕ, ◌≤◌, ◌<◌, ◌≡◌, refl, ap, Option, none, some, List, Bool, true, false, is_some, if◌then◌else◌,
  ltb, ◌==◌, length, u64_mod, ◌⊎◌, arith, Bool-cases, Option-cases, inl, inr, ltb→le,
}
use rt_evm.Common.Outcome.{ok, err, panic, already_cached, mempool_full, reject_if-eq-ok, >>-eq-ok}
use rt_evm.Common.Map.{lookup, length-insert}
use rt_evm.Model.Rlp.{Externals}
use rt_evm.Model.Transaction.{SignedTransaction}
use rt_evm.Store.Table.{Tables}
use rt_evm.Store.Cache.{Caches}
use rt_evm.Store.Trie.{Tries}
use rt_evm.Storage.{FunStorage}
use rt_evm.Mempool.{
  TinyMempool, hash_of, new, admit, tx_cleanup, clean, tx_insert, tx_pre_check, tx_pending_cnt,
  tx_take_broadcast,
}
use rt_evm.Mempool.Pending.{pending-put}
use rt_evm.Mempool.Invariant.{
  IsIndexed, index_of, new-IsIndexed, admit-IsIndexed, tx_cleanup-IsIndexed,
}
use rt_evm.Mempool.Cleaner.{clean-IsIndexed}
use rt_evm.Mempool.Frames.{IsValid, tx_cleanup_frame, clean_frame}

module _ ⦃ext : Externals⦄ ⦃tries : Tries⦄ ⦃tables : Tables⦄ ⦃caches : Caches⦄ where
  pub record Inserted (store : tries.Store) (s : FunStorage) (m : TinyMempool)
      (tx : SignedTransaction) (checked : Bool) (now : ℕ) (m' : TinyMempool) : Type 0 where
    pub room : tx_pending_cnt m none ≤ m.cfg.capacity
    pub absent : index_of m tx.sender (hash_of tx) ≡ none
    pub passed : tx_pre_check store s m tx checked ≡ ok tt
    pub admitted : m' ≡ admit m tx now

  -- A transaction is inserted only if the pool was not over its capacity, had no transaction of that
  -- sender and hash, and the pre-check passed.
  pub tx_insert_sound :
      (store : tries.Store) (s : FunStorage) (m : TinyMempool) (tx : SignedTransaction)
      (checked : Bool) (now : ℕ) (m' : TinyMempool)
      → tx_insert store s m tx checked now ≡ ok m'
      → Inserted store s m tx checked now m'
  unfolding tx_insert
  tx_insert_sound store s m tx checked now m' h =
      let (room, h₁) = reject_if-eq-ok _ _ _ h in
      let (absent, h₂) = reject_if-eq-ok _ _ _ h₁ in
      let (passed, h₃) = >>-eq-ok (tx_pre_check store s m tx checked) _ h₂ in
      record {
        room = ltb→le m.cfg.capacity (tx_pending_cnt m none) room;
        absent = not_some (index_of m tx.sender (hash_of tx)) absent;
        passed = passed;
        admitted = finished (m.cfg.tx_lifetime_in_secs == 0) h₃;
      }
    where
      not_some : (o : Option ℕ) → is_some o ≡ false → o ≡ none
      not_some none e = refl
      not_some (some k) e = cc

      finished :
          (b : Bool) → (if b then panic else ok (admit m tx now)) ≡ ok m' → m' ≡ admit m tx now
      finished true e = cc
      finished false e = cc

  -- One call on the pool, or a round of its cleaner. Fewer than 2 ^ 64 - 1 transactions were inserted
  -- before an insertion, so that the index counter has not wrapped.
  pub data Step (m : TinyMempool) : TinyMempool → Type 0 where
    inserts :
        (store : tries.Store) (s : FunStorage) (tx : SignedTransaction) (checked : Bool) (now : ℕ)
        {m' : TinyMempool}
        → 0 < m.indexer
        → tx_insert store s m tx checked now ≡ ok m'
        → Step m m'
    broadcasts : Step m (tx_take_broadcast m).0
    cleans_up : (txs : List SignedTransaction) → Step m (tx_cleanup m txs)
    cleans : (now : ℕ) → Step m (clean m now)

  pub data Reach (m : TinyMempool) : TinyMempool → Type 0 where
    here : Reach m m
    next : {n o : TinyMempool} → Reach m n → Step n o → Reach m o

  admit-IsValid :
      (m : TinyMempool) (tx : SignedTransaction) (now : ℕ)
      → IsValid m
      → tx_pending_cnt m none ≤ m.cfg.capacity
      → index_of m tx.sender (hash_of tx) ≡ none
      → 0 < m.indexer
      → IsValid (admit m tx now)
  unfolding admit tx_pending_cnt
  admit-IsValid m tx now v room absent pos = record {
    indexed = admit-IsIndexed m tx now v.indexed absent pos v.counter_fits;
    counter_fits = omega arith;
    bounded = omega (arith, length-insert m.indexer tx m.txs unused);
  }
    where
      unused : lookup m.indexer m.txs ≡ none
      unused = elim (Option-cases (lookup m.indexer m.txs)) [
        | inl e ↦ e
        | inr (u, e) ↦ absurd (omega (arith, v.indexed.fresh m.indexer u e))
      ]

  shrunk-IsValid :
      (m n : TinyMempool)
      → IsValid m
      → IsIndexed n
      → n.cfg ≡ m.cfg
      → n.indexer ≡ m.indexer
      → length n.txs ≤ length m.txs
      → IsValid n
  unfolding tx_pending_cnt
  shrunk-IsValid m n v indexed cfg indexer shorter = record {
    indexed = indexed;
    counter_fits = rw indexer v.counter_fits;
    bounded = omega (arith, ap (λ c. c.capacity) cfg, v.bounded);
  }

  taken-IsValid : (m : TinyMempool) → IsValid m → IsValid (tx_take_broadcast m).0
  unfolding tx_take_broadcast tx_pending_cnt
  taken-IsValid m v = record {
    indexed = record {
      txs_sorted = v.indexed.txs_sorted;
      entries_sorted = v.indexed.entries_sorted;
      fresh = v.indexed.fresh;
      listed = v.indexed.listed;
      held = v.indexed.held;
    };
    counter_fits = v.counter_fits;
    bounded = v.bounded;
  }

  -- Every call and every round of the cleaner keeps the pool valid: its two views agree, the
  -- indices stay distinct, and it holds at most one transaction more than its capacity.
  pub Step-IsValid : {m n : TinyMempool} → Step m n → IsValid m → IsValid n
  Step-IsValid {m} (inserts store s tx checked now {m'} pos h) v =
      let i = tx_insert_sound store s m tx checked now m' h in
      rw i.admitted (admit-IsValid m tx now v i.room i.absent pos)
  Step-IsValid {m} broadcasts v = taken-IsValid m v
  Step-IsValid {m} (cleans_up txs) v =
      let (cfg, indexer, shorter) = tx_cleanup_frame txs m in
      shrunk-IsValid m (tx_cleanup m txs) v (tx_cleanup-IsIndexed txs m v.indexed) cfg indexer
        shorter
  Step-IsValid {m} (cleans now) v =
      let (cfg, indexer, shorter) = clean_frame m now in
      shrunk-IsValid m (clean m now) v (clean-IsIndexed m now v.indexed) cfg indexer shorter

  new-IsValid :
      (capacity lifetime : ℕ) (cap : Option ℕ) (i : ℕ)
      → i < u64_mod
      → IsValid (new capacity lifetime cap i)
  unfolding new tx_pending_cnt
  new-IsValid capacity lifetime cap i h = record {
    indexed = new-IsIndexed capacity lifetime cap i;
    counter_fits = h;
    bounded = omega arith;
  }

  Reach-IsValid : {m n : TinyMempool} → Reach m n → IsValid m → IsValid n
  Reach-IsValid here v = v
  Reach-IsValid (next r st) v = Step-IsValid st (Reach-IsValid r v)

  -- A pool with any history from a new one, of any capacity, is valid.
  pub Reach-new-IsValid :
      (capacity lifetime : ℕ) (cap : Option ℕ) (i : ℕ) (m : TinyMempool)
      → i < u64_mod
      → Reach (new capacity lifetime cap i) m
      → IsValid m
  Reach-new-IsValid capacity lifetime cap i m h r =
      Reach-IsValid r (new-IsValid capacity lifetime cap i h)

  admitted_entry :
      (m : TinyMempool) (tx : SignedTransaction) (now : ℕ)
      → index_of (admit m tx now) tx.sender (hash_of tx) ≡ some m.indexer
  unfolding admit
  admitted_entry m tx now = ground (
    arith,
    pending-put tx.sender (hash_of tx) m.indexer m.address_pending_cnter tx.sender (hash_of tx),
  )

  -- A transaction that was inserted is counted for its sender, and is refused when it is inserted
  -- again, at any time, under either state of the signature check.
  pub tx_insert_twice :
      (store : tries.Store) (s : FunStorage) (m : TinyMempool) (tx : SignedTransaction)
      (checked : Bool) (now : ℕ) (m' : TinyMempool) (again : Bool) (later : ℕ)
      → tx_insert store s m tx checked now ≡ ok m'
      → (index_of m' tx.sender (hash_of tx) ≡ some m.indexer)
        × ((tx_insert store s m' tx again later ≡ err mempool_full)
            ⊎ (tx_insert store s m' tx again later ≡ err already_cached))
  tx_insert_twice store s m tx checked now m' again later h =
      let i = tx_insert_sound store s m tx checked now m' h in
      let entry : index_of m' tx.sender (hash_of tx) ≡ some m.indexer =
        rw i.admitted (admitted_entry m tx now) in
      (
        entry,
        elim (Bool-cases (ltb m'.cfg.capacity (tx_pending_cnt m' none))) [
          | inl full ↦ inl (unfold tx_insert in rw full)
          | inr room ↦ inr (unfold tx_insert in rw (room, entry))
        ],
      )
