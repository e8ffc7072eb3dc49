-- ===== src/Mempool/Invariant.antt =====
-- The two views of a pool, the transactions by index and the indices by sender and hash, and the
-- invariant that relates them.
use rt_evm.Common.{
  ℕ, ◌<◌, ◌≡◌, refl, Hash, H160, u64_mod, Option, none, some, List, [], ◌∷◌, ◌&&◌, if◌then◌else◌,
  ◌==◌, arith, inl, inr, Option-cases, Bool-cases,
}
use rt_evm.Common.Map.{
  lookup, remove, Ascends, lookup-insert, lookup-remove, insert-Ascends, remove-Ascends,
}
use rt_evm.Model.Transaction.{SignedTransaction}
use rt_evm.Mempool.{TinyMempool, hash_of, new, admit, forget, tx_cleanup}
use rt_evm.Mempool.Pending.{
  pending_in, put, drop_entry, IsSorted, pending-put, pending-drop_entry, put-IsSorted,
  drop_entry-IsSorted,
}

-- The index that the pool has for a sender and a hash.
abbrev pub index_of : TinyMempool → H160 → Hash → Option ℕ
index_of m a h = pending_in m.address_pending_cnter a h

abbrev pub Held : TinyMempool → H160 → Hash → ℕ → Type 0
Held m a h k =
    (tx : SignedTransaction) × (lookup k m.txs ≡ some tx) × (tx.sender ≡ a) × (hash_of tx ≡ h)

-- Both maps are sorted; every transaction has an index above the counter, and the entry of its
-- sender and hash is that index; every entry leads to a transaction of that sender and hash.
pub record IsIndexed (m : TinyMempool) : Type 0 where
  pub txs_sorted : Ascends 0 m.txs
  pub entries_sorted : IsSorted m.address_pending_cnter
  pub fresh : (k : ℕ) (tx : SignedTransaction) → lookup k m.txs ≡ some tx → m.indexer < k
  pub listed :
      (k : ℕ) (tx : SignedTransaction)
      → lookup k m.txs ≡ some tx
      → index_of m tx.sender (hash_of tx) ≡ some k
  pub held : (a : H160) (h : Hash) (k : ℕ) → index_of m a h ≡ some k → Held m a h k

lookup-nil {ℓ} : {V : Type ℓ} (k : ℕ) → lookup {V = V} k [] ≡ none
unfolding lookup
lookup-nil k = refl

pub new-IsIndexed :
    (capacity lifetime : ℕ) (cap : Option ℕ) (i : ℕ) → IsIndexed (new capacity lifetime cap i)
unfolding new pending_in lookup
new-IsIndexed capacity lifetime cap i = record {
  txs_sorted = tt;
  entries_sorted = record { senders = tt; hashes = λ a j e. cc };
  fresh = λ k tx e. cc;
  listed = λ k tx e. cc;
  held = λ a h k e. absurd (ground arith);
}

pub admit-IsIndexed :
    (m : TinyMempool) (tx : SignedTransaction) (now : ℕ)
    → IsIndexed m
    → index_of m tx.sender (hash_of tx) ≡ none
    → 0 < m.indexer
    → m.indexer < u64_mod
    → IsIndexed (admit m tx now)
unfolding admit
admit-IsIndexed m tx now v absent pos small = record {
  txs_sorted = insert-Ascends m.indexer 0 tx m.txs (omega arith) v.txs_sorted;
  entries_sorted =
      put-IsSorted tx.sender (hash_of tx) m.indexer m.address_pending_cnter v.entries_sorted;
  fresh = λ k u e. ground (arith, lookup-insert m.indexer k tx m.txs, v.fresh k u);
  listed = λ k u e.
      ground (arith, lookup-insert m.indexer k tx m.txs, entry u.sender (hash_of u), v.listed k u);
  held = λ a h k e. held_after a h k e;
}
  where
    entry :
        (a : H160) (h : Hash)
        → pending_in (put tx.sender (hash_of tx) m.indexer m.address_pending_cnter) a h
          ≡ (if (tx.sender == a) && (hash_of tx == h) then some m.indexer else index_of m a h)
    entry a h = pending-put tx.sender (hash_of tx) m.indexer m.address_pending_cnter a h

    held_after :
        (a : H160) (h : Hash) (k : ℕ)
        → pending_in (put tx.sender (hash_of tx) m.indexer m.address_pending_cnter) a h ≡ some k
        → Held (admit m tx now) a h k
    held_after a h k e = elim (Bool-cases ((tx.sender == a) && (hash_of tx == h))) [
      | inl same ↦ (
        tx,
        ground (arith, entry a h, lookup-insert m.indexer k tx m.txs),
        ground arith,
        ground arith,
      )
      | inr other ↦
          let (u, found, su, hu) = v.held a h k (ground (arith, entry a h)) in
          (u, ground (arith, v.fresh k u found, lookup-insert m.indexer k tx m.txs), su, hu)
    ]

pub forget-IsIndexed :
    (m : TinyMempool) (tx : SignedTransaction) → IsIndexed m → IsIndexed (forget m tx)
unfolding forget
forget-IsIndexed m tx v = elim (Option-cases (index_of m tx.sender (hash_of tx))) [
  | inl e ↦ rw (forget, e) v
  | inr (idx, e) ↦
      rw (forget, e)
        (record {
          txs_sorted = remove-Ascends idx 0 m.txs v.txs_sorted;
          entries_sorted =
              drop_entry-IsSorted tx.sender (hash_of tx) m.address_pending_cnter v.entries_sorted;
          fresh = λ k u f. ground (arith, gone idx k, v.fresh k u);
          listed = λ k u f. ground (arith, gone idx k, v.listed k u, entry u.sender (hash_of u));
          held = λ a h k f.
              let (u, found, su, hu) = v.held a h k (ground (arith, entry a h)) in
              let (w, own, sw, hw) = v.held tx.sender (hash_of tx) idx e in
              (u, ground (arith, gone idx k, entry a h), su, hu);
        })
]
  where
    gone : (idx k : ℕ) → lookup k (remove idx m.txs) ≡ (if idx == k then none else lookup k m.txs)
    gone idx k = lookup-remove idx k 0 m.txs v.txs_sorted

    entry :
        (a : H160) (h : Hash)
        → pending_in (drop_entry tx.sender (hash_of tx) m.address_pending_cnter) a h
          ≡ (if (tx.sender == a) && (hash_of tx == h) then none else index_of m a h)
    entry a h =
        pending-drop_entry tx.sender (hash_of tx) m.address_pending_cnter a h v.entries_sorted

pub tx_cleanup-IsIndexed :
    (txs : List SignedTransaction) (m : TinyMempool) → IsIndexed m → IsIndexed (tx_cleanup m txs)
unfolding tx_cleanup
tx_cleanup-IsIndexed [] m v = v
tx_cleanup-IsIndexed (tx ∷ txs) m v =
    tx_cleanup-IsIndexed txs (forget m tx) (forget-IsIndexed m tx v)
