-- ===== src/Mempool/Cleaner.antt =====
-- A round of the cleaner thread of crates/mempool/src/lib.rs, and the entries that it removes.
use rt_evm.Common.{
  ℕ, suc, ◌%◌, ◌≤◌, ◌≡◌, refl, Hash, H160, Option, none, some, List, [], ◌∷◌, Bool, true, false,
  ◌&&◌, ◌||◌, if◌then◌else◌, ◌==◌, ltb, arith, inl, inr, Bool-cases,
}
use rt_evm.Common.Map.{
  Map, lookup, below, at_least, values, Ascends, lookup-below, lookup_below, below-Ascends,
}
use rt_evm.Model.Transaction.{SignedTransaction}
use rt_evm.Mempool.{TinyMempool, hash_of, drop_entries, discard, clean}
use rt_evm.Mempool.Pending.{
  PendingMap, pending_in, drop_entry, IsSorted, pending-drop_entry, drop_entry-IsSorted,
}
use rt_evm.Mempool.Invariant.{IsIndexed}

-- Some transaction of the list has this sender and this hash.
abbrev pub mentions : List SignedTransaction → H160 → Hash → Bool
mentions [] a h = false
mentions (tx ∷ txs) a h = ((tx.sender == a) && (hash_of tx == h)) || mentions txs a h

pending-drop_entries :
    (txs : List SignedTransaction) (p : PendingMap) (a : H160) (h : Hash)
    → IsSorted p
    → IsSorted (drop_entries txs p)
      × (pending_in (drop_entries txs p) a h
          ≡ (if mentions txs a h then none else pending_in p a h))
unfolding drop_entries
pending-drop_entries [] p a h s = (s, refl)
pending-drop_entries (tx ∷ txs) p a h s =
    let (sorted, reads) =
      pending-drop_entries txs (drop_entry tx.sender (hash_of tx) p) a h
        (drop_entry-IsSorted tx.sender (hash_of tx) p s) in
    (sorted, ground (arith, reads, pending-drop_entry tx.sender (hash_of tx) p a h s))

-- A transaction at an index from `k` on is among the values from `k` on.
mentions-at_least :
    (k j : ℕ) (m : Map SignedTransaction) (tx : SignedTransaction)
    → lookup j m ≡ some tx
    → k ≤ j
    → mentions (values (at_least k m)) tx.sender (hash_of tx) ≡ true
unfolding lookup at_least values
mentions-at_least k j [] tx e h = cc
mentions-at_least k j ((i, u) ∷ m) tx e h = ground (arith, mentions-at_least k j m tx)

abbrev Found : ℕ → Map SignedTransaction → H160 → Hash → Type 0
Found k m a h =
    (j : ℕ) × (tx : SignedTransaction) × (lookup j m ≡ some tx)
    × (k ≤ j)
    × (tx.sender ≡ a)
    × (hash_of tx ≡ h)

Found-cons :
    (k i : ℕ) (u : SignedTransaction) (m : Map SignedTransaction) (a : H160) (h : Hash)
    → Ascends (suc i) m
    → Found k m a h
    → Found k ((i, u) ∷ m) a h
unfolding lookup
Found-cons k i u m a h up (j, tx, e, le, sender, hash) =
    (j, tx, ground (arith, lookup_below j (suc i) m up), le, sender, hash)

-- And the values from `k` on stand at such indices.
at_least-mentions :
    (k lo : ℕ) (m : Map SignedTransaction) (a : H160) (h : Hash)
    → Ascends lo m
    → mentions (values (at_least k m)) a h ≡ true
    → Found k m a h
unfolding at_least values
at_least-mentions k lo [] a h up e = cc
at_least-mentions k lo ((i, u) ∷ m) a h up e = elim (Bool-cases (ltb i k)) [
  | inl under ↦ Found-cons k i u m a h up.1 (at_least-mentions k (suc i) m a h up.1 (ground arith))
  | inr over ↦ elim (Bool-cases ((u.sender == a) && (hash_of u == h))) [
    | inl same ↦ (i, u, unfold lookup in ground arith, ground arith, ground arith, ground arith)
    | inr other ↦
        Found-cons k i u m a h up.1 (at_least-mentions k (suc i) m a h up.1 (ground arith))
  ]
]

discard-IsIndexed :
    (m : TinyMempool) (kept : Map ℕ) (o : Option (ℕ × ℕ))
    → IsIndexed m
    → IsIndexed (discard m kept o)
unfolding discard
discard-IsIndexed m kept none v = record {
  txs_sorted = v.txs_sorted;
  entries_sorted = v.entries_sorted;
  fresh = v.fresh;
  listed = v.listed;
  held = v.held;
}
discard-IsIndexed m kept (some (field, idx)) v = record {
  txs_sorted = below-Ascends idx 0 m.txs v.txs_sorted;
  entries_sorted = (dropped 0 0).0;
  fresh = λ k tx e. ground (arith, lookup-below idx k m.txs, v.fresh k tx);
  listed = λ k tx e. elim (Bool-cases (mentions out tx.sender (hash_of tx))) [
    | inl hit ↦ absurd (clash k tx e hit)
    | inr miss ↦
        ground (arith, lookup-below idx k m.txs, v.listed k tx, dropped tx.sender (hash_of tx))
  ];
  held = λ a h k e.
      let (tx, found, sender, hash) = v.held a h k (ground (arith, dropped a h)) in
      (
        tx,
        ground
            (arith, lookup-below idx k m.txs, mentions-at_least idx k m.txs tx found, dropped a h),
        sender,
        hash,
      );
}
  where
    out : List SignedTransaction
    out = values (at_least idx m.txs)

    dropped :
        (a : H160) (h : Hash)
        → IsSorted (drop_entries out m.address_pending_cnter)
          × (pending_in (drop_entries out m.address_pending_cnter) a h
              ≡ (if mentions out a h then none else pending_in m.address_pending_cnter a h))
    dropped a h = pending-drop_entries out m.address_pending_cnter a h v.entries_sorted

    clash :
        (k : ℕ) (tx : SignedTransaction)
        → lookup k (below idx m.txs) ≡ some tx
        → mentions out tx.sender (hash_of tx) ≡ true
        → ⊥
    clash k tx e hit =
        let (j, u, found, le, sender, hash) =
          at_least-mentions idx 0 m.txs tx.sender (hash_of tx) v.txs_sorted hit in
        ground (arith, lookup-below idx k m.txs, v.listed k tx, v.listed j u found)

pub clean-IsIndexed : (m : TinyMempool) (now : ℕ) → IsIndexed m → IsIndexed (clean m now)
unfolding clean
clean-IsIndexed m now v = elim (Bool-cases (ltb (now % m.cfg.tx_lifetime_in_secs) 3)) [
  | inl e ↦ rw (clean, e) v
  | inr e ↦ rw (clean, e) (discard-IsIndexed m _ _ v)
]
