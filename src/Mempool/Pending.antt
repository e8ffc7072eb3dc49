-- ===== src/Mempool/Pending.antt =====
-- `address_pending_cnter`: for each sender a map from transaction hashes to indices.
use rt_evm.Common.{
  ℕ, ◌≡◌, refl, Option, none, some, ◌&&◌, if◌then◌else◌, ◌==◌, unwrap_or, [], arith, Hash, H160,
  Option-cases, Bool-cases, subst, inl, inr,
}
use rt_evm.Common.Map.{
  Map, lookup, insert, remove, Ascends, lookup-insert, lookup-remove, insert-Ascends,
  remove-Ascends,
}

abbrev pub PendingMap : Type 0
PendingMap = Map (Map ℕ)

-- `.get(&sender).and_then(|m| m.get(&hash))`
unfoldable pub pending_in : PendingMap → H160 → Hash → Option ℕ
pending_in p a h = elim (lookup a p) [ none ↦ none | some i ↦ lookup h i ]

-- `.entry(sender).or_insert(map! {}).insert(hash, idx)`
unfoldable pub put : H160 → Hash → ℕ → PendingMap → PendingMap
put a h k p = insert a (insert h k (unwrap_or (lookup a p) [])) p

-- `if let Some(i) = p.get_mut(&sender) { i.remove(&hash); }`
unfoldable pub drop_entry : H160 → Hash → PendingMap → PendingMap
drop_entry a h p = elim (lookup a p) [ none ↦ p | some i ↦ insert a (remove h i) p ]

pub record IsSorted (p : PendingMap) : Type 0 where
  pub senders : Ascends 0 p
  pub hashes : (a : H160) (i : Map ℕ) → lookup a p ≡ some i → Ascends 0 i

lookup-nil {ℓ} : {V : Type ℓ} (k : ℕ) → lookup {V = V} k [] ≡ none
unfolding lookup
lookup-nil k = refl

pub pending-put :
    (a : H160) (h : Hash) (k : ℕ) (p : PendingMap) (b : H160) (g : Hash)
    → pending_in (put a h k p) b g ≡ (if (a == b) && (h == g) then some k else pending_in p b g)
unfolding pending_in put
pending-put a h k p b g = ground (
  arith,
  lookup-insert a b (insert h k (unwrap_or (lookup a p) [])) p,
  lookup-insert h g k (unwrap_or (lookup a p) []),
  lookup-nil {V = ℕ} g,
)

pub pending-drop_entry :
    (a : H160) (h : Hash) (p : PendingMap) (b : H160) (g : Hash)
    → IsSorted p
    → pending_in (drop_entry a h p) b g ≡ (if (a == b) && (h == g) then none else pending_in p b g)
unfolding pending_in drop_entry
pending-drop_entry a h p b g s = elim (Option-cases (lookup a p)) [
  | inl e ↦ ground arith
  | inr (i, e) ↦
      ground (arith, lookup-insert a b (remove h i) p, lookup-remove h g 0 i (s.hashes a i e))
]

own-Ascends : (a : H160) (p : PendingMap) → IsSorted p → Ascends 0 (unwrap_or (lookup a p) [])
own-Ascends a p s = elim (Option-cases (lookup a p)) [
  | inl e ↦ rw e tt
  | inr (i, e) ↦ rw e (s.hashes a i e)
]

insert-IsSorted :
    (a : H160) (j : Map ℕ) (p : PendingMap) → Ascends 0 j → IsSorted p → IsSorted (insert a j p)
insert-IsSorted a j p up s = record {
  senders = insert-Ascends a 0 j p (omega arith) s.senders;
  hashes = λ b i e. elim (Bool-cases (a == b)) [
    | inl same ↦ let eq : j ≡ i = ground (arith, lookup-insert a b j p) in subst (Ascends 0) eq up
    | inr other ↦ s.hashes b i (ground (arith, lookup-insert a b j p))
  ];
}

pub put-IsSorted :
    (a : H160) (h : Hash) (k : ℕ) (p : PendingMap) → IsSorted p → IsSorted (put a h k p)
unfolding put
put-IsSorted a h k p s =
    insert-IsSorted a (insert h k (unwrap_or (lookup a p) [])) p
      (insert-Ascends h 0 k (unwrap_or (lookup a p) []) (omega arith) (own-Ascends a p s)) s

pub drop_entry-IsSorted :
    (a : H160) (h : Hash) (p : PendingMap) → IsSorted p → IsSorted (drop_entry a h p)
unfolding drop_entry
drop_entry-IsSorted a h p s = elim (Option-cases (lookup a p)) [
  | inl e ↦ rw (drop_entry, e) s
  | inr (i, e) ↦
      rw (drop_entry, e)
        (insert-IsSorted a (remove h i) p (remove-Ascends h 0 i (s.hashes a i e)) s)
]
