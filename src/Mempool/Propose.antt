-- ===== src/Mempool/Propose.antt =====
-- The transactions that `tx_take_propose` hands to a proposer.
use mathlib.Core.List.{Perm, reverse}
use mathlib.Core.List.Perm
use rt_evm.Common.{
  ℕ, ◌≡◌, ◌<◌, ◌≤◌, ◌⊎◌, refl, ◌∙◌, ap, min, List, [], ◌∷◌, true, false, length, length-take,
  length-reverse, take, All, arith, Bool-cases, inl, inr, suc,
}
use rt_evm.Common.Map.{values, length-values}
use rt_evm.Model.Transaction.{SignedTransaction, gas_price, nonce}
use rt_evm.Mempool.{TinyMempool, goes_before, insert_sorted, sort, tx_take_propose}

-- The first pays a higher gas price, or the same price with a nonce that is not higher.
abbrev pub Precedes : SignedTransaction → SignedTransaction → Type 0
Precedes a b =
    let t = a.transaction.unsigned in
    let u = b.transaction.unsigned in
    (gas_price u < gas_price t) ⊎ ((gas_price t ≡ gas_price u) × (nonce t ≤ nonce u))

-- Each transaction precedes all that follow.
abbrev pub IsOrdered : List SignedTransaction → Type 0
IsOrdered [] = Unit {0}
IsOrdered (tx ∷ txs) = All (λ u. Precedes tx u) txs × IsOrdered txs

-- The longest index from the top: the oldest transactions first, `limit` of them.
abbrev pub oldest : TinyMempool → ℕ → List SignedTransaction
oldest m limit = take limit (reverse (values m.txs))

goes_before-Precedes : (a b : SignedTransaction) → goes_before a b ≡ true → Precedes a b
unfolding goes_before
goes_before-Precedes a b h = ground (arith, h)

-- Otherwise the other one precedes.
goes_before-false : (a b : SignedTransaction) → goes_before a b ≡ false → Precedes b a
unfolding goes_before
goes_before-false a b h = ground (arith, h)

Precedes-trans : (a b c : SignedTransaction) → Precedes a b → Precedes b c → Precedes a c
Precedes-trans a b c h k = ground (arith, h, k)

All-Precedes :
    (a b : SignedTransaction) (us : List SignedTransaction)
    → Precedes a b
    → All (λ u. Precedes b u) us
    → All (λ u. Precedes a u) us
All-Precedes a b [] h k = tt
All-Precedes a b (u ∷ us) h (k, ks) = (Precedes-trans a b u h k, All-Precedes a b us h ks)

All-insert_sorted :
    (a b : SignedTransaction) (us : List SignedTransaction)
    → Precedes a b
    → All (λ u. Precedes a u) us
    → All (λ u. Precedes a u) (insert_sorted b us)
unfolding insert_sorted
All-insert_sorted a b [] h k = (h, tt)
All-insert_sorted a b (u ∷ us) h (k, ks) = elim (Bool-cases (goes_before b u)) [
  | inl e ↦ rw e (h, (k, ks))
  | inr e ↦ rw e (k, All-insert_sorted a b us h ks)
]

insert_sorted-IsOrdered :
    (tx : SignedTransaction) (us : List SignedTransaction)
    → IsOrdered us
    → IsOrdered (insert_sorted tx us)
unfolding insert_sorted
insert_sorted-IsOrdered tx [] o = (tt, tt)
insert_sorted-IsOrdered tx (u ∷ us) (first, o) = elim (Bool-cases (goes_before tx u)) [
  | inl e ↦ rw e (
      let before = goes_before-Precedes tx u e in
      ((before, All-Precedes tx u us before first), (first, o)))
  | inr e ↦
      rw e (
        All-insert_sorted u tx us (goes_before-false tx u e) first,
        insert_sorted-IsOrdered tx us o,
      )
]

insert_sorted-perm :
    (tx : SignedTransaction) (us : List SignedTransaction) → Perm (insert_sorted tx us) (tx ∷ us)
unfolding insert_sorted
insert_sorted-perm tx [] = Perm.refl (tx ∷ [])
insert_sorted-perm tx (u ∷ us) = elim (Bool-cases (goes_before tx u)) [
  | inl e ↦ rw e (Perm.refl (tx ∷ u ∷ us))
  | inr e ↦ rw e (Perm.trans (Perm.cons u (insert_sorted-perm tx us)) (Perm.swap tx u us))
]

sort-IsOrdered : (us : List SignedTransaction) → IsOrdered (sort us)
unfolding sort
sort-IsOrdered [] = tt
sort-IsOrdered (u ∷ us) = insert_sorted-IsOrdered u (sort us) (sort-IsOrdered us)

sort-perm : (us : List SignedTransaction) → Perm (sort us) us
unfolding sort
sort-perm [] = Perm.refl []
sort-perm (u ∷ us) = Perm.trans (insert_sorted-perm u (sort us)) (Perm.cons u (sort-perm us))

length-insert_sorted :
    (tx : SignedTransaction) (us : List SignedTransaction)
    → length (insert_sorted tx us) ≡ suc (length us)
unfolding insert_sorted
length-insert_sorted tx [] = refl
length-insert_sorted tx (u ∷ us) = ground (arith, length-insert_sorted tx us)

length-sort : (us : List SignedTransaction) → length (sort us) ≡ length us
unfolding sort
length-sort [] = refl
length-sort (u ∷ us) = length-insert_sorted u (sort us) ∙ ap suc (length-sort us)

-- A proposal holds exactly the oldest transactions of the pool, at most `limit`, each of them once,
-- and each of them pays a higher gas price than every one that follows, or the same with a nonce that
-- is not higher.
pub tx_take_propose_lem :
    (m : TinyMempool) (limit : ℕ)
    → IsOrdered (tx_take_propose m limit)
      × Perm (tx_take_propose m limit) (oldest m limit)
      × (length (tx_take_propose m limit) ≡ min limit (length m.txs))
unfolding tx_take_propose
tx_take_propose_lem m limit = (
  sort-IsOrdered (oldest m limit),
  sort-perm (oldest m limit),
  length-sort (oldest m limit)
      ∙ length-take limit (reverse (values m.txs))
      ∙ ap (min limit) (length-reverse (values m.txs) ∙ length-values m.txs),
)
