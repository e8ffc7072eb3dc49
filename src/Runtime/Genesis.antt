-- ===== src/Runtime/Genesis.antt =====
-- The balances that a new node gives out.
use rt_evm.Common.{
  ◌+◌, min, U256, u256_max, ℕ, suc, ◌<◌, ◌^◌, ◌≡◌, refl, sym, ap, ◌∙◌, subst, arith, H160, Option,
  none, some, List, [], ◌∷◌, map, Bool, true, false, ◌&&◌, if◌then◌else◌, ◌==◌, ==→eq, Bool-cases,
  inl, inr, All,
}
use rt_evm.Common.Map.{
  Map, lookup, insert, values, Ascends, lookup-insert, lookup_below, insert-Ascends,
}
use rt_evm.Common.Outcome.{Outcome, ok, err, panic, ◌>>=◌}
use rt_evm.Model.Rlp.{Externals, Account}
use rt_evm.Store.Table.{Tables}
use rt_evm.Store.Cache.{Caches}
use rt_evm.Store.Trie.{Tries, TrieLaws}
use rt_evm.Executor.Adapter.{
  Adapter, Basic, Apply, modify, apply, apply_one, apply_values, erase, basic as basic_at,
}
use rt_evm.Executor.Adapter.Replay.{replay, address_of, apply_values-replay}
use rt_evm.Runtime.{TokenDistributon, basic, entry_of, collect, grant, apply_grants}

-- What the distributions to one address make of an earlier one, in their order.
abbrev share : H160 → Option TokenDistributon → List TokenDistributon → Option TokenDistributon
share a before [] = before
share a before (td ∷ tds) =
    share a (if td.address == a then some (entry_of before td) else before) tds

-- What an address has after a distribution to it, or had before.
abbrev given : Option TokenDistributon → Basic → Basic
given none before = before
given (some td) before = basic td

-- The balance that the distributions to one address make: the first amount, and each later one on top,
-- unless it equals the sum so far. A sum stops at the largest `U256`.
abbrev added : Option U256 → U256 → U256
added none amount = amount
added (some sum) amount = if amount == sum then sum else min (sum + amount) u256_max

abbrev pub total : H160 → Option U256 → List TokenDistributon → Option U256
total a sum [] = sum
total a sum (td ∷ tds) = total a (if td.address == a then some (added sum td.amount) else sum) tds

-- What an address has with a balance of its own and no transaction, or what it had before.
abbrev pub with_balance : Option U256 → Basic → Basic
with_balance none before = before
with_balance (some sum) before = record { balance = sum; nonce = 0 }

amount_of : Option TokenDistributon → Option U256
amount_of none = none
amount_of (some td) = some td.amount

entry_of-added :
    (found : Option TokenDistributon) (td : TokenDistributon)
    → (entry_of found td).amount ≡ added (amount_of found) td.amount
unfolding amount_of
entry_of-added none td = refl
entry_of-added (some old) td = elim (Bool-cases (td.amount == old.amount)) [
  | inl same ↦ rw same refl
  | inr other ↦ rw other (ground arith)
]

share-total :
    (a : H160) (before : Option TokenDistributon) (tds : List TokenDistributon)
    → amount_of (share a before tds) ≡ total a (amount_of before) tds
unfolding amount_of
share-total a before [] = refl
share-total a before (td ∷ tds) = elim (Bool-cases (td.address == a)) [
  | inl same ↦ rw same (
      share-total a (some (entry_of before td)) tds
      ∙ ap (λ n. total a (some n) tds) (entry_of-added before td))
  | inr other ↦ rw other (share-total a before tds)
]

given-with_balance :
    (o : Option TokenDistributon) (before : Basic)
    → given o before ≡ with_balance (amount_of o) before
unfolding amount_of basic
given-with_balance none before = refl
given-with_balance (some td) before = refl

-- Each distribution of a map is to the address that is its key, an address of 160 bits.
abbrev Keyed : Map TokenDistributon → Type 0
Keyed [] = Unit {0}
Keyed ((k, td) ∷ m) = (td.address ≡ k) × (k < 2 ^ 160) × Keyed m

lookup-collect :
    (a : H160) (acc : Map TokenDistributon) (tds : List TokenDistributon)
    → lookup a (collect acc tds) ≡ share a (lookup a acc) tds
unfolding collect
lookup-collect a acc [] = refl
lookup-collect a acc (td ∷ tds) =
    let added = insert td.address (entry_of (lookup td.address acc) td) acc in
    lookup-collect a added tds
    ∙ ap (λ o. share a o tds)
        (elim (Bool-cases (td.address == a)) [
          | inl same ↦
              lookup-insert td.address a (entry_of (lookup td.address acc) td) acc
              ∙ rw (same, ==→eq td.address a same) refl
          | inr other ↦
              lookup-insert td.address a (entry_of (lookup td.address acc) td) acc ∙ rw other refl
        ])

entry_of-address :
    (found : Option TokenDistributon) (td : TokenDistributon)
    → ((old : TokenDistributon) → found ≡ some old → old.address ≡ td.address)
    → (entry_of found td).address ≡ td.address
entry_of-address none td h = refl
entry_of-address (some old) td h = elim (Bool-cases (td.amount == old.amount)) [
  | inl same ↦ rw same (h old refl)
  | inr other ↦ rw other (h old refl)
]

lookup-Keyed :
    (m : Map TokenDistributon) (k : H160) (td : TokenDistributon)
    → Keyed m
    → lookup k m ≡ some td
    → td.address ≡ k
unfolding lookup
lookup-Keyed [] k td h found = cc
lookup-Keyed ((j, old) ∷ m) k td (here, small, rest) found = elim (Bool-cases (j == k)) [
  | inl same ↦
      let first : some old ≡ some td = rw same at found in
      let one : old ≡ td = cc in
      ap (λ (x : TokenDistributon). x.address) (sym one) ∙ here ∙ ==→eq j k same
  | inr other ↦ lookup-Keyed m k td rest (rw other at found)
]

insert-Keyed :
    (k : H160) (td : TokenDistributon) (m : Map TokenDistributon)
    → td.address ≡ k
    → k < 2 ^ 160
    → Keyed m
    → Keyed (insert k td m)
unfolding insert
insert-Keyed k td [] same small h = (same, small, tt)
insert-Keyed k td ((j, old) ∷ m) same small h = ground (arith, insert-Keyed k td m same small)

collect-IsMap :
    (acc : Map TokenDistributon) (tds : List TokenDistributon)
    → Ascends 0 acc
    → Keyed acc
    → All (λ td. td.address < 2 ^ 160) tds
    → Ascends 0 (collect acc tds) × Keyed (collect acc tds)
unfolding collect
collect-IsMap acc [] ascends keyed small = (ascends, keyed)
collect-IsMap acc (td ∷ tds) ascends keyed (first, rest) =
    let entry = entry_of (lookup td.address acc) td in
    let same =
      entry_of-address (lookup td.address acc) td (λ old. lookup-Keyed acc td.address old keyed) in
    collect-IsMap (insert td.address entry acc) tds
      (insert-Ascends td.address 0 entry acc (omega arith) ascends)
      (insert-Keyed td.address entry acc same first keyed) rest

as_change : TokenDistributon → Apply
as_change td = modify (grant td)

-- Distributions by a map have the effect on an address of the one that the map has for it.
replay-values :
    (m : Map TokenDistributon) (lo : ℕ) (a : H160) (before : Basic)
    → Ascends lo m
    → Keyed m
    → replay (map as_change (values m)) a before ≡ given (lookup a m) before
unfolding lookup values as_change
replay-values [] lo a before ascends keyed = refl
replay-values ((k, td) ∷ m) lo a before (low, ascends) (here, small, keyed) =
    replay-values m (suc k) a (if td.address == a then basic td else before) ascends keyed
    ∙ elim (Bool-cases (k == a)) [
      | inl same ↦
          rw (here, same, lookup_below a (suc k) m ascends (omega (arith, ==→eq k a same))) refl
      | inr other ↦ rw (here, other) refl
    ]

values-small :
    (m : Map TokenDistributon)
    → Keyed m
    → All (λ v. address_of v < 2 ^ 160) (map as_change (values m))
unfolding values as_change
values-small [] keyed = tt
values-small ((k, td) ∷ m) (here, small, keyed) =
    (subst (λ x. x < 2 ^ 160) (sym here) small, values-small m keyed)

module _ ⦃ext : Externals⦄ ⦃tries : Tries⦄ ⦃tables : Tables⦄ ⦃caches : Caches⦄ where
  -- Without the flag nothing is erased.
  apply_one-keeps :
      (applied : Outcome (Adapter × Bool)) (a : H160) (rest others : Adapter → Outcome Adapter)
      → ((b : Adapter) → rest b ≡ others b)
      → ((applied >>= λ (b, is_empty). if is_empty && false then erase b a else ok b) >>= rest)
        ≡ (applied >>= λ r. others r.0)
  apply_one-keeps (ok (b, true)) a rest others same = same b
  apply_one-keeps (ok (b, false)) a rest others same = same b
  apply_one-keeps (err e) a rest others same = refl
  apply_one-keeps panic a rest others same = refl

  apply_values-grants :
      (tds : List TokenDistributon) (b : Adapter)
      → apply_values b (map as_change tds) false ≡ apply_grants b tds
  unfolding apply_values apply_one apply_grants as_change
  apply_values-grants [] b = refl
  apply_values-grants (td ∷ tds) b =
      apply_one-keeps (apply b (grant td)) td.address
        (λ x. apply_values x (map as_change tds) false) (λ x. apply_grants x tds)
        (apply_values-grants tds)

  -- The balances of a new node, as `basic` reads them at an address: the amount of the first
  -- distribution to it, and each later amount on top unless it equals the sum so far, up to the
  -- largest `U256`, with a nonce of 0; and what was there before where there is none. Addresses have
  -- 160 bits, and the trie and the codec of accounts read back what was written.
  pub apply_grants-total :
      (laws : TrieLaws tries)
      (codec : (acc : Account) → ext.decode_account (ext.encode_account acc) ≡ some acc)
      (tds : List TokenDistributon) (b b' : Adapter) (a : H160)
      → All (λ td. td.address < 2 ^ 160) tds
      → a < 2 ^ 160
      → apply_grants b (values (collect [] tds)) ≡ ok b'
      → basic_at b' a ≡ with_balance (total a none tds) (basic_at b a)
  unfolding lookup amount_of
  apply_grants-total laws codec tds b b' a small ha h =
      let (ascends, keyed) = collect-IsMap [] tds tt tt small in
      let m = collect [] tds in
      apply_values-replay laws codec (map as_change (values m)) b b' false a (values-small m keyed)
        ha (apply_values-grants (values m) b ∙ h)
      ∙ replay-values m 0 a (basic_at b a) ascends keyed
      ∙ ap (λ o. given o (basic_at b a)) (lookup-collect a [] tds)
      ∙ given-with_balance (share a none tds) (basic_at b a)
      ∙ ap (λ o. with_balance o (basic_at b a)) (share-total a none tds)
