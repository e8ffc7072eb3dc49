-- ===== src/Model/Transaction/Fits.antt =====
-- The values of a transaction have the width of their types, and items after a number of others.
use rt_evm.Common.{
  ℕ, zero, suc, ◌+◌, ◌*◌, ◌^◌, ◌<◌, ◌≤◌, ◌≡◌, refl, ap, Bytes, some, length, All, arith, u64_mod,
  from_be, to_be, subst, to_be-from_be, from_be-lt,
}
use rt_evm.Model.Rlp.{Item, Items, nil, append}
use rt_evm.Model.Reader.{ActionFits, item_at}
use rt_evm.Model.Transaction.{
  AccessListItem, UnsignedTransaction, SignatureComponents, legacy, eip2930, eip1559,
}
use rt_evm.Model.Transaction.Encode.{truncate_slice}

-- The values have the width of their types: `U256`, `u64`, `H160`, `H256`.
abbrev pub Word : ℕ → Type 0
Word n = n < 2 ^ 256

abbrev pub AccessFits : AccessListItem → Type 0
AccessFits a = (a.address < 2 ^ 160) × All Word a.storage_keys

abbrev pub UnsignedFits : UnsignedTransaction → Type 0
UnsignedFits (legacy t) =
    Word t.nonce × Word t.gas_price × Word t.gas_limit × ActionFits t.action × Word t.value
UnsignedFits (eip2930 t) =
    Word t.nonce
    × Word t.gas_price
    × Word t.gas_limit
    × ActionFits t.action
    × Word t.value
    × All AccessFits t.access_list
UnsignedFits (eip1559 t) =
    Word t.nonce
    × Word t.max_priority_fee_per_gas
    × Word t.gas_price
    × Word t.gas_limit
    × ActionFits t.action
    × Word t.value
    × All AccessFits t.access_list

-- What a legacy transaction can carry: a recovery id and a chain id that share a `u64`. The other
-- types write both apart.
abbrev pub IdsFit : UnsignedTransaction → ℕ → ℕ → Type 0
IdsFit (legacy t) v id = (v ≤ 1) × (36 + id * 2 < u64_mod)
IdsFit (eip2930 t) v id = (v < 2 ^ 8) × (id < 2 ^ 64)
IdsFit (eip1559 t) v id = (v < 2 ^ 8) × (id < 2 ^ 64)

abbrev pub SignatureFits : SignatureComponents → Type 0
SignatureFits sc =
    (length sc.r ≡ 32) × (length sc.s ≡ 32) × All (λ b. b < 256) sc.r × All (λ b. b < 256) sc.s

-- What is left of the items from item `i` on.
abbrev pub skip : ℕ → Items → Items
skip zero is = is
skip (suc i) nil = nil
skip (suc i) (append it is) = skip i is

pub item_at-skip :
    (i : ℕ) (is : Items) (it : Item) (rest : Items)
    → skip i is ≡ append it rest
    → item_at is i ≡ some it
item_at-skip zero nil it rest h = cc
item_at-skip zero (append it0 is) it rest h = cc
item_at-skip (suc i) nil it rest h = cc
item_at-skip (suc i) (append it0 is) it rest h = item_at-skip i is it rest h

pub skip-suc :
    (i : ℕ) (is : Items) (it : Item) (rest : Items)
    → skip i is ≡ append it rest
    → skip (suc i) is ≡ rest
skip-suc zero nil it rest h = cc
skip-suc zero (append it0 is) it rest h = cc
skip-suc (suc i) nil it rest h = cc
skip-suc (suc i) (append it0 is) it rest h = skip-suc i is it rest h

-- 32 bytes come back from the number that they spell.
pub word_bytes :
    (bs : Bytes)
    → length bs ≡ 32
    → All (λ b. b < 256) bs
    → (from_be 0 bs < 2 ^ 256) × (to_be 32 (from_be 0 bs) ≡ bs)
word_bytes bs n h =
    let below : from_be 0 bs < 256 ^ length bs = from_be-lt bs h in
    let same : 256 ^ length bs ≡ 256 ^ 32 = ap (λ (k : ℕ). 256 ^ k) n in
    (omega (arith, below, same), subst (λ k. to_be k (from_be 0 bs) ≡ bs) n (to_be-from_be bs h))

pub truncate_slice_whole : (bs : Bytes) → length bs ≡ 32 → truncate_slice bs 32 ≡ bs
unfolding truncate_slice
truncate_slice_whole bs n = rw n refl
