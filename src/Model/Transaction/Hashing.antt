-- ===== src/Model/Transaction/Hashing.antt =====
-- The shape of encoded transactions, and what a recovered transaction satisfies.
use rt_evm.Common.{
  ℕ, suc, ◌%◌, ◌^◌, ◌≡◌, refl, ap, Bytes, Option, none, some, List, [], ◌∷◌, true, length, arith,
  Option-cases, if◌then◌else◌, is_some, Bool-cases, inl, inr,
}
use rt_evm.Common.Outcome.{ok}
use rt_evm.Model.Rlp.{
  Item, Items, num, bytes, address, hash, action, bloom, flag, option_hash, logs, begin_list, nil,
  append, count, each, Externals,
}
use rt_evm.Model.Transaction.{
  AccessListItem, AccessList, UnsignedTransaction, SignatureComponents, UnverifiedTransaction,
  SignedTransaction, legacy, eip2930, eip1559, as_bytes, is_eth_sig,
}
use rt_evm.Model.Transaction.Encode.{
  rlp_append, signature_items, typed_tail, legacy_item, eip2930_item, eip1559_item, access_item,
  rlp_bytes, encode, get_hash, calc_hash, check_hash, signature_hash, public_to_address, try_from,
}

-- Every list holds as many items as it announces.
unfoldable mutual
  pub IsFramed : Item → Type 0
  IsFramed (num n) = Unit {0}
  IsFramed (bytes b) = Unit {0}
  IsFramed (address a) = Unit {0}
  IsFramed (hash h) = Unit {0}
  IsFramed (action a) = Unit {0}
  IsFramed (bloom b) = Unit {0}
  IsFramed (flag b) = Unit {0}
  IsFramed (option_hash o) = Unit {0}
  IsFramed (logs ls) = Unit {0}
  IsFramed (begin_list n is) = (n ≡ count is) × AllFramed is

  pub AllFramed : Items → Type 0
  AllFramed nil = Unit {0}
  AllFramed (append i is) = IsFramed i × AllFramed is

pub count-each {ℓ} : {A : Type ℓ} (f : A → Item) (xs : List A) → length xs ≡ count (each f xs)
count-each f [] = refl
count-each f (x ∷ xs) = ap suc (count-each f xs)

each-AllFramed {ℓ} :
    {A : Type ℓ} (f : A → Item) → ((a : A) → IsFramed (f a)) → (xs : List A) → AllFramed (each f xs)
unfolding AllFramed
each-AllFramed f h [] = tt
each-AllFramed f h (x ∷ xs) = (h x, each-AllFramed f h xs)

access_item-IsFramed : (a : AccessListItem) → IsFramed (access_item a)
unfolding IsFramed AllFramed access_item
access_item-IsFramed a = (
  refl,
  (tt, ((count-each hash a.storage_keys, each-AllFramed hash (λ h. tt) a.storage_keys), tt)),
)

pub signature_items-AllFramed :
    (sc : SignatureComponents) → (count (signature_items sc) ≡ 3) × AllFramed (signature_items sc)
unfolding signature_items IsFramed
signature_items-AllFramed sc = elim (Bool-cases (is_eth_sig sc)) [
  | inl e ↦ rw e (refl, (tt, (tt, (tt, tt))))
  | inr e ↦ rw e (refl, (tt, (tt, (tt, tt))))
]

access_list-IsFramed : (xs : AccessList) → IsFramed (begin_list (length xs) (each access_item xs))
unfolding IsFramed
access_list-IsFramed xs =
    (count-each access_item xs, each-AllFramed access_item access_item-IsFramed xs)

-- The items after the payload of a typed transaction: the access list, and the signature if any.
typed_tail-AllFramed :
    (xs : AccessList) (sig : Option SignatureComponents)
    → (count (typed_tail xs sig) ≡ (if is_some sig then 4 else 1)) × AllFramed (typed_tail xs sig)
unfolding typed_tail IsFramed
typed_tail-AllFramed xs none = (refl, (access_list-IsFramed xs, tt))
typed_tail-AllFramed xs (some sc) =
    let (n, framed) = signature_items-AllFramed sc in (ap suc n, (access_list-IsFramed xs, framed))

-- The list headers of an encoded transaction of any type, signed or not, with any access list,
-- announce the number of items that follow.
pub rlp_append-IsFramed :
    (t : UnsignedTransaction) (id : ℕ) (sig : Option SignatureComponents)
    → IsFramed (rlp_append t id sig)
unfolding legacy_item eip2930_item eip1559_item rlp_append IsFramed
rlp_append-IsFramed (legacy t) id none =
    (refl, (tt, (tt, (tt, (tt, (tt, (tt, (tt, (tt, (tt, tt))))))))))
rlp_append-IsFramed (legacy t) id (some sc) =
    (refl, (tt, (tt, (tt, (tt, (tt, (tt, (tt, (tt, (tt, tt))))))))))
rlp_append-IsFramed (eip2930 t) id sig =
    let (n, framed) = typed_tail-AllFramed t.access_list sig in
    (ground (arith, n), (tt, (tt, (tt, (tt, (tt, (tt, (tt, framed))))))))
rlp_append-IsFramed (eip1559 t) id sig =
    let (n, framed) = typed_tail-AllFramed t.access_list sig in
    (ground (arith, n), (tt, (tt, (tt, (tt, (tt, (tt, (tt, (tt, framed)))))))))

module _ ⦃ext : Externals⦄ where
  open ext use {recover, keccak}

  -- The hash that a transaction is given passes its own check, whatever stood in the field before.
  check_hash-calc_hash : (u : UnverifiedTransaction) → check_hash (calc_hash u) ≡ ok tt
  unfolding check_hash calc_hash get_hash encode rlp_bytes
  check_hash-calc_hash u = ground (arith)

  -- Recovering the sender succeeds exactly on a signature whose public key can be recovered. The
  -- result has that key, the address that is the last 20 bytes of its hash, the transaction with
  -- nothing but its hash changed, and a hash that passes the check.
  pub try_from_lem :
      (u : UnverifiedTransaction) (stx : SignedTransaction)
      → try_from u ≡ ok stx
      → (sc : SignatureComponents) × (key : Bytes) × (u.signature ≡ some sc)
        × (recover (signature_hash u true) (as_bytes sc) ≡ some key)
        × (stx.public_key ≡ some key)
        × (stx.sender ≡ keccak key % 2 ^ 160)
        × (stx.transaction ≡ record u { hash = get_hash u })
        × (check_hash stx.transaction ≡ ok tt)
  unfolding try_from calc_hash public_to_address
  try_from_lem u stx h = elim (Option-cases u.signature) [
    | inl e ↦ absurd (ground arith)
    | inr (sc, e) ↦ elim (Option-cases (recover (signature_hash u true) (as_bytes sc))) [
      | inl f ↦ absurd (ground arith)
      | inr (key, f) ↦
          let hashed : stx.transaction ≡ calc_hash u = ground arith in
          (sc, key, e, f, ground arith, ground arith, hashed, rw hashed (check_hash-calc_hash u))
    ]
  ]
