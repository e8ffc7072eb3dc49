-- ===== src/Model/Transaction/Signature.antt =====
-- The replay protection number of a legacy signature, and signatures as 65 bytes.
use mathlib.Core.List.{append_assoc}
use rt_evm.Common.{
  take-append, drop-append, ℕ, suc, ◌+◌, ◌*◌, ◌≤◌, ◌<◌, ◌≡◌, refl, u64_mod, some, [], ◌∷◌, ◌++◌,
  length, take, drop, get_elem?, arith, List, zero, length-append,
}
use rt_evm.Common.Outcome.{ok}
use rt_evm.Model.Transaction.{
  SignatureComponents, add_chain_replay_protection, extract_standard_v, extract_chain_id, as_bytes,
  from_bytes, len,
}

-- A recovery id of 0 or 1 and a chain id come back out of the number that a legacy transaction
-- writes for them, where that number fits a `u64`.
pub extract-add_chain_replay_protection :
    (sc : SignatureComponents) (id : ℕ)
    → sc.standard_v ≤ 1
    → 36 + id * 2 < u64_mod
    → (extract_standard_v (add_chain_replay_protection sc (some id)) ≡ some sc.standard_v)
      × (extract_chain_id (add_chain_replay_protection sc (some id)) ≡ some id)
unfolding add_chain_replay_protection extract_standard_v extract_chain_id
extract-add_chain_replay_protection sc id small fits = (ground arith, ground arith)

-- Every number from 35 on is written back from the parts that are read from it, and no number
-- below 35 has such parts.
pub add_chain_replay_protection-extract :
    (sc : SignatureComponents) (v id : ℕ)
    → v < u64_mod
    → extract_standard_v v ≡ some sc.standard_v
    → extract_chain_id v ≡ some id
    → (35 ≤ v) × (add_chain_replay_protection sc (some id) ≡ v)
unfolding add_chain_replay_protection extract_standard_v extract_chain_id
add_chain_replay_protection-extract sc v id h p q = ground arith

module _ {ℓ} {A : Type ℓ} where
  get_elem?-append_right :
      (n : ℕ) (xs : List A) (y : A) (ys : List A)
      → length xs ≡ n
      → get_elem? (xs ++ y ∷ ys) n ≡ some y
  get_elem?-append_right zero [] y ys h = refl
  get_elem?-append_right zero (x ∷ xs) y ys h = absurd (omega arith)
  get_elem?-append_right (suc n) [] y ys h = absurd (omega arith)
  get_elem?-append_right (suc n) (x ∷ xs) y ys h = get_elem?-append_right n xs y ys (omega arith)

-- The 65 bytes read piece by piece.
as_bytes_parts :
    (sc : SignatureComponents)
    → length sc.r ≡ 32
    → length sc.s ≡ 32
    → (get_elem? (as_bytes sc) 64 ≡ some sc.standard_v)
      × (take 32 (as_bytes sc) ≡ sc.r)
      × (take 32 (drop 32 (as_bytes sc)) ≡ sc.s)
unfolding as_bytes
as_bytes_parts sc hr hs = (
  get_elem?-append_right 64 (sc.r ++ sc.s) sc.standard_v []
      (omega (arith, length-append sc.r sc.s)),
  rw append_assoc (take-append 32 sc.r (sc.s ++ sc.standard_v ∷ []) hr),
  rw append_assoc
      (rw (drop-append 32 sc.r (sc.s ++ sc.standard_v ∷ []) hr) (take-append 32 sc.s _ hs)),
)

length-as_bytes :
    (sc : SignatureComponents) → length sc.r ≡ 32 → length sc.s ≡ 32 → length (as_bytes sc) ≡ 65
unfolding as_bytes
length-as_bytes sc hr hs = rw (length-append (sc.r ++ sc.s), length-append sc.r) (omega arith)

-- A signature with `r` and `s` of 32 bytes each is written as 65 bytes, as `len` says, and is read
-- back from them.
pub from_bytes-as_bytes :
    (sc : SignatureComponents)
    → length sc.r ≡ 32
    → length sc.s ≡ 32
    → (from_bytes (as_bytes sc) ≡ ok sc) × (length (as_bytes sc) ≡ 65) × (len sc ≡ 65)
unfolding from_bytes len
from_bytes-as_bytes sc hr hs =
    let (v, r, s) = as_bytes_parts sc hr hs in
    (rw (from_bytes, v, r, s), length-as_bytes sc hr hs, omega arith)
