-- ===== src/Model/Text/Address/Cases.antt =====
-- Digits in either case, and the bytes of texts of ASCII.
use rt_evm.Common.{
  ℕ, zero, suc, ◌-◌, ◌/◌, ◌%◌, ◌≤◌, ◌<◌, ◌≡◌, refl, arith, none, some, List, [], ◌∷◌, ◌++◌, map,
  length, get_elem?, true, false, ◌&&◌, ◌||◌, Bool-cases, inl, inr, leb, ◌==◌, All, to_be,
}
use rt_evm.Model.Text.{Text, trim_0x, digit_value, ascii_lower, IsAscii, IsDigit}

-- A digit in either case.
abbrev pub IsCased : ℕ → Type 0
IsCased c = ((leb 48 c && leb c 57) || (leb 97 c && leb c 102)) || (leb 65 c && leb c 70) ≡ true

pub digits-IsCased : (s : Text) → All IsDigit s → All IsCased s
digits-IsCased [] d = tt
digits-IsCased (c ∷ s) (d, ds) = (ground (arith, d), digits-IsCased s ds)

pub trim_0x-cased : (s : Text) → All IsCased s → trim_0x s ≡ s
unfolding trim_0x
trim_0x-cased [] d = refl
trim_0x-cased (a ∷ []) d = refl
trim_0x-cased (a ∷ b ∷ s) (da, (db, ds)) =
    let other : (a == 48) && (b == 120) ≡ false = ground (arith, db) in rw other refl

pub cased-IsAscii : (s : Text) → All IsCased s → IsAscii s
cased-IsAscii [] d = tt
cased-IsAscii (c ∷ s) (d, ds) = (ground (arith, d), cased-IsAscii s ds)

pub trim_0x-IsAscii : (s : Text) → IsAscii s → IsAscii (trim_0x s)
unfolding trim_0x
trim_0x-IsAscii [] d = tt
trim_0x-IsAscii (a ∷ []) d = d
trim_0x-IsAscii (a ∷ b ∷ s) (da, (db, ds)) = elim (Bool-cases ((a == 48) && (b == 120))) [
  | inl e ↦ rw e (trim_0x-IsAscii s ds)
  | inr e ↦ rw e (da, (db, ds))
]

pub lower-IsAscii : (s : Text) → IsAscii s → IsAscii (map ascii_lower s)
lower-IsAscii [] d = tt
lower-IsAscii (c ∷ s) (d, ds) = (ground (arith, d), lower-IsAscii s ds)

pub lower-digits : (s : Text) → All IsDigit s → map ascii_lower s ≡ s
lower-digits [] d = refl
lower-digits (c ∷ s) (d, ds) =
    let same : ascii_lower c ≡ c = ground (arith, d) in rw (same, lower-digits s ds) refl

pub digit_value-digit : (d : ℕ) → IsDigit d → (n : ℕ) × (digit_value d ≡ some n)
unfolding digit_value
digit_value-digit d h = elim (Bool-cases (leb 48 d && leb d 57)) [
  | inl e ↦ (d - 48, rw e refl)
  | inr e ↦
      let letter : leb 97 d && leb d 102 ≡ true = ground (arith, h, e) in
      (d - 87, rw (e, letter) refl)
]

pub get_elem?-digit :
    (s : Text) (i : ℕ)
    → All IsDigit s
    → i < length s
    → (d : ℕ) × (get_elem? s i ≡ some d) × IsDigit d
get_elem?-digit [] i ds h = absurd (omega arith)
get_elem?-digit (c ∷ s) zero (d, ds) h = (c, refl, d)
get_elem?-digit (c ∷ s) (suc i) (d, ds) h = get_elem?-digit s i ds (omega (arith, h))

pub get_elem?_past : (s : Text) (i : ℕ) → length s ≤ i → get_elem? s i ≡ none
get_elem?_past [] i h = refl
get_elem?_past (c ∷ s) zero h = absurd (omega arith)
get_elem?_past (c ∷ s) (suc i) h = get_elem?_past s i (omega (arith, h))

All-append : (P : ℕ → Type 0) (xs ys : List ℕ) → All P xs → All P ys → All P (xs ++ ys)
All-append P [] ys px py = py
All-append P (x ∷ xs) ys (p, px) py = (p, All-append P xs ys px py)

pub to_be-bytes : (n a : ℕ) → All (λ b. b < 256) (to_be n a)
to_be-bytes zero a = tt
to_be-bytes (suc n) a =
    All-append (λ b. b < 256) (to_be n (a / 256)) (a % 256 ∷ []) (to_be-bytes n (a / 256))
      (omega arith, tt)
