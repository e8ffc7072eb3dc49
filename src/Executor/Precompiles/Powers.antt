-- ===== src/Executor/Precompiles/Powers.antt =====
-- The modular power of crates/executor/src/precompiles/modexp.rs: its result and its price.
use rt_evm.Common.{
  ℕ, zero, suc, ◌+◌, ◌-◌, ◌*◌, ◌/◌, ◌%◌, ◌^◌, ◌≤◌, ◌<◌, ◌≡◌, ◌≢◌, ◌⊎◌, inl, inr, refl, sym, ap, ◌∙◌,
  subst, max, arith, Bytes, Option, [], ◌∷◌, ◌++◌, true, false, ◌&&◌, length, length-append,
  length-take, take, drop, replicate, ltb, ltb→le, leb, ==→ne, u64_mod, ◌==◌, if◌then◌else◌,
  Bool-cases, All, from_be, from_big_endian,
}
use rt_evm.Common.Outcome.{
  ok, bad_length, too_large, exec_failed, reject_if, ◌>>=◌, ◌>>◌, >>=-eq-ok, >>-eq-ok,
  reject_if-eq-ok, ok-injective,
}
use native.Mathlib.Nat.{pow-suc, pow-zero, one-mul, mul-le-mul}
use rt_evm.Executor.Precompiles.Base.{Returned, charge, slice, Integers, IntegersLaws}
use rt_evm.Executor.Precompiles.ModExp.{
  LargeNumber, parse_big_uint, parse, multiplication_complexity, iterator_count, top_bit, gas_cost,
  calc, padded, power, exec_fn,
}

length-replicate : (n : ℕ) → length {A = ℕ} (replicate n 0) ≡ n
length-replicate zero = refl
length-replicate (suc n) = ap suc (length-replicate n)

from_be-replicate : (k : ℕ) (bs : Bytes) → from_be 0 (replicate k 0 ++ bs) ≡ from_be 0 bs
from_be-replicate zero bs = refl
from_be-replicate (suc k) bs = from_be-replicate k bs

All-take : (P : ℕ → Type 0) (n : ℕ) (xs : Bytes) → All P xs → All P (take n xs)
All-take P zero xs h = tt
All-take P (suc n) [] h = tt
All-take P (suc n) (x ∷ xs) h = (h.0, All-take P n xs h.1)

All-drop : (P : ℕ → Type 0) (n : ℕ) (xs : Bytes) → All P xs → All P (drop n xs)
All-drop P zero xs h = h
All-drop P (suc n) [] h = tt
All-drop P (suc n) (x ∷ xs) h = All-drop P n xs h.1

-- What the contract is to return, and the iterations of its price by EIP-2565, on numbers of any
-- size.
abbrev pub power_of : LargeNumber → ℕ
power_of n = if n.b_size == 0 && n.m_size == 0 then 0 else n.base ^ n.exponent % n.modulo

-- The modulus is not 0, or base and modulus have no bytes.
abbrev pub HasPower : LargeNumber → Type 0
HasPower n = (n.modulo ≢ 0) ⊎ ((n.b_size ≡ 0) × (n.m_size ≡ 0))

square : (w : ℕ) → w ^ 2 ≡ w * w
square w =
    pow-suc w 1
    ∙ ap (λ (t : ℕ). t * w) (pow-suc w 0 ∙ ap (λ (t : ℕ). t * w) (pow-zero w) ∙ one-mul w)

price_small : (w i : ℕ) → w ≤ 128 → i ≤ 8_191 → w * w * i / 3 < 2 ^ 64
price_small w i h k = omega (arith, mul-le-mul (mul-le-mul h h) k)

module _ ⦃int : Integers⦄ where
  -- Filling up keeps the number and gives the size.
  padded_lem :
      (m : ℕ) (res : Bytes)
      → length res ≤ m
      → (length (padded m res) ≡ m) × (from_be 0 (padded m res) ≡ from_be 0 res)
  padded_lem m res h = elim (Bool-cases (ltb (length res) m)) [
    | inl e ↦ rw e (
      omega (
        arith,
        length-append (replicate (m - length res) 0) res,
        length-replicate (m - length res),
      ),
      from_be-replicate (m - length res) res,
    )
    | inr e ↦ rw e (omega (arith, ltb→le (length res) m e), refl)
  ]

  abbrev pub eip2565_iterations : LargeNumber → ℕ
  eip2565_iterations n = max 1 (
      if n.exponent == 0 && leb n.e_size 32
      then 0
      else if leb n.e_size 32
      then int.significant_bits n.exponent - 1
      else 8 * (n.e_size - 32) + (int.significant_bits (n.exponent % 2 ^ 256) - 1))

  abbrev pub eip2565_gas : LargeNumber → ℕ
  eip2565_gas n =
      let words = (max n.b_size n.m_size + 7) / 8 in
      max 200 (words * words * eip2565_iterations n / 3)

  calc-power_of :
      (laws : IntegersLaws int) (n : LargeNumber) (value : ℕ)
      → HasPower n
      → calc n ≡ ok value
      → value ≡ power_of n
  unfolding calc
  calc-power_of laws n value defined h = elim (Bool-cases (n.b_size == 0 && n.m_size == 0)) [
    | inl e ↦ let same : ok 0 ≡ ok value = rw (sym h, e) refl in rw e (sym (ok-injective same))
    | inr e ↦
        let nonzero : n.modulo ≢ 0 = elim defined [
          | inl nonzero ↦ nonzero
          | inr (no_base, no_modulus) ↦ absurd (ground (arith, no_base, no_modulus, e))
        ] in
        let same : ok (n.base ^ n.exponent % n.modulo) ≡ ok value =
          rw (sym h, e, laws.pow_mod_lem n.base n.exponent n.modulo nonzero) refl in
        rw e (sym (ok-injective same))
  ]

  -- An output of the contract has the announced size of the modulus, and spells 0 where base and modulus
  -- have no bytes, and else the remainder of base ^ exponent. The modulus, which is read from all
  -- that follows the exponent, is not 0, or base and modulus have no bytes.
  pub exec_fn-power_of :
      (laws : IntegersLaws int) (input : Bytes) (limit : Option ℕ) (out : Bytes) (gas : ℕ)
      (n : LargeNumber)
      → exec_fn input limit ≡ ok (out, gas)
      → parse input ≡ ok n
      → HasPower n
      → (length out ≡ n.m_size) × (from_big_endian out ≡ power_of n)
  unfolding exec_fn
  exec_fn-power_of laws input limit out gas n returned parsed defined =
      let (n', parsed', after) =
        >>=-eq-ok (parse input) (λ n. gas_cost input >>= λ gas. charge gas limit >> power n gas)
          returned in
      let same : n' ≡ n = ok-injective (sym parsed' ∙ parsed) in
      let (cost, _, paid) =
        >>=-eq-ok (gas_cost input) (λ gas. charge gas limit >> power n' gas) after in
      let (_, last) = >>-eq-ok (charge cost limit) (power n' cost) paid in
      let (value, calculated, rest) =
        >>=-eq-ok (calc n')
          (λ value.
            reject_if (ltb n'.m_size (length (int.to_digits value))) exec_failed
            >> ok (padded n'.m_size (int.to_digits value), cost))
          last in
      let (fits, final) =
        reject_if-eq-ok (ltb n'.m_size (length (int.to_digits value))) exec_failed _ rest in
      let shown : padded n'.m_size (int.to_digits value) ≡ out =
        ap (λ (r : Returned). r.0) (ok-injective final) in
      let (size, number) =
        padded_lem n'.m_size (int.to_digits value)
          (ltb→le n'.m_size (length (int.to_digits value)) fits) in
      let spelled =
        calc-power_of laws n value defined (subst (λ x. calc x ≡ ok value) same calculated) in
      (
        ap length (sym shown) ∙ size ∙ ap (λ (x : LargeNumber). x.m_size) same,
        ap (from_be 0) (sym shown) ∙ number ∙ laws.from_digits-to_digits value ∙ spelled,
      )

  parse_big_uint-size : (bs : Bytes) (n : ℕ) → parse_big_uint bs true ≡ ok n → n ≤ 1024
  unfolding parse_big_uint
  parse_big_uint-size bs n h =
      let (small, same) =
        reject_if-eq-ok (ltb 1024 (int.from_digits bs)) too_large (ok (int.from_digits bs)) h in
      subst (λ x. x ≤ 1024) (ok-injective same) (ltb→le 1024 (int.from_digits bs) small)

  parse_sizes :
      (input : Bytes) (n : LargeNumber)
      → parse input ≡ ok n
      → (n.b_size ≤ 1024)
        × (n.e_size ≤ 1024)
        × (n.m_size ≤ 1024)
        × (n.exponent ≡ int.from_digits (slice (96 + n.b_size) n.e_size input))
  unfolding parse parse_big_uint
  parse_sizes input n parsed =
      let (_, h0) = >>-eq-ok (reject_if (ltb (length input) 96) bad_length) _ parsed in
      let (b, hb, h1) = >>=-eq-ok (parse_big_uint (slice 0 32 input) true) _ h0 in
      let (e, he, h2) = >>=-eq-ok (parse_big_uint (slice 32 32 input) true) _ h1 in
      let (m, hm, h3) = >>=-eq-ok (parse_big_uint (slice 64 32 input) true) _ h2 in
      let (_, h4) = >>-eq-ok (reject_if (ltb (length input) (b + e + m + 96)) bad_length) _ h3 in
      let same = ok-injective h4 in
      let bs : b ≡ n.b_size = ap (λ (x : LargeNumber). x.b_size) same in
      let es : e ≡ n.e_size = ap (λ (x : LargeNumber). x.e_size) same in
      let ms : m ≡ n.m_size = ap (λ (x : LargeNumber). x.m_size) same in
      let exponent = ap (λ (x : LargeNumber). x.exponent) same in
      (
        subst (λ x. x ≤ 1024) bs (parse_big_uint-size (slice 0 32 input) b hb),
        subst (λ x. x ≤ 1024) es (parse_big_uint-size (slice 32 32 input) e he),
        subst (λ x. x ≤ 1024) ms (parse_big_uint-size (slice 64 32 input) m hm),
        subst (λ x. n.exponent ≡ int.from_digits (slice (96 + x) n.e_size input)) bs
            (subst (λ x. n.exponent ≡ int.from_digits (slice (96 + b) x input)) es (sym exponent)),
      )

  -- One less than a number of bits, which no wrap-around disturbs.
  top_bit_lem :
      (x : ℕ)
      → 0 < int.significant_bits x
      → int.significant_bits x ≤ 256
      → (top_bit x ≡ int.significant_bits x - 1) × (top_bit x ≤ 255)
  top_bit_lem x positive few = (omega arith, omega arith)

  small_exponent :
      (laws : IntegersLaws int) (input : Bytes) (start size x : ℕ)
      → All (λ b. b < 256) input
      → size ≤ 32
      → x ≡ int.from_digits (slice start size input)
      → int.significant_bits x ≤ 256
  small_exponent laws input start size x bytes small e =
      let taken =
        All-take (λ b. b < 256) size (drop start input)
          (All-drop (λ b. b < 256) start input bytes) in
      let bits = laws.significant_bits-digits (slice start size input) taken in
      rw (e, laws.from_digits-big_endian (slice start size input))
        (omega (arith, bits, length-take size (drop start input)))

  iterator_count-eip2565_iterations :
      (laws : IntegersLaws int) (input : Bytes) (n : LargeNumber)
      → All (λ b. b < 256) input
      → parse input ≡ ok n
      → (n.e_size ≤ 32) ⊎ (n.exponent % 2 ^ 256 ≢ 0)
      → (iterator_count n ≡ eip2565_iterations n) × (iterator_count n ≤ 8_191)
  unfolding iterator_count
  iterator_count-eip2565_iterations laws input n bytes parsed h =
      let (_, size, _, read) = parse_sizes input n parsed in
      elim (Bool-cases (leb n.e_size 32)) [
        | inl e ↦ elim (Bool-cases (n.exponent == 0)) [
          | inl z ↦ rw (e, z) (refl, omega arith)
          | inr z ↦
              let small : n.e_size ≤ 32 = ground (arith, e) in
              let few =
                small_exponent laws input (96 + n.b_size) n.e_size n.exponent bytes small read in
              let positive = laws.significant_bits_pos n.exponent (==→ne n.exponent 0 z) in
              let (same, bound) = top_bit_lem n.exponent positive few in
              rw (e, z) (omega (arith, same), omega (arith, bound))
        ]
        | inr e ↦ elim h [
          | inl small ↦ absurd (ground (arith, e, small))
          | inr nonzero ↦
              let low = n.exponent % 2 ^ 256 in
              let few = laws.significant_bits-le low 256 (omega arith) in
              let positive = laws.significant_bits_pos low nonzero in
              let (same, bound) = top_bit_lem low positive few in
              elim (Bool-cases (n.exponent == 0)) [
                | inl z ↦ rw (e, z) (omega (arith, same), omega (arith, bound, size))
                | inr z ↦ rw (e, z) (omega (arith, same), omega (arith, bound, size))
              ]
        ]
      ]

  -- The price of a well-formed input is the one of EIP-2565, computed without overflow, unless the
  -- exponent has more than 32 bytes of which the last 32 are zeros.
  pub gas_cost-eip2565_gas :
      (laws : IntegersLaws int) (input : Bytes) (n : LargeNumber)
      → All (λ b. b < 256) input
      → parse input ≡ ok n
      → (n.e_size ≤ 32) ⊎ (n.exponent % 2 ^ 256 ≢ 0)
      → gas_cost input ≡ ok (eip2565_gas n)
  unfolding gas_cost multiplication_complexity
  gas_cost-eip2565_gas laws input n bytes parsed h =
      let (count, few) = iterator_count-eip2565_iterations laws input n bytes parsed h in
      let (b, _, m, _) = parse_sizes input n parsed in
      let words = (max n.b_size n.m_size + 7) / 8 in
      let small = price_small words (iterator_count n) (omega arith) few in
      let fits : leb u64_mod (max (words * words * iterator_count n / 3) 200) ≡ false =
        ground (arith, small) in
      rw (parsed, square words, fits) (rw count (ground arith))
