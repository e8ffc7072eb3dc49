-- ===== src/Executor/Precompiles/Base.antt =====
-- What the precompiled contracts share: their results, the check of the gas limit, and the crates
-- for hashes, big numbers and curves that they call. The arguments `context` and `is_static` are
-- read by none of them and are left out. Lengths are those of byte slices, so that the figures for
-- gas stay below 2 ^ 64.
use rt_evm.Common.{
  ℕ, ◌*◌, ◌%◌, ◌^◌, ◌≤◌, ◌<◌, ◌≡◌, ◌≢◌, Bytes, Option, none, some, List, Bool, take, drop, length,
  All, ltb, ltb→le, from_big_endian,
}
use rt_evm.Common.Outcome.{Outcome, ok, out_of_gas, reject_if, reject_if-eq-tt}

-- `PrecompileOutput` with the gas used; the exit status is always `Returned`.
abbrev pub Returned : Type 0
Returned = Bytes × ℕ

-- `if let Some(limit) = gas_limit { if limit < gas { return err!(); } }`
abbrev pub charge : ℕ → Option ℕ → Outcome (Unit {0})
charge gas none = ok tt
charge gas (some limit) = reject_if (ltb limit gas) out_of_gas

-- `&input[start..start + n]`
abbrev pub slice : ℕ → ℕ → Bytes → Bytes
slice start n input = take n (drop start input)

-- The crates sha2, ripemd, and the conversion of a recoverable signature.
pub record Hashers : Type 0 where
  pub sha256 : Bytes → Bytes
  pub ripemd160 : Bytes → Bytes
  -- `Secp256k1RecoverableSignature::try_from` and `to_bytes`
  pub recoverable : Bytes → Option Bytes

-- `Integer` of the crate rug, for numbers that are not negative.
pub record Integers : Type 0 where
  -- `from_digits` and `to_digits`, most significant byte first
  pub from_digits : Bytes → ℕ
  pub to_digits : ℕ → Bytes
  pub significant_bits : ℕ → ℕ
  pub pow_mod : ℕ → ℕ → ℕ → Option ℕ

-- What the crate documents.
pub record IntegersLaws (int : Integers) : Type 0 where
  pub from_digits-big_endian : (bs : Bytes) → int.from_digits bs ≡ from_big_endian bs
  pub from_digits-to_digits : (n : ℕ) → from_big_endian (int.to_digits n) ≡ n
  pub significant_bits_zero : int.significant_bits 0 ≡ 0
  pub significant_bits-le : (n k : ℕ) → n < 2 ^ k → int.significant_bits n ≤ k
  pub significant_bits-digits :
      (bs : Bytes)
      → All (λ b. b < 256) bs
      → int.significant_bits (from_big_endian bs) ≤ 8 * length bs
  pub significant_bits_pos : (n : ℕ) → n ≢ 0 → 0 < int.significant_bits n
  pub pow_mod_lem : (b e m : ℕ) → m ≢ 0 → int.pow_mod b e m ≡ some (b ^ e % m)

-- The curve of the crate bn. `G1`, `G2` are points in Jacobian coordinates; an element of `Fq2` is
-- made of two of `Fq`.
pub record Curve : Type 1 where
  pub Fq : Type 0
  pub Fr : Type 0
  pub G1 : Type 0
  pub G2 : Type 0
  pub fq_from_slice : Bytes → Option Fq
  pub fr_from_slice : Bytes → Option Fr
  pub is_zero : Fq → Bool
  pub to_big_endian : Fq → Option Bytes
  pub g1_zero : G1
  pub g1_new : Fq → Fq → Option G1
  pub g2_zero : G2
  pub g2_new : Fq × Fq → Fq × Fq → Option G2
  pub add : G1 → G1 → G1
  pub mul : G1 → Fr → G1
  -- `AffineG1::from_jacobian` with `x` and `y`
  pub from_jacobian : G1 → Option (Fq × Fq)
  -- `pairing_batch(&pairs) == Gt::one()`
  pub pairing_is_one : List (G1 × G2) → Bool

pub charge-le : (gas limit : ℕ) → charge gas (some limit) ≡ ok tt → gas ≤ limit
charge-le gas limit h = ltb→le limit gas (reject_if-eq-tt (ltb limit gas) out_of_gas h)
