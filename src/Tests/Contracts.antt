-- ===== src/Tests/Contracts.antt =====
-- The precompiled contracts over small crates, and their results at concrete inputs.
use rt_evm.Common.{
  ℕ, zero, suc, ◌+◌, ◌*◌, ◌/◌, ◌%◌, ◌^◌, ◌≤◌, ◌<◌, ◌≡◌, ◌≢◌, inl, inr, refl, subst, arith, Bytes,
  some, [], ◌∷◌, ◌++◌, true, length, take, replicate, from_be, from_be-append, from_be-lt,
  from_big_endian, to_be, ◌==◌,
}
use rt_evm.Common.Outcome.{ok}
use rt_evm.Executor.Precompiles.Base.{Hashers, Integers, IntegersLaws, Curve}
use rt_evm.Executor.Precompiles.{sha256, exec_of, gas_of}
use rt_evm.Executor.Precompiles.Gas.{exec_of-within_limit}
use rt_evm.Executor.Precompiles.ModExp
use rt_evm.Executor.Precompiles.Sha256
use rt_evm.Executor.Precompiles.Compression.{blake2_f, exec_fn-blake2_f}
use rt_evm.Executor.Precompiles.ModExp.{LargeNumber}
use rt_evm.Executor.Precompiles.Blake2F
use rt_evm.Executor.Precompiles.Powers.{exec_fn-power_of, gas_cost-eip2565_gas, eip2565_gas}
use rt_evm.Tests.World.{externals}

-- The binary digits of a number, and its bytes; the number itself is fuel enough.
abbrev count_bits : ℕ → ℕ → ℕ
count_bits zero n = 0
count_bits (suc fuel) zero = 0
count_bits (suc fuel) (suc n) = suc (count_bits fuel (suc n / 2))

abbrev digits : ℕ → ℕ → Bytes
digits zero n = []
digits (suc fuel) zero = []
digits (suc fuel) (suc n) = digits fuel (suc n / 256) ++ suc n % 256 ∷ []

count_bits-le : (fuel n k : ℕ) → n < 2 ^ k → count_bits fuel n ≤ k
count_bits-le zero n k h = omega arith
count_bits-le (suc fuel) zero k h = omega arith
count_bits-le (suc fuel) (suc n) zero h = absurd (omega arith)
count_bits-le (suc fuel) (suc n) (suc k) h =
    omega (arith, count_bits-le fuel (suc n / 2) k (omega (arith, h)))

count_bits_pos : (fuel n : ℕ) → n ≤ fuel → n ≢ 0 → 0 < count_bits fuel n
count_bits_pos zero n h nonzero = absurd (nonzero (omega arith))
count_bits_pos (suc fuel) zero h nonzero = absurd (nonzero refl)
count_bits_pos (suc fuel) (suc n) h nonzero = omega arith

from_be-digits : (fuel n : ℕ) → n ≤ fuel → from_be 0 (digits fuel n) ≡ n
from_be-digits zero n h = omega arith
from_be-digits (suc fuel) zero h = refl
from_be-digits (suc fuel) (suc n) h =
    rw
      (
        from_be-append 0 (digits fuel (suc n / 256)) (suc n % 256),
        from_be-digits fuel (suc n / 256) (omega arith),
      )
      (omega arith)

eight_bits : (n : ℕ) → 256 ^ n ≡ 2 ^ (8 * n)
eight_bits zero = refl
eight_bits (suc n) =
    let grown : 8 * suc n ≡ suc (suc (suc (suc (suc (suc (suc (suc (8 * n)))))))) = omega arith in
    rw grown (omega (arith, eight_bits n))

instance abbrev pub integers : Integers
integers = record {
  from_digits = from_big_endian;
  to_digits = λ n. digits n n;
  significant_bits = λ n. count_bits n n;
  pow_mod = λ b e m. some (b ^ e % m);
}

pub integers_laws : IntegersLaws integers
integers_laws = record {
  from_digits-big_endian = λ bs. refl;
  from_digits-to_digits = λ n. from_be-digits n n (omega arith);
  significant_bits_zero = refl;
  significant_bits-le = λ n k h. count_bits-le n n k h;
  significant_bits-digits = λ bs h.
      count_bits-le (from_be 0 bs) (from_be 0 bs) (8 * length bs)
        (subst (λ m. from_be 0 bs < m) (eight_bits (length bs)) (from_be-lt bs h));
  significant_bits_pos = λ n h. count_bits_pos n n (omega arith) h;
  pow_mod_lem = λ b e m h. refl;
}

instance abbrev pub hashers : Hashers
hashers = record {
  sha256 = λ bs. replicate 32 7;
  ripemd160 = λ bs. replicate 20 7;
  recoverable = λ bs. some bs;
}

instance abbrev pub curve : Curve
curve = record {
  Fq = ℕ;
  Fr = ℕ;
  G1 = ℕ;
  G2 = ℕ;
  fq_from_slice = λ bs. some (from_big_endian bs);
  fr_from_slice = λ bs. some (from_big_endian bs);
  is_zero = λ x. x == 0;
  to_big_endian = λ x. some (to_be 32 x);
  g1_zero = 0;
  g1_new = λ x y. some (x + y);
  g2_zero = 0;
  g2_new = λ x y. some (x.0 + y.0);
  add = λ p q. p + q;
  mul = λ p n. p * n;
  from_jacobian = λ p. some (p, p);
  pairing_is_one = λ pairs. true;
}

-- 3 ^ 2 modulo 5, in numbers of one byte.
abbrev power_input : Bytes
power_input = to_be 32 1 ++ (to_be 32 1 ++ (to_be 32 1 ++ 3 ∷ 2 ∷ 5 ∷ []))

abbrev power_number : LargeNumber
power_number = record { b_size = 1; e_size = 1; m_size = 1; base = 3; exponent = 2; modulo = 5 }

-- The last block of BLAKE2b on the text abc, and its digest.
abbrev blake_input : Bytes
blake_input =
    to_be 4 12
    ++ (to_be 64
          0x48c9bdf267e6096a3ba7ca8485ae67bb2bf894fe72f36e3cf1361d5f3af54fa5d182e6ad7f520e511f6c3e2b8c68059b6bbd41fbabd9831f79217e1319cde05b
        ++ (to_be 128 (0x616263 * 256 ^ 125) ++ (3 ∷ replicate 15 0 ++ 1 ∷ [])))

abbrev blake_output : Bytes
blake_output =
    to_be 64
      0xba80a53f981c4d0d6a2797b69f12f6e94c212f14685ac4b74b12bb6fdbffa2d17d87c5392aab792dc252d5de4533cc9518d38aa8dbf1925ab92386edd4009923

blake_input-vector : Blake2F.exec_fn blake_input (some 12) ≡ ok (blake_output, 12)
unfolding Blake2F.exec_fn Blake2F.parse_round Blake2F.words Blake2F.parse_h Blake2F.parse_m
    Blake2F.parse_t Blake2F.g Blake2F.one_round Blake2F.rounds_from Blake2F.fold_back
    Blake2F.start_vector Blake2F.compress Blake2F.gas_cost Blake2F.parse_f
blake_input-vector = refl

exec_of-within_limit_example : (gas_of sha256 (1 ∷ []) ≡ ok 72) × (72 ≤ 100)
unfolding exec_of Sha256.exec_fn gas_of Sha256.gas_cost
exec_of-within_limit_example =
    exec_of-within_limit sha256 (1 ∷ []) 100 (replicate 32 7, 72) (inr (λ same. cc)) refl

exec_fn-power_of_example : (length {A = ℕ} (4 ∷ []) ≡ 1) × (from_big_endian (4 ∷ []) ≡ 4)
unfolding ModExp.exec_fn ModExp.parse ModExp.parse_big_uint ModExp.gas_cost ModExp.calc
    ModExp.multiplication_complexity ModExp.iterator_count
exec_fn-power_of_example =
    exec_fn-power_of integers_laws power_input (some 200) (4 ∷ []) 200 power_number refl refl
      (inl (λ e. omega arith))

gas_cost-eip2565_gas_example : ModExp.gas_cost power_input ≡ ok (eip2565_gas power_number)
unfolding ModExp.parse ModExp.parse_big_uint
gas_cost-eip2565_gas_example =
    gas_cost-eip2565_gas integers_laws power_input power_number (omega arith) refl
      (inl (omega arith))

exec_fn-blake2_f_example :
    Blake2F.exec_fn blake_input (some 20)
    ≡ ok (Blake2F.state_bytes (blake2_f blake_input 1), from_big_endian (take 4 blake_input))
exec_fn-blake2_f_example = exec_fn-blake2_f blake_input 20 1 refl refl (omega arith) (omega arith)
