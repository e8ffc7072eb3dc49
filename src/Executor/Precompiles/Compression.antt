-- ===== src/Executor/Precompiles/Compression.antt =====
-- The results of crates/executor/src/precompiles/blake2_f.rs, beside the compression that RFC 7693
-- and EIP-152 describe.
use Prim.Native.Nat.{bit_xor}
use rt_evm.Common.{
  ℕ, zero, suc, ◌+◌, ◌-◌, ◌*◌, ◌^◌, ◌≤◌, ◌≡◌, refl, ap, arith, Bytes, some, List, [], ◌∷◌, length,
  get_elem?, take, drop, le→ltb, ◌==◌, true, false, if◌then◌else◌, from_big_endian,
}
use mathlib.Core.List.{reverse}
use rt_evm.Common.Lists.{take-take, drop-take, drop-drop}
use rt_evm.Common.Outcome.{ok, err, bad_flag}
use rt_evm.Executor.Precompiles.Blake2F.{
  words, parse_h, parse_m, parse_t, parse_f, parse_round, compress, start_vector, fold_back,
  state_bytes, gas_cost, exec_fn,
}
use rt_evm.Executor.Precompiles.Rounds.{Square, flatten, square_rounds, rounds_from-flatten}

-- The number that the eight bytes from `k` on spell, least significant byte first, and `n` of them.
abbrev pub word : Bytes → ℕ → ℕ
word input k = from_big_endian (reverse (take 8 (drop k input)))

abbrev pub words_at : ℕ → ℕ → Bytes → List ℕ
words_at zero k input = []
words_at (suc n) k input = word input k ∷ words_at n (8 + k) input

-- The working vector of EIP-152: the state from byte 4 on over the eight constants, with the two
-- counters and, for a last block, the mask of ones in the last row.
abbrev pub start : Bytes → ℕ → Square
start input last = record {
  first = record {
    a = word input 4;
    b = word input 36;
    c = 0x6a09e667f3bcc908;
    d = bit_xor 0x510e527fade682d1 (word input 196);
  };
  second = record {
    a = word input 12;
    b = word input 44;
    c = 0xbb67ae8584caa73b;
    d = bit_xor 0x9b05688c2b3e6c1f (word input 204);
  };
  third = record {
    a = word input 20;
    b = word input 52;
    c = 0x3c6ef372fe94f82b;
    d = bit_xor 0x1f83d9abfb41bd6b (last * (2 ^ 64 - 1));
  };
  fourth = record {
    a = word input 28;
    b = word input 60;
    c = 0xa54ff53a5f1d36f1;
    d = 0x5be0cd19137e2179;
  };
}

-- The square after the rounds that the first four bytes count, with the message from byte 68 on.
abbrev pub final : Bytes → ℕ → Square
final input last =
    square_rounds (words_at 16 68 input) 0 (from_big_endian (take 4 input)) (start input last)

-- The new state: each word of the old one with the words of its column in the first two and the
-- last two rows.
abbrev pub blake2_f : Bytes → ℕ → List ℕ
blake2_f input last =
    let s = final input last in
    bit_xor (word input 4) (bit_xor s.first.a s.first.c)
    ∷ bit_xor (word input 12) (bit_xor s.second.a s.second.c)
    ∷ bit_xor (word input 20) (bit_xor s.third.a s.third.c)
    ∷ bit_xor (word input 28) (bit_xor s.fourth.a s.fourth.c)
    ∷ bit_xor (word input 36) (bit_xor s.first.b s.first.d)
    ∷ bit_xor (word input 44) (bit_xor s.second.b s.second.d)
    ∷ bit_xor (word input 52) (bit_xor s.third.b s.third.d)
    ∷ bit_xor (word input 60) (bit_xor s.fourth.b s.fourth.d)
    ∷ []

words-slice :
    (n m k : ℕ) (input : Bytes) → 8 * n ≤ m → words n (take m (drop k input)) ≡ words_at n k input
unfolding words
words-slice zero m k input h = refl
words-slice (suc n) m k input h =
    rw
      (
        take-take 8 m (drop k input) (omega arith),
        drop-take 8 m (m - 8) (drop k input) (omega arith),
        drop-drop 8 k (8 + k) input refl,
      )
      (ap (word input k ∷◌) (words-slice n (m - 8) (8 + k) input (omega arith)))

parse_h-words_at : (input : Bytes) → parse_h input ≡ words_at 8 4 input
unfolding parse_h
parse_h-words_at input = words-slice 8 64 4 input (omega arith)

parse_m-words_at : (input : Bytes) → parse_m input ≡ words_at 16 68 input
unfolding parse_m
parse_m-words_at input = words-slice 16 128 68 input (omega arith)

start_vector-start :
    (input : Bytes) (last : ℕ)
    → last ≤ 1
    → start_vector (words_at 8 4 input) (parse_t input) (last == 1) ≡ flatten (start input last)
unfolding start_vector parse_t flatten
start_vector-start input zero flag = refl
start_vector-start input (suc zero) flag = refl
start_vector-start input (suc (suc n)) flag = absurd (omega arith)

fold_back-flatten :
    (input : Bytes) (last : ℕ)
    → fold_back (flatten (final input last)) 0 (words_at 8 4 input) ≡ blake2_f input last
unfolding fold_back flatten
fold_back-flatten input last = refl

compress-blake2_f :
    (input : Bytes) (last : ℕ)
    → last ≤ 1
    → compress
        (parse_h input)
        (parse_m input)
        (parse_t input)
        (last == 1)
        (from_big_endian (take 4 input))
      ≡ blake2_f input last
unfolding compress
compress-blake2_f input last flag =
    let m = words_at 16 68 input in
    rw
      (
        parse_h-words_at input,
        parse_m-words_at input,
        start_vector-start input last flag,
        rounds_from-flatten m 0 (from_big_endian (take 4 input)) (start input last),
      )
      (fold_back-flatten input last)

flag-cases :
    (last : ℕ)
    → last ≤ 1
    → (if last == 1 then ok true else if last == 0 then ok false else err bad_flag) ≡ ok (last == 1)
flag-cases zero flag = refl
flag-cases (suc zero) flag = refl
flag-cases (suc (suc n)) flag = absurd (omega arith)

parse_f_lem :
    (input : Bytes) (last : ℕ)
    → get_elem? input 212 ≡ some last
    → last ≤ 1
    → parse_f input ≡ ok (last == 1)
unfolding parse_f
parse_f_lem input last byte flag = rw byte (flag-cases last flag)

-- On an input of 213 bytes that ends in 0 or 1, and under a limit of a unit of gas for each round,
-- the contract returns the state that the rounds of BLAKE2b make: the mixing of the four columns
-- and then of the four diagonals of the working vector, with the message, the counters and the flag
-- for the last block at their places in the input. It has used a unit for each round. The rounds
-- are the number that the first four bytes spell.
pub exec_fn-blake2_f :
    (input : Bytes) (limit last : ℕ)
    → length input ≡ 213
    → get_elem? input 212 ≡ some last
    → last ≤ 1
    → from_big_endian (take 4 input) ≤ limit
    → exec_fn input (some limit)
      ≡ ok (state_bytes (blake2_f input last), from_big_endian (take 4 input))
unfolding exec_fn gas_cost parse_round
exec_fn-blake2_f input limit last size byte flag enough =
    let rounds = from_big_endian (take 4 input) in
    let one : rounds * 1 ≡ rounds = omega arith in
    rw (size, parse_f_lem input last byte flag, one, le→ltb limit rounds enough)
      (ap (λ h. ok (state_bytes h, rounds)) (compress-blake2_f input last flag))
