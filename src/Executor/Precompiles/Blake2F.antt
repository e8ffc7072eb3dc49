-- ===== src/Executor/Precompiles/Blake2F.antt =====
-- crates/executor/src/precompiles/blake2_f.rs. The vectors of the compression are lists; an index
-- is always in range.
use Prim.Native.Nat.{bit_xor}
use rt_evm.Common.{
  ℕ, zero, suc, ◌+◌, ◌-◌, ◌*◌, ◌/◌, ◌%◌, ◌^◌, Bytes, Option, List, [], ◌∷◌, Bool, true, false, ◌++◌,
  length, take, drop, get_elem?, ◌==◌, not, if◌then◌else◌, from_big_endian, to_be, unwrap_or,
  u64_mod, u64_max,
}
use mathlib.Core.List.{reverse}
use rt_evm.Common.Outcome.{Outcome, ok, err, reject_if, bad_length, bad_flag, ◌>>=◌, ◌>>◌}
use rt_evm.Executor.Precompiles.Base.{Returned, charge, slice}

abbrev pub gas_per_round : ℕ
gas_per_round = 1

abbrev pub input_len : ℕ
input_len = 213

-- `from_le_bytes` and `to_le_bytes`
abbrev pub from_le : Bytes → ℕ
from_le bs = from_big_endian (reverse bs)

abbrev pub to_le : ℕ → Bytes
to_le n = reverse (to_be 8 n)

unfoldable pub parse_round : Bytes → ℕ
parse_round input = from_big_endian (slice 0 4 input)

-- `n` words of eight bytes
unfoldable pub words : ℕ → Bytes → List ℕ
words zero bs = []
words (suc n) bs = from_le (take 8 bs) ∷ words n (drop 8 bs)

unfoldable pub parse_h : Bytes → List ℕ
unfolding words
parse_h input = words 8 (slice 4 64 input)

unfoldable pub parse_m : Bytes → List ℕ
unfolding words
parse_m input = words 16 (slice 68 128 input)

unfoldable pub parse_t : Bytes → ℕ × ℕ
parse_t input = (from_le (slice 196 8 input), from_le (slice 204 8 input))

abbrev pub sigma : List (List ℕ)
sigma =
    (0 ∷ 1 ∷ 2 ∷ 3 ∷ 4 ∷ 5 ∷ 6 ∷ 7 ∷ 8 ∷ 9 ∷ 10 ∷ 11 ∷ 12 ∷ 13 ∷ 14 ∷ 15 ∷ [])
    ∷ (14 ∷ 10 ∷ 4 ∷ 8 ∷ 9 ∷ 15 ∷ 13 ∷ 6 ∷ 1 ∷ 12 ∷ 0 ∷ 2 ∷ 11 ∷ 7 ∷ 5 ∷ 3 ∷ [])
    ∷ (11 ∷ 8 ∷ 12 ∷ 0 ∷ 5 ∷ 2 ∷ 15 ∷ 13 ∷ 10 ∷ 14 ∷ 3 ∷ 6 ∷ 7 ∷ 1 ∷ 9 ∷ 4 ∷ [])
    ∷ (7 ∷ 9 ∷ 3 ∷ 1 ∷ 13 ∷ 12 ∷ 11 ∷ 14 ∷ 2 ∷ 6 ∷ 5 ∷ 10 ∷ 4 ∷ 0 ∷ 15 ∷ 8 ∷ [])
    ∷ (9 ∷ 0 ∷ 5 ∷ 7 ∷ 2 ∷ 4 ∷ 10 ∷ 15 ∷ 14 ∷ 1 ∷ 11 ∷ 12 ∷ 6 ∷ 8 ∷ 3 ∷ 13 ∷ [])
    ∷ (2 ∷ 12 ∷ 6 ∷ 10 ∷ 0 ∷ 11 ∷ 8 ∷ 3 ∷ 4 ∷ 13 ∷ 7 ∷ 5 ∷ 15 ∷ 14 ∷ 1 ∷ 9 ∷ [])
    ∷ (12 ∷ 5 ∷ 1 ∷ 15 ∷ 14 ∷ 13 ∷ 4 ∷ 10 ∷ 0 ∷ 7 ∷ 6 ∷ 3 ∷ 9 ∷ 2 ∷ 8 ∷ 11 ∷ [])
    ∷ (13 ∷ 11 ∷ 7 ∷ 14 ∷ 12 ∷ 1 ∷ 3 ∷ 9 ∷ 5 ∷ 0 ∷ 15 ∷ 4 ∷ 8 ∷ 6 ∷ 2 ∷ 10 ∷ [])
    ∷ (6 ∷ 15 ∷ 14 ∷ 9 ∷ 11 ∷ 3 ∷ 0 ∷ 8 ∷ 12 ∷ 2 ∷ 13 ∷ 7 ∷ 1 ∷ 4 ∷ 10 ∷ 5 ∷ [])
    ∷ (10 ∷ 2 ∷ 8 ∷ 4 ∷ 7 ∷ 6 ∷ 1 ∷ 5 ∷ 15 ∷ 11 ∷ 9 ∷ 14 ∷ 3 ∷ 12 ∷ 13 ∷ 0 ∷ [])
    ∷ []

abbrev pub iv : List ℕ
iv =
    0x6a09e667f3bcc908 ∷ 0xbb67ae8584caa73b ∷ 0x3c6ef372fe94f82b ∷ 0xa54ff53a5f1d36f1
    ∷ 0x510e527fade682d1 ∷ 0x9b05688c2b3e6c1f ∷ 0x1f83d9abfb41bd6b ∷ 0x5be0cd19137e2179 ∷ []

-- `v[i]`, and an assignment to it
abbrev pub at : List ℕ → ℕ → ℕ
at v i = unwrap_or (get_elem? v i) 0

abbrev pub set : List ℕ → ℕ → ℕ → List ℕ
set [] i x = []
set (y ∷ ys) zero x = x ∷ ys
set (y ∷ ys) (suc i) x = y ∷ set ys i x

abbrev pub wrapping_add : ℕ → ℕ → ℕ
wrapping_add a b = (a + b) % u64_mod

-- For a `u64` and a distance of 1 to 63.
abbrev pub rotate_right : ℕ → ℕ → ℕ
rotate_right x n = x / 2 ^ n + x % 2 ^ n * 2 ^ (64 - n)

unfoldable pub g : List ℕ → ℕ → ℕ → ℕ → ℕ → ℕ → ℕ → List ℕ
g v0 a b c d x y =
    let v1 = set v0 a (wrapping_add (wrapping_add (at v0 a) (at v0 b)) x) in
    let v2 = set v1 d (rotate_right (bit_xor (at v1 d) (at v1 a)) 32) in
    let v3 = set v2 c (wrapping_add (at v2 c) (at v2 d)) in
    let v4 = set v3 b (rotate_right (bit_xor (at v3 b) (at v3 c)) 24) in
    let v5 = set v4 a (wrapping_add (wrapping_add (at v4 a) (at v4 b)) y) in
    let v6 = set v5 d (rotate_right (bit_xor (at v5 d) (at v5 a)) 16) in
    let v7 = set v6 c (wrapping_add (at v6 c) (at v6 d)) in
    set v7 b (rotate_right (bit_xor (at v7 b) (at v7 c)) 63)

-- The body of the loop at index `i`.
unfoldable pub one_round : List ℕ → ℕ → List ℕ → List ℕ
unfolding g
one_round m i v =
    let s = unwrap_or (get_elem? sigma (i % 10)) [] in
    let w = λ (j : ℕ). at m (at s j) in
    let v1 = g v 0 4 8 12 (w 0) (w 1) in
    let v2 = g v1 1 5 9 13 (w 2) (w 3) in
    let v3 = g v2 2 6 10 14 (w 4) (w 5) in
    let v4 = g v3 3 7 11 15 (w 6) (w 7) in
    let v5 = g v4 0 5 10 15 (w 8) (w 9) in
    let v6 = g v5 1 6 11 12 (w 10) (w 11) in
    let v7 = g v6 2 7 8 13 (w 12) (w 13) in g v7 3 4 9 14 (w 14) (w 15)

-- `n` rounds from index `i` on
unfoldable pub rounds_from : List ℕ → ℕ → ℕ → List ℕ → List ℕ
rounds_from m i zero v = v
rounds_from m i (suc n) v = rounds_from m (suc i) n (one_round m i v)

-- `h[i] ^= v[i] ^ v[i + 8]`, from index `i` on
unfoldable pub fold_back : List ℕ → ℕ → List ℕ → List ℕ
fold_back v i [] = []
fold_back v i (x ∷ xs) = bit_xor x (bit_xor (at v i) (at v (i + 8))) ∷ fold_back v (suc i) xs

unfoldable pub start_vector : List ℕ → ℕ × ℕ → Bool → List ℕ
start_vector h t f =
    let v0 = h ++ iv in
    let v1 = set v0 12 (bit_xor (at v0 12) t.0) in
    let v2 = set v1 13 (bit_xor (at v1 13) t.1) in if f then set v2 14 (u64_max - at v2 14) else v2

unfoldable pub compress : List ℕ → List ℕ → ℕ × ℕ → Bool → ℕ → List ℕ
compress h m t f rounds = fold_back (rounds_from m 0 rounds (start_vector h t f)) 0 h

unfoldable pub gas_cost : Bytes → ℕ
gas_cost input = parse_round input * gas_per_round

-- Byte 212.
unfoldable pub parse_f : Bytes → Outcome Bool
parse_f input =
    let b = unwrap_or (get_elem? input 212) 0 in
    if b == 1 then ok true else if b == 0 then ok false else err bad_flag

abbrev pub state_bytes : List ℕ → Bytes
state_bytes [] = []
state_bytes (x ∷ xs) = to_le x ++ state_bytes xs

-- What follows the charge.
abbrev pub compressed : Bytes → Outcome Returned
compressed input = do
  f ← parse_f input
  ok (
    state_bytes (compress (parse_h input) (parse_m input) (parse_t input) f (parse_round input)),
    gas_cost input,
  )

unfoldable pub exec_fn : Bytes → Option ℕ → Outcome Returned
exec_fn input gas_limit =
    reject_if (not (length input == input_len)) bad_length
    >> (charge (gas_cost input) gas_limit >> compressed input)
