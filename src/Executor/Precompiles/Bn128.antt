-- ===== src/Executor/Precompiles/Bn128.antt =====
-- crates/executor/src/precompiles/ec_add.rs, ec_mul.rs and ec_pairing.rs, and the readers
-- `read_point` and `read_fr` of crates/executor/src/precompiles/mod.rs.
use rt_evm.Common.{
  ℕ, zero, suc, ◌+◌, ◌*◌, ◌/◌, Bytes, Option, none, some, List, [], ◌∷◌, Bool, ◌&&◌, ◌++◌, length,
  replicate, ltb, if◌then◌else◌, to_be,
}
use rt_evm.Common.Outcome.{
  Outcome, ok, or_err, reject_if, bad_length, bad_coordinate, not_on_curve, bad_field, bad_sum,
  ◌>>=◌, ◌>>◌,
}
use rt_evm.Executor.Precompiles.Base.{Returned, charge, slice, Curve}

abbrev pub add_min_gas : ℕ
add_min_gas = 150

abbrev pub mul_min_gas : ℕ
mul_min_gas = 6_000

abbrev pub pairing_min_gas : ℕ
pairing_min_gas = 45_000

abbrev pub gas_per_pairing : ℕ
gas_per_pairing = 34_000

abbrev pub group_args_len : ℕ
group_args_len = 192

unfoldable pub pairing_gas_cost : Bytes → ℕ
pairing_gas_cost input = length input / group_args_len * gas_per_pairing + pairing_min_gas

module _ ⦃bn : Curve⦄ where
  unfoldable pub read_point : Bytes → ℕ → Outcome bn.G1
  read_point input start = do
    reject_if (ltb (length input) (start + 64)) bad_length
    px ← or_err (bn.fq_from_slice (slice start 32 input)) bad_coordinate
    py ← or_err (bn.fq_from_slice (slice (start + 32) 32 input)) bad_coordinate
    if bn.is_zero px && bn.is_zero py then ok bn.g1_zero else or_err (bn.g1_new px py) not_on_curve

  unfoldable pub read_fr : Bytes → ℕ → Outcome bn.Fr
  read_fr input start =
      reject_if (ltb (length input) (start + 32)) bad_length
      >> or_err (bn.fr_from_slice (slice start 32 input)) bad_field

  -- The two coordinates of a sum, or zeros at infinity.
  unfoldable pub point_bytes : Option (bn.Fq × bn.Fq) → Outcome Bytes
  point_bytes none = ok (replicate 64 0)
  point_bytes (some (x, y)) = or_err (bn.to_big_endian x) bad_sum >>= λ xs.
      or_err (bn.to_big_endian y) bad_sum >>= λ ys. ok (xs ++ ys)

  -- What follows the charge.
  abbrev pub sum_of : Bytes → Outcome Returned
  sum_of input = do
    p1 ← read_point input 0
    p2 ← read_point input 64
    res ← point_bytes (bn.from_jacobian (bn.add p1 p2))
    ok (res, add_min_gas)

  unfoldable pub add_exec_fn : Bytes → Option ℕ → Outcome Returned
  add_exec_fn input gas_limit = charge add_min_gas gas_limit >> sum_of input

  abbrev pub product_of : Bytes → Outcome Returned
  product_of input = do
    p ← read_point input 0
    fr ← read_fr input 64
    res ← point_bytes (bn.from_jacobian (bn.mul p fr))
    ok (res, mul_min_gas)

  unfoldable pub mul_exec_fn : Bytes → Option ℕ → Outcome Returned
  mul_exec_fn input gas_limit = charge mul_min_gas gas_limit >> product_of input

  abbrev pub coordinate : Bytes → ℕ → ℕ → Outcome bn.Fq
  coordinate input i offset =
      or_err (bn.fq_from_slice (slice (i * group_args_len + offset) 32 input)) bad_coordinate

  -- The pair of points in group `i` of the input.
  unfoldable pub pair_at : Bytes → ℕ → Outcome (bn.G1 × bn.G2)
  pair_at input i = do
    a_x ← coordinate input i 0
    a_y ← coordinate input i 32
    b_a_y ← coordinate input i 64
    b_a_x ← coordinate input i 96
    b_b_y ← coordinate input i 128
    b_b_x ← coordinate input i 160
    a ←
        if bn.is_zero a_x && bn.is_zero a_y
        then ok bn.g1_zero
        else or_err (bn.g1_new a_x a_y) not_on_curve
    b ←
        if (bn.is_zero b_a_x && bn.is_zero b_a_y) && (bn.is_zero b_b_x && bn.is_zero b_b_y)
        then ok bn.g2_zero
        else or_err (bn.g2_new (b_a_x, b_a_y) (b_b_x, b_b_y)) not_on_curve
    ok (a, b)

  -- The groups from `i` on, of which `n` are left.
  unfoldable pub pairs_from : Bytes → ℕ → ℕ → Outcome (List (bn.G1 × bn.G2))
  pairs_from input i zero = ok []
  pairs_from input i (suc n) =
      pair_at input i >>= λ p. pairs_from input (suc i) n >>= λ ps. ok (p ∷ ps)

  abbrev pub bit_word : Bool → Bytes
  bit_word b = to_be 32 (if b then 1 else 0)

  abbrev pub pairing_of : Bytes → Outcome Returned
  pairing_of input = pairs_from input 0 (length input / group_args_len) >>= λ pairs.
      ok (bit_word (bn.pairing_is_one pairs), pairing_gas_cost input)

  -- Without input the result costs the minimum, whatever the limit is.
  unfoldable pub pairing_exec_fn : Bytes → Option ℕ → Outcome Returned
  pairing_exec_fn [] gas_limit = ok (to_be 32 1, pairing_min_gas)
  pairing_exec_fn (b ∷ bs) gas_limit =
      charge (pairing_gas_cost (b ∷ bs)) gas_limit >> pairing_of (b ∷ bs)
