-- ===== src/Executor/Precompiles/ModExp.antt =====
-- crates/executor/src/precompiles/modexp.rs. Differences of `u32` wrap around, as in a build
-- without overflow checks.
use rt_evm.Common.{
  ℕ, ◌+◌, ◌-◌, ◌*◌, ◌/◌, ◌%◌, ◌^◌, max, Bytes, Option, Bool, true, false, ◌&&◌, ◌++◌, length, drop,
  replicate, ltb, leb, ◌==◌, if◌then◌else◌, u64_mod,
}
use rt_evm.Common.Outcome.{
  Outcome, ok, panic, or_panic, or_err, reject_if, bad_length, too_large, overflow, exec_failed,
  ◌>>=◌, ◌>>◌,
}
use rt_evm.Executor.Precompiles.Base.{Returned, charge, slice, Integers}

abbrev pub min_gas : ℕ
min_gas = 200

abbrev pub max_num_size : ℕ
max_num_size = 1024

pub record LargeNumber : Type 0 where
  pub b_size : ℕ
  pub e_size : ℕ
  pub m_size : ℕ
  pub base : ℕ
  pub exponent : ℕ
  pub modulo : ℕ

module _ ⦃int : Integers⦄ where
  unfoldable pub parse_big_uint : Bytes → Bool → Outcome ℕ
  parse_big_uint input is_parse_size =
      let res = int.from_digits input in
      reject_if (is_parse_size && ltb max_num_size res) too_large >> ok res

  -- The modulus is read from all that follows the exponent.
  unfoldable pub parse : Bytes → Outcome LargeNumber
  parse input = do
    reject_if (ltb (length input) 96) bad_length
    base_size ← parse_big_uint (slice 0 32 input) true
    exponent_size ← parse_big_uint (slice 32 32 input) true
    modulo_size ← parse_big_uint (slice 64 32 input) true
    reject_if (ltb (length input) (base_size + exponent_size + modulo_size + 96)) bad_length
    base ← parse_big_uint (slice 96 base_size input) false
    exponent ← parse_big_uint (slice (96 + base_size) exponent_size input) false
    modulo ← parse_big_uint (drop (96 + base_size + exponent_size) input) false
    ok (record {
      b_size = base_size;
      e_size = exponent_size;
      m_size = modulo_size;
      base = base;
      exponent = exponent;
      modulo = modulo;
    })

  unfoldable pub multiplication_complexity : LargeNumber → ℕ
  multiplication_complexity n = ((max n.b_size n.m_size + 7) / 8) ^ 2

  -- `significant_bits() - 1` of a `u32`
  abbrev pub top_bit : ℕ → ℕ
  top_bit x = (int.significant_bits x + 2 ^ 32 - 1) % 2 ^ 32

  unfoldable pub iterator_count : LargeNumber → ℕ
  iterator_count n =
      max
        (if leb n.e_size 32 && n.exponent == 0
          then 0
          else if leb n.e_size 32
          then top_bit n.exponent
          else 8 * (n.e_size - 32) + top_bit (n.exponent % 2 ^ 256))
        1

  -- `unwrapped_as` panics on a number that does not fit.
  abbrev pub unwrapped_as : ℕ → Outcome ℕ
  unwrapped_as n = if leb u64_mod n then panic else ok n

  abbrev pub dynamic_gas : LargeNumber → ℕ
  dynamic_gas n = multiplication_complexity n * iterator_count n / 3

  unfoldable pub gas_cost : Bytes → Outcome ℕ
  gas_cost input = or_panic (parse input) >>= λ n. unwrapped_as (max (dynamic_gas n) min_gas)

  unfoldable pub calc : LargeNumber → Outcome ℕ
  calc n =
      if n.b_size == 0 && n.m_size == 0
      then ok 0
      else or_err (int.pow_mod n.base n.exponent n.modulo) overflow

  -- The digits of the result, filled up on the left.
  abbrev pub padded : ℕ → Bytes → Bytes
  padded m_size res =
      if ltb (length res) m_size then replicate (m_size - length res) 0 ++ res else res

  -- What follows the charge.
  abbrev pub power : LargeNumber → ℕ → Outcome Returned
  power n gas = do
    value ← calc n
    let res = int.to_digits value
    reject_if (ltb n.m_size (length res)) exec_failed
    ok (padded n.m_size res, gas)

  unfoldable pub exec_fn : Bytes → Option ℕ → Outcome Returned
  exec_fn input gas_limit =
      parse input >>= λ n. gas_cost input >>= λ gas. charge gas gas_limit >> power n gas
