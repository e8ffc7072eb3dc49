-- ===== src/Executor/Precompiles/Ripemd160.antt =====
-- crates/executor/src/precompiles/ripemd160.rs
use rt_evm.Common.{ℕ, ◌+◌, ◌*◌, ◌/◌, Bytes, Option, ◌++◌, length, replicate}
use rt_evm.Common.Outcome.{Outcome, ok, ◌>>◌}
use rt_evm.Executor.Precompiles.Base.{Returned, charge, Hashers}

abbrev pub min_gas : ℕ
min_gas = 600

unfoldable pub gas_cost : Bytes → ℕ
gas_cost input = (length input + 31) / 32 * 120 + min_gas

module _ ⦃hashers : Hashers⦄ where
  unfoldable pub exec_fn : Bytes → Option ℕ → Outcome Returned
  unfolding gas_cost
  exec_fn input gas_limit =
      charge (gas_cost input) gas_limit
      >> ok (replicate 12 0 ++ hashers.ripemd160 input, gas_cost input)
