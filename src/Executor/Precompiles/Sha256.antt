-- ===== src/Executor/Precompiles/Sha256.antt =====
-- crates/executor/src/precompiles/sha256.rs
use rt_evm.Common.{ℕ, ◌+◌, ◌*◌, ◌/◌, Bytes, Option, length}
use rt_evm.Common.Outcome.{Outcome, ok, ◌>>◌}
use rt_evm.Executor.Precompiles.Base.{Returned, charge, Hashers}

abbrev pub min_gas : ℕ
min_gas = 60

unfoldable pub gas_cost : Bytes → ℕ
gas_cost input = (length input + 31) / 32 * 12 + min_gas

module _ ⦃hashers : Hashers⦄ where
  unfoldable pub exec_fn : Bytes → Option ℕ → Outcome Returned
  unfolding gas_cost
  exec_fn input gas_limit =
      charge (gas_cost input) gas_limit >> ok (hashers.sha256 input, gas_cost input)
