-- ===== src/Executor/Precompiles/Identity.antt =====
-- crates/executor/src/precompiles/identity.rs
use rt_evm.Common.{ℕ, ◌+◌, ◌*◌, ◌/◌, Bytes, Option, length}
use rt_evm.Common.Outcome.{Outcome, ok, ◌>>◌}
use rt_evm.Executor.Precompiles.Base.{Returned, charge}

abbrev pub min_gas : ℕ
min_gas = 15

unfoldable pub gas_cost : Bytes → ℕ
gas_cost input = (length input + 31) / 32 * 3 + min_gas

unfoldable pub exec_fn : Bytes → Option ℕ → Outcome Returned
unfolding gas_cost
exec_fn input gas_limit = charge (gas_cost input) gas_limit >> ok (input, gas_cost input)
