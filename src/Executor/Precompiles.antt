-- ===== src/Executor/Precompiles.antt =====
-- crates/executor/src/precompiles/mod.rs: the table of the precompiled contracts. The readers of
-- points stand with the curve contracts.
pub mod Base
pub mod Identity
pub mod Sha256
pub mod Ripemd160
pub mod ModExp
pub mod Bn128
pub mod EcRecover
pub mod Blake2F
pub mod Gas
pub mod Powers
pub mod Recovery
pub mod Compression
pub mod Rounds
use rt_evm.Common.{ℕ, Bytes, H160, Option, [], ◌∷◌}
use rt_evm.Common.Outcome.{Outcome, ok, ◌>>=◌}
use rt_evm.Common.Map.{Map, insert, lookup}
use rt_evm.Model.Rlp.{Externals}
use rt_evm.Executor.Precompiles.Base.{Returned, Hashers, Integers, Curve}
use rt_evm.Executor.Precompiles.Identity
use rt_evm.Executor.Precompiles.Sha256
use rt_evm.Executor.Precompiles.Ripemd160
use rt_evm.Executor.Precompiles.ModExp
use rt_evm.Executor.Precompiles.Bn128
use rt_evm.Executor.Precompiles.EcRecover
use rt_evm.Executor.Precompiles.Blake2F

pub data Contract : Type 0 where
  ec_recover sha256 ripemd160 identity mod_exp ec_add ec_mul ec_pairing blake2_f : Contract

-- `ADDRESS`
unfoldable pub address_of : Contract → H160
address_of ec_recover = 1
address_of sha256 = 2
address_of ripemd160 = 3
address_of identity = 4
address_of mod_exp = 5
address_of ec_add = 6
address_of ec_mul = 7
address_of ec_pairing = 8
address_of blake2_f = 9

abbrev pub PrecompileFn : Type 0
PrecompileFn = Bytes → Option ℕ → Outcome Returned

module _ ⦃ext : Externals⦄ ⦃hashers : Hashers⦄ ⦃int : Integers⦄ ⦃bn : Curve⦄ where
  unfoldable pub exec_of : Contract → PrecompileFn
  exec_of ec_recover = EcRecover.exec_fn
  exec_of sha256 = Sha256.exec_fn
  exec_of ripemd160 = Ripemd160.exec_fn
  exec_of identity = Identity.exec_fn
  exec_of mod_exp = ModExp.exec_fn
  exec_of ec_add = Bn128.add_exec_fn
  exec_of ec_mul = Bn128.mul_exec_fn
  exec_of ec_pairing = Bn128.pairing_exec_fn
  exec_of blake2_f = Blake2F.exec_fn

  -- `gas_cost` of each contract
  unfoldable pub gas_of : Contract → Bytes → Outcome ℕ
  gas_of ec_recover input = ok EcRecover.min_gas
  gas_of sha256 input = ok (Sha256.gas_cost input)
  gas_of ripemd160 input = ok (Ripemd160.gas_cost input)
  gas_of identity input = ok (Identity.gas_cost input)
  gas_of mod_exp input = ModExp.gas_cost input
  gas_of ec_add input = ok Bn128.add_min_gas
  gas_of ec_mul input = ok Bn128.mul_min_gas
  gas_of ec_pairing input = ok (Bn128.pairing_gas_cost input)
  gas_of blake2_f input = ok (Blake2F.gas_cost input)

  abbrev pub put : Contract → Map PrecompileFn → Map PrecompileFn
  put c set = insert (address_of c) (exec_of c) set

  unfoldable pub build_precompile_set : Map PrecompileFn
  build_precompile_set = put blake2_f (
      put ec_pairing (
        put ec_mul (
          put ec_add
            (put mod_exp (put identity (put ripemd160 (put sha256 (put ec_recover []))))))))
