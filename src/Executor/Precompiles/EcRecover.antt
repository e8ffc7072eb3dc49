-- ===== src/Executor/Precompiles/EcRecover.antt =====
-- crates/executor/src/precompiles/ecrecover.rs
use rt_evm.Common.{
  ℕ, ◌-◌, Bytes, Hash, Option, none, some, [], ◌∷◌, ◌&&◌, ◌||◌, ◌++◌, take, drop, get_elem?,
  replicate, list_eq, ◌==◌, if◌then◌else◌, from_big_endian, to_be, unwrap_or,
}
use rt_evm.Common.Outcome.{Outcome, ok, or_err, bad_signature, verify_failed, ◌>>=◌, ◌>>◌}
use rt_evm.Model.Rlp.{Externals}
use rt_evm.Executor.Precompiles.Base.{Returned, charge, slice, Hashers}

abbrev pub min_gas : ℕ
min_gas = 3_000

-- The first 128 bytes, filled up on the right with zeros.
unfoldable pub window : Bytes → Bytes
window origin_input = take 128 (origin_input ++ replicate 128 0)

-- `r` and `s` with the recovery id; `v` is a word of 27 or 28.
unfoldable pub recover_signature : Bytes → Option Bytes
recover_signature input =
    let tmp = slice 32 32 input in
    let last = unwrap_or (get_elem? tmp 31) 0 in
    if (last == 27 || last == 28) && list_eq (take 31 tmp) (replicate 31 0)
    then some (slice 64 64 input ++ (last - 27) ∷ [])
    else none

-- The signed hash, the first word.
abbrev pub digest_of : Bytes → Hash
digest_of origin_input = from_big_endian (take 32 (window origin_input))

module _ ⦃ext : Externals⦄ ⦃hashers : Hashers⦄ where
  -- The 32 bytes of a hash, with zeros for the first twelve.
  abbrev pub last_twenty : ℕ → Bytes
  last_twenty h = replicate 12 0 ++ drop 12 (to_be 32 h)

  -- What follows the charge.
  abbrev pub recovered : Bytes → Outcome Returned
  recovered origin_input = do
    sig ← or_err (recover_signature (window origin_input)) bad_signature
    s ← or_err (hashers.recoverable sig) verify_failed
    p ← or_err (ext.recover (digest_of origin_input) s) verify_failed
    ok (last_twenty (ext.keccak p), min_gas)

  unfoldable pub exec_fn : Bytes → Option ℕ → Outcome Returned
  exec_fn origin_input gas_limit = charge min_gas gas_limit >> recovered origin_input
