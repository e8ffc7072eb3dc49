-- ===== src/Executor/Precompiles/Recovery.antt =====
-- The address that crates/executor/src/precompiles/ecrecover.rs returns.
use rt_evm.Common.{
  ℕ, zero, suc, ◌+◌, ◌*◌, ◌/◌, ◌%◌, ◌^◌, ◌≤◌, ◌<◌, ◌≡◌, refl, sym, ap, ◌∙◌, arith, Bytes, Option,
  some, [], ◌∷◌, ◌++◌, length, drop, drop-append, replicate, from_be, from_big_endian,
  from_be-append, to_be, length-to_be,
}
use mathlib.Core.List.{append-nil}
use native.Mathlib.Nat.{mul_left_comm}
use rt_evm.Common.Outcome.{
  ok, or_err, bad_signature, verify_failed, >>=-eq-ok, >>-eq-ok, or_err-eq-ok, ok-injective,
}
use rt_evm.Model.Rlp.{Externals}
use rt_evm.Model.Transaction.Encode.{public_to_address}
use rt_evm.Executor.Precompiles.Base.{Returned, charge, Hashers}
use rt_evm.Executor.Precompiles.EcRecover.{
  min_gas, window, recover_signature, digest_of, last_twenty, recovered, exec_fn,
}

drop-append_le : (m : ℕ) (xs ys : Bytes) → m ≤ length xs → drop m (xs ++ ys) ≡ drop m xs ++ ys
drop-append_le zero xs ys h = refl
drop-append_le (suc m) [] ys h = absurd (omega arith)
drop-append_le (suc m) (x ∷ xs) ys h = drop-append_le m xs ys (omega arith)

-- The low bytes of a number.
drop-to_be : (m k n a : ℕ) → n ≡ m + k → drop m (to_be n a) ≡ to_be k a
drop-to_be m zero n a h =
    rw (sym (append-nil (to_be n a)))
      (drop-append m (to_be n a) [] (omega (arith, h, length-to_be n a)))
drop-to_be m (suc k) zero a h = absurd (omega arith)
drop-to_be m (suc k) (suc n) a h =
    drop-append_le m (to_be n (a / 256)) (a % 256 ∷ []) (omega (arith, h, length-to_be n (a / 256)))
    ∙ ap (λ (bs : Bytes). bs ++ a % 256 ∷ []) (drop-to_be m k n (a / 256) (omega arith))

scale_left : (q k : ℕ) → q * 256 ^ suc k ≡ 256 * (q * 256 ^ k)
scale_left q k =
    let step : 256 ^ suc k ≡ 256 * 256 ^ k = omega arith in rw step (mul_left_comm q 256 (256 ^ k))

-- A number is what its `k` low bytes spell and a multiple of 256 ^ k.
low_bytes :
    (k a : ℕ)
    → (q : ℕ) × (a ≡ from_be 0 (to_be k a) + q * 256 ^ k) × (from_be 0 (to_be k a) < 256 ^ k)
low_bytes zero a = (a, omega arith, omega arith)
low_bytes (suc k) a =
    let (q, parts, small) = low_bytes k (a / 256) in
    let shown = from_be-append 0 (to_be k (a / 256)) (a % 256) in
    (q, omega (arith, parts, small, shown, scale_left q k), omega (arith, small, shown))

from_be-replicate : (k : ℕ) (bs : Bytes) → from_be 0 (replicate k 0 ++ bs) ≡ from_be 0 bs
from_be-replicate zero bs = refl
from_be-replicate (suc k) bs = from_be-replicate k bs

module _ ⦃ext : Externals⦄ ⦃hashers : Hashers⦄ where
  last_twenty_lem : (h : ℕ) → from_be 0 (last_twenty h) ≡ h % 2 ^ 160
  last_twenty_lem h =
      let (q, parts, small) = low_bytes 20 h in
      let spelled : from_be 0 (to_be 20 h) ≡ h % 2 ^ 160 = omega (arith, parts, small) in
      from_be-replicate 12 (drop 12 (to_be 32 h))
      ∙ ap (from_be 0) (drop-to_be 12 20 32 h refl)
      ∙ spelled

  -- What the contract returns is a word of 32 bytes that spells the address of a public key: one
  -- that is recovered from the first word of the input and from the signature in it, and whose
  -- address is the one that the sender of a transaction with this key has.
  pub exec_fn-public_to_address :
      (input : Bytes) (limit : Option ℕ) (out : Bytes) (gas : ℕ)
      → exec_fn input limit ≡ ok (out, gas)
      → (sig : Bytes) × (s : Bytes) × (key : Bytes) × (recover_signature (window input) ≡ some sig)
        × (hashers.recoverable sig ≡ some s)
        × (ext.recover (digest_of input) s ≡ some key)
        × (length out ≡ 32)
        × (from_big_endian out ≡ public_to_address key)
  unfolding exec_fn public_to_address
  exec_fn-public_to_address input limit out gas returned =
      let (_, after) = >>-eq-ok (charge min_gas limit) (recovered input) returned in
      let (sig, h0, rest0) =
        >>=-eq-ok (or_err (recover_signature (window input)) bad_signature) _ after in
      let (s, h1, rest1) = >>=-eq-ok (or_err (hashers.recoverable sig) verify_failed) _ rest0 in
      let (key, h2, rest2) =
        >>=-eq-ok (or_err (ext.recover (digest_of input) s) verify_failed) _ rest1 in
      let shown : last_twenty (ext.keccak key) ≡ out =
        ap (λ (r : Returned). r.0) (ok-injective rest2) in
      (
        sig,
        s,
        key,
        or_err-eq-ok (recover_signature (window input)) bad_signature h0,
        or_err-eq-ok (hashers.recoverable sig) verify_failed h1,
        or_err-eq-ok (ext.recover (digest_of input) s) verify_failed h2,
        ap length (sym shown),
        ap (from_be 0) (sym shown) ∙ last_twenty_lem (ext.keccak key),
      )
