-- ===== src/Common/Outcome.antt =====
-- Results. A call returns a value, returns an error (one constructor for each message or error of
-- the code), or panics (`pnk!`, `unwrap`, an index out of range).
use Prim.Native.Nat.{ℕ}
use mathlib.Core.Option.{Option, none, some}
use mathlib.Core.List.{List}
use mathlib.Core.Bool.{Bool, true, false}
use mathlib.Core.Path.{◌≡◌, refl}
use mathlib.Core.Logic.{◌≢◌}

pub data Error : Type 0 where
  mempool_full already_cached gas_price_zero gas_price_limit gas_limit_low gas_limit_high : Error
  tx_hash_mismatch unsigned crypto signature_failed invalid_nonce insufficient_balance : Error
  historical_tx no_blocks request_too_large not_found block_missing trie_failure bad_codec : Error
  block_rejected hash_mismatch : Error
  out_of_gas bad_length too_large overflow exec_failed bad_coordinate not_on_curve : Error
  bad_field bad_sum bad_flag bad_signature verify_failed bad_request : Error
  -- with the message that the call answers
  call_failed : List ℕ → Error
  bad_meta write_failed bad_hex bad_prefix bad_checksum bad_public_key : Error

pub data Outcome {ℓ} (A : Type ℓ) : Type ℓ where
  ok : A → Outcome A
  err : Error → Outcome A
  panic : Outcome A

infixl 5 ◌>>=◌ ◌>>◌
abbrev pub ◌>>=◌ {ℓ κ} : {A : Type ℓ} {B : Type κ} → Outcome A → (A → Outcome B) → Outcome B
ok a >>= f = f a
err e >>= f = err e
panic >>= f = panic

abbrev pub ◌>>◌ {ℓ} : {B : Type ℓ} → Outcome (Unit {0}) → Outcome B → Outcome B
m >> k = m >>= λ _. k

-- `if test { return Err(e); }`
abbrev pub reject_if : Bool → Error → Outcome (Unit {0})
reject_if true e = err e
reject_if false e = ok tt

-- `.c(d!())?` and `ok_or` on an `Option`
abbrev pub or_err {ℓ} : {A : Type ℓ} → Option A → Error → Outcome A
or_err none e = err e
or_err (some a) e = ok a

-- `pnk!` and `unwrap` on a result
abbrev pub or_panic {ℓ} : {A : Type ℓ} → Outcome A → Outcome A
or_panic (ok a) = ok a
or_panic (err e) = panic
or_panic panic = panic

-- A chain that returns a value has a first part that does, and the rest returns it.
pub >>=-eq-ok {ℓ κ} :
    {A : Type ℓ} {B : Type κ} (first : Outcome A) (rest : A → Outcome B) {out : B}
    → (first >>= rest) ≡ ok out
    → (v : A) × (first ≡ ok v) × (rest v ≡ ok out)
>>=-eq-ok panic rest returns = cc
>>=-eq-ok (err e) rest returns = cc
>>=-eq-ok (ok v) rest returns = (v, refl, returns)

-- Inversion of a chain of guards.
pub reject_if-eq-ok {ℓ} :
    {B : Type ℓ} (t : Bool) (e : Error) (k : Outcome B) {b : B}
    → (reject_if t e >> k) ≡ ok b
    → (t ≡ false) × (k ≡ ok b)
reject_if-eq-ok true e k h = cc
reject_if-eq-ok false e k h = (refl, h)

pub >>-eq-ok {ℓ} :
    {B : Type ℓ} (m : Outcome (Unit {0})) (k : Outcome B) {b : B}
    → (m >> k) ≡ ok b
    → (m ≡ ok tt) × (k ≡ ok b)
>>-eq-ok (ok tt) k h = (refl, h)
>>-eq-ok (err e) k h = cc
>>-eq-ok panic k h = cc

pub reject_if-eq-tt : (t : Bool) (e : Error) → reject_if t e ≡ ok tt → t ≡ false
reject_if-eq-tt true e h = cc
reject_if-eq-tt false e h = refl

pub ok-injective {ℓ} : {A : Type ℓ} {x y : A} → ok x ≡ ok y → x ≡ y
ok-injective h = cc

pub ok-no_panic {ℓ} : {A : Type ℓ} (x : A) → ok x ≢ panic
ok-no_panic x same = cc

pub or_panic-eq-ok {ℓ} : {A : Type ℓ} (m : Outcome A) {a : A} → or_panic m ≡ ok a → m ≡ ok a
or_panic-eq-ok (ok a) h = h
or_panic-eq-ok (err e) h = cc
or_panic-eq-ok panic h = cc

pub or_err-eq-ok {ℓ} :
    {A : Type ℓ} (o : Option A) (e : Error) {a : A} → or_err o e ≡ ok a → o ≡ some a
or_err-eq-ok none e h = cc
or_err-eq-ok (some a) e h = cc
