-- ===== src/Common/Words.antt =====
-- Machine words. A `u64` is a number below 2 ^ 64, a `U256` one below 2 ^ 256; a byte slice is a
-- list of numbers below 256. `H160` and `H256` are the numbers that their bytes stand for.
use Prim.Native.Nat.{zero, suc, ◌/◌, ◌%◌, ◌<◌, ℕ, ◌+◌, ◌-◌, ◌*◌, ◌^◌, ◌≤◌}
use mathlib.Core.Path.{◌≡◌, refl, sym, ap, ◌∙◌}
use mathlib.Core.List.{◌++◌, List, [], ◌∷◌, append-nil, append_assoc}
use mathlib.Core.Option.{Option, none, some}
use native.Mathlib.Omega.{arith}
use rt_evm.Common.Lists.{length, length-append, All}
use rt_evm.Common.Logic.{leb, if◌then◌else◌}

abbrev pub Bytes : Type 0
Bytes = List ℕ

abbrev pub Hash : Type 0
Hash = ℕ

abbrev pub H160 : Type 0
H160 = ℕ

abbrev pub U256 : Type 0
U256 = ℕ

abbrev pub u64_mod : ℕ
u64_mod = 2 ^ 64

abbrev pub u64_max : ℕ
u64_max = 0xffff_ffff_ffff_ffff

abbrev pub u256_mod : ℕ
u256_mod = 2 ^ 256

abbrev pub u256_max : ℕ
u256_max = 0xffff_ffff_ffff_ffff_ffff_ffff_ffff_ffff_ffff_ffff_ffff_ffff_ffff_ffff_ffff_ffff

abbrev pub nil_hash : Hash
nil_hash = 0

-- `saturating_add`, `saturating_mul` and `saturating_sub` of `U256`.
abbrev pub saturating_add : U256 → U256 → U256
saturating_add a b = if leb (a + b) u256_max then a + b else u256_max

abbrev pub saturating_mul : U256 → U256 → U256
saturating_mul a b = if leb (a * b) u256_max then a * b else u256_max

abbrev pub saturating_sub : U256 → U256 → U256
saturating_sub a b = a - b

-- `checked_add` and `checked_mul` of `U256`.
abbrev pub checked_add : U256 → U256 → Option U256
checked_add a b = if leb (a + b) u256_max then some (a + b) else none

abbrev pub checked_mul : U256 → U256 → Option U256
checked_mul a b = if leb (a * b) u256_max then some (a * b) else none

-- The number that a big-endian byte string stands for, over what was read before.
abbrev pub from_be : ℕ → Bytes → ℕ
from_be acc [] = acc
from_be acc (b ∷ bs) = from_be (acc * 256 + b) bs

abbrev pub from_big_endian : Bytes → ℕ
from_big_endian bs = from_be 0 bs

pub saturating_mul_bounds :
    (a b : ℕ) → (saturating_mul a b ≤ a * b) × (saturating_mul a b ≤ u256_max)
saturating_mul_bounds a b = ground arith

-- The `n` low bytes of a number, most significant first.
abbrev pub to_be : ℕ → ℕ → Bytes
to_be zero a = []
to_be (suc n) a = to_be n (a / 256) ++ a % 256 ∷ []

pub from_be-append :
    (acc : ℕ) (xs : Bytes) (b : ℕ) → from_be acc (xs ++ b ∷ []) ≡ from_be acc xs * 256 + b
from_be-append acc [] b = refl
from_be-append acc (x ∷ xs) b = from_be-append (acc * 256 + x) xs b

pub from_be-to_be : (n a : ℕ) → a < 256 ^ n → from_be 0 (to_be n a) ≡ a
from_be-to_be zero a h = omega arith
from_be-to_be (suc n) a h =
    rw (from_be-append 0 (to_be n (a / 256)) (a % 256), from_be-to_be n (a / 256) (omega arith))
      (omega arith)

to_be-from_be_acc :
    (k acc : ℕ) (bs : Bytes) (n : ℕ)
    → n ≡ length bs + k
    → All (λ b. b < 256) bs
    → to_be n (from_be acc bs) ≡ to_be k acc ++ bs
to_be-from_be_acc k acc [] n e h =
    let same : n ≡ k = omega (arith, e) in rw (same, append-nil (to_be k acc)) refl
to_be-from_be_acc k acc (b ∷ bs) n e h =
    let high : (acc * 256 + b) / 256 ≡ acc = omega arith in
    let low : (acc * 256 + b) % 256 ≡ b = omega arith in
    to_be-from_be_acc (suc k) (acc * 256 + b) bs n (omega (arith, e)) h.1
    ∙ rw (high, low) (append_assoc (to_be k acc) (b ∷ []) bs)

pub to_be-from_be : (bs : Bytes) → All (λ b. b < 256) bs → to_be (length bs) (from_be 0 bs) ≡ bs
to_be-from_be bs h = to_be-from_be_acc 0 0 bs (length bs) (omega arith) h

scale : (c n : ℕ) → c * 256 * 256 ^ n ≡ c * 256 ^ suc n
scale c n = let step : 256 ^ suc n ≡ 256 * 256 ^ n = omega arith in rw step (grind arith)

from_be-lt_acc :
    (c acc : ℕ) (bs : Bytes)
    → acc < c
    → All (λ b. b < 256) bs
    → from_be acc bs < c * 256 ^ length bs
from_be-lt_acc c acc [] h a = omega arith
from_be-lt_acc c acc (b ∷ bs) h a =
    rw (sym (scale c (length bs))) (from_be-lt_acc (c * 256) (acc * 256 + b) bs (omega arith) a.1)

pub from_be-lt : (bs : Bytes) → All (λ b. b < 256) bs → from_be 0 bs < 256 ^ length bs
from_be-lt bs h = omega (arith, from_be-lt_acc 1 0 bs (omega arith) h)

pub length-to_be : (n a : ℕ) → length (to_be n a) ≡ n
length-to_be zero a = refl
length-to_be (suc n) a =
    omega (arith, length-append (to_be n (a / 256)) (a % 256 ∷ []), length-to_be n (a / 256))

-- The bytes of an `H160`.
abbrev pub address_bytes : H160 → Bytes
address_bytes a = to_be 20 a

pub address_bytes_injective :
    (a b : H160) → a < 2 ^ 160 → b < 2 ^ 160 → address_bytes a ≡ address_bytes b → a ≡ b
address_bytes_injective a b ha hb e =
    sym (from_be-to_be 20 a (omega arith)) ∙ ap (from_be 0) e ∙ from_be-to_be 20 b (omega arith)
