-- ===== src/Model/Text.antt =====
-- Texts as lists of code points, for crates/model/src/types/primitive.rs, with what that file uses of
-- the standard library on them and of the crate faster_hex.
pub mod Hex
pub mod Address
use rt_evm.Common.{
  ℕ, ◌+◌, ◌-◌, ◌*◌, ◌/◌, ◌%◌, ◌≤◌, ◌<◌, ◌≡◌, Bytes, Option, none, some, List, [], ◌∷◌, ◌++◌, map,
  length, drop, Bool, true, false, ◌&&◌, ◌||◌, leb, ltb, ◌==◌, if◌then◌else◌, All,
}
use rt_evm.Common.Outcome.{Outcome, ok, or_err, bad_hex, ◌>>=◌}

abbrev pub Text : Type 0
Text = List ℕ

-- The bytes of one code point in UTF-8.
abbrev pub char_bytes : ℕ → Bytes
char_bytes c =
    if ltb c 0x80
    then c ∷ []
    else if ltb c 0x800
    then (0xc0 + c / 64) ∷ (0x80 + c % 64) ∷ []
    else if ltb c 0x10000
    then (0xe0 + c / 4096) ∷ (0x80 + c / 64 % 64) ∷ (0x80 + c % 64) ∷ []
    else (0xf0 + c / 262144) ∷ (0x80 + c / 4096 % 64) ∷ (0x80 + c / 64 % 64) ∷ (0x80 + c % 64) ∷ []

unfoldable pub utf8 : Text → Bytes
utf8 [] = []
utf8 (c ∷ s) = char_bytes c ++ utf8 s

unfoldable pub starts_with : Text → Text → Bool
starts_with s [] = true
starts_with [] (p ∷ ps) = false
starts_with (c ∷ s) (p ∷ ps) = (c == p) && starts_with s ps

abbrev pub hex_prefix : Text
hex_prefix = 48 ∷ 120 ∷ []

abbrev pub hex_prefix_upper : Text
hex_prefix_upper = 48 ∷ 88 ∷ []

-- `trim_start_matches("0x")`
unfoldable pub trim_0x : Text → Text
trim_0x [] = []
trim_0x (a ∷ []) = a ∷ []
trim_0x (a ∷ b ∷ s) = let rest = trim_0x s in if (a == 48) && (b == 120) then rest else a ∷ b ∷ s

-- The value of a digit, as `from_str_radix` with 16 reads a text of one character.
unfoldable pub digit_value : ℕ → Option ℕ
digit_value c =
    if leb 48 c && leb c 57
    then some (c - 48)
    else if leb 97 c && leb c 102
    then some (c - 87)
    else if leb 65 c && leb c 70
    then some (c - 55)
    else none

abbrev pub ascii_lower : ℕ → ℕ
ascii_lower c = if leb 65 c && leb c 90 then c + 32 else c

abbrev pub ascii_upper : ℕ → ℕ
ascii_upper c = if leb 97 c && leb c 122 then c - 32 else c

-- The tables of letters of the standard library.
pub record Letters : Type 0 where
  pub to_lowercase : Text → Text
  pub to_uppercase : ℕ → Text

abbrev pub IsAscii : Text → Type 0
IsAscii s = All (λ c. c < 128) s

-- On ASCII the tables are those of the letters from A to Z.
pub record LettersLaws (letters : Letters) : Type 0 where
  pub lower_ascii : (s : Text) → IsAscii s → letters.to_lowercase s ≡ map ascii_lower s
  pub upper_ascii : (c : ℕ) → c < 128 → letters.to_uppercase c ≡ ascii_upper c ∷ []

-- The crate faster_hex: `hex_string`, and `hex_decode` into a buffer of half the length
pub record HexCode : Type 0 where
  pub hex_string : Bytes → Text
  pub from_hex : Bytes → Option Bytes

-- A digit that `hex_string` writes: 0 to 9 or a to f.
abbrev pub IsDigit : ℕ → Type 0
IsDigit c = (leb 48 c && leb c 57) || (leb 97 c && leb c 102) ≡ true

pub record HexLaws (code : HexCode) : Type 0 where
  pub digits : (bs : Bytes) → All IsDigit (code.hex_string bs)
  pub length-hex_string : (bs : Bytes) → length (code.hex_string bs) ≡ 2 * length bs
  pub from_hex-hex_string :
      (bs : Bytes) → All (λ b. b < 256) bs → code.from_hex (utf8 (code.hex_string bs)) ≡ some bs

-- `hex_decode` of crates/model/src/codec/mod.rs: a prefix is dropped here too.
unfoldable pub hex_decode : ⦃code : HexCode⦄ → Text → Outcome Bytes
hex_decode ⦃code⦄ [] = ok []
hex_decode ⦃code⦄ (c ∷ s) =
    let src = if starts_with (c ∷ s) hex_prefix then drop 2 (c ∷ s) else c ∷ s in
    or_err (code.from_hex (utf8 src)) bad_hex
