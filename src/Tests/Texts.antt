-- ===== src/Tests/Texts.antt =====
-- Hexadecimal texts and addresses, with a plain code for bytes.
use rt_evm.Common.{
  ℕ, zero, suc, ◌+◌, ◌-◌, ◌*◌, ◌/◌, ◌%◌, ◌<◌, ◌≡◌, refl, arith, Bytes, Option, none, some, [], ◌∷◌,
  ◌++◌, length, replicate, ltb, true, if◌then◌else◌, All, map,
}
use rt_evm.Common.Outcome.{ok, panic}
use rt_evm.Model.Text.{
  Text, utf8, hex_prefix, trim_0x, Letters, LettersLaws, HexCode, HexLaws, IsDigit, IsAscii,
  ascii_lower, ascii_upper,
}
use rt_evm.Model.Text.Hex.{encode, decode, as_bytes, from_string, decode-hex_encode}
use rt_evm.Model.Text.Address.{display, from_str}
use rt_evm.Model.Text.Address.Checksum.{from_str-display, from_str-long}
use rt_evm.Tests.World.{externals}

abbrev digit : ℕ → ℕ
digit n = if ltb n 10 then 48 + n else 87 + n

abbrev value : ℕ → ℕ
value c = if ltb c 58 then c - 48 else c - 87

abbrev write_hex : Bytes → Text
write_hex [] = []
write_hex (b ∷ bs) = digit (b / 16 % 16) ∷ digit (b % 16) ∷ write_hex bs

abbrev read_hex : Bytes → Option Bytes
read_hex [] = some []
read_hex (a ∷ []) = none
read_hex (a ∷ b ∷ cs) = elim (read_hex cs) [
  | some bs ↦ some ((value a * 16 + value b) ∷ bs)
  | none ↦ none
]

instance abbrev hex_code : HexCode
hex_code = record { hex_string = write_hex; from_hex = read_hex }

instance abbrev letters : Letters
letters = record { to_lowercase = λ s. map ascii_lower s; to_uppercase = λ c. ascii_upper c ∷ [] }

letters_laws : LettersLaws letters
letters_laws = record { lower_ascii = λ s h. refl; upper_ascii = λ c h. refl }

digit-IsDigit : (n : ℕ) → n < 16 → IsDigit (digit n)
digit-IsDigit n h = ground arith

write_hex-digits : (bs : Bytes) → All IsDigit (write_hex bs)
write_hex-digits [] = tt
write_hex-digits (b ∷ bs) = (
  digit-IsDigit (b / 16 % 16) (omega arith),
  (digit-IsDigit (b % 16) (omega arith), write_hex-digits bs),
)

length-write_hex : (bs : Bytes) → length (write_hex bs) ≡ 2 * length bs
length-write_hex [] = refl
length-write_hex (b ∷ bs) = omega (arith, length-write_hex bs)

value-digit : (n : ℕ) → n < 16 → value (digit n) ≡ n
value-digit n h = ground arith

small-digit : (n : ℕ) → n < 16 → ltb (digit n) 128 ≡ true
small-digit n h = ground arith

read_hex-write_hex : (bs : Bytes) → All (λ b. b < 256) bs → read_hex (utf8 (write_hex bs)) ≡ some bs
unfolding utf8
read_hex-write_hex [] h = refl
read_hex-write_hex (b ∷ bs) (small, h) =
    let high = b / 16 % 16 in
    let low = b % 16 in
    let whole : high * 16 + low ≡ b = omega (arith, small) in
    rw
      (
        small-digit high (omega arith),
        small-digit low (omega arith),
        read_hex-write_hex bs h,
        value-digit high (omega arith),
        value-digit low (omega arith),
        whole,
      )
      refl

hex_laws : HexLaws hex_code
hex_laws = record {
  digits = write_hex-digits;
  length-hex_string = length-write_hex;
  from_hex-hex_string = read_hex-write_hex;
}

decode-hex_encode_example :
    (as_bytes (encode (1 ∷ 171 ∷ [])) ≡ ok (1 ∷ 171 ∷ []))
    × (decode (encode (1 ∷ 171 ∷ [])) ≡ ok (1 ∷ 171 ∷ []))
    × (from_string (encode (1 ∷ 171 ∷ [])) ≡ ok (encode (1 ∷ 171 ∷ [])))
decode-hex_encode_example =
    decode-hex_encode hex_laws (1 ∷ 171 ∷ []) (omega arith, (omega arith, tt))

from_str-display_example :
    (s : Text) × (display 0x35e70c3f5a794a77efc2ec5ba964bffcc7fd2c0a ≡ ok s)
    × (from_str s ≡ ok 0x35e70c3f5a794a77efc2ec5ba964bffcc7fd2c0a)
from_str-display_example =
    from_str-display hex_laws letters_laws 0x35e70c3f5a794a77efc2ec5ba964bffcc7fd2c0a (omega arith)

letters_a : (n : ℕ) → IsAscii (replicate n 97)
letters_a zero = tt
letters_a (suc n) = (omega arith, letters_a n)

from_str-long_example : from_str (hex_prefix ++ replicate 65 97) ≡ panic
unfolding trim_0x
from_str-long_example =
    from_str-long hex_laws letters_laws (hex_prefix ++ replicate 65 97)
      (omega arith, (omega arith, letters_a 65)) (omega arith)
