-- ===== src/Model/Text/Hex.antt =====
-- `Hex` of crates/model/src/types/primitive.rs: a text with a prefix, and hexadecimal digits.
use rt_evm.Common.{
  ◌<◌, ◌≡◌, refl, sym, subst, ap, ◌∙◌, arith, Bytes, some, [], ◌∷◌, ◌++◌, length, drop, Bool, false,
  ◌||◌, Bool-cases, inl, inr, ◌==◌, if◌then◌else◌, All,
}
use rt_evm.Common.Outcome.{Outcome, ok, or_panic, ◌>>=◌, >>=-eq-ok, ok-injective}
use rt_evm.Model.Text.{
  Text, utf8, starts_with, hex_prefix, hex_prefix_upper, HexCode, HexLaws, IsDigit, hex_decode,
}

abbrev pub Hex : Type 0
Hex = Text

abbrev pub empty : Hex
empty = hex_prefix

unfoldable pub is_empty : Hex → Bool
is_empty h = length (utf8 h) == 2

unfoldable pub is_prefixed : Text → Bool
is_prefixed s = starts_with s hex_prefix || starts_with s hex_prefix_upper

-- The text with a prefix, and the rest behind it.
abbrev pub prefixed : Text → Text
prefixed s = if is_prefixed s then s else hex_prefix ++ s

abbrev pub unprefixed : Text → Text
unprefixed s = if is_prefixed s then drop 2 s else s

unfoldable pub as_string_trim0x : Hex → Text
as_string_trim0x h = drop 2 h

module _ ⦃code : HexCode⦄ where
  unfoldable pub encode : Bytes → Hex
  encode bs = hex_prefix ++ code.hex_string bs

  unfoldable pub decode : Text → Outcome Bytes
  decode s = hex_decode (unprefixed s)

  unfoldable pub from_string : Text → Outcome Hex
  from_string s = hex_decode (drop 2 (prefixed s)) >>= λ checked. ok (prefixed s)

  -- `expect`
  unfoldable pub as_bytes : Hex → Outcome Bytes
  as_bytes h = or_panic (hex_decode (drop 2 h))

-- A text of digits has no prefix, for `x` is no digit.
pub no_prefix : (s : Text) → All IsDigit s → starts_with s hex_prefix ≡ false
unfolding starts_with
no_prefix [] digits = refl
no_prefix (a ∷ []) (da, _) = ground arith
no_prefix (a ∷ b ∷ s) (da, (db, rest)) = ground (arith, da, db)

module _ ⦃code : HexCode⦄ (laws : HexLaws code) where
  decoded :
      (t : Text) (bs : Bytes)
      → t ≡ code.hex_string bs
      → All (λ b. b < 256) bs
      → hex_decode t ≡ ok bs
  unfolding hex_decode
  decoded [] [] same bytes = refl
  decoded [] (b ∷ bs) same bytes =
      absurd (omega (arith, ap (λ (l : Text). length l) same, laws.length-hex_string (b ∷ bs)))
  decoded (c ∷ s) bs same bytes =
      let plain = no_prefix (c ∷ s) (subst (All IsDigit) (sym same) (laws.digits bs)) in
      let read : code.from_hex (utf8 (c ∷ s)) ≡ some bs =
        ap (λ l. code.from_hex (utf8 l)) same ∙ laws.from_hex-hex_string bs bytes in
      rw (plain, read) refl

  pub hex_decode-hex_string :
      (bs : Bytes) → All (λ b. b < 256) bs → hex_decode (code.hex_string bs) ≡ ok bs
  hex_decode-hex_string bs bytes = decoded (code.hex_string bs) bs refl bytes

  -- Bytes come back from their text, by each of the ways to read it, and the text is a valid one, if
  -- faster_hex reads the digits that it writes.
  pub decode-hex_encode :
      (bs : Bytes)
      → All (λ b. b < 256) bs
      → (as_bytes (encode bs) ≡ ok bs)
        × (decode (encode bs) ≡ ok bs)
        × (from_string (encode bs) ≡ ok (encode bs))
  unfolding encode as_bytes decode from_string is_prefixed starts_with
  decode-hex_encode bs bytes =
      let read = hex_decode-hex_string bs bytes in (rw read refl, rw read refl, rw read refl)

drop-prefixed : (s : Text) → drop 2 (prefixed s) ≡ unprefixed s
drop-prefixed s = elim (Bool-cases (is_prefixed s)) [ inl e ↦ rw e refl | inr e ↦ rw e refl ]

module _ ⦃code : HexCode⦄ where
  -- A text that `from_string` took in is one that `as_bytes` reads without a panic, as `decode` reads the
  -- text that it was made from.
  pub as_bytes-from_string :
      (s : Text) (h : Hex)
      → from_string s ≡ ok h
      → (bs : Bytes) × (as_bytes h ≡ ok bs) × (decode s ≡ ok bs)
  unfolding from_string as_bytes decode
  as_bytes-from_string s h taken =
      let (bs, checked, left) = >>=-eq-ok (hex_decode (drop 2 (prefixed s))) _ taken in
      let same : prefixed s ≡ h = ok-injective left in
      (
        bs,
        ap (λ t. or_panic (hex_decode (drop 2 t))) (sym same) ∙ ap or_panic checked,
        ap hex_decode (sym (drop-prefixed s)) ∙ checked,
      )
