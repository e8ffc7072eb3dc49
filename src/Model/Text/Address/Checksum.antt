-- ===== src/Model/Text/Address/Checksum.antt =====
-- Addresses as texts with a checksum: they are read back, and a text that is too long panics.
use rt_evm.Common.{
  ℕ, ◌+◌, ◌*◌, ◌^◌, ◌≤◌, ◌<◌, ◌≡◌, refl, ap, ◌∙◌, arith, H160, some, [], ◌∷◌, ◌++◌, map, length,
  length-map, take, true, Bool-cases, inl, inr, ltb, list_eq_refl, if◌then◌else◌, All,
  from_be-to_be, from_big_endian, to_be, length-to_be, address_bytes,
}
use rt_evm.Common.Outcome.{Outcome, ok, panic, ◌>>=◌}
use rt_evm.Model.Rlp.{Externals}
use rt_evm.Model.Text.{
  Text, utf8, char_bytes, starts_with, hex_prefix, trim_0x, Letters, LettersLaws, ascii_lower,
  ascii_upper, IsAscii, HexCode, HexLaws, IsDigit,
}
use rt_evm.Model.Text.Hex.{hex_decode-hex_string}
use rt_evm.Model.Text.Address.{
  from_bytes, from_hex, clean_0x, cased, cased_from, address_hash, checksum, display, from_str,
}
use rt_evm.Model.Text.Address.Cases.{
  IsCased, digits-IsCased, trim_0x-cased, cased-IsAscii, trim_0x-IsAscii, lower-IsAscii,
  lower-digits, digit_value-digit, get_elem?-digit, get_elem?_past, to_be-bytes,
}

module _ ⦃code : HexCode⦄ ⦃ext : Externals⦄ ⦃letters : Letters⦄ (laws : HexLaws code)
    (tables : LettersLaws letters) where
  -- A digit under the hash stays the digit up to its case.
  IsCased-digit :
      (n c : ℕ)
      → IsDigit c
      → (u : ℕ) × ((if ltb 7 n then letters.to_uppercase c else c ∷ []) ≡ u ∷ [])
        × IsCased u
        × (ascii_lower u ≡ c)
  IsCased-digit n c d = elim (Bool-cases (ltb 7 n)) [
    | inl e ↦ (
      ascii_upper c,
      rw e (tables.upper_ascii c (ground (arith, d))),
      ground (arith, d),
      ground (arith, d),
    )
    | inr e ↦ (c, rw e refl, ground (arith, d), ground (arith, d))
  ]

  cased-some :
      (x c : ℕ)
      → IsDigit x
      → IsDigit c
      → (u : ℕ) × (cased (some x) c ≡ ok (u ∷ [])) × IsCased u × (ascii_lower u ≡ c)
  cased-some x c digit d =
      let (n, value) = digit_value-digit x digit in
      let (u, first, cased_u, lower_u) = IsCased-digit n c d in
      (u, rw (value, cased) (ap (λ l. ok l) first), cased_u, lower_u)

  cased_from-digits :
      (hash : Text) (i : ℕ) (s : Text)
      → All IsDigit hash
      → i + length s ≤ length hash
      → All IsDigit s
      → (u : Text) × (cased_from hash i s ≡ ok u) × All IsCased u × (map ascii_lower u ≡ s)
  unfolding cased_from
  cased_from-digits hash i [] hs h ds = ([], refl, tt, refl)
  cased_from-digits hash i (c ∷ s) hs h (d, ds) =
      let (x, found, digit) = get_elem?-digit hash i hs (omega (arith, h)) in
      let (u, first, cased_u, lower_u) = cased-some x c digit d in
      let one : char_bytes c ≡ c ∷ [] =
        let low : ltb c 128 ≡ true = ground (arith, d) in rw low refl in
      let (rest, run, cased_rest, lower_rest) =
        cased_from-digits hash (i + 1) s hs (omega (arith, h)) ds in
      let next : Text → Outcome Text =
        λ head. cased_from hash (i + length (char_bytes c)) s >>= λ tail. ok (head ++ tail) in
      (
        u ∷ rest,
        ap (λ o. cased o c >>= next) found
            ∙ ap (λ m. m >>= next) first
            ∙ ap (λ l. cased_from hash (i + length l) s >>= λ tail. ok (u ∷ tail)) one
            ∙ ap (λ m. m >>= λ tail. ok (u ∷ tail)) run,
        (cased_u, cased_rest),
        rw (lower_u, lower_rest) refl,
      )

  address_hash-digits : (s : Text) → (All IsDigit (address_hash s)) × (length (address_hash s) ≡ 64)
  unfolding address_hash
  address_hash-digits s =
      let bs = to_be 32 (ext.keccak (utf8 s)) in
      (
        laws.digits bs,
        laws.length-hex_string bs ∙ ap (λ n. 2 * n) (length-to_be 32 (ext.keccak (utf8 s))),
      )

  -- The text with the checksum of some digits, which is its own checksum.
  checksum-digits :
      (s : Text)
      → All IsDigit s
      → length s ≤ 64
      → (u : Text) × (checksum s ≡ ok (hex_prefix ++ u))
        × (checksum (hex_prefix ++ u) ≡ ok (hex_prefix ++ u))
        × All IsCased u
        × (map ascii_lower u ≡ s)
  unfolding checksum trim_0x
  checksum-digits s ds short =
      let (hs, size) = address_hash-digits s in
      let (u, run, cased_u, lower_u) =
        cased_from-digits (address_hash s) 0 s hs (omega (arith, size, short)) ds in
      let here = digits-IsCased s ds in
      let lowered : letters.to_lowercase s ≡ s =
        tables.lower_ascii s (cased-IsAscii s here) ∙ lower-digits s ds in
      let back : letters.to_lowercase u ≡ s =
        tables.lower_ascii u (cased-IsAscii u cased_u) ∙ lower_u in
      let sum : Text → Outcome Text =
        λ l. cased_from (address_hash l) 0 l >>= λ t. ok (hex_prefix ++ t) in
      (
        u,
        ap (λ t. sum (letters.to_lowercase t)) (trim_0x-cased s here)
            ∙ ap sum lowered
            ∙ ap (λ m. m >>= λ t. ok (hex_prefix ++ t)) run,
        ap (λ t. sum (letters.to_lowercase t)) (trim_0x-cased u cased_u)
            ∙ ap sum back
            ∙ ap (λ m. m >>= λ t. ok (hex_prefix ++ t)) run,
        cased_u,
        lower_u,
      )

  -- The text that stands for an address of 160 bits is read back as the address, if faster_hex reads
  -- the digits that it writes and the tables of letters are right on ASCII.
  pub from_str-display :
      (a : H160) → a < 2 ^ 160 → (s : Text) × (display a ≡ ok s) × (from_str s ≡ ok a)
  unfolding display from_str from_hex clean_0x from_bytes starts_with
  from_str-display a fits =
      let bs = address_bytes a in
      let t = code.hex_string bs in
      let size : length t ≤ 64 = omega (arith, laws.length-hex_string bs, length-to_be 20 a) in
      let (u, shown, again, cased_u, lower_u) = checksum-digits t (laws.digits bs) size in
      let lower : letters.to_lowercase (hex_prefix ++ u) ≡ hex_prefix ++ t =
        tables.lower_ascii (hex_prefix ++ u) (omega arith, (omega arith, cased-IsAscii u cased_u))
        ∙ ap (λ l. hex_prefix ++ l) lower_u in
      let read = hex_decode-hex_string laws bs (to_be-bytes 20 a) in
      let value : from_big_endian (take 20 bs) ≡ a = from_be-to_be 20 a (omega (arith, fits)) in
      (
        hex_prefix ++ u,
        shown,
        rw (again, list_eq_refl (hex_prefix ++ u), lower, read) (ap (λ n. ok n) value),
      )

  cased-total : (x c : ℕ) → IsDigit x → (head : Text) × (cased (some x) c ≡ ok head)
  cased-total x c digit =
      let (n, value) = digit_value-digit x digit in
      (if ltb 7 n then letters.to_uppercase c else c ∷ [], rw (value, cased) refl)

  cased_from-long :
      (hash : Text) (i : ℕ) (s : Text)
      → All IsDigit hash
      → length hash ≡ 64
      → i ≤ 64
      → 64 < i + length s
      → IsAscii s
      → cased_from hash i s ≡ panic
  unfolding cased_from
  cased_from-long hash i [] hs size low long ascii = absurd (omega arith)
  cased_from-long hash i (c ∷ s) hs size low long (small, ascii) =
      let one : char_bytes c ≡ c ∷ [] =
        let low : ltb c 128 ≡ true = ground (arith, small) in rw low refl in
      let next : Text → Outcome Text =
        λ head. cased_from hash (i + length (char_bytes c)) s >>= λ tail. ok (head ++ tail) in
      elim (Bool-cases (ltb i 64)) [
        | inl inside ↦
            let (x, found, digit) = get_elem?-digit hash i hs (ground (arith, inside, size)) in
            let (head, first) = cased-total x c digit in
            let rest =
              cased_from-long hash (i + 1) s hs size (ground (arith, inside)) (omega (arith, long))
                ascii in
            ap (λ o. cased o c >>= next) found
            ∙ ap (λ m. m >>= next) first
            ∙ ap (λ l. cased_from hash (i + length l) s >>= λ tail. ok (head ++ tail)) one
            ∙ ap (λ m. m >>= λ tail. ok (head ++ tail)) rest
        | inr past ↦
            ap (λ o. cased o c >>= next) (get_elem?_past hash i (ground (arith, past, size)))
      ]

  -- A text of ASCII with more than 64 characters after its prefix makes from_str panic: the hash that
  -- decides on the case of its letters has 64 digits. The tables of letters are to be right on ASCII,
  -- and faster_hex is to write two digits for a byte.
  pub from_str-long : (s : Text) → IsAscii s → 64 < length (trim_0x s) → from_str s ≡ panic
  unfolding from_str checksum
  from_str-long s ascii long =
      let t = trim_0x s in
      let lowered = tables.lower_ascii t (trim_0x-IsAscii s ascii) in
      let lower = map ascii_lower t in
      let (hs, size) = address_hash-digits lower in
      let panics =
        cased_from-long (address_hash lower) 0 lower hs size (omega arith)
          (omega (arith, long, length-map ascii_lower t))
          (lower-IsAscii t (trim_0x-IsAscii s ascii)) in
      rw (lowered, panics) refl
