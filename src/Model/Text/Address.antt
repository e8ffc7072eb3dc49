-- ===== src/Model/Text/Address.antt =====
-- `Address` of crates/model/src/types/primitive.rs, with its checksum of capital letters (EIP-55).
pub mod Cases
pub mod Checksum
use rt_evm.Common.{
  ℕ, ◌+◌, ◌≡◌, Bytes, Hash, H160, Option, none, some, List, [], ◌∷◌, ◌++◌, length, take, drop,
  get_elem?, Bool, true, false, ◌&&◌, ◌||◌, not, ltb, ◌==◌, list_eq, if◌then◌else◌, from_big_endian,
  to_be, address_bytes,
}
use rt_evm.Common.Outcome.{
  Outcome, ok, err, panic, or_err, reject_if, bad_length, bad_prefix, bad_checksum, bad_public_key,
  ◌>>=◌, ◌>>◌,
}
use rt_evm.Model.Rlp.{Externals}
use rt_evm.Model.Text.{
  Text, utf8, char_bytes, starts_with, hex_prefix, hex_prefix_upper, trim_0x, digit_value, Letters,
  HexCode, hex_decode,
}

abbrev pub address_len : ℕ
address_len = 20

unfoldable pub ensure_len : ℕ → ℕ → Outcome (Unit {0})
ensure_len real expect = reject_if (not (real == expect)) bad_length

unfoldable pub clean_0x : Text → Outcome Text
clean_0x s =
    if starts_with s hex_prefix || starts_with s hex_prefix_upper
    then ok (drop 2 s)
    else err bad_prefix

unfoldable pub from_bytes : Bytes → Outcome H160
unfolding ensure_len
from_bytes bs = do ensure_len (length bs) address_len; ok (from_big_endian (take 20 bs))

-- The last 20 bytes of the 32.
unfoldable pub from_hash : Hash → H160
from_hash h = from_big_endian (drop 12 (to_be 32 h))

-- The crate ophelia_secp256k1: a compressed key in full, or nothing if it is no key.
abbrev pub Uncompress : Type 0
Uncompress = Bytes → Option Bytes

abbrev pub hash_tail : ⦃ext : Externals⦄ → Bytes → H160
hash_tail ⦃ext⦄ key = from_hash (ext.keccak (drop 1 key))

-- A compressed key has 33 bytes and a full one 65.
unfoldable pub from_pubkey_bytes : ⦃ext : Externals⦄ → Uncompress → Bytes → Outcome H160
from_pubkey_bytes uncompress slice = do
  reject_if (not (length slice == 33) && not (length slice == 65)) bad_public_key
  (if length slice == 33
      then (or_err (uncompress slice) bad_public_key >>= λ key. ok (hash_tail key))
      else ok (hash_tail slice))

module _ ⦃code : HexCode⦄ where
  unfoldable pub from_hex : Text → Outcome H160
  from_hex s = clean_0x s >>= λ digits. hex_decode digits >>= from_bytes

  module _ ⦃ext : Externals⦄ ⦃letters : Letters⦄ where
    -- The character of the hash at a byte of the text decides on the case of the one there; there are
    -- 64 of them.
    abbrev pub cased : Option ℕ → ℕ → Outcome Text
    cased none c = panic
    cased (some d) c = elim (digit_value d) [
      | none ↦ panic
      | some n ↦ ok (if ltb 7 n then letters.to_uppercase c else c ∷ [])
    ]

    -- The rest of the `fold`, from a byte of the text on.
    unfoldable pub cased_from : Text → ℕ → Text → Outcome Text
    cased_from hash index [] = ok []
    cased_from hash index (c ∷ s) = cased (get_elem? hash index) c >>= λ first.
        cased_from hash (index + length (char_bytes c)) s >>= λ rest. ok (first ++ rest)

    -- The hexadecimal hash of a text.
    unfoldable pub address_hash : Text → Text
    address_hash address = code.hex_string (to_be 32 (ext.keccak (utf8 address)))

    unfoldable pub checksum : Text → Outcome Text
    checksum address =
        let lower = letters.to_lowercase (trim_0x address) in
        cased_from (address_hash lower) 0 lower >>= λ s. ok (hex_prefix ++ s)

    -- `Display`, and `Debug`
    unfoldable pub display : H160 → Outcome Text
    display a = checksum (code.hex_string (address_bytes a))

    unfoldable pub from_str : Text → Outcome H160
    from_str s = do
      sum ← checksum s
      reject_if (not (list_eq sum s)) bad_checksum
      from_hex (letters.to_lowercase s)
