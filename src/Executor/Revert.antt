-- ===== src/Executor/Revert.antt =====
-- crates/executor/src/utils.rs: the message of a revert. Texts are lists of code points, and a byte
-- stands for the character of its number, as in `c as char`.
use rt_evm.Common.{
  ℕ, zero, suc, ◌+◌, ◌-◌, ◌%◌, ◌<◌, ◌≤◌, ◌^◌, ◌≡◌, ◌≢◌, refl, sym, ◌∙◌, ap, Bytes, [], ◌∷◌, ◌++◌,
  length, take, drop, if◌then◌else◌, ltb, leb, ◌==◌, ◌/◌, false, Bool-cases, inl, inr, ltb→le,
  ne→==, le→ltb, u64_mod, from_big_endian, to_be, arith,
}
use mathlib.Core.List.{append_assoc}
use rt_evm.Common.Words.{from_be-to_be}
use rt_evm.Common.Lists.{length-append, take-append, drop-append}
use rt_evm.Common.Outcome.{Outcome, ok, panic, ok-no_panic}

-- "execution reverted: "
abbrev pub exec_revert : Bytes
exec_revert =
    101 ∷ 120 ∷ 101 ∷ 99 ∷ 117 ∷ 116 ∷ 105 ∷ 111 ∷ 110 ∷ 32 ∷ 114 ∷ 101 ∷ 118 ∷ 101 ∷ 114 ∷ 116
    ∷ 101 ∷ 100 ∷ 58 ∷ 32 ∷ []

abbrev revert_msg_len_offset : ℕ
revert_msg_len_offset = 36

abbrev revert_effect_msg_offset : ℕ
revert_effect_msg_offset = 68

-- A slice that ends before it starts panics.
abbrev slice_reason : Bytes → ℕ → Outcome Bytes
slice_reason input end =
    if ltb end revert_effect_msg_offset
    then panic
    else ok
        (exec_revert ++ take (end - revert_effect_msg_offset) (drop revert_effect_msg_offset input))

-- `as_usize` panics beyond a `usize`; the sum wraps.
abbrev message_of : Bytes → ℕ → Outcome Bytes
message_of input n =
    if leb u64_mod n
    then panic
    else if ltb (length input) ((revert_effect_msg_offset + n) % u64_mod)
    then ok (exec_revert ++ input)
    else slice_reason input ((revert_effect_msg_offset + n) % u64_mod)

unfoldable pub decode_revert_msg : Bytes → Outcome Bytes
decode_revert_msg input =
    if length input == 0
    then ok exec_revert
    else if ltb (length input) revert_effect_msg_offset
    then ok (exec_revert ++ input)
    else message_of input (from_big_endian (take 32 (drop revert_msg_len_offset input)))

length-to_be : (n a : ℕ) → length (to_be n a) ≡ n
length-to_be zero a = refl
length-to_be (suc n) a =
    omega (arith, length-append (to_be n (a / 256)) (a % 256 ∷ []), length-to_be n (a / 256))

-- The input of 36 bytes, a length, that many bytes of message, and padding.
abbrev pub encoded : Bytes → Bytes → Bytes → Bytes
encoded head msg padding = head ++ (to_be 32 (length msg) ++ (msg ++ padding))

length-encoded :
    (head msg padding : Bytes)
    → length head ≡ 36
    → length (encoded head msg padding) ≡ 68 + length msg + length padding
length-encoded head msg padding hh = omega (
  arith,
  length-append head (to_be 32 (length msg) ++ (msg ++ padding)),
  length-append (to_be 32 (length msg)) (msg ++ padding),
  length-append msg padding,
  length-to_be 32 (length msg),
)

read_length :
    (head msg padding : Bytes)
    → length head ≡ 36
    → 68 + length msg < u64_mod
    → from_big_endian (take 32 (drop 36 (encoded head msg padding))) ≡ length msg
read_length head msg padding hh hm =
    ap (λ t. from_big_endian (take 32 t))
      (drop-append 36 head (to_be 32 (length msg) ++ (msg ++ padding)) hh)
    ∙ ap from_big_endian
        (take-append 32 (to_be 32 (length msg)) (msg ++ padding) (length-to_be 32 (length msg)))
    ∙ from_be-to_be 32 (length msg) (omega arith)

read_message :
    (head msg padding : Bytes)
    → length head ≡ 36
    → take (length msg) (drop 68 (encoded head msg padding)) ≡ msg
read_message head msg padding hh =
    let n = to_be 32 (length msg) in
    let front : length (head ++ n) ≡ 68 =
      omega (arith, length-append head n, length-to_be 32 (length msg)) in
    ap (λ t. take (length msg) (drop 68 t)) (sym (append_assoc head n (msg ++ padding)))
    ∙ ap (take (length msg)) (drop-append 68 (head ++ n) (msg ++ padding) front)
    ∙ take-append (length msg) msg padding refl

-- The message of an input in the encoding of `Error(string)` comes back after the prefix: 36 bytes
-- for the selector and the offset, the length as 32 bytes, the message, and padding. The length
-- has to leave room for the 68 bytes before it in a `usize`.
pub decode_revert_msg-encoded :
    (head msg padding : Bytes)
    → length head ≡ 36
    → 68 + length msg < u64_mod
    → decode_revert_msg (encoded head msg padding) ≡ ok (exec_revert ++ msg)
unfolding decode_revert_msg
decode_revert_msg-encoded head msg padding hh hm =
    let input = encoded head msg padding in
    let whole = length-encoded head msg padding hh in
    let end : (68 + length msg) % u64_mod ≡ 68 + length msg = omega arith in
    let left : (68 + length msg) - 68 ≡ length msg = omega arith in
    let not_empty : length input == 0 ≡ false =
      ne→== (length input) 0 (λ e. omega (arith, whole, e)) in
    let not_short : ltb (length input) 68 ≡ false =
      le→ltb (length input) 68 (omega (arith, whole)) in
    let fits : leb u64_mod (length msg) ≡ false = ground arith in
    let complete : ltb (length input) (68 + length msg) ≡ false =
      le→ltb (length input) (68 + length msg) (omega (arith, whole)) in
    let ordered : ltb (68 + length msg) 68 ≡ false = le→ltb (68 + length msg) 68 (omega arith) in
    rw
      (
        not_empty,
        not_short,
        read_length head msg padding hh hm,
        fits,
        end,
        complete,
        ordered,
        left,
        read_message head msg padding hh,
      )
      refl

-- The bytes of a failed call announce a message that ends beyond every `usize`.
abbrev pub Oversized : Bytes → Type 0
Oversized ret = (68 ≤ length ret) × (2 ^ 64 ≤ 68 + from_big_endian (take 32 (drop 36 ret)))

message_of-panics :
    (input : Bytes) (n : ℕ) → 68 ≤ length input → 2 ^ 64 ≤ 68 + n → message_of input n ≡ panic
message_of-panics input n long large = ground (arith, long, large)

message_of-no_panic : (input : Bytes) (n : ℕ) → 68 + n < 2 ^ 64 → message_of input n ≢ panic
message_of-no_panic input n small same = ground (arith, small, same)

-- Bytes whose message ends beyond every `usize` make the code panic, and no others.
pub decode_revert_msg-panics : (ret : Bytes) → Oversized ret → decode_revert_msg ret ≡ panic
unfolding decode_revert_msg
decode_revert_msg-panics ret (long, large) =
    let not_empty : length ret == 0 ≡ false = ground (arith, long) in
    let not_short : ltb (length ret) 68 ≡ false = le→ltb (length ret) 68 long in
    rw (not_empty, not_short)
      (message_of-panics ret (from_big_endian (take 32 (drop 36 ret))) long large)

pub decode_revert_msg-Oversized : (ret : Bytes) → decode_revert_msg ret ≡ panic → Oversized ret
unfolding decode_revert_msg
decode_revert_msg-Oversized ret h = elim (Bool-cases (length ret == 0)) [
  | inl empty ↦ absurd (ok-no_panic exec_revert (rw empty at h))
  | inr full ↦ elim (Bool-cases (ltb (length ret) 68)) [
    | inl short ↦ absurd (ok-no_panic (exec_revert ++ ret) (rw (full, short) at h))
    | inr long ↦
        let n = from_big_endian (take 32 (drop 36 ret)) in
        elim (Bool-cases (leb (2 ^ 64) (68 + n))) [
          | inl large ↦ (ltb→le (length ret) 68 long, ground (arith, large))
          | inr small ↦
              absurd (message_of-no_panic ret n (ground (arith, small)) (rw (full, long) at h))
        ]
  ]
]
