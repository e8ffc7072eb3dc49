-- ===== src/Tests/Decoding.antt =====
-- A reader for the encoding of the small world, its laws, and decoded transactions.
use rt_evm.Common.{
  ◌≤◌, sym, ℕ, zero, suc, ◌<◌, ◌≡◌, refl, ap, ◌∙◌, subst, if◌then◌else◌, ltb, lt→ltb, le→ltb, Bool,
  true, false, Bytes, Hash, Option, none, some, List, [], ◌∷◌, ◌++◌, length, take, drop,
  take-append, drop-append, arith,
}
use rt_evm.Model.Rlp.{
  Item, Items, hash, action, flag, option_hash, logs, nil, append, each, count, TransactionAction,
  call, create, Log,
}
use rt_evm.Model.Reader.{Reader, ReaderLaws, Prototype, list, item_at}
use rt_evm.Tests.World.{externals, write_item, write_items, write_logs}

abbrev second : Bytes → Option ℕ
second (tag ∷ n ∷ bs) = some n
second (tag ∷ []) = none
second [] = none

abbrev behind : Bytes → Option Bytes
behind [] = none
behind (tag ∷ bs) = some bs

abbrev read_action : Bytes → Option TransactionAction
read_action [] = none
read_action (tag ∷ []) = some create
read_action (tag ∷ a ∷ bs) = some (call a)

abbrev chunk : Bytes → ℕ → Option Bytes
chunk [] i = none
chunk (n ∷ bs) zero = some (take n bs)
chunk (n ∷ bs) (suc i) = chunk (drop n bs) i

abbrev read_at : Bytes → ℕ → Option Bytes
read_at (tag ∷ n ∷ bs) i = if ltb i n then chunk bs i else none
read_at (tag ∷ []) i = none
read_at [] i = none

abbrev list_of : Bytes → Option Prototype
list_of (tag ∷ n ∷ bs) = some (list n)
list_of (tag ∷ []) = none
list_of [] = none

abbrev read_option : Bytes → Option (Option Hash)
read_option [] = none
read_option (tag ∷ []) = some none
read_option (tag ∷ h ∷ bs) = some (some h)

abbrev read_flag : Bytes → Option Bool
read_flag [] = none
read_flag (tag ∷ []) = some false
read_flag (tag ∷ b ∷ bs) = some true

abbrev logs_of : ℕ → Bytes → List Log
logs_of zero bs = []
logs_of (suc n) (a ∷ t ∷ p ∷ bs) =
    record { address = a; topics = take t bs; payload = take p (drop t bs) }
    ∷ logs_of n (drop p (drop t bs))
logs_of (suc n) (a ∷ t ∷ []) = []
logs_of (suc n) (a ∷ []) = []
logs_of (suc n) [] = []

abbrev read_logs : Bytes → Option (List Log)
read_logs (tag ∷ n ∷ bs) = some (logs_of n bs)
read_logs (tag ∷ []) = none
read_logs [] = none

abbrev hashes_of : Bytes → List Hash
hashes_of (n ∷ tag ∷ h ∷ bs) = h ∷ hashes_of bs
hashes_of (n ∷ tag ∷ []) = []
hashes_of (n ∷ []) = []
hashes_of [] = []

abbrev read_hashes : Bytes → Option (List Hash)
read_hashes (tag ∷ n ∷ bs) = some (hashes_of bs)
read_hashes (tag ∷ []) = none
read_hashes [] = none

instance abbrev pub reader : Reader
reader = record {
  Rlp = Bytes;
  view = λ bs. bs;
  as_raw = λ bs. bs;
  item_count = second;
  at = read_at;
  payload = behind;
  prototype = list_of;
  as_u8 = second;
  as_u32 = second;
  as_bloom = second;
  as_flag = read_flag;
  as_option_hash = read_option;
  as_logs = read_logs;
  as_u64 = second;
  as_u256 = second;
  as_bytes = behind;
  as_address = second;
  as_hash = second;
  as_action = read_action;
  as_hashes = read_hashes;
}

chunk-write_items :
    (is : Items) (i : ℕ) (it : Item)
    → item_at is i ≡ some it
    → chunk (write_items is) i ≡ some (write_item it)
chunk-write_items nil i it h = cc
chunk-write_items (append first is) zero it h =
    let same : first ≡ it = cc in
    rw (take-append (length (write_item first)) (write_item first) (write_items is) refl)
      (ap (λ x. some (write_item x)) same)
chunk-write_items (append first is) (suc i) it h =
    ap (λ bs. chunk bs i)
      (drop-append (length (write_item first)) (write_item first) (write_items is) refl)
    ∙ chunk-write_items is i it h

item_at-lt : (is : Items) (i : ℕ) (it : Item) → item_at is i ≡ some it → i < count is
item_at-lt nil i it h = cc
item_at-lt (append first is) zero it h = omega arith
item_at-lt (append first is) (suc i) it h = omega (arith, item_at-lt is i it h)

logs_of-write_logs : (ls : List Log) → logs_of (length ls) (write_logs ls) ≡ ls
logs_of-write_logs [] = refl
logs_of-write_logs (l ∷ ls) =
    let after = l.payload ++ write_logs ls in
    let shown = drop-append (length l.topics) l.topics after refl in
    let topics = take-append (length l.topics) l.topics after refl in
    let payload = take-append (length l.payload) l.payload (write_logs ls) refl in
    let behind = drop-append (length l.payload) l.payload (write_logs ls) refl in
    rw (shown, topics, payload, behind, logs_of-write_logs ls) refl

read_logs-write_item : (ls : List Log) → read_logs (write_item (logs ls)) ≡ some ls
read_logs-write_item ls = ap (λ x. some x) (logs_of-write_logs ls)

read_flag-write_item : (b : Bool) → read_flag (write_item (flag b)) ≡ some b
read_flag-write_item true = refl
read_flag-write_item false = refl

read_option-write_item : (o : Option Hash) → read_option (write_item (option_hash o)) ≡ some o
read_option-write_item none = refl
read_option-write_item (some h) = refl

hashes_of-write_items : (hs : List Hash) → hashes_of (write_items (each hash hs)) ≡ hs
hashes_of-write_items [] = refl
hashes_of-write_items (h ∷ hs) = ap (◌∷◌ h) (hashes_of-write_items hs)

read_action-write_item : (a : TransactionAction) → read_action (write_item (action a)) ≡ some a
read_action-write_item (call a) = refl
read_action-write_item create = refl

read_at-list_of : (bs : Bytes) (n i : ℕ) → list_of bs ≡ some (list n) → n ≤ i → read_at bs i ≡ none
read_at-list_of [] n i h beyond = cc
read_at-list_of (tag ∷ []) n i h beyond = cc
read_at-list_of (tag ∷ m ∷ bs) n i h beyond =
    let same : m ≡ n = cc in rw (le→ltb i m (subst (λ k. k ≤ i) (sym same) beyond)) refl

pub reader_laws : ReaderLaws externals reader
reader_laws = record {
  raw-view = λ bs. refl;
  item_count-list = λ n is h. refl;
  prototype-list = λ n is h. refl;
  at-list = λ n is i it counted h.
      rw (lt→ltb i n (subst (λ m. i < m) counted (item_at-lt is i it h)))
        (chunk-write_items is i it h);
  at-beyond = read_at-list_of;
  header-list = λ n is. (0xc0, n ∷ write_items is, refl, omega arith, omega arith);
  u8-num = λ n h. refl;
  u32-num = λ n h. refl;
  u64-num = λ n h. refl;
  bloom-bloom = λ b h. refl;
  flag-flag = read_flag-write_item;
  option_hash-option_hash = λ o h. read_option-write_item o;
  logs-logs = λ ls. read_logs-write_item ls;
  u256-num = λ n h. refl;
  bytes-bytes = λ bs. refl;
  payload-bytes = λ bs. refl;
  address-address = λ a h. refl;
  hash-hash = λ h small. refl;
  action-action = λ a h. read_action-write_item a;
  hashes-list = λ n hs small h. ap (λ x. some x) (hashes_of-write_items hs);
}
