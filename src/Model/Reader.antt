-- ===== src/Model/Reader.antt =====
-- The RLP reader of the crate rlp. `Rlp` is a view of bytes; `at` is the view of an item of a list,
-- and the functions `as_…` are `as_val` at the types that the decoders ask for. A reader that
-- fails gives `none`, which stands for a `DecoderError`.
use rt_evm.Common.{
  ℕ, zero, suc, ◌<◌, ◌≤◌, ◌^◌, ◌≡◌, refl, Bytes, Hash, H160, U256, Option, none, some, List, ◌∷◌,
  All, Bool,
}
use rt_evm.Common.Outcome.{Outcome, ok, or_err, bad_codec, ◌>>=◌}
use rt_evm.Model.Rlp.{
  Externals, Item, Items, num, bytes, address, hash, action, bloom, flag, option_hash, logs,
  begin_list, nil, append, each, count, TransactionAction, call, create, Bloom, Log,
}

-- `Prototype` of the crate
pub data Prototype : Type 0 where
  null : Prototype
  value : ℕ → Prototype
  list : ℕ → Prototype

pub record Reader : Type 1 where
  pub Rlp : Type 0
  -- `Rlp::new` and `as_raw`
  pub view : Bytes → Rlp
  pub as_raw : Rlp → Bytes
  pub item_count : Rlp → Option ℕ
  pub prototype : Rlp → Option Prototype
  pub at : Rlp → ℕ → Option Rlp
  -- the payload of a string, `data`
  pub payload : Rlp → Option Bytes
  pub as_u8 : Rlp → Option ℕ
  pub as_u32 : Rlp → Option ℕ
  pub as_u64 : Rlp → Option ℕ
  pub as_u256 : Rlp → Option U256
  pub as_bytes : Rlp → Option Bytes
  pub as_address : Rlp → Option H160
  pub as_hash : Rlp → Option Hash
  pub as_action : Rlp → Option TransactionAction
  pub as_bloom : Rlp → Option Bloom
  pub as_flag : Rlp → Option Bool
  pub as_option_hash : Rlp → Option (Option Hash)
  -- `as_list` of logs and of hashes
  pub as_logs : Rlp → Option (List Log)
  pub as_hashes : Rlp → Option (List Hash)

-- Item `i` of the items that were appended.
abbrev pub item_at : Items → ℕ → Option Item
item_at nil i = none
item_at (append it is) zero = some it
item_at (append it is) (suc i) = item_at is i

-- The recipient of a call has 20 bytes.
abbrev pub ActionFits : TransactionAction → Type 0
ActionFits (call a) = a < 2 ^ 160
ActionFits create = Unit {0}

abbrev pub OptionFits : Option Hash → Type 0
OptionFits none = Unit {0}
OptionFits (some h) = h < 2 ^ 256

-- What the crate documents: a reader reads what a stream wrote, if every list has the length that
-- `begin_list` announced; a list begins with a byte from 0xc0; and an index beyond the items of a list
-- is an error.
pub record ReaderLaws (ext : Externals) (reader : Reader) : Type 0 where
  pub raw-view : (bs : Bytes) → reader.as_raw (reader.view bs) ≡ bs
  pub item_count-list :
      (n : ℕ) (is : Items)
      → count is ≡ n
      → reader.item_count (reader.view (ext.out (begin_list n is))) ≡ some n
  pub at-list :
      (n : ℕ) (is : Items) (i : ℕ) (it : Item)
      → count is ≡ n
      → item_at is i ≡ some it
      → reader.at (reader.view (ext.out (begin_list n is))) i ≡ some (reader.view (ext.out it))
  pub prototype-list :
      (n : ℕ) (is : Items)
      → count is ≡ n
      → reader.prototype (reader.view (ext.out (begin_list n is))) ≡ some (list n)
  -- The prototype of a list says how many items it has, and it has no item beyond them.
  pub at-beyond :
      (r : reader.Rlp) (n i : ℕ) → reader.prototype r ≡ some (list n) → n ≤ i → reader.at r i ≡ none
  pub header-list :
      (n : ℕ) (is : Items)
      → (b : ℕ) × (rest : Bytes) × (ext.out (begin_list n is) ≡ b ∷ rest) × (0xc0 ≤ b) × (b < 0x100)
  pub u8-num : (n : ℕ) → n < 2 ^ 8 → reader.as_u8 (reader.view (ext.out (num n))) ≡ some n
  pub u32-num : (n : ℕ) → n < 2 ^ 32 → reader.as_u32 (reader.view (ext.out (num n))) ≡ some n
  pub bloom-bloom :
      (b : Bloom) → b < 2 ^ 2048 → reader.as_bloom (reader.view (ext.out (bloom b))) ≡ some b
  pub flag-flag : (b : Bool) → reader.as_flag (reader.view (ext.out (flag b))) ≡ some b
  pub option_hash-option_hash :
      (o : Option Hash)
      → OptionFits o
      → reader.as_option_hash (reader.view (ext.out (option_hash o))) ≡ some o
  pub logs-logs : (ls : List Log) → reader.as_logs (reader.view (ext.out (logs ls))) ≡ some ls
  pub u64-num : (n : ℕ) → n < 2 ^ 64 → reader.as_u64 (reader.view (ext.out (num n))) ≡ some n
  pub u256-num : (n : ℕ) → n < 2 ^ 256 → reader.as_u256 (reader.view (ext.out (num n))) ≡ some n
  pub bytes-bytes : (bs : Bytes) → reader.as_bytes (reader.view (ext.out (bytes bs))) ≡ some bs
  pub payload-bytes : (bs : Bytes) → reader.payload (reader.view (ext.out (bytes bs))) ≡ some bs
  pub address-address :
      (a : H160) → a < 2 ^ 160 → reader.as_address (reader.view (ext.out (address a))) ≡ some a
  pub hash-hash :
      (h : Hash) → h < 2 ^ 256 → reader.as_hash (reader.view (ext.out (hash h))) ≡ some h
  pub action-action :
      (a : TransactionAction)
      → ActionFits a
      → reader.as_action (reader.view (ext.out (action a))) ≡ some a
  pub hashes-list :
      (n : ℕ) (hs : List Hash)
      → All (λ h. h < 2 ^ 256) hs
      → count (each hash hs) ≡ n
      → reader.as_hashes (reader.view (ext.out (begin_list n (each hash hs)))) ≡ some hs

module _ ⦃reader : Reader⦄ where
  -- `item_count()?`, `at(i)?` and `val_at(i)?`
  unfoldable pub items_in : reader.Rlp → Outcome ℕ
  items_in r = or_err (reader.item_count r) bad_codec

  unfoldable pub rlp_at : reader.Rlp → ℕ → Outcome reader.Rlp
  rlp_at r i = or_err (reader.at r i) bad_codec

  unfoldable pub val_at : {A : Type 0} → (reader.Rlp → Option A) → reader.Rlp → ℕ → Outcome A
  val_at f r i = or_err (reader.at r i) bad_codec >>= λ x. or_err (f x) bad_codec

module _ ⦃ext : Externals⦄ ⦃reader : Reader⦄ (laws : ReaderLaws ext reader) where
  -- Item `i` of a framed list is read at its type.
  pub val_at-item :
      {A : Type 0} (f : reader.Rlp → Option A) (n : ℕ) (is : Items) (i : ℕ) (it : Item) (a : A)
      → count is ≡ n
      → item_at is i ≡ some it
      → f (reader.view (ext.out it)) ≡ some a
      → val_at f (reader.view (ext.out (begin_list n is))) i ≡ ok a
  unfolding val_at
  val_at-item f n is i it a counted found read =
      rw (laws.at-list n is i it counted found, read) refl

  pub rlp_at-item :
      (n : ℕ) (is : Items) (i : ℕ) (it : Item)
      → count is ≡ n
      → item_at is i ≡ some it
      → rlp_at (reader.view (ext.out (begin_list n is))) i ≡ ok (reader.view (ext.out it))
  unfolding rlp_at
  rlp_at-item n is i it counted found = rw (laws.at-list n is i it counted found) refl

  pub items_in-list :
      (n : ℕ) (is : Items)
      → count is ≡ n
      → items_in (reader.view (ext.out (begin_list n is))) ≡ ok n
  unfolding items_in
  items_in-list n is counted = rw (laws.item_count-list n is counted) refl
