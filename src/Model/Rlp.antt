-- ===== src/Model/Rlp.antt =====
-- What the model takes from the crates it calls: the RLP writer, Keccak, public key recovery, the
-- Merkle root of a list, and the account codec.
--
-- An `Item` is the sequence of calls on an `RlpStream`: one append for each constructor, and
-- `begin_list n` with the items appended before the list is left.
use rt_evm.Common.{ℕ, suc, U256, Bytes, Hash, H160, Option, Bool, List, [], ◌∷◌}

-- `TransactionAction` of the crate ethereum
pub data TransactionAction : Type 0 where
  call : H160 → TransactionAction
  create : TransactionAction

-- `Log` of the crate ethereum
pub record Log : Type 0 where
  pub address : H160
  pub topics : List Hash
  pub payload : Bytes

mutual
  pub data Item : Type 0 where
    num : ℕ → Item
    bytes : Bytes → Item
    address : H160 → Item
    hash : Hash → Item
    action : TransactionAction → Item
    bloom : ℕ → Item
    flag : Bool → Item
    option_hash : Option Hash → Item
    logs : List Log → Item
    begin_list : ℕ → Items → Item

  pub data Items : Type 0 where
    nil : Items
    append : Item → Items → Items

-- `Account` of the crate ethereum; a bloom filter is the number that its 256 bytes spell.
pub record Account : Type 0 where
  pub nonce : U256
  pub balance : U256
  pub storage_root : Hash
  pub code_hash : Hash

abbrev pub Bloom : Type 0
Bloom = ℕ

pub record Externals : Type 0 where
  -- `RlpStream::out`
  pub out : Item → Bytes
  -- `ruc::crypto::keccak_hash` and `ruc::crypto::trie_root`
  pub keccak : Bytes → Hash
  pub merkle : List (Bytes × Bytes) → Hash
  -- `secp256k1_recover` and `serialize_uncompressed()[1..65]`
  pub recover : Hash → Bytes → Option Bytes
  -- `rlp::encode_list` on logs and on blooms, and `BloomInput::Raw`
  pub encode_logs : List Log → Bytes
  pub encode_blooms : List Bloom → Bytes
  pub raw_bloom : Bytes → Bloom
  -- `encode` and `decode` of `Account`
  pub encode_account : Account → Bytes
  pub decode_account : Bytes → Option Account

-- The number of items, as `begin_list` has to announce it.
abbrev pub count : Items → ℕ
count nil = 0
count (append i is) = suc (count is)

infixr 60 ◌<+>◌
abbrev pub ◌<+>◌ : Items → Items → Items
nil <+> js = js
append i is <+> js = append i (is <+> js)

abbrev pub each {ℓ} : {A : Type ℓ} → (A → Item) → List A → Items
each f [] = nil
each f (x ∷ xs) = append (f x) (each f xs)
