-- ===== src/Model/Transaction.antt =====
-- crates/model/src/types/transaction.rs: the transaction types, their accessors and gas figures.
pub mod Fits
pub mod Equality
pub mod Encode
pub mod Decode
pub mod Parts
pub mod RoundTrip
pub mod Gas
pub mod Signature
pub mod Hashing
use rt_evm.Common.{
  ℕ, ◌+◌, ◌-◌, ◌*◌, ◌/◌, ◌%◌, ◌≤◌, ◌≡◌, min, Bytes, Hash, H160, U256, u64_mod, u256_max,
  checked_mul, checked_add, unwrap_or, Option, none, some, List, [], ◌∷◌, ◌++◌, Bool, true, false,
  if◌then◌else◌, leb, ◌==◌, length, take, drop, get_elem?,
}
use rt_evm.Common.Outcome.{Outcome, ok, panic}
use rt_evm.Model.Rlp.{TransactionAction, call, create}

-- `AccessListItem` of the crate ethereum
pub record AccessListItem : Type 0 where
  pub address : H160
  pub storage_keys : List Hash

abbrev pub AccessList : Type 0
AccessList = List AccessListItem

pub record LegacyTransaction : Type 0 where
  pub nonce : U256
  pub gas_price : U256
  pub gas_limit : U256
  pub action : TransactionAction
  pub value : U256
  pub payload : Bytes

pub record Eip2930Transaction : Type 0 where
  pub nonce : U256
  pub gas_price : U256
  pub gas_limit : U256
  pub action : TransactionAction
  pub value : U256
  pub payload : Bytes
  pub access_list : AccessList

pub record Eip1559Transaction : Type 0 where
  pub nonce : U256
  pub max_priority_fee_per_gas : U256
  pub gas_price : U256
  pub gas_limit : U256
  pub action : TransactionAction
  pub value : U256
  pub payload : Bytes
  pub access_list : AccessList

pub data UnsignedTransaction : Type 0 where
  legacy : LegacyTransaction → UnsignedTransaction
  eip2930 : Eip2930Transaction → UnsignedTransaction
  eip1559 : Eip1559Transaction → UnsignedTransaction

pub record SignatureComponents : Type 0 where
  pub r : Bytes
  pub s : Bytes
  pub standard_v : ℕ

pub record UnverifiedTransaction : Type 0 where
  pub unsigned : UnsignedTransaction
  pub signature : Option SignatureComponents
  pub chain_id : ℕ
  pub hash : Hash

pub record SignedTransaction : Type 0 where
  pub transaction : UnverifiedTransaction
  pub sender : H160
  pub public_key : Option Bytes

abbrev pub gas_per_zero_byte : ℕ
gas_per_zero_byte = 4

abbrev pub gas_per_nonzero_byte : ℕ
gas_per_nonzero_byte = 68

abbrev pub gas_call_transaction : ℕ
gas_call_transaction = 21000

abbrev pub gas_create_transaction : ℕ
gas_create_transaction = 32000

abbrev pub min_transaction_gas_limit : ℕ
min_transaction_gas_limit = 21000

unfoldable pub type_of : UnsignedTransaction → ℕ
type_of (legacy t) = 0
type_of (eip2930 t) = 1
type_of (eip1559 t) = 2

abbrev pub is_legacy : UnsignedTransaction → Bool
is_legacy (legacy t) = true
is_legacy (eip2930 t) = false
is_legacy (eip1559 t) = false

-- The bytes of the field `data`.
unfoldable pub data_of : UnsignedTransaction → Bytes
data_of (legacy t) = t.payload
data_of (eip2930 t) = t.payload
data_of (eip1559 t) = t.payload

unfoldable pub set_action : TransactionAction → UnsignedTransaction → UnsignedTransaction
set_action a (legacy t) = legacy (record t { action = a })
set_action a (eip2930 t) = eip2930 (record t { action = a })
set_action a (eip1559 t) = eip1559 (record t { action = a })

unfoldable pub set_data : Bytes → UnsignedTransaction → UnsignedTransaction
set_data d (legacy t) = legacy (record t { payload = d })
set_data d (eip2930 t) = eip2930 (record t { payload = d })
set_data d (eip1559 t) = eip1559 (record t { payload = d })

unfoldable pub gas_price : UnsignedTransaction → U256
gas_price (legacy t) = t.gas_price
gas_price (eip2930 t) = t.gas_price
gas_price (eip1559 t) = min t.gas_price t.max_priority_fee_per_gas

unfoldable pub max_priority_fee_per_gas : UnsignedTransaction → U256
max_priority_fee_per_gas (legacy t) = t.gas_price
max_priority_fee_per_gas (eip2930 t) = t.gas_price
max_priority_fee_per_gas (eip1559 t) = t.max_priority_fee_per_gas

unfoldable pub value_of : UnsignedTransaction → U256
value_of (legacy t) = t.value
value_of (eip2930 t) = t.value
value_of (eip1559 t) = t.value

unfoldable pub gas_limit : UnsignedTransaction → U256
gas_limit (legacy t) = t.gas_limit
gas_limit (eip2930 t) = t.gas_limit
gas_limit (eip1559 t) = t.gas_limit

unfoldable pub nonce : UnsignedTransaction → U256
nonce (legacy t) = t.nonce
nonce (eip2930 t) = t.nonce
nonce (eip1559 t) = t.nonce

unfoldable pub action_of : UnsignedTransaction → TransactionAction
action_of (legacy t) = t.action
action_of (eip2930 t) = t.action
action_of (eip1559 t) = t.action

unfoldable pub access_list : UnsignedTransaction → AccessList
access_list (legacy t) = []
access_list (eip2930 t) = t.access_list
access_list (eip1559 t) = t.access_list

-- `get_to` of the three transaction types.
abbrev pub get_to : TransactionAction → Option H160
get_to (call a) = some a
get_to create = none

unfoldable pub to : UnsignedTransaction → Option H160
to (legacy t) = get_to t.action
to (eip2930 t) = get_to t.action
to (eip1559 t) = get_to t.action

-- The loop of `data_gas_cost` over the rest of the bytes; a `u64` wraps.
abbrev pub add_gas : ℕ → Bytes → ℕ
add_gas ret [] = ret
add_gas ret (b ∷ bs) =
    add_gas ((ret + (if b == 0 then gas_per_zero_byte else gas_per_nonzero_byte)) % u64_mod) bs

unfoldable pub data_gas_cost : Bytes → ℕ
data_gas_cost bs = add_gas 0 bs

unfoldable pub base_of : TransactionAction → ℕ
base_of (call a) = gas_call_transaction
base_of create = gas_create_transaction + gas_call_transaction

unfoldable pub base_gas : UnsignedTransaction → ℕ
unfolding base_of
base_gas t = (base_of (action_of t) + data_gas_cost (data_of t)) % u64_mod

unfoldable pub may_cost : UnsignedTransaction → U256
may_cost t = elim (checked_mul (gas_price t) (gas_limit t)) [
  | some res ↦ unwrap_or (checked_add res (value_of t)) u256_max
  | none ↦ u256_max
]

-- `unreachable!()` on a legacy transaction is `none`.
unfoldable pub as_u8 : UnsignedTransaction → Option ℕ
as_u8 (legacy t) = none
as_u8 (eip2930 t) = some 1
as_u8 (eip1559 t) = some 2

abbrev pub is_eth_sig : SignatureComponents → Bool
is_eth_sig sc = leb sc.standard_v 1

unfoldable pub add_chain_replay_protection : SignatureComponents → Option ℕ → ℕ
add_chain_replay_protection sc none = (sc.standard_v + 27) % u64_mod
add_chain_replay_protection sc (some i) = (sc.standard_v + (35 + i * 2) % u64_mod) % u64_mod

unfoldable pub extract_standard_v : ℕ → Option ℕ
extract_standard_v v = if leb 35 v then some ((v - 1) % 2) else none

unfoldable pub extract_chain_id : ℕ → Option ℕ
extract_chain_id v = if leb 35 v then some ((v - 35) / 2) else none

-- `From<SignatureComponents> for Bytes`, which is also `as_bytes`.
unfoldable pub as_bytes : SignatureComponents → Bytes
as_bytes sc = (sc.r ++ sc.s) ++ sc.standard_v ∷ []

-- `From<Bytes>`; a slice past the end panics.
unfoldable pub from_bytes : Bytes → Outcome SignatureComponents
from_bytes bs = elim (get_elem? bs 64) [
  | none ↦ panic
  | some v ↦ ok (record { r = take 32 bs; s = take 32 (drop 32 bs); standard_v = v })
]

unfoldable pub len : SignatureComponents → ℕ
len sc = length sc.r + length sc.s + 1
