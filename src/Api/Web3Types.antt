-- ===== src/Api/Web3Types.antt =====
-- Transactions as clients see them, with receipts and blocks in child modules, of
-- crates/api/src/jsonrpc/web3_types.rs. Hexadecimal texts are left as the bytes they encode.
pub mod Receipts
pub mod Blocks
use rt_evm.Common.{
  ℕ, suc, ◌%◌, ◌^◌, Bytes, Hash, H160, U256, Option, none, some, List, [], ◌∷◌, map, length, Bool,
  true, false, leb, if◌then◌else◌, unwrap_or, from_big_endian,
}
use rt_evm.Common.Outcome.{Outcome, ok, panic, ◌>>=◌}
use rt_evm.Model.Rlp.{Externals, Log, Bloom}
use rt_evm.Model.Block.{Block, Header, block_hash}
use rt_evm.Model.Response.{Receipt, status}
use rt_evm.Model.Transaction.{
  UnsignedTransaction, legacy, eip2930, eip1559, SignatureComponents, SignedTransaction, AccessList,
  type_of, gas_price, max_priority_fee_per_gas, to, data_of, nonce, value_of, access_list,
}
use rt_evm.Model.Transaction.Encode.{rlp_bytes}

abbrev pub empty_uncle_hash : Hash
empty_uncle_hash = 0x1dcc4de8dec75d7aab85b567b6ccd41ad312451b948a7413f0a142fd40d49347

abbrev pub max_priority_fee : ℕ
max_priority_fee = 1_337

pub record Web3Transaction : Type 0 where
  pub type_ : Option ℕ
  pub block_number : Option U256
  pub block_hash : Option Hash
  pub hash : Hash
  pub nonce : U256
  pub transaction_index : Option U256
  pub from : H160
  pub to : Option H160
  pub value : U256
  pub gas : U256
  pub gas_price : U256
  pub max_fee_per_gas : Option U256
  pub max_priority_fee_per_gas : Option U256
  pub raw : Bytes
  pub input : Bytes
  pub public_key : Option Bytes
  pub access_list : Option AccessList
  pub chain_id : Option U256
  pub standard_v : Option U256
  pub v : U256
  pub r : U256
  pub s : U256

pub data FatTransactionOrHash : Type 0 where
  just_hash : Hash → FatTransactionOrHash
  fat : Web3Transaction → FatTransactionOrHash

-- `get_hash`
unfoldable pub hash_in : FatTransactionOrHash → Hash
hash_in (just_hash h) = h
hash_in (fat tx) = tx.hash

unfoldable pub is_eip1559 : UnsignedTransaction → Bool
is_eip1559 (legacy t) = false
is_eip1559 (eip2930 t) = false
is_eip1559 (eip1559 t) = true

-- `U256` of a slice, which is to have at most 32 bytes
abbrev pub slice_number : Bytes → Outcome U256
slice_number bs = if leb (length bs) 32 then ok (from_big_endian bs) else panic

-- `Default` of `SignatureComponents`
abbrev pub no_signature : SignatureComponents
no_signature = record { r = []; s = []; standard_v = 0 }

abbrev pub when_eip1559 : UnsignedTransaction → U256 → Option U256
when_eip1559 t fee = if is_eip1559 t then some fee else none

-- The conversion of an `H256` to an `H160` keeps the last 20 bytes.
abbrev pub low_address : Hash → H160
low_address h = h % 2 ^ 160

module _ ⦃ext : Externals⦄ where
  -- The fields of both conversions to `Web3Transaction`, with the data that only a receipt has, and
  -- the numbers of the signature.
  abbrev pub fields_with :
      SignedTransaction
      → Option U256
      → Option Hash
      → Option U256
      → U256
      → Hash
      → U256
      → U256
      → Web3Transaction
  fields_with stx block_number block_hash index gas hash r s =
      let t = stx.transaction.unsigned in
      record {
        type_ = some (type_of t);
        block_number = block_number;
        block_hash = block_hash;
        hash = hash;
        nonce = nonce t;
        transaction_index = index;
        from = stx.sender;
        to = to t;
        value = value_of t;
        gas = gas;
        gas_price = gas_price t;
        max_fee_per_gas = when_eip1559 t max_priority_fee;
        max_priority_fee_per_gas = when_eip1559 t (max_priority_fee_per_gas t);
        raw = rlp_bytes stx.transaction;
        input = data_of t;
        public_key = stx.public_key;
        access_list = some (access_list t);
        chain_id = some stx.transaction.chain_id;
        standard_v = none;
        v = (unwrap_or stx.transaction.signature no_signature).standard_v;
        r = r;
        s = s;
      }

  abbrev pub web3_fields :
      SignedTransaction
      → Option U256
      → Option Hash
      → Option U256
      → U256
      → Hash
      → Outcome Web3Transaction
  web3_fields stx block_number block_hash index gas hash = do
    let signature = unwrap_or stx.transaction.signature no_signature
    r ← slice_number signature.r
    s ← slice_number signature.s
    ok (fields_with stx block_number block_hash index gas hash r s)

  -- `From<SignedTransaction>`
  unfoldable pub from_signed : SignedTransaction → Outcome Web3Transaction
  from_signed stx = web3_fields stx none none none 0 stx.transaction.hash

  -- `From<(SignedTransaction, Receipt)>`
  unfoldable pub from_receipt : SignedTransaction → Receipt → Outcome Web3Transaction
  from_receipt stx receipt =
      web3_fields stx (some receipt.block_number) (some receipt.block_hash) (some receipt.tx_index)
        receipt.used_gas receipt.tx_hash

  -- `add_block_number`, `add_block_hash` and `add_tx_index`
  unfoldable pub add_position : ℕ → Hash → ℕ → Web3Transaction → Web3Transaction
  add_position number hash index tx = record tx {
    block_number = some number;
    block_hash = some hash;
    transaction_index = some index;
  }
