-- ===== src/Api/Web3.antt =====
-- The methods of crates/api/src/jsonrpc/impls/web3.rs that read accounts, run calls and take
-- transactions in, and the error of a failed call (jsonrpc/error.rs). Hexadecimal texts of requests
-- and results are left as the bytes they encode. The error of a failed call has its message; of the
-- other errors in the JSON form, only the error behind it is kept.
use mathlib.Core.List.{reverse}
use rt_evm.Common.{
  ℕ, ◌+◌, Bytes, Hash, H160, U256, Option, none, some, [], length, Bool, false, is_some, not, ◌&&◌,
  unwrap_or, ltb, leb, ◌==◌, if◌then◌else◌, u64_mod, u64_max, u256_max, from_big_endian, to_be,
}
use rt_evm.Common.Outcome.{
  Outcome, ok, err, panic, bad_request, call_failed, not_found, or_err, reject_if, ◌>>=◌, ◌>>◌,
}
use rt_evm.Model.Rlp.{Externals}
use rt_evm.Model.Reader.{Reader}
use rt_evm.Model.Block.{Header, Block, from_header, max_block_gas_limit}
use rt_evm.Model.Response.{TxResp, is_succeed}
use rt_evm.Model.Transaction.Encode.{try_from}
use rt_evm.Model.Transaction.Decode.{decode}
use rt_evm.Store.Table.{Tables}
use rt_evm.Store.Cache.{Caches}
use rt_evm.Store.Trie.{Tries}
use rt_evm.Storage.{get_code_by_hash}
use rt_evm.Executor.Exec.{Evm}
use rt_evm.Executor.Revert.{decode_revert_msg}
use rt_evm.Api.Logs.{BlockId, num, latest, earliest, pending}
use rt_evm.Api.Backend.{
  ApiAdapter, insert_signed_tx, get_block_by_number, get_block_header_by_number, account_at,
  get_pending_tx_count, evm_call,
}

-- `Web3CallRequest`, without the fields that no method reads
pub record CallRequest : Type 0 where
  pub from : Option H160
  pub to : Option H160
  pub gas_price : Option U256
  pub max_fee_per_gas : Option U256
  pub gas : Option U256
  pub value : Option U256
  pub payload : Option Bytes
  pub nonce : Option U256

-- `From<BlockId> for Option<u64>`
unfoldable pub number_of : BlockId → Option ℕ
number_of (num n) = some n
number_of earliest = some 0
number_of latest = none
number_of pending = none

-- `H64::from_low_u64_le`, with `as_u64`, which panics beyond a `u64`
abbrev pub mock_nonce : Option U256 → ℕ → Outcome ℕ
mock_nonce none old = ok old
mock_nonce (some n) old =
    if leb u64_mod n then panic else ok (from_big_endian (reverse (to_be 8 n)))

unfoldable pub mock_header_by_call_req : Header → CallRequest → Outcome Header
mock_header_by_call_req h req = mock_nonce req.nonce h.nonce >>= λ nonce. ok (record {
  prev_hash = h.prev_hash;
  proposer = h.proposer;
  state_root = h.state_root;
  transactions_root = 0;
  receipts_root = 0;
  log_bloom = 0;
  difficulty = h.difficulty;
  timestamp = h.timestamp;
  number = h.number;
  gas_used = h.gas_used;
  gas_limit = unwrap_or req.gas h.gas_limit;
  extra_data = [];
  mixed_hash = none;
  nonce = nonce;
  base_fee_per_gas = unwrap_or req.max_fee_per_gas h.base_fee_per_gas;
  chain_id = h.chain_id;
})

-- The code and the message of the error; the second text that it carries is left out. A response
-- that succeeded is `unreachable!`.
unfoldable pub vm_err : {A : Type 0} → TxResp → Outcome A
vm_err resp =
    if is_succeed resp.exit_reason
    then panic
    else decode_revert_msg resp.ret >>= λ message. err (call_failed message)

module _ ⦃ext : Externals⦄ ⦃tries : Tries⦄ ⦃tables : Tables⦄ ⦃caches : Caches⦄ where
  -- The chain id of the node is an argument.
  unfoldable pub send_raw_tx :
      ⦃reader : Reader⦄ → ℕ → ApiAdapter → Bytes → ℕ → Outcome (ApiAdapter × Hash)
  send_raw_tx ⦃reader⦄ chain a tx now = do
    utx ← decode chain (reader.view tx)
    stx ← try_from utx
    a' ← insert_signed_tx a stx now
    ok (a', stx.transaction.hash)

  -- `unwrap_or_default` on what `map` makes of an account
  abbrev pub or_zero : Outcome U256 → Outcome U256
  or_zero (ok n) = ok n
  or_zero (err e) = ok 0
  or_zero panic = panic

  -- `+` on `U256` panics beyond it.
  abbrev pub add_u256 : U256 → U256 → Outcome U256
  add_u256 x y = if leb (x + y) u256_max then ok (x + y) else panic

  unfoldable pub get_tx_count : ApiAdapter → H160 → Option BlockId → Outcome U256
  get_tx_count a address number = elim (unwrap_or number latest) [
    | pending ↦
        or_zero
          (account_at a address none >>= λ acc. add_u256 acc.nonce (get_pending_tx_count a address))
    | num n ↦ or_zero (account_at a address (some n) >>= λ acc. ok acc.nonce)
    | latest ↦ or_zero (account_at a address none >>= λ acc. ok acc.nonce)
    | earliest ↦ or_zero (account_at a address (some 0) >>= λ acc. ok acc.nonce)
  ]

  unfoldable pub block_number : ApiAdapter → Outcome U256
  block_number a =
      get_block_header_by_number a none >>= λ h. or_err h not_found >>= λ header. ok header.number

  unfoldable pub get_balance : ApiAdapter → H160 → Option BlockId → Outcome U256
  get_balance a address number =
      or_zero (account_at a address (number_of (unwrap_or number latest)) >>= λ acc. ok acc.balance)

  unfoldable pub get_code : ApiAdapter → H160 → Option BlockId → Outcome Bytes
  get_code a address number = do
    acc ← account_at a address (number_of (unwrap_or number latest))
    code ← get_code_by_hash a.storage acc.code_hash
    ok (unwrap_or code [])

  abbrev pub count_of : Option Block → U256
  count_of none = 0
  count_of (some b) = length b.tx_hashes

  unfoldable pub get_block_tx_count_by_number : ApiAdapter → BlockId → Outcome U256
  get_block_tx_count_by_number a number =
      get_block_by_number a (number_of number) >>= λ b. ok (count_of b)

  module _ ⦃evm : Evm⦄ where
    -- `Web3RpcImpl::call_evm`
    unfoldable pub run_request : ApiAdapter → CallRequest → Bytes → Option ℕ → Outcome TxResp
    run_request a req payload number = do
      reject_if (not (is_some req.from) && not (is_some req.to)) bad_request
      found ← get_block_header_by_number a number
      header ← or_err found not_found
      mock ← mock_header_by_call_req header req
      evm_call a req.from req.to req.gas_price req.gas (unwrap_or req.value 0) payload
          mock.state_root (from_header mock)

    unfoldable pub call : ApiAdapter → CallRequest → Option BlockId → Outcome Bytes
    call a req number = do
      reject_if (ltb u64_max (unwrap_or req.gas_price 0)) bad_request
      reject_if (ltb max_block_gas_limit (unwrap_or req.gas 0)) bad_request
      resp ← run_request a req (unwrap_or req.payload []) (number_of (unwrap_or number latest))
      if is_succeed resp.exit_reason then ok resp.ret else vm_err resp

    -- A gas of zero and a price of `u64::MAX` or more are refused, and of the block only a number
    -- counts.
    abbrev pub is_zero : Option U256 → Bool
    is_zero none = false
    is_zero (some gas) = gas == 0

    abbrev pub price_too_high : Option U256 → Bool
    price_too_high none = false
    price_too_high (some price) = leb u64_max price

    abbrev pub only_number : Option BlockId → Option ℕ
    only_number (some (num n)) = some n
    only_number (some latest) = none
    only_number (some earliest) = none
    only_number (some pending) = none
    only_number none = none

    unfoldable pub estimate_gas : ApiAdapter → CallRequest → Option BlockId → Outcome U256
    estimate_gas a req number = do
      reject_if (is_zero req.gas) bad_request
      reject_if (price_too_high req.gas_price) bad_request
      resp ← run_request a req (unwrap_or req.payload []) (only_number number)
      if is_succeed resp.exit_reason then ok resp.gas_used else vm_err resp
