-- ===== src/Model/Response.antt =====
-- crates/model/src/types/executor.rs and crates/model/src/types/receipt.rs: what an execution
-- returns, and receipts.
use Prim.Native.String.{String}
use rt_evm.Common.{
  ℕ, Bytes, Hash, H160, U256, Bool, true, false, if◌then◌else◌, Option, none, List, [],
}
use rt_evm.Model.Rlp.{Log, Bloom}

-- `ExitReason` of the crate evm, with the reason as text
pub data ExitReason : Type 0 where
  succeed : String → ExitReason
  error : String → ExitReason
  revert : String → ExitReason
  fatal : String → ExitReason

abbrev pub is_succeed : ExitReason → Bool
is_succeed (succeed r) = true
is_succeed (error r) = false
is_succeed (revert r) = false
is_succeed (fatal r) = false

pub record TxResp : Type 0 where
  pub exit_reason : ExitReason
  pub ret : Bytes
  pub gas_used : ℕ
  pub remain_gas : ℕ
  pub fee_cost : U256
  pub logs : List Log
  pub code_address : Option Hash
  pub removed : Bool

pub record ExecResp : Type 0 where
  pub state_root : Hash
  pub transaction_root : Hash
  pub receipt_root : Hash
  pub gas_used : ℕ
  pub fee_used : U256
  pub txs_resp : List TxResp

-- `TxResp::invalid_nonce`
abbrev pub invalid_nonce_resp : ℕ → U256 → TxResp
invalid_nonce_resp gas fee = record {
  exit_reason = error "invalid nonce";
  ret = [];
  gas_used = gas;
  remain_gas = 0;
  fee_cost = fee;
  logs = [];
  code_address = none;
  removed = false;
}

pub record Receipt : Type 0 where
  pub tx_hash : Hash
  pub block_number : ℕ
  pub block_hash : Hash
  pub tx_index : ℕ
  pub state_root : Hash
  pub used_gas : U256
  pub logs_bloom : Bloom
  pub logs : List Log
  pub log_index : ℕ
  pub code_address : Option Hash
  pub sender : H160
  pub ret : ExitReason
  pub removed : Bool

unfoldable pub status : Receipt → U256
status r = if is_succeed r.ret then 1 else 0
