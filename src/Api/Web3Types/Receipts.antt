-- ===== src/Api/Web3Types/Receipts.antt =====
-- Receipts as clients see them, of crates/api/src/jsonrpc/web3_types.rs.
use rt_evm.Api.Web3Types.{low_address}
use rt_evm.Common.{ℕ, suc, Bytes, Hash, H160, U256, Option, none, some, List, [], ◌∷◌, Bool, false}
use rt_evm.Model.Rlp.{Log, Bloom}
use rt_evm.Model.Response.{Receipt, status}
use rt_evm.Model.Transaction.{SignedTransaction, type_of, to}

pub record Web3ReceiptLog : Type 0 where
  pub address : H160
  pub topics : List Hash
  pub payload : Bytes
  pub block_number : U256
  pub block_hash : Hash
  pub transaction_hash : Hash
  pub transaction_index : Option U256
  pub log_index : U256
  pub removed : Bool

pub record Web3Receipt : Type 0 where
  pub block_number : U256
  pub block_hash : Hash
  pub contract_address : Option H160
  pub cumulative_gas_used : U256
  pub effective_gas_price : U256
  pub from : H160
  pub gas_used : U256
  pub logs : List Web3ReceiptLog
  pub logs_bloom : Bloom
  pub state_root : Hash
  pub status : U256
  pub to : Option H160
  pub transaction_hash : Hash
  pub transaction_index : Option U256
  pub transaction_type : Option ℕ

unfoldable pub receipt_logs : Receipt → ℕ → List Log → List Web3ReceiptLog
receipt_logs receipt i [] = []
receipt_logs receipt i (log ∷ logs) =
    record {
      address = log.address;
      topics = log.topics;
      payload = log.payload;
      block_number = receipt.block_number;
      block_hash = receipt.block_hash;
      transaction_hash = receipt.tx_hash;
      transaction_index = some receipt.tx_index;
      log_index = i;
      removed = false;
    }
    ∷ receipt_logs receipt (suc i) logs

abbrev pub contract_of : Option Hash → Option H160
contract_of none = none
contract_of (some h) = some (low_address h)

-- `Web3Receipt::new`
unfoldable pub new_receipt : Receipt → SignedTransaction → Web3Receipt
new_receipt receipt stx = record {
  block_number = receipt.block_number;
  block_hash = receipt.block_hash;
  contract_address = contract_of receipt.code_address;
  cumulative_gas_used = receipt.used_gas;
  effective_gas_price = receipt.used_gas;
  from = receipt.sender;
  gas_used = receipt.used_gas;
  logs = receipt_logs receipt 0 receipt.logs;
  logs_bloom = receipt.logs_bloom;
  state_root = receipt.state_root;
  status = status receipt;
  to = to stx.transaction.unsigned;
  transaction_hash = receipt.tx_hash;
  transaction_index = some receipt.tx_index;
  transaction_type = some (type_of stx.transaction.unsigned);
}
