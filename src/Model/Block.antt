-- ===== src/Model/Block.antt =====
-- crates/model/src/types/block.rs, the encoding of crates/model/src/codec/block.rs, and the
-- execution context of crates/model/src/types/executor.rs.
use rt_evm.Common.{ℕ, Bytes, Hash, H160, U256, Option, none, List, [], map, length, nil_hash}
use rt_evm.Model.Rlp.{
  Item, num, address, hash, begin_list, nil, append, each, Log, Bloom, Externals,
}
use rt_evm.Model.Response.{ExecResp}
use rt_evm.Model.Transaction.{SignedTransaction}

abbrev pub max_block_gas_limit : ℕ
max_block_gas_limit = 50_000_000

abbrev pub base_fee_per_gas_default : ℕ
base_fee_per_gas_default = 0x539

pub record Proposal : Type 0 where
  pub prev_hash : Hash
  pub proposer : H160
  pub transactions_root : Hash
  pub timestamp : ℕ
  pub number : ℕ
  pub gas_limit : U256
  pub extra_data : Bytes
  pub mixed_hash : Option Hash
  pub base_fee_per_gas : U256
  pub chain_id : ℕ
  pub tx_hashes : List Hash

pub record Header : Type 0 where
  pub prev_hash : Hash
  pub proposer : H160
  pub state_root : Hash
  pub transactions_root : Hash
  pub receipts_root : Hash
  pub log_bloom : Bloom
  pub difficulty : U256
  pub timestamp : ℕ
  pub number : ℕ
  pub gas_used : U256
  pub gas_limit : U256
  pub extra_data : Bytes
  pub mixed_hash : Option Hash
  pub nonce : ℕ
  pub base_fee_per_gas : U256
  pub chain_id : ℕ

pub record Block : Type 0 where
  pub header : Header
  pub tx_hashes : List Hash

pub record FatBlock : Type 0 where
  pub block : Block
  pub txs : List SignedTransaction

-- `From<&Header> for Proposal`
unfoldable pub from_header : Header → Proposal
from_header h = record {
  prev_hash = h.prev_hash;
  proposer = h.proposer;
  transactions_root = h.transactions_root;
  timestamp = h.timestamp;
  number = h.number;
  gas_limit = h.gas_limit;
  extra_data = h.extra_data;
  mixed_hash = h.mixed_hash;
  base_fee_per_gas = h.base_fee_per_gas;
  chain_id = h.chain_id;
  tx_hashes = [];
}

-- `From<&Block> for Proposal`
unfoldable pub from_block : Block → Proposal
unfolding from_header
from_block b = from_header b.header

-- `Encodable for Proposal`
unfoldable pub proposal_item : Proposal → Item
proposal_item p = begin_list 6 (
    append (hash p.prev_hash) (
      append (address p.proposer) (
        append (hash p.transactions_root) (
          append (num p.timestamp) (
            append (num p.number)
              (append (begin_list (length p.tx_hashes) (each hash p.tx_hashes)) nil))))))

pub record ExecutorContext : Type 0 where
  pub block_number : U256
  pub block_hash : Hash
  pub block_coinbase : H160
  pub block_timestamp : U256
  pub chain_id : U256
  pub difficulty : U256
  pub origin : H160
  pub gas_price : U256
  pub block_gas_limit : U256
  pub block_base_fee_per_gas : U256
  pub logs : List Log

module _ ⦃ext : Externals⦄ where
  open ext use {out, keccak, encode_logs, encode_blooms, raw_bloom}

  -- `Proposal::hash`
  unfoldable pub proposal_hash : Proposal → Hash
  proposal_hash p = keccak (out (proposal_item p))

  -- `Header::hash`
  unfoldable pub header_hash : Header → Hash
  header_hash h = proposal_hash (from_header h)

  -- `Block::hash`
  unfoldable pub block_hash : Block → Hash
  block_hash b = proposal_hash (from_block b)

  -- `Block::new`
  unfoldable pub new_block : Proposal → ExecResp → Block
  new_block p resp = record {
    header = record {
      prev_hash = p.prev_hash;
      proposer = p.proposer;
      state_root = resp.state_root;
      transactions_root = p.transactions_root;
      receipts_root = resp.receipt_root;
      log_bloom =
          raw_bloom (encode_blooms (map (λ r. raw_bloom (encode_logs r.logs)) resp.txs_resp));
      difficulty = 1;
      timestamp = p.timestamp;
      number = p.number;
      gas_used = resp.gas_used;
      gas_limit = p.gas_limit;
      extra_data = p.extra_data;
      mixed_hash = p.mixed_hash;
      nonce = 0;
      base_fee_per_gas = p.base_fee_per_gas;
      chain_id = p.chain_id;
    };
    tx_hashes = p.tx_hashes;
  }

  -- `From<&Proposal> for ExecutorContext`
  unfoldable pub context_of : Proposal → ExecutorContext
  context_of p = record {
    block_number = p.number;
    block_hash = keccak (out (proposal_item p));
    block_coinbase = p.proposer;
    block_timestamp = p.timestamp;
    chain_id = p.chain_id;
    difficulty = 1;
    origin = p.proposer;
    gas_price = 1;
    block_gas_limit = p.gas_limit;
    block_base_fee_per_gas = p.base_fee_per_gas;
    logs = [];
  }

-- `Block::mock`
unfoldable pub mock : ℕ → ℕ → Hash → ℕ → Block
mock chain_id number state_root timestamp = record {
  header = record {
    prev_hash = 0;
    proposer = 0;
    state_root = state_root;
    transactions_root = nil_hash;
    receipts_root = nil_hash;
    log_bloom = 0;
    difficulty = 1;
    timestamp = timestamp;
    number = number;
    gas_used = 0;
    gas_limit = max_block_gas_limit;
    extra_data = [];
    mixed_hash = none;
    nonce = 0;
    base_fee_per_gas = base_fee_per_gas_default;
    chain_id = chain_id;
  };
  tx_hashes = [];
}
