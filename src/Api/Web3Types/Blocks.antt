-- ===== src/Api/Web3Types/Blocks.antt =====
-- Blocks and headers as clients see them, of crates/api/src/jsonrpc/web3_types.rs.
use rt_evm.Api.Web3Types.{empty_uncle_hash, FatTransactionOrHash, just_hash}
use rt_evm.Common.{ℕ, Bytes, Hash, H160, U256, Option, some, List, [], map}
use rt_evm.Model.Rlp.{Externals, Bloom}
use rt_evm.Model.Block.{Block, Header, block_hash}

pub record Web3Block : Type 0 where
  pub hash : Hash
  pub parent_hash : Hash
  pub sha3_uncles : Hash
  pub author : H160
  pub miner : H160
  pub state_root : Hash
  pub transactions_root : Hash
  pub receipts_root : Hash
  pub number : U256
  pub gas_used : U256
  pub gas_limit : U256
  pub extra_data : Bytes
  pub logs_bloom : Option Bloom
  pub timestamp : U256
  pub difficulty : U256
  pub total_difficulty : Option U256
  pub seal_fields : List Bytes
  pub base_fee_per_gas : U256
  pub uncles : List Hash
  pub transactions : List FatTransactionOrHash
  pub size : Option U256
  pub nonce : ℕ

-- `From<Block>`. The size of a header is the length of the encoding that a macro of the crate rlp
-- derives, an argument.
unfoldable pub web3_block : ⦃ext : Externals⦄ → (Header → ℕ) → Block → Web3Block
web3_block size b = record {
  hash = block_hash b;
  parent_hash = b.header.prev_hash;
  sha3_uncles = empty_uncle_hash;
  author = b.header.proposer;
  miner = b.header.proposer;
  state_root = b.header.state_root;
  transactions_root = b.header.transactions_root;
  receipts_root = b.header.receipts_root;
  number = b.header.number;
  gas_used = b.header.gas_used;
  gas_limit = b.header.gas_limit;
  extra_data = b.header.extra_data;
  logs_bloom = some b.header.log_bloom;
  timestamp = b.header.timestamp;
  difficulty = b.header.difficulty;
  total_difficulty = some 0;
  seal_fields = [];
  base_fee_per_gas = b.header.base_fee_per_gas;
  uncles = [];
  transactions = map just_hash b.tx_hashes;
  size = some (size b.header);
  nonce = 0;
}

pub record Web3Header : Type 0 where
  pub difficulty : U256
  pub extra_data : Bytes
  pub gas_limit : U256
  pub gas_used : U256
  pub logs_bloom : Option Bloom
  pub miner : H160
  pub nonce : U256
  pub number : U256
  pub parent_hash : Hash
  pub receipts_root : Hash
  pub sha3_uncles : Hash
  pub state_root : Hash
  pub timestamp : U256
  pub transactions_root : Hash

-- `From<Header>`
unfoldable pub web3_header : Header → Web3Header
web3_header h = record {
  difficulty = h.difficulty;
  extra_data = h.extra_data;
  gas_limit = h.gas_limit;
  gas_used = h.gas_used;
  logs_bloom = some h.log_bloom;
  miner = h.proposer;
  nonce = 0;
  number = h.number;
  parent_hash = h.prev_hash;
  receipts_root = h.receipts_root;
  sha3_uncles = empty_uncle_hash;
  state_root = h.state_root;
  timestamp = h.timestamp;
  transactions_root = h.transactions_root;
}
