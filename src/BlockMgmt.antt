-- ===== src/BlockMgmt.antt =====
-- crates/blockmgmt/src/lib.rs: blocks are proposed, executed, stored and verified. The pool, the
-- trie store and the storage are shared with the rest of the node; here they are fields, and an
-- operation that changes them returns the new state.
pub mod Receipts
pub mod Verify
pub mod Produce
use rt_evm.Common.{
  ℕ, ◌+◌, ◌-◌, ◌%◌, ◌^◌, Hash, H160, none, false, List, [], ◌∷◌, map, length, u64_mod, ltb, ◌==◌,
  not,
}
use rt_evm.Common.Outcome.{
  Outcome, ok, block_rejected, hash_mismatch, block_missing, or_err, reject_if, ◌>>=◌, ◌>>◌,
}
use rt_evm.Model.Rlp.{Externals}
use rt_evm.Model.Block.{
  Proposal, Header, Block, FatBlock, header_hash, block_hash, new_block, context_of, from_block,
  max_block_gas_limit, base_fee_per_gas_default,
}
use rt_evm.Model.Response.{TxResp, ExecResp, Receipt}
use rt_evm.Model.Transaction.{SignedTransaction}
use rt_evm.Store.Table.{Tables}
use rt_evm.Store.Cache.{Caches}
use rt_evm.Store.Trie.{Tries}
use rt_evm.Storage.{
  FunStorage, get_latest_block_header, get_block_header, insert_txs, insert_receipts, set_block,
}
use rt_evm.Mempool.{TinyMempool, tx_cleanup, tx_pre_check, hash_of}
use rt_evm.Executor.Adapter.{from_root}
use rt_evm.Executor.Roots.{trie_root_txs, trie_root_indexed, logs_bloom}
use rt_evm.Executor.Exec.{Evm, exec}

module _ ⦃ext : Externals⦄ where
  -- The receipt of the transaction `idx`, of a block with `log_index` logs before it.
  abbrev pub receipt_of : ℕ → Hash → Hash → ℕ → ℕ → SignedTransaction → TxResp → Receipt
  receipt_of number hash root idx log_index tx res = record {
    tx_hash = hash_of tx;
    block_number = number;
    block_hash = hash;
    tx_index = idx % 2 ^ 32;
    state_root = root;
    used_gas = res.gas_used;
    logs_bloom = logs_bloom res.logs;
    logs = res.logs;
    log_index = log_index;
    code_address = res.code_address;
    sender = tx.sender;
    ret = res.exit_reason;
    removed = res.removed;
  }

  -- `zip` stops with the shorter list.
  unfoldable pub receipts_from :
      ℕ → Hash → Hash → ℕ → ℕ → List SignedTransaction → List TxResp → List Receipt
  receipts_from number hash root idx log_index [] rs = []
  receipts_from number hash root idx log_index (tx ∷ txs) [] = []
  receipts_from number hash root idx log_index (tx ∷ txs) (r ∷ rs) =
      receipt_of number hash root idx log_index tx r
      ∷ receipts_from number hash root (idx + 1) ((log_index + length r.logs) % 2 ^ 32) txs rs

  unfoldable pub generate_receipts :
      ℕ → Hash → Hash → List SignedTransaction → ExecResp → List Receipt
  generate_receipts number hash root txs resp = receipts_from number hash root 0 0 txs resp.txs_resp

module _ ⦃ext : Externals⦄ ⦃tries : Tries⦄ ⦃tables : Tables⦄ ⦃caches : Caches⦄ where
  pub record BlockMgmt : Type 0 where
    pub proposer : H160
    pub prev_block_hash : Hash
    pub prev_state_root : Hash
    pub block_number : ℕ
    pub block_timestamp : ℕ
    pub chain_id : ℕ
    pub mempool : TinyMempool
    pub trie : tries.Store
    pub storage : FunStorage

  unfoldable pub new : H160 → ℕ → TinyMempool → tries.Store → FunStorage → Outcome BlockMgmt
  new proposer timestamp mempool trie s = do
    h ← get_latest_block_header s
    ok (record {
      proposer = proposer;
      prev_block_hash = header_hash h;
      prev_state_root = h.state_root;
      block_number = (1 + h.number) % u64_mod;
      block_timestamp = timestamp;
      chain_id = h.chain_id;
      mempool = mempool;
      trie = trie;
      storage = s;
    })

  unfoldable pub generate_proposal : BlockMgmt → List SignedTransaction → Proposal
  generate_proposal m txs = record {
    prev_hash = m.prev_block_hash;
    proposer = m.proposer;
    transactions_root = trie_root_txs txs;
    timestamp = m.block_timestamp;
    number = m.block_number;
    gas_limit = max_block_gas_limit;
    extra_data = [];
    mixed_hash = none;
    base_fee_per_gas = base_fee_per_gas_default;
    chain_id = m.chain_id;
    tx_hashes = map hash_of txs;
  }

  unfoldable pub generate_block :
      ⦃evm : Evm⦄ → BlockMgmt → List SignedTransaction → Outcome (BlockMgmt × Block × List Receipt)
  generate_block m txs = do
    let p = generate_proposal m txs
    backend ← from_root m.prev_state_root m.trie m.storage (context_of p)
    (backend', resp) ← exec backend txs
    let block = new_block p resp
    let receipts =
        generate_receipts m.block_number (block_hash block) block.header.state_root txs resp
    ok (
      record m {
        mempool = tx_cleanup m.mempool txs;
        trie = backend'.trie_db;
        storage = backend'.storage;
      },
      block,
      receipts,
    )

  -- The storage with the block, its transactions and its receipts.
  abbrev pub persist : FunStorage → Block → List SignedTransaction → List Receipt → FunStorage
  persist s block txs receipts =
      set_block
        (insert_receipts (insert_txs s block.header.number txs) block.header.number receipts) block

  unfoldable pub produce_block :
      ⦃evm : Evm⦄ → BlockMgmt → List SignedTransaction → Outcome (BlockMgmt × Header)
  produce_block m txs = do
    (m', block, receipts) ← generate_block m txs
    ok (record m' { storage = persist m'.storage block txs receipts }, block.header)

  -- The parallel loop of `verify_proposal`: every pair passes, or the call fails.
  unfoldable pub verify_txs : BlockMgmt → List SignedTransaction → List Hash → Outcome (Unit {0})
  verify_txs m [] hs = ok tt
  verify_txs m (tx ∷ txs) [] = ok tt
  verify_txs m (tx ∷ txs) (h ∷ hs) = do
    reject_if (not (hash_of tx == h)) hash_mismatch
    tx_pre_check m.trie m.storage m.mempool tx false
    verify_txs m txs hs

  -- `now` is the current time, `ts!()`.
  unfoldable pub verify_proposal :
      BlockMgmt → ℕ → Proposal → List SignedTransaction → Outcome (Unit {0})
  verify_proposal m now p txs = do
    reject_if (ltb p.number 1) block_rejected
    reject_if (not (m.chain_id == p.chain_id)) block_rejected
    reject_if (ltb now p.timestamp) block_rejected
    found ← get_block_header m.storage (p.number - 1)
    prev ← or_err found block_missing
    reject_if (not (p.prev_hash == header_hash prev)) block_rejected
    reject_if (not (trie_root_indexed p.tx_hashes == p.transactions_root)) block_rejected
    reject_if (not (length txs == length p.tx_hashes)) block_rejected
    verify_txs m txs p.tx_hashes

  unfoldable pub verify_refblock :
      BlockMgmt → ℕ → Block → List SignedTransaction → Outcome (Unit {0})
  verify_refblock m now block txs = verify_proposal m now (from_block block) txs

  unfoldable pub verify_block : BlockMgmt → ℕ → FatBlock → Outcome (Unit {0})
  verify_block m now fb = verify_refblock m now fb.block fb.txs
