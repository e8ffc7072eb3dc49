-- ===== src/Tests/Producing.antt =====
-- Blocks at concrete values: receipts, the verification of a proposal and of a block, and a block
-- that is produced on the first one.
use rt_evm.Common.{◌%◌, ◌≡◌, refl, false, none, some, List, [], ◌∷◌, get_elem?, u64_mod, nil_hash}
use rt_evm.Common.Outcome.{ok}
use rt_evm.Model.Transaction.{
  SignedTransaction, gas_price, gas_limit, nonce, action_of, add_chain_replay_protection,
}
use rt_evm.Model.Transaction.Encode.{
  calc_hash, get_hash, encode, rlp_bytes, rlp_append, legacy_item,
}
use rt_evm.Model.Rlp.{Log}
use rt_evm.Model.Response.{TxResp, ExecResp, succeed}
use rt_evm.Model.Block.{
  Proposal, Header, FatBlock, header_hash, mock, proposal_hash, from_header, from_block,
  proposal_item,
}
use rt_evm.Store.Cached.{read, write, fresh}
use rt_evm.Storage.{
  new as new_storage, set_block, set_latest_block, get_latest_block, get_latest_block_header,
  get_block_header,
}
use rt_evm.Storage.Accounts.{get_account_by_state, save_account_by_state, account_of}
use rt_evm.Mempool.{tx_cleanup}
use rt_evm.Executor.Adapter.{
  get_account, save_account, set_origin, set_gas_price, get_logs, commit, apply_all, apply_values,
  from_root,
}
use rt_evm.Executor.Roots.{trie_root, trie_root_indexed, trie_root_txs, logs_bloom}
use rt_evm.Executor.Exec.{
  evm_exec, execute, settle, refund, next_nonce, as_u64, charge_invalid, exec, exec_from, exec_one,
}
use rt_evm.BlockMgmt.{
  BlockMgmt, new, produce_block, generate_block, generate_proposal, generate_receipts,
  verify_proposal, verify_refblock, verify_block, verify_txs,
}
use rt_evm.BlockMgmt.Receipts.{get_elem?-generate_receipts}
use rt_evm.BlockMgmt.Verify.{Acceptable, verify_proposal_sound, verify_block_empty}
use rt_evm.BlockMgmt.Produce.{Continues, produce_block_extends}
use rt_evm.Tests.Pooling.{pool, tx, passes}
use rt_evm.Tests.World.{
  tables, caches, tries, externals, evm, payment, deployment, sign, store, chain, genesis, alice,
}

abbrev log : Log
log = record { address = 3; topics = 4 ∷ []; payload = [] }

abbrev resp_with : List Log → TxResp
resp_with logs = record {
  exit_reason = succeed "stopped";
  ret = [];
  gas_used = 21_000;
  remain_gas = 0;
  fee_cost = 21_000;
  logs = logs;
  code_address = none;
  removed = false;
}

abbrev responses : ExecResp
responses = record {
  state_root = 1;
  transaction_root = 2;
  receipt_root = 3;
  gas_used = 42_000;
  fee_used = 42_000;
  txs_resp = resp_with (log ∷ log ∷ []) ∷ resp_with (log ∷ []) ∷ [];
}

get_elem?-generate_receipts_example :
    get_elem? (generate_receipts 4 8 9 (sign (payment 5) ∷ sign (payment 6) ∷ []) responses) 1
    ≡ some (record {
      tx_hash = (sign (payment 6)).transaction.hash;
      block_number = 4;
      block_hash = 8;
      tx_index = 1;
      state_root = 9;
      used_gas = 21_000;
      logs_bloom = logs_bloom (log ∷ []);
      logs = log ∷ [];
      log_index = 2;
      code_address = none;
      sender = alice;
      ret = succeed "stopped";
      removed = false;
    })
get_elem?-generate_receipts_example =
    get_elem?-generate_receipts 4 8 9 (sign (payment 5) ∷ sign (payment 6) ∷ []) responses 1
      (sign (payment 6)) (resp_with (log ∷ [])) refl refl

abbrev manager : BlockMgmt
manager = record {
  proposer = 77;
  prev_block_hash = header_hash genesis.header;
  prev_state_root = 1;
  block_number = 4;
  block_timestamp = 1_010;
  chain_id = 152;
  mempool = pool;
  trie = store;
  storage = chain;
}

abbrev proposal : Proposal
proposal = generate_proposal manager (tx ∷ [])

accepted : verify_proposal manager 2_000 proposal (tx ∷ []) ≡ ok tt
unfolding verify_proposal verify_txs generate_proposal get_block_header set_block set_latest_block
    new_storage mock read write fresh header_hash proposal_hash from_header proposal_item trie_root
    trie_root_indexed trie_root_txs calc_hash get_hash encode rlp_bytes rlp_append legacy_item
    add_chain_replay_protection
accepted = rw (passes) refl

verify_proposal_sound_example : Acceptable manager 2_000 proposal (tx ∷ [])
verify_proposal_sound_example = verify_proposal_sound manager 2_000 proposal (tx ∷ []) accepted

abbrev empty_block : FatBlock
empty_block =
    let b = mock 152 4 1 1_010 in
    let h = b.header in
    record {
      block = record b { header = record h { prev_hash = header_hash genesis.header } };
      txs = [];
    }

verified : verify_block manager 2_000 empty_block ≡ ok tt
unfolding verify_block verify_refblock verify_proposal verify_txs get_block_header set_block
    set_latest_block new_storage mock read write fresh header_hash proposal_hash from_header
    from_block proposal_item trie_root trie_root_indexed trie_root_txs
verified = refl

verify_block_empty_example :
    (empty_block.txs ≡ []) × (empty_block.block.header.transactions_root ≡ nil_hash)
verify_block_empty_example = verify_block_empty manager 2_000 empty_block verified

abbrev two : List SignedTransaction
two = sign (payment 5) ∷ sign (deployment 6) ∷ []

produced : (r : BlockMgmt × Header) × (produce_block manager two ≡ ok r)
unfolding produce_block generate_block from_root exec exec_from exec_one evm_exec execute settle
    refund next_nonce as_u64 charge_invalid get_account save_account get_account_by_state
    save_account_by_state account_of set_origin set_gas_price get_logs commit apply_all apply_values
    nonce gas_price gas_limit action_of calc_hash
produced = (_, refl)

renewed :
    (n : BlockMgmt) × (new 77 1_020 produced.0.0.mempool produced.0.0.trie produced.0.0.storage
      ≡ ok n)
unfolding produced new get_latest_block_header get_latest_block set_block set_latest_block
renewed = (_, refl)

produce_block_extends_example :
    (get_latest_block_header produced.0.0.storage ≡ ok produced.0.1)
    × (Continues manager two produced.0.1)
    × (produced.0.0.mempool ≡ tx_cleanup pool two)
    × (renewed.0.block_number ≡ 5 % u64_mod)
    × (renewed.0.prev_block_hash ≡ header_hash produced.0.1)
    × (renewed.0.prev_state_root ≡ produced.0.1.state_root)
    × (renewed.0.chain_id ≡ 152)
produce_block_extends_example =
    produce_block_extends manager produced.0.0 renewed.0 two produced.0.1 77 1_020 produced.1
      renewed.1
