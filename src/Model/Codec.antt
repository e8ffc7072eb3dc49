-- ===== src/Model/Codec.antt =====
-- crates/model/src/codec/receipt.rs, crates/model/src/codec/executor.rs and the decoding side of
-- crates/model/src/codec/block.rs. The BCS encoding of an exit reason is a parameter.
pub mod RoundTrip
use rt_evm.Common.{ℕ, Bytes, Bool, Option, none, [], false, ◌==◌, not}
use rt_evm.Common.Outcome.{Outcome, ok, bad_codec, or_err, reject_if, ◌>>=◌, ◌>>◌}
use rt_evm.Model.Rlp.{
  Item, num, bytes, address, hash, bloom, flag, option_hash, logs, begin_list, nil, append,
}
use rt_evm.Model.Reader.{Reader, Prototype, null, value, list, val_at}
use rt_evm.Model.Block.{Proposal, max_block_gas_limit, base_fee_per_gas_default}
use rt_evm.Model.Response.{ExitReason, TxResp, Receipt}

-- The crate bcs at the type of exit reasons.
pub record Bcs : Type 0 where
  pub to_bytes : ExitReason → Bytes
  pub from_bytes : Bytes → Option ExitReason

module _ ⦃bcs : Bcs⦄ where
  -- `Encodable for Receipt`
  unfoldable pub receipt_item : Receipt → Item
  receipt_item r = begin_list 13 (
      append (hash r.tx_hash) (
        append (num r.block_number) (
          append (hash r.block_hash) (
            append (num r.tx_index) (
              append (hash r.state_root) (
                append (num r.used_gas) (
                  append (bloom r.logs_bloom) (
                    append (logs r.logs) (
                      append (num r.log_index) (
                        append (option_hash r.code_address) (
                          append (address r.sender) (
                            append (bytes (bcs.to_bytes r.ret))
                              (append (flag r.removed) nil)))))))))))))

  -- `Encodable for TxResp`
  unfoldable pub tx_resp_item : TxResp → Item
  tx_resp_item r = begin_list 7 (
      append (bytes (bcs.to_bytes r.exit_reason)) (
        append (bytes r.ret) (
          append (num r.gas_used) (
            append (num r.remain_gas) (
              append (num r.fee_cost) (
                append (logs r.logs)
                  (append (option_hash r.code_address) (append (flag r.removed) nil))))))))

module _ ⦃reader : Reader⦄ where
  -- `Prototype::List(n)` for one `n`
  abbrev pub is_list_of : ℕ → Prototype → Bool
  is_list_of n null = false
  is_list_of n (value m) = false
  is_list_of n (list m) = m == n

  abbrev pub expect_list : reader.Rlp → ℕ → Outcome (Unit {0})
  expect_list r n =
      or_err (reader.prototype r) bad_codec >>= λ p. reject_if (not (is_list_of n p)) bad_codec

  -- `Decodable for Proposal`; the chain id of the node is an argument.
  unfoldable pub decode_proposal : ℕ → reader.Rlp → Outcome Proposal
  decode_proposal chain r = do
    expect_list r 10
    prev ← val_at reader.as_hash r 0
    proposer ← val_at reader.as_address r 1
    root ← val_at reader.as_hash r 2
    time ← val_at reader.as_u64 r 3
    number ← val_at reader.as_u64 r 4
    hashes ← val_at reader.as_hashes r 5
    ok (record {
      prev_hash = prev;
      proposer = proposer;
      transactions_root = root;
      timestamp = time;
      number = number;
      gas_limit = max_block_gas_limit;
      extra_data = [];
      mixed_hash = none;
      base_fee_per_gas = base_fee_per_gas_default;
      chain_id = chain;
      tx_hashes = hashes;
    })

  module _ ⦃bcs : Bcs⦄ where
    -- `Decodable for Receipt`
    unfoldable pub decode_receipt : reader.Rlp → Outcome Receipt
    decode_receipt r = do
      expect_list r 13
      tx_hash ← val_at reader.as_hash r 0
      block_number ← val_at reader.as_u64 r 1
      block_hash ← val_at reader.as_hash r 2
      tx_index ← val_at reader.as_u32 r 3
      state_root ← val_at reader.as_hash r 4
      used_gas ← val_at reader.as_u256 r 5
      logs_bloom ← val_at reader.as_bloom r 6
      entries ← val_at reader.as_logs r 7
      log_index ← val_at reader.as_u32 r 8
      code_address ← val_at reader.as_option_hash r 9
      sender ← val_at reader.as_address r 10
      raw ← val_at reader.as_bytes r 11
      ret ← or_err (bcs.from_bytes raw) bad_codec
      removed ← val_at reader.as_flag r 12
      ok (record {
        tx_hash = tx_hash;
        block_number = block_number;
        block_hash = block_hash;
        tx_index = tx_index;
        state_root = state_root;
        used_gas = used_gas;
        logs_bloom = logs_bloom;
        logs = entries;
        log_index = log_index;
        code_address = code_address;
        sender = sender;
        ret = ret;
        removed = removed;
      })

    -- `Decodable for TxResp`
    unfoldable pub decode_tx_resp : reader.Rlp → Outcome TxResp
    decode_tx_resp r = do
      expect_list r 7
      raw ← val_at reader.as_bytes r 0
      reason ← or_err (bcs.from_bytes raw) bad_codec
      ret ← val_at reader.as_bytes r 1
      gas_used ← val_at reader.as_u64 r 2
      remain_gas ← val_at reader.as_u64 r 3
      fee_cost ← val_at reader.as_u256 r 4
      entries ← val_at reader.as_logs r 5
      code_address ← val_at reader.as_option_hash r 6
      removed ← val_at reader.as_flag r 7
      ok (record {
        exit_reason = reason;
        ret = ret;
        gas_used = gas_used;
        remain_gas = remain_gas;
        fee_cost = fee_cost;
        logs = entries;
        code_address = code_address;
        removed = removed;
      })
