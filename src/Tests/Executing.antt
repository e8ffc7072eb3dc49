-- ===== src/Tests/Executing.antt =====
-- Execution at concrete values: a call that is reverted, a creation that succeeds, and a transaction
-- with a nonce that is not the account's.
use rt_evm.Common.{
  max, ◌-◌, ◌*◌, ◌%◌, ◌≡◌, refl, true, false, none, some, ◌==◌, address_bytes, List, [], ◌∷◌,
  length, map, min, arith, u64_mod, u256_max,
}
use rt_evm.Common.Outcome.{ok}
use rt_evm.Model.Rlp.{Account}
use rt_evm.Model.Transaction.{SignedTransaction, gas_limit, gas_price, nonce, action_of}
use rt_evm.Model.Transaction.Encode.{calc_hash}
use rt_evm.Model.Block.{ExecutorContext}
use rt_evm.Model.Response.{TxResp, ExecResp, revert}
use rt_evm.Storage.Accounts.{get_account_by_state, save_account_by_state, account_of}
use rt_evm.Executor.Adapter.{
  Adapter, get_account, save_account, set_origin, set_gas_price, get_logs, commit, apply_all,
  apply_values,
}
use rt_evm.Executor.Adapter.{
  Apply, modify, delete, apply_one, apply, erase, old_account, stored_account, storage_trie,
  write_slots, change_code, get, basic,
}
use rt_evm.Executor.Adapter.Replay.{replay, apply_values-replay}
use rt_evm.Storage.{insert_code}
use rt_evm.Executor.Roots.{trie_root_indexed, trie_root_txs}
use rt_evm.Executor.Exec.{
  evm_exec, execute, settle, refund, next_nonce, as_u64, charge_invalid, exec, exec_from, exec_one,
}
use rt_evm.Executor.Exec.Charges.{left_over, evm_exec-failed, evm_exec-settles}
use rt_evm.Executor.Exec.Loop.{sum_gas, sum_fee, exec-totals}
use rt_evm.Tests.World.{
  tables, caches, tries, externals, evm, payment, deployment, sign, alice, store, state, chain,
  funds, world_laws, account_codec, write_account,
}

abbrev context : ExecutorContext
context = record {
  block_number = 4;
  block_hash = 9;
  block_coinbase = 1;
  block_timestamp = 1_010;
  chain_id = 152;
  difficulty = 1;
  origin = 1;
  gas_price = 10;
  block_gas_limit = 50_000_000;
  block_base_fee_per_gas = 0x539;
  logs = [];
}

abbrev backend : Adapter
backend = record { state = state; trie_db = store; storage = chain; exec_ctx = context }

abbrev txs : List SignedTransaction
txs = sign (payment 5) ∷ sign (deployment 6) ∷ sign (payment 5) ∷ []

run_txs : (r : Adapter × ExecResp) × (exec backend txs ≡ ok r)
unfolding exec exec_from exec_one evm_exec execute settle refund next_nonce as_u64 charge_invalid
    get_account save_account get_account_by_state save_account_by_state account_of set_origin
    set_gas_price get_logs commit apply_all apply_values nonce gas_price gas_limit action_of
    calc_hash
run_txs = (_, refl)

exec-totals_example :
    (length run_txs.0.1.txs_resp ≡ length txs)
    × (run_txs.0.1.gas_used ≡ sum_gas run_txs.0.1.txs_resp % u64_mod)
    × (run_txs.0.1.fee_used ≡ min (sum_fee run_txs.0.1.txs_resp) u256_max)
    × (run_txs.0.1.transaction_root ≡ trie_root_txs txs)
    × (run_txs.0.1.receipt_root
        ≡ trie_root_indexed (map (λ r. externals.keccak r.ret) run_txs.0.1.txs_resp))
exec-totals_example = exec-totals backend run_txs.0.0 txs run_txs.0.1 run_txs.1

-- the account and the state after the reverted call
abbrev charged : Account
charged = record { nonce = 6; balance = 999_790_000; storage_root = 0; code_hash = 0 }

abbrev prepaid : Account
prepaid = record { nonce = 5; balance = 999_700_000; storage_root = 0; code_hash = 0 }

abbrev after_call : Adapter
after_call = record backend {
  state =
      (address_bytes alice, some (write_account charged))
      ∷ (address_bytes alice, some (write_account prepaid))
      ∷ state;
}

abbrev call_resp : TxResp
call_resp = record {
  exit_reason = revert "reverted";
  ret = 9 ∷ [];
  gas_used = 21_000;
  remain_gas = 9_000;
  fee_cost = 210_000;
  logs = [];
  code_address = none;
  removed = false;
}

call_reverts : evm_exec backend (sign (payment 5)) ≡ ok (after_call, call_resp)
unfolding evm_exec execute settle refund next_nonce as_u64 get_account save_account
    get_account_by_state save_account_by_state account_of nonce gas_limit action_of calc_hash
call_reverts = refl

funded : get_account backend alice ≡ ok funds
unfolding get_account get_account_by_state account_of
funded = refl

evm_exec-failed_example :
    (after_call.storage ≡ chain)
    × (get_account after_call 2 ≡ get_account backend 2)
    × (get_account after_call alice
        ≡ ok (left_over funds 10 (gas_limit (payment 5)) (nonce (payment 5) == 5) 9_000))
unfolding calc_hash
evm_exec-failed_example =
    evm_exec-failed world_laws account_codec backend after_call (sign (payment 5)) funds call_resp 2
      (omega arith) (omega arith) (λ e. omega arith) funded call_reverts refl

-- Of 30000 gas at a price of 10, 9000 remain.
evm_exec-settles_example :
    get_account after_call alice
    ≡ ok (record funds { nonce = 6; balance = max 1_000_000_000 300_000 - 10 * (30_000 - 9_000) })
unfolding calc_hash gas_limit nonce
evm_exec-settles_example =
    evm_exec-settles world_laws account_codec backend after_call (sign (payment 5)) funds call_resp
      (omega arith) funded call_reverts refl (omega arith) (omega arith) (omega arith) (omega arith)

-- A new account with code and a slot, a change of an account, and the deletion of the new one.
abbrev changes : List Apply
changes =
    modify (record {
      address = 2;
      basic = record { balance = 50; nonce = 1 };
      code = some (1 ∷ 2 ∷ []);
      storage = (3, 4) ∷ [];
      reset_storage = false;
    })
    ∷ modify (record {
      address = alice;
      basic = record { balance = 70; nonce = 6 };
      code = none;
      storage = [];
      reset_storage = true;
    })
    ∷ delete 2
    ∷ []

changed : (b : Adapter) × (apply_values backend changes true ≡ ok b)
unfolding apply_values apply_one apply erase old_account stored_account storage_trie write_slots
    change_code get insert_code
changed = (_, refl)

apply_values-replay_example : basic changed.0 alice ≡ replay changes alice (basic backend alice)
apply_values-replay_example =
    apply_values-replay world_laws account_codec changes backend changed.0 true alice
      (omega arith, (omega arith, (omega arith, tt))) (omega arith) changed.1
