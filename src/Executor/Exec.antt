-- ===== src/Executor/Exec.antt =====
-- crates/executor/src/lib.rs: the execution of a call, of a transaction and of a block's
-- transactions. `Evm` stands for the `StackExecutor` of the crate evm with the London
-- configuration and the precompiled contracts.
pub mod Charges
pub mod Loop
use rt_evm.Common.{
  ℕ, ◌+◌, ◌*◌, ◌%◌, Bytes, Hash, H160, U256, Option, none, some, List, [], ◌∷◌, Bool, true, false,
  ◌&&◌, if◌then◌else◌, leb, ◌==◌, nil_hash, unwrap_or, u64_mod, u256_max, checked_add, checked_mul,
  saturating_mul, saturating_sub,
}
use rt_evm.Common.Outcome.{Outcome, ok, err, panic, or_panic, ◌>>=◌}
use rt_evm.Model.Rlp.{Externals, Account, Log, TransactionAction, call, create}
use rt_evm.Model.Transaction.{
  SignedTransaction, AccessList, gas_price, gas_limit, nonce, action_of, value_of, data_of,
  access_list, data_gas_cost, min_transaction_gas_limit, gas_call_transaction,
  gas_create_transaction,
}
use rt_evm.Model.Response.{ExitReason, is_succeed, TxResp, ExecResp, invalid_nonce_resp}
use rt_evm.Store.Table.{Tables}
use rt_evm.Store.Cache.{Caches}
use rt_evm.Store.Trie.{Tries}
use rt_evm.Executor.Adapter.{
  Adapter, Apply, set_origin, set_gas_price, get_logs, commit, get_account, save_account, apply_all,
}
use rt_evm.Executor.Roots.{code_address, trie_root_indexed}

-- What is read from a `StackExecutor` after a transaction.
pub record Run : Type 0 where
  pub exit : ExitReason
  pub ret : Bytes
  pub gas : ℕ
  pub used_gas : ℕ
  -- `into_state().deconstruct()`
  pub values : List Apply
  pub logs : List Log
  -- `create_address` with the scheme `Legacy`
  pub create_address : H160 → H160

-- `+ U256::one()` panics on overflow.
unfoldable pub next_nonce : U256 → Outcome U256
next_nonce n = if leb u256_max n then panic else ok (n + 1)

-- `as_u64` panics beyond a `u64`.
unfoldable pub as_u64 : U256 → Outcome ℕ
as_u64 n = if leb u64_mod n then panic else ok n

-- `from.unwrap_or_default()`
abbrev pub caller_of : Option H160 → H160
caller_of o = unwrap_or o 0

-- The balance with the gas that remains paid back.
unfoldable pub refund : U256 → ℕ → U256 → U256
refund balance remained price =
    if remained == 0
    then balance
    else unwrap_or (checked_add balance (unwrap_or (checked_mul remained price) u256_max)) u256_max

-- What the loop of `exec` collects.
pub record Totals : Type 0 where
  pub gas : ℕ
  pub fee : U256
  pub tx_hashes : List Hash
  pub receipt_hashes : List Hash
  pub res : List TxResp

module _ ⦃ext : Externals⦄ ⦃tries : Tries⦄ ⦃tables : Tables⦄ ⦃caches : Caches⦄ where
  pub record Evm : Type 0 where
    pub transact_call : Adapter → H160 → H160 → U256 → Bytes → ℕ → AccessList → Run
    pub transact_create : Adapter → H160 → U256 → Bytes → ℕ → AccessList → Run

  module _ ⦃evm : Evm⦄ where
    -- the gas that `call` adds
    abbrev pub call_base_gas : Option H160 → Bytes → ℕ
    call_base_gas none payload =
        gas_create_transaction + gas_call_transaction + data_gas_cost payload
    call_base_gas (some a) payload = gas_call_transaction + data_gas_cost payload

    abbrev pub call_run : Adapter → ℕ → Option H160 → Option H160 → U256 → Bytes → Run
    call_run b limit from none value payload =
        evm.transact_create b (caller_of from) value payload limit []
    call_run b limit from (some a) value payload =
        evm.transact_call b (caller_of from) a value payload limit []

    abbrev pub call_code_address : Run → Option H160 → Option H160 → Option Hash
    call_code_address run from none = some (run.create_address (caller_of from))
    call_code_address run from (some a) = none

    -- `Executor::call`
    unfoldable pub call_evm : Adapter → ℕ → Option H160 → Option H160 → U256 → Bytes → TxResp
    call_evm b limit from to value payload =
        let run = call_run b limit from to value payload in
        let used = (run.used_gas + call_base_gas to payload) % u64_mod in
        record {
          exit_reason = run.exit;
          ret = run.ret;
          gas_used = used;
          remain_gas = run.gas;
          fee_cost = unwrap_or (checked_mul b.exec_ctx.gas_price used) u256_max;
          logs = [];
          code_address = call_code_address run from to;
          removed = false;
        }

    -- The branch of `evm_exec` for a nonce that is not the account's.
    unfoldable pub charge_invalid : Adapter → H160 → Account → U256 → Outcome (Adapter × TxResp)
    charge_invalid b sender acc price = do
      let fee = saturating_mul price min_transaction_gas_limit
      n ← next_nonce acc.nonce
      b' ←
          save_account b sender (record acc { balance = saturating_sub acc.balance fee; nonce = n })
      ok (b', invalid_nonce_resp min_transaction_gas_limit fee)

    abbrev pub run_action : Adapter → H160 → TransactionAction → U256 → Bytes → ℕ → AccessList → Run
    run_action b sender (call a) value payload limit accesses =
        evm.transact_call b sender a value payload limit accesses
    run_action b sender create value payload limit accesses =
        evm.transact_create b sender value payload limit accesses

    abbrev pub run_tx : Adapter → SignedTransaction → ℕ → Run
    run_tx b tx limit =
        let u = tx.transaction.unsigned in
        run_action b tx.sender (action_of u) (value_of u) (data_of u) limit (access_list u)

    abbrev pub code_addr : TransactionAction → ExitReason → H160 → U256 → Option Hash
    code_addr (call a) exit sender n = none
    code_addr create exit sender n = if is_succeed exit then some (code_address sender n) else none

    -- `evm_exec` from the result of the EVM on: the changes, the nonce and the refund.
    unfoldable pub settle :
        Adapter → SignedTransaction → U256 → U256 → Run → Outcome (Adapter × TxResp)
    settle b tx price current run = do
      b' ← if is_succeed run.exit then apply_all b run.values run.logs true else ok b
      acc ← get_account b' tx.sender
      n ← next_nonce current
      b'' ←
          save_account b' tx.sender
            (record acc { nonce = n; balance = refund acc.balance run.gas price })
      ok (
        b'',
        record {
          exit_reason = run.exit;
          ret = run.ret;
          gas_used = run.used_gas;
          remain_gas = run.gas;
          fee_cost = saturating_mul price run.used_gas;
          logs = [];
          code_address = code_addr (action_of tx.transaction.unsigned) run.exit tx.sender current;
          removed = false;
        },
      )

    -- `evm_exec` for a nonce that is the account's.
    unfoldable pub execute :
        Adapter → SignedTransaction → Account → U256 → Outcome (Adapter × TxResp)
    execute b tx acc price = do
      let prepay = saturating_mul price (gas_limit tx.transaction.unsigned)
      b' ← save_account b tx.sender (record acc { balance = saturating_sub acc.balance prepay })
      limit ← as_u64 (gas_limit tx.transaction.unsigned)
      settle b' tx price acc.nonce (run_tx b' tx limit)

    unfoldable pub evm_exec : Adapter → SignedTransaction → Outcome (Adapter × TxResp)
    evm_exec b tx = do
      acc ← get_account b tx.sender
      if nonce tx.transaction.unsigned == acc.nonce
          then execute b tx acc b.exec_ctx.gas_price
          else charge_invalid b tx.sender acc b.exec_ctx.gas_price

    -- One round of the loop of `exec`.
    unfoldable pub exec_one : Adapter → SignedTransaction → Outcome (Adapter × TxResp)
    exec_one b tx = do
      (b', r) ←
          evm_exec (set_origin (set_gas_price b (gas_price tx.transaction.unsigned)) tx.sender) tx
      let (committed, root) = commit b'
      let (taken, logs) = get_logs committed
      ok (taken, record r { logs = logs })

    -- `gas += r.gas_used` and the fee, with what the rest of the loop pushes after this round
    abbrev pub push : SignedTransaction → TxResp → Totals → Totals
    push tx r t = record t {
      tx_hashes = tx.transaction.hash ∷ t.tx_hashes;
      receipt_hashes = ext.keccak r.ret ∷ t.receipt_hashes;
      res = r ∷ t.res;
    }

    unfoldable pub exec_from :
        Adapter → ℕ → U256 → List SignedTransaction → Outcome (Adapter × Totals)
    exec_from b gas fee [] =
        ok (b, record { gas = gas; fee = fee; tx_hashes = []; receipt_hashes = []; res = [] })
    exec_from b gas fee (tx ∷ txs) = do
      (b', r) ← exec_one b tx
      (b'', t) ←
          exec_from b' ((gas + r.gas_used) % u64_mod)
            (unwrap_or (checked_add fee r.fee_cost) u256_max) txs
      ok (b'', push tx r t)

    -- `Executor::exec`
    unfoldable pub exec : Adapter → List SignedTransaction → Outcome (Adapter × ExecResp)
    exec b txs = do
      (b', t) ← exec_from b 0 0 txs
      let (b'', root) = commit b'
      ok (
        b'',
        record {
          state_root = root;
          transaction_root = trie_root_indexed t.tx_hashes;
          receipt_root = trie_root_indexed t.receipt_hashes;
          gas_used = t.gas;
          fee_used = t.fee;
          txs_resp = t.res;
        },
      )
