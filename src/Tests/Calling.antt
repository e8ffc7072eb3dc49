-- ===== src/Tests/Calling.antt =====
-- Requests of the JSON-RPC servers on the small world.
use rt_evm.Common.{
  ◌≡◌, ◌≢◌, replicate, refl, none, some, [], arith, Hash, Bool-cases, inl, inr, ◌==◌, ◌^◌,
}
use rt_evm.Common.Outcome.{ok, panic, ◌>>=◌}
use rt_evm.Model.Block.{mock}
use rt_evm.Model.Transaction.Encode.{
  encode, try_from, calc_hash, get_hash, rlp_bytes, public_to_address,
}
use rt_evm.Storage.{new, set_block, set_latest_block, get_latest_block, get_latest_block_header}
use rt_evm.Model.Response.{revert}
use rt_evm.Executor.Adapter.{from_root}
use rt_evm.Executor.Exec.{Evm, call_evm}
use rt_evm.Api.Logs.{latest}
use rt_evm.Api.Backend.{ApiAdapter, insert_signed_tx, get_block_header_by_number, evm_call}
use rt_evm.Api.Web3.{
  CallRequest, send_raw_tx, call, estimate_gas, mock_header_by_call_req, run_request, number_of,
}
use rt_evm.Api.Calls.{send_raw_tx-encode, call-Oversized, estimate_gas_panics}
use rt_evm.Tests.World.{
  trie_at, created, externals, tries, tables, caches, evm, payment, sig, sign, alice, state, store,
  chain, genesis,
}
use rt_evm.Tests.Decoding.{reader, reader_laws}
use rt_evm.Tests.Pooling.{pool}

abbrev node : ApiAdapter
node = record { mempool = pool; trie_db = store; storage = chain }

abbrev request : CallRequest
request = record {
  from = some alice;
  to = some 0xb0b;
  gas_price = none;
  max_fee_per_gas = none;
  gas = some (2 ^ 64);
  value = none;
  payload = none;
  nonce = none;
}

send_raw_tx-encode_example : send_raw_tx 1 node (encode (payment 5) 152 (some sig)) 100 ≡ (
    insert_signed_tx node (sign (payment 5)) 100 >>= λ a.
    ok (a, externals.keccak (encode (payment 5) 152 (some sig))))
unfolding try_from public_to_address calc_hash get_hash encode rlp_bytes
send_raw_tx-encode_example =
    send_raw_tx-encode reader_laws 1 node (payment 5) sig 152 100 (sign (payment 5)) refl
      (omega arith) (omega arith) (omega arith)

trie_at-no_panic : (root : Hash) → trie_at store root ≢ panic
trie_at-no_panic root = elim (Bool-cases (1 == root)) [
  | inl same ↦ rw same (λ h. cc)
  | inr other ↦ rw other (λ h. cc)
]

-- A contract that reverts with 68 bytes of ones.
abbrev reverting : Evm
reverting = record {
  transact_call = λ b a c v payload limit accesses. record (created a limit) {
    exit = revert "reverted";
    ret = replicate 68 255;
  };
  transact_create = λ b a v payload limit accesses. created a limit;
}

abbrev small_request : CallRequest
small_request = record request { gas = some 30_000; nonce = some 7 }

call-Oversized_example : call ⦃evm = reverting⦄ node small_request (some latest) ≡ panic
unfolding get_block_header_by_number get_latest_block_header get_latest_block set_block
    set_latest_block new mock mock_header_by_call_req run_request evm_call from_root call_evm
    number_of
call-Oversized_example =
    (call-Oversized ⦃evm = reverting⦄ node small_request (some latest) (omega arith)
        trie_at-no_panic).1
      (omega arith, omega arith, (_, refl, refl, (omega arith, ground arith)))

estimate_gas_panics_example : estimate_gas node request none ≡ panic
unfolding get_block_header_by_number get_latest_block_header get_latest_block set_block
    set_latest_block new mock mock_header_by_call_req
estimate_gas_panics_example =
    estimate_gas_panics node request none (2 ^ 64) genesis.header
      (record genesis.header {
        extra_data = [];
        mixed_hash = none;
        transactions_root = 0;
        receipts_root = 0;
        log_bloom = 0;
        gas_limit = 2 ^ 64;
      })
      state refl (omega arith) refl refl refl refl refl
