-- ===== src/BlockMgmt/Receipts.antt =====
-- crates/blockmgmt/src/lib.rs: the receipts of a block.
use rt_evm.Common.{
  ℕ, zero, suc, ◌+◌, ◌%◌, ◌^◌, ◌≡◌, refl, ◌∙◌, Hash, some, List, [], ◌∷◌, length, get_elem?, take,
  arith,
}
use rt_evm.Model.Rlp.{Externals}
use rt_evm.Model.Transaction.{SignedTransaction}
use rt_evm.Model.Response.{TxResp, ExecResp}
use rt_evm.Executor.Roots.{logs_bloom}
use rt_evm.BlockMgmt.{receipt_of, receipts_from, generate_receipts}

-- the number of logs of a list of responses
abbrev pub count_logs : List TxResp → ℕ
count_logs [] = 0
count_logs (r ∷ rs) = length r.logs + count_logs rs

module _ ⦃ext : Externals⦄ where
  receipt_eq :
      (number : ℕ) (hash root : Hash) {i j l k : ℕ} (tx : SignedTransaction) (r : TxResp)
      → i ≡ j
      → l ≡ k
      → some (receipt_of number hash root i l tx r) ≡ some (receipt_of number hash root j k tx r)
  receipt_eq number hash root tx r hi hl = rw (hi, hl) refl

  get_elem?-receipts_from :
      (number : ℕ) (hash root : Hash) (idx logs i : ℕ) (txs : List SignedTransaction)
      (rs : List TxResp) (tx : SignedTransaction) (r : TxResp)
      → logs % 2 ^ 32 ≡ logs
      → get_elem? txs i ≡ some tx
      → get_elem? rs i ≡ some r
      → get_elem? (receipts_from number hash root idx logs txs rs) i
        ≡ some
            (receipt_of number hash root (idx + i) ((logs + count_logs (take i rs)) % 2 ^ 32) tx r)
  unfolding receipts_from
  get_elem?-receipts_from number hash root idx logs i [] rs tx r hl ht hr = cc
  get_elem?-receipts_from number hash root idx logs i (t ∷ txs) [] tx r hl ht hr = cc
  get_elem?-receipts_from number hash root idx logs zero (t ∷ txs) (q ∷ rs) tx r hl ht hr =
      let same : t ≡ tx = cc in
      let resp : q ≡ r = cc in
      let start : idx ≡ idx + 0 = omega arith in
      let first : logs ≡ (logs + 0) % 2 ^ 32 = omega arith in
      rw (same, resp) (receipt_eq number hash root tx r start first)
  get_elem?-receipts_from number hash root idx logs (suc i) (t ∷ txs) (q ∷ rs) tx r hl ht hr =
      let place : (idx + 1) + i ≡ idx + suc i = omega arith in
      let offset : ((logs + length q.logs) % 2 ^ 32 + count_logs (take i rs)) % 2 ^ 32
          ≡ (logs + (length q.logs + count_logs (take i rs))) % 2 ^ 32 =
        omega arith in
      get_elem?-receipts_from number hash root (idx + 1) ((logs + length q.logs) % 2 ^ 32) i txs rs
        tx r (omega arith) ht hr
      ∙ receipt_eq number hash root tx r place offset

  -- Receipt `i` has the hash and the sender of transaction `i`, and the gas used, the logs with their
  -- bloom, the code address and the exit reason of response `i`. Its transaction index is `i`, and its
  -- log index the number of logs of the responses before, both on 32 bits.
  pub get_elem?-generate_receipts :
      (number : ℕ) (hash root : Hash) (txs : List SignedTransaction) (resp : ExecResp) (i : ℕ)
      (tx : SignedTransaction) (r : TxResp)
      → get_elem? txs i ≡ some tx
      → get_elem? resp.txs_resp i ≡ some r
      → get_elem? (generate_receipts number hash root txs resp) i
        ≡ some (record {
          tx_hash = tx.transaction.hash;
          block_number = number;
          block_hash = hash;
          tx_index = i % 2 ^ 32;
          state_root = root;
          used_gas = r.gas_used;
          logs_bloom = logs_bloom r.logs;
          logs = r.logs;
          log_index = count_logs (take i resp.txs_resp) % 2 ^ 32;
          code_address = r.code_address;
          sender = tx.sender;
          ret = r.exit_reason;
          removed = r.removed;
        })
  unfolding generate_receipts
  get_elem?-generate_receipts number hash root txs resp i tx r ht hr =
      let place : 0 + i ≡ i = omega arith in
      let logs = count_logs (take i resp.txs_resp) in
      let offset : (0 + logs) % 2 ^ 32 ≡ logs % 2 ^ 32 = omega arith in
      get_elem?-receipts_from number hash root 0 0 i txs resp.txs_resp tx r (omega arith) ht hr
      ∙ receipt_eq number hash root tx r place offset
