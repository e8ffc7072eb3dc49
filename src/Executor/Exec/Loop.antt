-- ===== src/Executor/Exec/Loop.antt =====
-- crates/executor/src/lib.rs: what `exec` returns for a block's transactions.
use rt_evm.Common.{
  ℕ, suc, ◌+◌, ◌%◌, ◌≤◌, ◌≡◌, refl, sym, ◌∙◌, ap, Hash, List, [], ◌∷◌, map, length, u64_mod,
  u256_max, checked_add, unwrap_or, min,
}
use native.Mathlib.Omega.{arith}
use rt_evm.Common.Outcome.{ok-injective, ok, >>=-eq-ok}
use rt_evm.Model.Rlp.{Externals}
use rt_evm.Model.Transaction.{SignedTransaction}
use rt_evm.Model.Response.{TxResp, ExecResp}
use rt_evm.Store.Table.{Tables}
use rt_evm.Store.Cache.{Caches}
use rt_evm.Store.Trie.{Tries}
use rt_evm.Executor.Adapter.{Adapter}
use rt_evm.Executor.Roots.{trie_root_indexed, trie_root_txs}
use rt_evm.Executor.Exec.{Evm, Totals, exec, exec_from, exec_one, push}

abbrev pub sum_gas : List TxResp → ℕ
sum_gas [] = 0
sum_gas (r ∷ rs) = r.gas_used + sum_gas rs

abbrev pub sum_fee : List TxResp → ℕ
sum_fee [] = 0
sum_fee (r ∷ rs) = r.fee_cost + sum_fee rs

abbrev hash_of_tx : SignedTransaction → Hash
hash_of_tx tx = tx.transaction.hash

saturates : (f c : ℕ) → unwrap_or (checked_add f c) u256_max ≡ min (f + c) u256_max
saturates f c = ground arith

zero_add : (n : ℕ) → 0 + n ≡ n
zero_add n = omega arith

mod_le : (n : ℕ) → n % u64_mod ≤ 0xffff_ffff_ffff_ffff
mod_le n = omega arith

saturated_le : (f c : ℕ) → unwrap_or (checked_add f c) u256_max ≤ u256_max
saturated_le f c = ground arith

module _ ⦃ext : Externals⦄ ⦃tries : Tries⦄ ⦃tables : Tables⦄ ⦃caches : Caches⦄ ⦃evm : Evm⦄ where
  -- The totals of a loop that starts from `gas` and `fee` and returns `res`.
  abbrev Sums : ℕ → ℕ → List SignedTransaction → Totals → Type 0
  Sums gas fee txs t =
      (length t.res ≡ length txs)
      × (t.gas ≡ (gas + sum_gas t.res) % u64_mod)
      × (t.fee ≡ min (fee + sum_fee t.res) u256_max)
      × (t.tx_hashes ≡ map hash_of_tx txs)
      × (t.receipt_hashes ≡ map (λ r. ext.keccak r.ret) t.res)

  Sums-push :
      (gas fee : ℕ) (tx : SignedTransaction) (txs : List SignedTransaction) (r : TxResp)
      (t : Totals)
      → Sums ((gas + r.gas_used) % u64_mod) (min (fee + r.fee_cost) u256_max) txs t
      → Sums gas fee (tx ∷ txs) (push tx r t)
  Sums-push gas fee tx txs r t (count, g, f, hashes, receipts) = (
    ap suc count,
    g ∙ (omega arith),
    f ∙ (omega arith),
    ap (λ hs. hash_of_tx tx ∷ hs) hashes,
    ap (λ hs. ext.keccak r.ret ∷ hs) receipts,
  )

  exec_from-Sums :
      (b b' : Adapter) (gas fee : ℕ) (txs : List SignedTransaction) (t : Totals)
      → gas ≤ 0xffff_ffff_ffff_ffff
      → fee ≤ u256_max
      → exec_from b gas fee txs ≡ ok (b', t)
      → Sums gas fee txs t
  unfolding exec_from
  exec_from-Sums b b' gas fee [] t hg hf h =
      let is : t ≡ record { gas = gas; fee = fee; tx_hashes = []; receipt_hashes = []; res = [] } =
        sym (ap (λ p. p.1) (ok-injective h)) in
      rw (is) (refl, omega arith, omega arith, refl, refl)
  exec_from-Sums b b' gas fee (tx ∷ txs) t hg hf h =
      let ((b1, r), h1, e1) = >>=-eq-ok (exec_one b tx) _ h in
      let ((b2, t'), h2, e2) = >>=-eq-ok (exec_from b1 _ _ txs) _ e1 in
      let is : t ≡ push tx r t' = sym (ap (λ p. p.1) (ok-injective e2)) in
      let rest =
        exec_from-Sums b1 b2 _ _ txs t' (mod_le (gas + r.gas_used)) (saturated_le fee r.fee_cost)
          h2 in
      rw (is) (Sums-push gas fee tx txs r t' (rw (sym (saturates fee r.fee_cost)) rest))

  -- The result of `exec` for a block: one response for each transaction, the gas as the sum of what
  -- they used (on 64 bits), the fee as the sum of what they cost (up to the greatest `U256`), the
  -- transaction root as the proposal of the same transactions has it, and the receipt root as
  -- the root of the hashes of what they returned.
  pub exec-totals :
      (b b' : Adapter) (txs : List SignedTransaction) (resp : ExecResp)
      → exec b txs ≡ ok (b', resp)
      → (length resp.txs_resp ≡ length txs)
        × (resp.gas_used ≡ sum_gas resp.txs_resp % u64_mod)
        × (resp.fee_used ≡ min (sum_fee resp.txs_resp) u256_max)
        × (resp.transaction_root ≡ trie_root_txs txs)
        × (resp.receipt_root ≡ trie_root_indexed (map (λ r. ext.keccak r.ret) resp.txs_resp))
  unfolding exec trie_root_txs
  exec-totals b b' txs resp h =
      let ((b1, t), h1, e1) = >>=-eq-ok (exec_from b 0 0 txs) _ h in
      let (count, g, f, hashes, receipts) =
        exec_from-Sums b b1 0 0 txs t (omega arith) (omega arith) h1 in
      let is = sym (ap (λ p. p.1) (ok-injective e1)) in
      rw (is) (
        count,
        g ∙ ap (λ n. n % u64_mod) (zero_add _),
        f ∙ ap (λ n. min n u256_max) (zero_add _),
        ap trie_root_indexed hashes,
        ap trie_root_indexed receipts,
      )
