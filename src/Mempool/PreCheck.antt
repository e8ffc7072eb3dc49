-- ===== src/Mempool/PreCheck.antt =====
-- The conditions of `tx_pre_check` in crates/mempool/src/lib.rs, and its answer.
use mathlib.Core.Bool.{decide, decide_iff}
use rt_evm.Common.{
  not-eq-false, ◌≤◌, ◌<◌, ◌≡◌, refl, sym, ap, ◌∙◌, u64_max, none, Bool, true, false, saturating_mul,
  arith,
}
use rt_evm.Common.Outcome.{ok, >>-eq-ok, >>=-eq-ok, reject_if-eq-tt}
use rt_evm.Model.Rlp.{Externals, Account}
use rt_evm.Model.Transaction.{
  SignedTransaction, gas_price, gas_limit, nonce, min_transaction_gas_limit,
}
use rt_evm.Model.Transaction.Encode.{check_hash, get_hash, try_from}
use rt_evm.Model.Transaction.Equality.{SignedTransaction-discrete}
use rt_evm.Store.Table.{Tables}
use rt_evm.Store.Cache.{Caches}
use rt_evm.Store.Trie.{Tries}
use rt_evm.Storage.{FunStorage, get_tx_by_hash}
use rt_evm.Storage.Accounts.{get_account_by_backend}
use rt_evm.Mempool.{TinyMempool, check_gas, check_account, check_signature, tx_pre_check}

module _ ⦃ext : Externals⦄ ⦃tries : Tries⦄ ⦃tables : Tables⦄ ⦃caches : Caches⦄ where
  -- The sender and the public key are those recovered from the signature.
  abbrev pub IsAuthentic : SignedTransaction → Bool → Type 0
  IsAuthentic tx true = Unit {0}
  IsAuthentic tx false = try_from tx.transaction ≡ ok tx

  -- The sender's account, at the latest block, covers the nonce and the least gas.
  pub record Affords (acc : Account) (tx : SignedTransaction) : Type 0 where
    pub nonce_reached : acc.nonce ≤ nonce tx.transaction.unsigned
    pub covered :
        saturating_mul (gas_price tx.transaction.unsigned) min_transaction_gas_limit ≤ acc.balance

  pub record Passes (store : tries.Store) (s : FunStorage) (m : TinyMempool)
      (tx : SignedTransaction) (checked : Bool) : Type 0 where
    pub priced : 0 < gas_price tx.transaction.unsigned
    pub price_fits : gas_price tx.transaction.unsigned < u64_max
    pub limit_enough : min_transaction_gas_limit ≤ gas_limit tx.transaction.unsigned
    pub limit_capped : gas_limit tx.transaction.unsigned ≤ m.cfg.tx_gas_cap
    pub hashed : tx.transaction.hash ≡ get_hash tx.transaction
    pub authentic : IsAuthentic tx checked
    pub account :
        (acc : Account) × (get_account_by_backend store s tx.sender none ≡ ok acc) × Affords acc tx
    pub unseen : get_tx_by_hash s tx.transaction.hash ≡ ok none

  check_gas_sound :
      (m : TinyMempool) (tx : SignedTransaction)
      → check_gas m tx ≡ ok tt
      → (0 < gas_price tx.transaction.unsigned)
        × (gas_price tx.transaction.unsigned < u64_max)
        × (min_transaction_gas_limit ≤ gas_limit tx.transaction.unsigned)
        × (gas_limit tx.transaction.unsigned ≤ m.cfg.tx_gas_cap)
  unfolding check_gas
  check_gas_sound m tx h = (ground arith, ground arith, ground arith, ground arith)

  check_account_sound :
      (tx : SignedTransaction) (acc : Account) → check_account tx acc ≡ ok tt → Affords acc tx
  unfolding check_account
  check_account_sound tx acc h = record { nonce_reached = ground arith; covered = ground arith }

  check_signature_sound :
      (tx : SignedTransaction) (checked : Bool)
      → check_signature tx checked ≡ ok tt
      → IsAuthentic tx checked
  unfolding check_signature
  check_signature_sound tx true h = tt
  check_signature_sound tx false h =
      let (u, recovered, same) = >>=-eq-ok (try_from tx.transaction) _ h in
      let equal : decide (SignedTransaction-discrete tx u) ≡ true =
        not-eq-false (decide (SignedTransaction-discrete tx u)) (reject_if-eq-tt _ _ same) in
      recovered ∙ ap ok (sym ((decide_iff (SignedTransaction-discrete tx u)).0 equal))

  check_signature_complete :
      (tx : SignedTransaction) (checked : Bool)
      → IsAuthentic tx checked
      → check_signature tx checked ≡ ok tt
  unfolding check_signature
  check_signature_complete tx true h = refl
  check_signature_complete tx false h =
      rw (h, (decide_iff (SignedTransaction-discrete tx tx)).1 refl)

  -- A transaction that is accepted has a gas price from 1 to below 2 ^ 64 - 1, a gas limit from 21000
  -- to the pool's cap, the hash of its own contents, the recovered sender (unless the signature was
  -- checked before), an account whose nonce and balance it respects, and a hash that is not stored.
  pub tx_pre_check_sound :
      (store : tries.Store) (s : FunStorage) (m : TinyMempool) (tx : SignedTransaction)
      (checked : Bool)
      → tx_pre_check store s m tx checked ≡ ok tt
      → Passes store s m tx checked
  unfolding tx_pre_check
  tx_pre_check_sound store s m tx checked h =
      let (gas, h₁) = >>-eq-ok (check_gas m tx) _ h in
      let (hash, h₂) = >>-eq-ok (check_hash tx.transaction) _ h₁ in
      let (signed, h₃) = >>-eq-ok (check_signature tx checked) _ h₂ in
      let (acc, found, h₄) = >>=-eq-ok (get_account_by_backend store s tx.sender none) _ h₃ in
      let (affords, h₅) = >>-eq-ok (check_account tx acc) _ h₄ in
      let (known, read, unseen) = >>=-eq-ok (get_tx_by_hash s tx.transaction.hash) _ h₅ in
      let (priced, price_fits, limit_enough, limit_capped) = check_gas_sound m tx gas in
      record {
        priced = priced;
        price_fits = price_fits;
        limit_enough = limit_enough;
        limit_capped = limit_capped;
        hashed = unfold check_hash in ground (arith, hash);
        authentic = check_signature_sound tx checked signed;
        account = (acc, found, check_account_sound tx acc affords);
        unseen = ground (arith, read, unseen);
      }

  -- And every such transaction is accepted.
  pub tx_pre_check_complete :
      (store : tries.Store) (s : FunStorage) (m : TinyMempool) (tx : SignedTransaction)
      (checked : Bool)
      → Passes store s m tx checked
      → tx_pre_check store s m tx checked ≡ ok tt
  unfolding tx_pre_check
  tx_pre_check_complete store s m tx checked p =
      let (acc, found, affords) = p.account in
      let gas : check_gas m tx ≡ ok tt =
        unfold check_gas in
        ground (arith, p.priced, p.price_fits, p.limit_enough, p.limit_capped) in
      let hash : check_hash tx.transaction ≡ ok tt =
        unfold check_hash in ground (arith, p.hashed) in
      let affordable : check_account tx acc ≡ ok tt =
        unfold check_account in ground (arith, affords.nonce_reached, affords.covered) in
      rw (gas, hash, check_signature_complete tx checked p.authentic, found, affordable, p.unseen)
