-- ===== src/Executor/Exec/Charges.antt =====
-- crates/executor/src/lib.rs: what a transaction that fails costs its sender.
use rt_evm.Common.{
  max, ◌-◌, if-true, if-false, ℕ, ◌+◌, ◌*◌, ◌<◌, ◌≤◌, ◌^◌, ◌≡◌, ◌≢◌, refl, sym, ◌∙◌, ap, H160, U256,
  some, Bool, true, false, u256_max, if◌then◌else◌, leb, le→leb, ne→==, zero, suc, ◌==◌,
  saturating_mul, saturating_sub, Bool-cases, inl, inr,
}
use native.Mathlib.Omega.{arith}
use rt_evm.Common.Outcome.{ok-injective, or_panic-eq-ok, ok, or_panic, >>=-eq-ok}
use rt_evm.Model.Rlp.{Externals, Account}
use rt_evm.Model.Transaction.{SignedTransaction, gas_limit, nonce}
use rt_evm.Model.Response.{TxResp, is_succeed}
use rt_evm.Store.Table.{Tables}
use rt_evm.Store.Cache.{Caches}
use rt_evm.Store.Trie.{Tries, TrieLaws}
use rt_evm.Storage.Accounts.{get-save_account_by_state, get-save-same, save_account_by_state}
use rt_evm.Executor.Adapter.{Adapter, apply_all, get_account, save_account}
use rt_evm.Executor.Exec.{
  Evm, Run, evm_exec, execute, charge_invalid, settle, refund, next_nonce, as_u64, run_tx,
}

next_nonce-eq-ok : (n : U256) {m : U256} → next_nonce n ≡ ok m → m ≡ n + 1
unfolding next_nonce
next_nonce-eq-ok n h = elim (Bool-cases (leb u256_max n)) [
  | inl e ↦ absurd (cc (h, e))
  | inr e ↦ cc (h, e)
]

-- The account of a sender after a failure; the flag says that the nonce was the account's.
abbrev pub left_over : Account → U256 → U256 → Bool → ℕ → Account
left_over acc price limit false remained = record acc {
  nonce = acc.nonce + 1;
  balance = saturating_sub acc.balance (saturating_mul price 21_000);
}
left_over acc price limit true remained = record acc {
  nonce = acc.nonce + 1;
  balance = refund (saturating_sub acc.balance (saturating_mul price limit)) remained price;
}

saturating_mul-exact : (a b : ℕ) → a * b ≤ u256_max → saturating_mul a b ≡ a * b
saturating_mul-exact a b h = ground arith

refund-exact :
    (balance remained price : ℕ)
    → balance + remained * price ≤ u256_max
    → refund balance remained price ≡ balance + remained * price
unfolding refund
refund-exact balance zero price h = omega arith
refund-exact balance (suc n) price h =
    let fits : leb (suc n * price) u256_max ≡ true = le→leb _ _ (omega arith) in
    let fits' : leb (balance + suc n * price) u256_max ≡ true = le→leb _ _ h in
    rw (fits, fits', ne→== (suc n) 0 (λ e. omega arith)) refl

mul_parts : (price a b : ℕ) → price * (a + b) ≡ price * a + price * b
mul_parts price a b = omega arith

-- With the right nonce: the larger of the balance and the prepayment, less the price of the gas that
-- does not remain.
left_over-paid :
    (acc : Account) (price limit remained : ℕ)
    → acc.balance ≤ u256_max
    → price * limit ≤ u256_max
    → remained ≤ limit
    → (left_over acc price limit true remained).balance
      ≡ max acc.balance (price * limit) - price * (limit - remained)
left_over-paid acc price limit remained hb hp hr =
    let used = limit - remained in
    let split : limit ≡ used + remained = omega (arith, hr) in
    let whole : price * limit ≡ price * used + price * remained =
      ap (λ (n : ℕ). price * n) split ∙ mul_parts price used remained in
    let paid : saturating_mul price limit ≡ price * used + price * remained =
      saturating_mul-exact price limit hp ∙ whole in
    let left = saturating_sub acc.balance (price * used + price * remained) in
    rw (paid, whole, refund-exact left remained price (omega (arith, hb, hp, whole)))
      (omega (arith, hb, hp, whole))

module _ ⦃ext : Externals⦄ ⦃tries : Tries⦄ ⦃tables : Tables⦄ ⦃caches : Caches⦄ ⦃evm : Evm⦄ where
  module _ (laws : TrieLaws tries)
      (codec : (acc : Account) → ext.decode_account (ext.encode_account acc) ≡ some acc) where
    -- The world of `b'` is that of `b` but for the account at `a`, and code and blocks are as before.
    abbrev Differs : Adapter → Adapter → H160 → Type 0
    Differs b b' a =
        (b'.storage ≡ b.storage)
        × ((other : H160)
            → other < 2 ^ 160
            → a ≢ other
            → get_account b' other ≡ get_account b other)

    get-save_account :
        (b b' : Adapter) (a : H160) (acc : Account)
        → a < 2 ^ 160
        → save_account b a acc ≡ ok b'
        → (Differs b b' a) × (get_account b' a ≡ ok acc)
    unfolding save_account get_account
    get-save_account b b' a acc ha saved =
        let (t, made, e) = >>=-eq-ok (or_panic (save_account_by_state b.state a acc)) _ saved in
        let is : b' ≡ record b { state = t } = cc in
        let done = or_panic-eq-ok _ made in
        rw (is) (
          (
            refl,
            λ other ho ne.
                ap or_panic
                  (get-save_account_by_state laws codec b.state t a other acc ha ho ne done).1,
          ),
          ap or_panic (get-save-same laws codec b.state t a acc done),
        )

    Differs-trans :
        (b b' b'' : Adapter) (a : H160) → Differs b b' a → Differs b' b'' a → Differs b b'' a
    Differs-trans b b' b'' a (s, f) (s', f') =
        (s' ∙ s, λ other ho ne. f' other ho ne ∙ f other ho ne)

    settle-resp :
        (b b' : Adapter) (tx : SignedTransaction) (price current : U256) (run : Run) (r : TxResp)
        → settle b tx price current run ≡ ok (b', r)
        → (r.exit_reason ≡ run.exit) × (r.remain_gas ≡ run.gas)
    unfolding settle
    settle-resp b b' tx price current run r h =
        let (kept, hk, h1) =
          >>=-eq-ok (if is_succeed run.exit then apply_all b run.values run.logs true else ok b) _
            h in
        let (acc', ha, h2) = >>=-eq-ok (get_account kept tx.sender) _ h1 in
        let (n, hn, h3) = >>=-eq-ok (next_nonce current) _ h2 in
        let (b'', hb, h4) = >>=-eq-ok (save_account kept tx.sender _) _ h3 in
        let resp = sym (ap (λ p. p.1) (ok-injective h4)) in
        (ap (λ x. x.exit_reason) resp, ap (λ x. x.remain_gas) resp)

    -- What a settled failure leaves of the sender's account.
    settle-failed :
        (b b' : Adapter) (tx : SignedTransaction) (price current : U256) (run : Run) (acc : Account)
        (r : TxResp)
        → tx.sender < 2 ^ 160
        → is_succeed run.exit ≡ false
        → get_account b tx.sender ≡ ok acc
        → settle b tx price current run ≡ ok (b', r)
        → (Differs b b' tx.sender)
          × (get_account b' tx.sender
              ≡ ok (record acc { nonce = current + 1; balance = refund acc.balance run.gas price }))
    unfolding settle
    settle-failed b b' tx price current run acc r hs failed own h =
        let (kept, hk, h1) =
          >>=-eq-ok (if is_succeed run.exit then apply_all b run.values run.logs true else ok b) _
            h in
        let same : kept ≡ b = cc (
          hk,
          if-false (is_succeed run.exit) (apply_all b run.values run.logs true) (ok b) failed,
        ) in
        let (acc', ha, h2) = >>=-eq-ok (get_account kept tx.sender) _ h1 in
        let (n, hn, h3) = >>=-eq-ok (next_nonce current) _ h2 in
        let (b'', hb, h4) = >>=-eq-ok (save_account kept tx.sender _) _ h3 in
        let acc_is : acc' ≡ acc = cc (ha, own, same) in
        let n_is = next_nonce-eq-ok current hn in
        let (differs, read) = get-save_account kept b'' tx.sender _ hs hb in
        let end : b'' ≡ b' = cc in rw (sym same, sym end, sym acc_is, sym n_is) (differs, read)

    execute-failed :
        (b b' : Adapter) (tx : SignedTransaction) (acc : Account) (price : U256) (r : TxResp)
        → tx.sender < 2 ^ 160
        → execute b tx acc price ≡ ok (b', r)
        → is_succeed r.exit_reason ≡ false
        → (Differs b b' tx.sender)
          × (get_account b' tx.sender
              ≡ ok (left_over acc price (gas_limit tx.transaction.unsigned) true r.remain_gas))
    unfolding execute
    execute-failed b b' tx acc price r hs h failed =
        let (b1, h1, e1) = >>=-eq-ok (save_account b tx.sender _) _ h in
        let (limit, h2, e2) = >>=-eq-ok (as_u64 (gas_limit tx.transaction.unsigned)) _ e1 in
        let (differs, read) = get-save_account b b1 tx.sender _ hs h1 in
        let run = run_tx b1 tx limit in
        let (exit, gas) = settle-resp b1 b' tx price acc.nonce run r e2 in
        let (differs', read') =
          settle-failed b1 b' tx price acc.nonce run _ r hs (sym (ap is_succeed exit) ∙ failed) read
            e2 in
        rw (gas) (Differs-trans b b1 b' tx.sender differs differs', read')

    charge_invalid-failed :
        (b b' : Adapter) (a : H160) (acc : Account) (price : U256) (r : TxResp) (limit : U256)
        → a < 2 ^ 160
        → charge_invalid b a acc price ≡ ok (b', r)
        → (Differs b b' a) × (get_account b' a ≡ ok (left_over acc price limit false r.remain_gas))
    unfolding charge_invalid
    charge_invalid-failed b b' a acc price r limit ha h =
        let (n, hn, h1) = >>=-eq-ok (next_nonce acc.nonce) _ h in
        let (b1, hb, h2) = >>=-eq-ok (save_account b a _) _ h1 in
        let end : b1 ≡ b' = ap (λ p. p.0) (ok-injective h2) in
        rw (sym end, sym (next_nonce-eq-ok acc.nonce hn)) (get-save_account b b1 a _ ha hb)

    failed-Differs :
        (b b' : Adapter) (tx : SignedTransaction) (acc : Account) (r : TxResp)
        → tx.sender < 2 ^ 160
        → get_account b tx.sender ≡ ok acc
        → evm_exec b tx ≡ ok (b', r)
        → is_succeed r.exit_reason ≡ false
        → (Differs b b' tx.sender)
          × (get_account b' tx.sender
              ≡ ok (
                  left_over acc b.exec_ctx.gas_price
                    (gas_limit tx.transaction.unsigned)
                    (nonce tx.transaction.unsigned == acc.nonce)
                    r.remain_gas))
    unfolding evm_exec
    failed-Differs b b' tx acc r hs own h failed =
        let (acc', ha, e) = >>=-eq-ok (get_account b tx.sender) _ h in
        let acc_is : acc' ≡ acc = cc (ha, own) in
        let price = b.exec_ctx.gas_price in
        let paid = execute b tx acc price in
        let rejected = charge_invalid b tx.sender acc price in
        let matches = nonce tx.transaction.unsigned == acc.nonce in
        let e' : (if matches then paid else rejected) ≡ ok (b', r) = rw (sym acc_is) e in
        elim (Bool-cases (nonce tx.transaction.unsigned == acc.nonce)) [
          | inl fits ↦ rw (fits) (
              execute-failed b b' tx acc price r hs (sym (if-true matches paid rejected fits) ∙ e')
                failed)
          | inr other ↦ rw (other) (
              charge_invalid-failed b b' tx.sender acc price r (gas_limit tx.transaction.unsigned)
                hs (sym (if-false matches paid rejected other) ∙ e'))
        ]

    -- A transaction that fails, whether its nonce is wrong or the EVM stops with an error, a revert or
    -- a fatal error, changes no account but its sender's and leaves blocks and code as they are. The
    -- sender's nonce goes up by one, and its balance pays 21000 gas for a wrong nonce, and else
    -- the whole gas limit less what is paid back for the gas that remains.
    pub evm_exec-failed :
        (b b' : Adapter) (tx : SignedTransaction) (acc : Account) (r : TxResp) (other : H160)
        → tx.sender < 2 ^ 160
        → other < 2 ^ 160
        → tx.sender ≢ other
        → get_account b tx.sender ≡ ok acc
        → evm_exec b tx ≡ ok (b', r)
        → is_succeed r.exit_reason ≡ false
        → (b'.storage ≡ b.storage)
          × (get_account b' other ≡ get_account b other)
          × (get_account b' tx.sender
              ≡ ok (
                  left_over acc b.exec_ctx.gas_price
                    (gas_limit tx.transaction.unsigned)
                    (nonce tx.transaction.unsigned == acc.nonce)
                    r.remain_gas))
    evm_exec-failed b b' tx acc r other hs ho ne own h failed =
        let ((stored, others), left) = failed-Differs b b' tx acc r hs own h failed in
        (stored, others other ho ne, left)

    -- What a transaction that fails leaves of its sender's account: the nonce one higher, and of the
    -- balance, where the nonce of the transaction was the account's, the larger of the balance and
    -- the price of the gas limit, less the price of the gas that does not remain; and else the
    -- balance less the price of 21000 gas, or 0. The balance and the prices of the gas limit and of
    -- 21000 gas fit a `U256`, and no more gas remains than the limit.
    pub evm_exec-settles :
        (b b' : Adapter) (tx : SignedTransaction) (acc : Account) (r : TxResp)
        → tx.sender < 2 ^ 160
        → get_account b tx.sender ≡ ok acc
        → evm_exec b tx ≡ ok (b', r)
        → is_succeed r.exit_reason ≡ false
        → acc.balance ≤ u256_max
        → b.exec_ctx.gas_price * gas_limit tx.transaction.unsigned ≤ u256_max
        → b.exec_ctx.gas_price * 21_000 ≤ u256_max
        → r.remain_gas ≤ gas_limit tx.transaction.unsigned
        → get_account b' tx.sender
          ≡ ok (record acc {
            nonce = acc.nonce + 1;
            balance =
                if nonce tx.transaction.unsigned == acc.nonce
                then max acc.balance (b.exec_ctx.gas_price * gas_limit tx.transaction.unsigned)
                  - b.exec_ctx.gas_price * (gas_limit tx.transaction.unsigned - r.remain_gas)
                else acc.balance - b.exec_ctx.gas_price * 21_000;
          })
    evm_exec-settles b b' tx acc r hs own h failed hb hp hi hr =
        let (_, left) = failed-Differs b b' tx acc r hs own h failed in
        let price = b.exec_ctx.gas_price in
        let limit = gas_limit tx.transaction.unsigned in
        left
        ∙ ap (λ x. ok x)
            (elim (Bool-cases (nonce tx.transaction.unsigned == acc.nonce)) [
              | inl right ↦ rw right (
                  ap (λ n. record acc { nonce = acc.nonce + 1; balance = n })
                    (left_over-paid acc price limit r.remain_gas hb hp hr))
              | inr wrong ↦
                  rw (wrong, saturating_mul-exact price 21_000 hi)
                    (ap (λ n. record acc { nonce = acc.nonce + 1; balance = n }) (omega arith))
            ])
