-- ===== src/Api/Calls.antt =====
-- Raw transactions, and which requests make the node panic.
use mathlib.Core.Logic.{◌↔◌}
use rt_evm.Common.{
  ℕ, ◌≤◌, ◌<◌, ◌^◌, ◌≡◌, ◌≢◌, refl, ap, arith, Bytes, Hash, H160, U256, Option, none, some, [],
  Bool, true, false, not, ◌&&◌, ◌||◌, is_some, unwrap_or, ltb, leb, ltb→le, le→ltb, ◌==◌,
  if◌then◌else◌, u64_mod, u64_max, Bool-cases, inl, inr,
}
use rt_evm.Common.Outcome.{
  Outcome, ok, err, panic, Error, ok-no_panic, bad_request, call_failed, no_blocks, or_err,
  not_found, ◌>>=◌,
}
use rt_evm.Model.Rlp.{Externals}
use rt_evm.Model.Reader.{Reader, ReaderLaws}
use rt_evm.Model.Block.{Header, Proposal, ExecutorContext, from_header, max_block_gas_limit}
use rt_evm.Model.Response.{TxResp, is_succeed}
use rt_evm.Model.Transaction.{
  UnsignedTransaction, SignatureComponents, UnverifiedTransaction, SignedTransaction,
}
use rt_evm.Model.Transaction.Encode.{encode, get_hash, try_from}
use rt_evm.Model.Transaction.Fits.{UnsignedFits, IdsFit, SignatureFits}
use rt_evm.Model.Transaction.Hashing.{try_from_lem}
use rt_evm.Model.Transaction.RoundTrip.{decode-encode}
use rt_evm.Store.Table.{Tables}
use rt_evm.Store.Cache.{Caches}
use rt_evm.Store.Trie.{Tries}
use rt_evm.Storage.{get_block_header, get_latest_block_header, get_latest_block}
use rt_evm.Storage.Accounts.{world_state_meta_key}
use rt_evm.Executor.Adapter.{from_root}
use rt_evm.Executor.Exec.{Evm}
use rt_evm.Executor.Revert.{
  Oversized, decode_revert_msg, decode_revert_msg-Oversized, decode_revert_msg-panics,
}
use rt_evm.Api.Logs.{BlockId, latest}
use rt_evm.Api.Backend.{
  ApiAdapter, insert_signed_tx, get_block_header_by_number, gas_or_default, evm_call,
}
use rt_evm.Api.Web3.{
  CallRequest, number_of, mock_nonce, mock_header_by_call_req, send_raw_tx, run_request, call,
  vm_err, price_too_high, only_number, estimate_gas,
}

-- A chain does not panic if its parts do not.
>>=-no_panic :
    {A B : Type 0} (m : Outcome A) (k : A → Outcome B)
    → m ≢ panic
    → ((x : A) → m ≡ ok x → k x ≢ panic)
    → (m >>= k) ≢ panic
>>=-no_panic (ok x) k calm h = h x refl
>>=-no_panic (err e) k calm h = λ same. cc
>>=-no_panic panic k calm h = absurd (calm refl)

err-no_panic : {A : Type 0} (e : Error) → ◌≢◌ {A = Outcome A} (err e) panic
err-no_panic e same = cc

or_err-no_panic : {A : Type 0} (o : Option A) (e : Error) → or_err o e ≢ panic
or_err-no_panic none e = λ same. cc
or_err-no_panic (some x) e = λ same. cc

-- The number of a request for a transaction fits a `u64`.
abbrev pub NonceFits : Option U256 → Type 0
NonceFits none = Unit {0}
NonceFits (some n) = n < 2 ^ 64

mock_nonce-no_panic :
    (nonce : Option U256) (old : ℕ) → NonceFits nonce → mock_nonce nonce old ≢ panic
mock_nonce-no_panic none old h = λ same. cc
mock_nonce-no_panic (some n) old h =
    let fits : leb u64_mod n ≡ false = ground arith in rw fits (λ same. cc)

gas-no_panic :
    (gas : Option U256)
    → ltb max_block_gas_limit (unwrap_or gas 0) ≡ false
    → gas_or_default gas ≢ panic
gas-no_panic none h = λ same. cc
gas-no_panic (some g) h =
    let small = ltb→le max_block_gas_limit g h in
    let fits : leb u64_mod g ≡ false = ground (arith, small) in rw fits (λ same. cc)

-- A chain whose first part does not panic panics in the rest.
>>=-eq-panic :
    {A B : Type 0} (m : Outcome A) (k : A → Outcome B)
    → m ≢ panic
    → (m >>= k) ≡ panic
    → (x : A) × (m ≡ ok x) × (k x ≡ panic)
>>=-eq-panic (ok x) k calm h = (x, refl, h)
>>=-eq-panic (err e) k calm h = cc
>>=-eq-panic panic k calm h = absurd (calm refl)

rest-eq-panic :
    {A B : Type 0} (m : Outcome A) (f : A → Error)
    → ◌≡◌ {A = Outcome B} (m >>= λ x. err (f x)) panic
    → m ≡ panic
rest-eq-panic (ok x) f h = cc
rest-eq-panic (err e) f h = cc
rest-eq-panic panic f h = refl

-- The reply to a response panics only for a failed one with a message that is too large.
vm_err-Oversized :
    (resp : TxResp)
    → ((if is_succeed resp.exit_reason then ok resp.ret else vm_err resp) ≡ panic)
    → (is_succeed resp.exit_reason ≡ false) × Oversized resp.ret
unfolding vm_err
vm_err-Oversized resp h = elim (Bool-cases (is_succeed resp.exit_reason)) [
  | inl fine ↦ absurd (ok-no_panic resp.ret (rw fine at h))
  | inr failed ↦ (
    failed,
    decode_revert_msg-Oversized resp.ret
        (rest-eq-panic (decode_revert_msg resp.ret) call_failed (rw failed at h)),
  )
]

vm_err-panics :
    {A : Type 0} (resp : TxResp)
    → is_succeed resp.exit_reason ≡ false
    → Oversized resp.ret
    → vm_err {A = A} resp ≡ panic
unfolding vm_err
vm_err-panics resp failed large = rw (failed, decode_revert_msg-panics resp.ret large) refl

neither : (x y : Bool) → (x || y) ≡ true → (not x && not y) ≡ false
neither true y h = refl
neither false true h = refl
neither false false h = cc

module _ ⦃ext : Externals⦄ ⦃tries : Tries⦄ ⦃tables : Tables⦄ ⦃caches : Caches⦄ where
  -- The bytes of a signed transaction whose sender can be recovered are taken in as that
  -- transaction: what is inserted, and the errors of the insertion, are those of the transaction,
  -- and the answer is the hash of the bytes.
  pub send_raw_tx-encode :
      ⦃reader : Reader⦄ (laws : ReaderLaws ext reader) (chain : ℕ) (a : ApiAdapter)
      (t : UnsignedTransaction) (sc : SignatureComponents) (id now : ℕ) (tx : SignedTransaction)
      → try_from (record {
        unsigned = t;
        signature = some sc;
        chain_id = id;
        hash = ext.keccak (encode t id (some sc));
      })
        ≡ ok tx
      → UnsignedFits t
      → IdsFit t sc.standard_v id
      → SignatureFits sc
      → send_raw_tx chain a (encode t id (some sc)) now
        ≡ (insert_signed_tx a tx now >>= λ a'. ok (a', ext.keccak (encode t id (some sc))))
  unfolding send_raw_tx get_hash
  send_raw_tx-encode ⦃reader⦄ laws chain a t sc id now tx recovered small ids fits =
      let u : UnverifiedTransaction = record {
        unsigned = t;
        signature = some sc;
        chain_id = id;
        hash = ext.keccak (encode t id (some sc));
      } in
      let (_, _, _, _, _, _, same, _) = try_from_lem u tx recovered in
      let hash : tx.transaction.hash ≡ ext.keccak (encode t id (some sc)) =
        ap (λ (x : UnverifiedTransaction). x.hash) same in
      rw (decode-encode laws chain t sc id small ids fits, recovered, hash) refl

  latest-no_panic : (a : ApiAdapter) → get_latest_block a.storage ≢ panic
  unfolding get_latest_block
  latest-no_panic a = or_err-no_panic _ no_blocks

  latest_header-no_panic : (a : ApiAdapter) → get_latest_block_header a.storage ≢ panic
  unfolding get_latest_block_header
  latest_header-no_panic a =
      >>=-no_panic (get_latest_block a.storage) _ (latest-no_panic a) (λ b _. ok-no_panic b.header)

  header-no_panic :
      (a : ApiAdapter) (number : Option ℕ) → get_block_header_by_number a number ≢ panic
  unfolding get_block_header_by_number get_block_header
  header-no_panic a (some n) = ok-no_panic _
  header-no_panic a none =
      >>=-no_panic (get_latest_block_header a.storage) _ (latest_header-no_panic a)
        (λ h _. ok-no_panic (some h))

  from_root-no_panic :
      (a : ApiAdapter) (root : Hash) (ctx : ExecutorContext)
      → tries.trie_restore a.trie_db world_state_meta_key root ≢ panic
      → from_root root a.trie_db a.storage ctx ≢ panic
  unfolding from_root
  from_root-no_panic a root ctx calm =
      >>=-no_panic (tries.trie_restore a.trie_db world_state_meta_key root) _ calm
        (λ t _. ok-no_panic _)

  mock-no_panic :
      (h : Header) (req : CallRequest) → NonceFits req.nonce → mock_header_by_call_req h req ≢ panic
  unfolding mock_header_by_call_req
  mock-no_panic h req nonce =
      >>=-no_panic (mock_nonce req.nonce h.nonce) _ (mock_nonce-no_panic req.nonce h.nonce nonce)
        (λ n _. ok-no_panic _)

  module _ ⦃evm : Evm⦄ where
    evm_call-no_panic :
        (a : ApiAdapter) (from to : Option H160) (price gas : Option U256) (value : U256)
        (payload : Bytes) (root : Hash) (p : Proposal)
        → tries.trie_restore a.trie_db world_state_meta_key root ≢ panic
        → gas_or_default gas ≢ panic
        → evm_call a from to price gas value payload root p ≢ panic
    unfolding evm_call
    evm_call-no_panic a from to price gas value payload root p calm fits =
        >>=-no_panic (from_root root a.trie_db a.storage _) _ (from_root-no_panic a root _ calm)
          (λ b _. >>=-no_panic (gas_or_default gas) _ fits (λ limit _. ok-no_panic _))

    run_request-no_panic :
        (a : ApiAdapter) (req : CallRequest) (payload : Bytes) (number : Option ℕ)
        → NonceFits req.nonce
        → gas_or_default req.gas ≢ panic
        → ((root : Hash) → tries.trie_restore a.trie_db world_state_meta_key root ≢ panic)
        → run_request a req payload number ≢ panic
    unfolding run_request
    run_request-no_panic a req payload number nonce fits calm =
        elim (Bool-cases (not (is_some req.from) && not (is_some req.to))) [
          | inl none_given ↦ rw none_given (λ same. cc)
          | inr given ↦ rw given (
              >>=-no_panic (get_block_header_by_number a number) _ (header-no_panic a number)
                (λ found _.
                  >>=-no_panic (or_err found not_found) _ (or_err-no_panic found not_found)
                    (λ header _.
                      >>=-no_panic (mock_header_by_call_req header req) _
                        (mock-no_panic header req nonce)
                        (λ mock _.
                          evm_call-no_panic a req.from req.to req.gas_price req.gas
                            (unwrap_or req.value 0) payload mock.state_root (from_header mock)
                            (calm mock.state_root) fits))))
        ]

    -- For a request whose nonce fits a `u64`, and a trie store that does not panic: a call panics
    -- exactly if its price and its gas are not refused, its run ends in a response that did not
    -- succeed, and the bytes of that response are at least 68 and announce a message that ends
    -- beyond every `usize`.
    pub call-Oversized :
        (a : ApiAdapter) (req : CallRequest) (number : Option BlockId)
        → NonceFits req.nonce
        → ((root : Hash) → tries.trie_restore a.trie_db world_state_meta_key root ≢ panic)
        → (call a req number ≡ panic) ↔ (
            (unwrap_or req.gas_price 0 ≤ u64_max)
            × (unwrap_or req.gas 0 ≤ max_block_gas_limit)
            × ((resp : TxResp) × (run_request a req
                    (unwrap_or req.payload [])
                    (number_of (unwrap_or number latest))
                  ≡ ok resp)
                × (is_succeed resp.exit_reason ≡ false)
                × Oversized resp.ret))
    unfolding call
    call-Oversized a req number nonce calm =
        let payload = unwrap_or req.payload [] in
        let at = number_of (unwrap_or number latest) in
        (
          λ h. elim (Bool-cases (ltb u64_max (unwrap_or req.gas_price 0))) [
            | inl high ↦ absurd (err-no_panic bad_request (rw high at h))
            | inr price ↦ elim (Bool-cases (ltb max_block_gas_limit (unwrap_or req.gas 0))) [
              | inl above ↦ absurd (err-no_panic bad_request (rw (price, above) at h))
              | inr gas ↦
                  let (resp, ran, ends) =
                    >>=-eq-panic (run_request a req payload at) _
                      (run_request-no_panic a req payload at nonce (gas-no_panic req.gas gas) calm)
                      (rw (price, gas) at h) in
                  let (failed, large) = vm_err-Oversized resp ends in
                  (
                    ltb→le u64_max (unwrap_or req.gas_price 0) price,
                    ltb→le max_block_gas_limit (unwrap_or req.gas 0) gas,
                    (resp, ran, failed, large),
                  )
            ]
          ],
          λ (low, small, (resp, ran, failed, large)).
              rw
                (
                  le→ltb u64_max (unwrap_or req.gas_price 0) low,
                  le→ltb max_block_gas_limit (unwrap_or req.gas 0) small,
                  ran,
                  failed,
                )
                (vm_err-panics resp failed large),
        )

    -- An estimate panics if its gas limit does not fit a `u64`, its price is not refused, a sender
    -- or a recipient is given, the header that it asks for is found, the mock header is made, and
    -- the state of that header is restored.
    pub estimate_gas_panics :
        (a : ApiAdapter) (req : CallRequest) (number : Option BlockId) (gas : U256)
        (header mock : Header) (state : tries.Trie)
        → req.gas ≡ some gas
        → 2 ^ 64 ≤ gas
        → price_too_high req.gas_price ≡ false
        → (is_some req.from || is_some req.to) ≡ true
        → get_block_header_by_number a (only_number number) ≡ ok (some header)
        → mock_header_by_call_req header req ≡ ok mock
        → tries.trie_restore a.trie_db world_state_meta_key mock.state_root ≡ ok state
        → estimate_gas a req number ≡ panic
    unfolding estimate_gas run_request evm_call from_root
    estimate_gas_panics a req number gas header mock state limit large price given found mocked
          restored =
        let nonzero : (gas == 0) ≡ false = ground (arith, large) in
        let asked = neither (is_some req.from) (is_some req.to) given in
        let too_large : leb u64_mod gas ≡ true = ground (arith, large) in
        simp (limit, nonzero, price, asked, found, mocked, restored, too_large) refl
