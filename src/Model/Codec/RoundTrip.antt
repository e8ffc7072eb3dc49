-- ===== src/Model/Codec/RoundTrip.antt =====
-- Receipts, execution results and proposals, decoded from what crates/model/src/codec writes.
use rt_evm.Common.{
  Bytes, true, Bool-cases, ℕ, ◌<◌, ◌^◌, ◌≡◌, refl, Option, none, some, length, arith, Option-cases,
  inl, inr,
}
use rt_evm.Common.Outcome.{Outcome, ok, err, bad_codec, or_err, ◌>>=◌}
use rt_evm.Model.Rlp.{
  Externals, Items, num, bytes, address, hash, bloom, flag, option_hash, logs, begin_list, nil,
  append, each,
}
use rt_evm.Model.Reader.{
  Prototype, null, value, list, Reader, ReaderLaws, OptionFits, val_at, val_at-item,
}
use rt_evm.Model.Block.{Proposal, proposal_item}
use rt_evm.Model.Response.{TxResp, Receipt}
use rt_evm.Model.Codec.{
  Bcs, is_list_of, receipt_item, decode_proposal, decode_receipt, decode_tx_resp,
}

-- The fields have the width of their types.
abbrev pub ReceiptFits : Receipt → Type 0
ReceiptFits r =
    (r.tx_hash < 2 ^ 256)
    × (r.block_number < 2 ^ 64)
    × (r.block_hash < 2 ^ 256)
    × (r.tx_index < 2 ^ 32)
    × (r.state_root < 2 ^ 256)
    × (r.used_gas < 2 ^ 256)
    × (r.logs_bloom < 2 ^ 2048)
    × (r.log_index < 2 ^ 32)
    × OptionFits r.code_address
    × (r.sender < 2 ^ 160)

-- A chain whose rest fails with the error of decoding returns that error, if its first part can
-- fail with no other.
abbrev Decodes : {A : Type 0} → Outcome A → Type 0
Decodes {A} m =
    (k : A → Outcome TxResp) → ((a : A) → k a ≡ err bad_codec) → (m >>= k) ≡ err bad_codec

or_err-Decodes : {A : Type 0} (o : Option A) → Decodes (or_err o bad_codec)
or_err-Decodes none k h = refl
or_err-Decodes (some a) k h = h a

module _ ⦃ext : Externals⦄ ⦃reader : Reader⦄ ⦃bcs : Bcs⦄ where
  val_at-Decodes :
      {A : Type 0} (f : reader.Rlp → Option A) (r : reader.Rlp) (i : ℕ) → Decodes (val_at f r i)
  unfolding val_at
  val_at-Decodes f r i k h = elim (Option-cases (reader.at r i)) [
    | inl e ↦ rw e refl
    | inr (x, e) ↦ rw e (or_err-Decodes (f x) k h)
  ]

  -- A receipt comes back from its encoding, if BCS gives its exit reason back and the fields have the
  -- width of their types.
  pub decode_receipt-receipt_item :
      (laws : ReaderLaws ext reader) (r : Receipt)
      → bcs.from_bytes (bcs.to_bytes r.ret) ≡ some r.ret
      → ReceiptFits r
      → decode_receipt (reader.view (ext.out (receipt_item r))) ≡ ok r
  unfolding decode_receipt receipt_item
  decode_receipt-receipt_item laws r bcs_law (th, bn, bh, ti, sr, ug, lb, li, ca, se) =
      let ret = bcs.to_bytes r.ret in
      let is : Items = append (hash r.tx_hash) (
        append (num r.block_number) (
          append (hash r.block_hash) (
            append (num r.tx_index) (
              append (hash r.state_root) (
                append (num r.used_gas) (
                  append (bloom r.logs_bloom) (
                    append (logs r.logs) (
                      append (num r.log_index) (
                        append (option_hash r.code_address) (
                          append (address r.sender)
                            (append (bytes ret) (append (flag r.removed) nil)))))))))))) in
      rw
        (
          laws.prototype-list 13 is refl,
          val_at-item laws reader.as_hash 13 is 0 (hash r.tx_hash) r.tx_hash refl refl
              (laws.hash-hash r.tx_hash th),
          val_at-item laws reader.as_u64 13 is 1 (num r.block_number) r.block_number refl refl
              (laws.u64-num r.block_number bn),
          val_at-item laws reader.as_hash 13 is 2 (hash r.block_hash) r.block_hash refl refl
              (laws.hash-hash r.block_hash bh),
          val_at-item laws reader.as_u32 13 is 3 (num r.tx_index) r.tx_index refl refl
              (laws.u32-num r.tx_index ti),
          val_at-item laws reader.as_hash 13 is 4 (hash r.state_root) r.state_root refl refl
              (laws.hash-hash r.state_root sr),
          val_at-item laws reader.as_u256 13 is 5 (num r.used_gas) r.used_gas refl refl
              (laws.u256-num r.used_gas ug),
          val_at-item laws reader.as_bloom 13 is 6 (bloom r.logs_bloom) r.logs_bloom refl refl
              (laws.bloom-bloom r.logs_bloom lb),
          val_at-item laws reader.as_logs 13 is 7 (logs r.logs) r.logs refl refl
              (laws.logs-logs r.logs),
          val_at-item laws reader.as_u32 13 is 8 (num r.log_index) r.log_index refl refl
              (laws.u32-num r.log_index li),
          val_at-item laws reader.as_option_hash 13 is 9 (option_hash r.code_address) r.code_address
              refl refl (laws.option_hash-option_hash r.code_address ca),
          val_at-item laws reader.as_address 13 is 10 (address r.sender) r.sender refl refl
              (laws.address-address r.sender se),
          val_at-item laws reader.as_bytes 13 is 11 (bytes ret) ret refl refl
              (laws.bytes-bytes ret),
          val_at-item laws reader.as_flag 13 is 12 (flag r.removed) r.removed refl refl
              (laws.flag-flag r.removed),
          bcs_law,
        )
        refl

  -- No list of seven items has an item 7.
  last-missing :
      (laws : ReaderLaws ext reader) (x : reader.Rlp) (p : Prototype)
      → reader.prototype x ≡ some p
      → is_list_of 7 p ≡ true
      → val_at reader.as_flag x 7 ≡ err bad_codec
  unfolding val_at
  last-missing laws x null shape seven = cc
  last-missing laws x (value n) shape seven = cc
  last-missing laws x (list n) shape seven =
      rw (laws.at-beyond x n 7 shape (ground (arith, seven))) refl

  -- No bytes can be decoded as an execution result: the decoding wants a list of seven items, and asks
  -- for item 7 of it.
  decode_tx_resp_fails :
      (laws : ReaderLaws ext reader) (x : reader.Rlp) → decode_tx_resp x ≡ err bad_codec
  unfolding decode_tx_resp
  decode_tx_resp_fails laws x = elim (Option-cases (reader.prototype x)) [
    | inl unreadable ↦ rw unreadable refl
    | inr (p, shape) ↦ elim (Bool-cases (is_list_of 7 p)) [
      | inr other ↦ rw (shape, other) refl
      | inl seven ↦
          let last = last-missing laws x p shape seven in
          rw (shape, seven)
            (val_at-Decodes reader.as_bytes x 0 _ (λ raw.
              or_err-Decodes (bcs.from_bytes raw) _ (λ reason.
                val_at-Decodes reader.as_bytes x 1 _ (λ a. val_at-Decodes reader.as_u64 x 2 _ (λ b.
                  val_at-Decodes reader.as_u64 x 3 _ (λ c. val_at-Decodes reader.as_u256 x 4 _ (λ d.
                    val_at-Decodes reader.as_logs x 5 _
                      (λ e. val_at-Decodes reader.as_option_hash x 6 _ (λ f. rw last refl)))))))))
    ]
  ]

  -- No encoded proposal can be decoded: the encoding is a list of six items, and the decoding wants
  -- one of ten.
  decode_proposal-proposal_item :
      (laws : ReaderLaws ext reader) (chain : ℕ) (p : Proposal)
      → decode_proposal chain (reader.view (ext.out (proposal_item p))) ≡ err bad_codec
  unfolding decode_proposal proposal_item
  decode_proposal-proposal_item laws chain p =
      let is : Items = append (hash p.prev_hash) (
        append (address p.proposer) (
          append (hash p.transactions_root) (
            append (num p.timestamp) (
              append (num p.number)
                (append (begin_list (length p.tx_hashes) (each hash p.tx_hashes)) nil))))) in
      rw (laws.prototype-list 6 is refl) refl

  -- No encoded proposal can be decoded as one, and no bytes at all as an execution result, those of an
  -- encoded one included: the decoder fails.
  pub decode-own_item :
      (laws : ReaderLaws ext reader) (chain : ℕ) (p : Proposal) (bs : Bytes)
      → (decode_proposal chain (reader.view (ext.out (proposal_item p))) ≡ err bad_codec)
        × (decode_tx_resp (reader.view bs) ≡ err bad_codec)
  decode-own_item laws chain p bs =
      (decode_proposal-proposal_item laws chain p, decode_tx_resp_fails laws (reader.view bs))
