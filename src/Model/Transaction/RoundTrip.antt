-- ===== src/Model/Transaction/RoundTrip.antt =====
-- Decoding what the encoding side of crates/model/src/codec/transaction.rs writes.
use rt_evm.Common.{
  ℕ, ◌+◌, ◌*◌, ◌≤◌, ◌<◌, ◌^◌, ◌≡◌, refl, sym, ◌∙◌, subst, Option-cases, inl, inr, none, some, ◌∷◌,
  le→leb, arith, u64_mod, from_big_endian,
}
use rt_evm.Common.Outcome.{ok}
use rt_evm.Model.Rlp.{Externals, Items, num, bytes, action, begin_list, nil, append, count}
use rt_evm.Model.Reader.{Reader, ReaderLaws, val_at-item, items_in-list}
use rt_evm.Model.Transaction.{
  LegacyTransaction, Eip2930Transaction, Eip1559Transaction, UnsignedTransaction,
  SignatureComponents, UnverifiedTransaction, SignedTransaction, legacy, eip2930, eip1559, as_u8,
  as_bytes, add_chain_replay_protection,
}
use rt_evm.Model.Transaction.Encode.{
  rlp_bytes, encode, typed_tail, legacy_item, eip2930_item, eip1559_item, rlp_append,
  truncate_slice, calc_hash, get_hash, try_from, signature_hash, public_to_address,
}
use rt_evm.Model.Transaction.Decode.{
  decode, decode_raw, decode_legacy, decode_eip2930, decode_eip1559, signed_item, decode_signed,
}
use rt_evm.Model.Transaction.Parts.{
  decode_access_list-item, decode_signature-items, decode_signature_legacy,
}
use rt_evm.Model.Transaction.Fits.{UnsignedFits, IdsFit, SignatureFits}
use rt_evm.Model.Transaction.Hashing.{signature_items-AllFramed}
use rt_evm.Model.Transaction.Signature.{extract-add_chain_replay_protection}

replay_small :
    (sc : SignatureComponents) (id : ℕ)
    → sc.standard_v ≤ 1
    → 36 + id * 2 < u64_mod
    → add_chain_replay_protection sc (some id) < 2 ^ 64
unfolding add_chain_replay_protection
replay_small sc id small room = ground arith

module _ ⦃ext : Externals⦄ ⦃reader : Reader⦄ (laws : ReaderLaws ext reader) where
  -- The items of a legacy transaction that is signed.
  decode_legacy-legacy_item :
      (chain : ℕ) (t : LegacyTransaction) (sc : SignatureComponents) (id : ℕ)
      → UnsignedFits (legacy t)
      → IdsFit (legacy t) sc.standard_v id
      → SignatureFits sc
      → decode_legacy chain (reader.view (ext.out (legacy_item t (some id) (some sc))))
        ≡ ok (record {
          unsigned = legacy t;
          signature = some sc;
          chain_id = id;
          hash = ext.keccak (ext.out (legacy_item t (some id) (some sc)));
        })
  unfolding decode_legacy legacy_item
  decode_legacy-legacy_item chain t sc id (n, p, l, a, v) (small, room) fits =
      let w = add_chain_replay_protection sc (some id) in
      let x = num (from_big_endian (truncate_slice sc.r 32)) in
      let y = num (from_big_endian (truncate_slice sc.s 32)) in
      let is : Items = append (num t.nonce) (
        append (num t.gas_price) (
          append (num t.gas_limit) (
            append (action t.action) (
              append (num t.value)
                (append (bytes t.payload) (append (num w) (append x (append y nil)))))))) in
      let (parity, network) = extract-add_chain_replay_protection sc id small room in
      rw
        (
          items_in-list laws 9 is refl,
          val_at-item laws reader.as_u256 9 is 0 (num t.nonce) t.nonce refl refl
              (laws.u256-num t.nonce n),
          val_at-item laws reader.as_u256 9 is 1 (num t.gas_price) t.gas_price refl refl
              (laws.u256-num t.gas_price p),
          val_at-item laws reader.as_u256 9 is 2 (num t.gas_limit) t.gas_limit refl refl
              (laws.u256-num t.gas_limit l),
          val_at-item laws reader.as_action 9 is 3 (action t.action) t.action refl refl
              (laws.action-action t.action a),
          val_at-item laws reader.as_u256 9 is 4 (num t.value) t.value refl refl
              (laws.u256-num t.value v),
          val_at-item laws reader.as_bytes 9 is 5 (bytes t.payload) t.payload refl refl
              (laws.bytes-bytes t.payload),
          val_at-item laws reader.as_u64 9 is 6 (num w) w refl refl
              (laws.u64-num w (replay_small sc id small room)),
          decode_signature_legacy laws 9 is 6 sc w refl fits small parity refl refl,
          network,
          laws.raw-view (ext.out (begin_list 9 is)),
        )
        refl

  decode_eip2930-eip2930_item :
      (t : Eip2930Transaction) (sc : SignatureComponents) (id : ℕ)
      → UnsignedFits (eip2930 t)
      → IdsFit (eip2930 t) sc.standard_v id
      → SignatureFits sc
      → decode_eip2930 (reader.view (ext.out (eip2930_item t (some id) (some sc))))
        ≡ ok (record {
          unsigned = eip2930 t;
          signature = some sc;
          chain_id = id;
          hash = ext.keccak (1 ∷ ext.out (eip2930_item t (some id) (some sc)));
        })
  unfolding decode_eip2930 eip2930_item typed_tail
  decode_eip2930-eip2930_item t sc id (n, p, l, a, v, acc) (small, room) fits =
      let is : Items = append (num id) (
        append (num t.nonce) (
          append (num t.gas_price) (
            append (num t.gas_limit) (
              append (action t.action) (
                append (num t.value)
                  (append (bytes t.payload) (typed_tail t.access_list (some sc)))))))) in
      let counted : count is ≡ 11 = omega (arith, (signature_items-AllFramed sc).0) in
      rw
        (
          items_in-list laws 11 is counted,
          val_at-item laws reader.as_u64 11 is 0 (num id) id counted refl (laws.u64-num id room),
          val_at-item laws reader.as_u256 11 is 1 (num t.nonce) t.nonce counted refl
              (laws.u256-num t.nonce n),
          val_at-item laws reader.as_u256 11 is 2 (num t.gas_price) t.gas_price counted refl
              (laws.u256-num t.gas_price p),
          val_at-item laws reader.as_u256 11 is 3 (num t.gas_limit) t.gas_limit counted refl
              (laws.u256-num t.gas_limit l),
          val_at-item laws reader.as_action 11 is 4 (action t.action) t.action counted refl
              (laws.action-action t.action a),
          val_at-item laws reader.as_u256 11 is 5 (num t.value) t.value counted refl
              (laws.u256-num t.value v),
          val_at-item laws reader.as_bytes 11 is 6 (bytes t.payload) t.payload counted refl
              (laws.bytes-bytes t.payload),
          decode_access_list-item laws 11 is 7 t.access_list counted refl acc,
          decode_signature-items laws 11 is 8 sc counted fits small refl,
          laws.raw-view (ext.out (begin_list 11 is)),
        )
        refl

  decode_eip1559-eip1559_item :
      (t : Eip1559Transaction) (sc : SignatureComponents) (id : ℕ)
      → UnsignedFits (eip1559 t)
      → IdsFit (eip1559 t) sc.standard_v id
      → SignatureFits sc
      → decode_eip1559 (reader.view (ext.out (eip1559_item t (some id) (some sc))))
        ≡ ok (record {
          unsigned = eip1559 t;
          signature = some sc;
          chain_id = id;
          hash = ext.keccak (2 ∷ ext.out (eip1559_item t (some id) (some sc)));
        })
  unfolding decode_eip1559 eip1559_item typed_tail
  decode_eip1559-eip1559_item t sc id (n, q, p, l, a, v, acc) (small, room) fits =
      let is : Items = append (num id) (
        append (num t.nonce) (
          append (num t.max_priority_fee_per_gas) (
            append (num t.gas_price) (
              append (num t.gas_limit) (
                append (action t.action) (
                  append (num t.value)
                    (append (bytes t.payload) (typed_tail t.access_list (some sc))))))))) in
      let counted : count is ≡ 12 = omega (arith, (signature_items-AllFramed sc).0) in
      rw
        (
          items_in-list laws 12 is counted,
          val_at-item laws reader.as_u64 12 is 0 (num id) id counted refl (laws.u64-num id room),
          val_at-item laws reader.as_u256 12 is 1 (num t.nonce) t.nonce counted refl
              (laws.u256-num t.nonce n),
          val_at-item laws reader.as_u256 12 is 2 (num t.max_priority_fee_per_gas)
              t.max_priority_fee_per_gas counted refl (laws.u256-num t.max_priority_fee_per_gas q),
          val_at-item laws reader.as_u256 12 is 3 (num t.gas_price) t.gas_price counted refl
              (laws.u256-num t.gas_price p),
          val_at-item laws reader.as_u256 12 is 4 (num t.gas_limit) t.gas_limit counted refl
              (laws.u256-num t.gas_limit l),
          val_at-item laws reader.as_action 12 is 5 (action t.action) t.action counted refl
              (laws.action-action t.action a),
          val_at-item laws reader.as_u256 12 is 6 (num t.value) t.value counted refl
              (laws.u256-num t.value v),
          val_at-item laws reader.as_bytes 12 is 7 (bytes t.payload) t.payload counted refl
              (laws.bytes-bytes t.payload),
          decode_access_list-item laws 12 is 8 t.access_list counted refl acc,
          decode_signature-items laws 12 is 9 sc counted fits small refl,
          laws.raw-view (ext.out (begin_list 12 is)),
        )
        refl

  -- The first byte tells the type.
  decode_raw-list :
      (chain : ℕ) (n : ℕ) (is : Items)
      → decode chain (reader.view (ext.out (begin_list n is)))
        ≡ decode_legacy chain (reader.view (ext.out (begin_list n is)))
  unfolding decode decode_raw
  decode_raw-list chain n is =
      let (b, rest, first, high, _) = laws.header-list n is in
      rw (laws.raw-view (ext.out (begin_list n is))) (
        subst
          (λ bs.
            decode_raw chain (reader.view (ext.out (begin_list n is))) bs
            ≡ decode_legacy chain (reader.view (ext.out (begin_list n is))))
          (sym first) (rw (le→leb 0x80 b (omega arith)) refl))

  -- A signed transaction of any of the three types, encoded and decoded, is the transaction, with
  -- its chain id and its signature, under the hash of its encoding. The fields have the width of
  -- their types; the signature has 32 bytes for `r` and for `s`, and the recovery id and the chain
  -- id fit what is written for them.
  pub decode-encode :
      (chain : ℕ) (t : UnsignedTransaction) (sc : SignatureComponents) (id : ℕ)
      → UnsignedFits t
      → IdsFit t sc.standard_v id
      → SignatureFits sc
      → decode chain (reader.view (encode t id (some sc)))
        ≡ ok (record {
          unsigned = t;
          signature = some sc;
          chain_id = id;
          hash = ext.keccak (encode t id (some sc));
        })
  unfolding encode rlp_bytes rlp_append legacy_item
  decode-encode chain (legacy t) sc id small ids fits =
      decode_raw-list chain 9 _ ∙ decode_legacy-legacy_item chain t sc id small ids fits
  decode-encode chain (eip2930 t) sc id small ids fits =
      unfold decode decode_raw as_u8 in
      rw (laws.raw-view (1 ∷ ext.out (eip2930_item t (some id) (some sc))))
        (decode_eip2930-eip2930_item t sc id small ids fits)
  decode-encode chain (eip1559 t) sc id small ids fits =
      unfold decode decode_raw as_u8 in
      rw (laws.raw-view (2 ∷ ext.out (eip1559_item t (some id) (some sc))))
        (decode_eip1559-eip1559_item t sc id small ids fits)

  -- A transaction whose sender was recovered is read back whole from the byte string that stands
  -- for it: the same transaction and hash, the same sender and the same public key.
  pub decode_signed-signed_item :
      (chain : ℕ) (t : UnsignedTransaction) (sc : SignatureComponents) (id h : ℕ)
      (tx : SignedTransaction)
      → try_from (record { unsigned = t; signature = some sc; chain_id = id; hash = h }) ≡ ok tx
      → UnsignedFits t
      → IdsFit t sc.standard_v id
      → SignatureFits sc
      → decode_signed chain (reader.view (ext.out (signed_item tx))) ≡ ok tx
  unfolding try_from calc_hash get_hash signature_hash decode_signed signed_item rlp_bytes decode
      encode public_to_address
  decode_signed-signed_item chain t sc id h tx recovered small ids fits =
      elim (Option-cases (ext.recover (ext.keccak (encode t id none)) (as_bytes sc))) [
        | inl e ↦ absurd (ground (arith, recovered, e))
        | inr (key, e) ↦
            let u : UnverifiedTransaction = record {
              unsigned = t;
              signature = some sc;
              chain_id = id;
              hash = ext.keccak (encode t id (some sc));
            } in
            let same : tx ≡ record {
              transaction = u;
              sender = public_to_address key;
              public_key = some key;
            } =
              ground (arith, recovered, e) in
            rw (same, laws.payload-bytes (encode t id (some sc)))
              (rw (decode-encode chain t sc id small ids fits, e) refl)
      ]
