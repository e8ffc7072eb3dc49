-- ===== src/Model/Transaction/Encode.antt =====
-- crates/model/src/codec/transaction.rs, the encoding side, and the hashing, verification and
-- recovery of crates/model/src/types/transaction.rs.
use rt_evm.Common.{
  leb, ℕ, ◌%◌, ◌^◌, Bytes, Hash, H160, Option, none, some, List, [], ◌∷◌, ◌++◌, Bool, true, false,
  ◌||◌, is_some, unwrap_or, if◌then◌else◌, ◌==◌, length, take, from_big_endian,
}
use rt_evm.Common.Outcome.{Outcome, ok, err, unsigned, crypto, tx_hash_mismatch, or_err, ◌>>=◌}
use rt_evm.Model.Rlp.{
  Item, Items, num, bytes, address, hash, action, begin_list, nil, append, each, Externals,
}
use rt_evm.Model.Transaction.{
  AccessListItem, AccessList, LegacyTransaction, Eip2930Transaction, Eip1559Transaction,
  UnsignedTransaction, SignatureComponents, UnverifiedTransaction, SignedTransaction, legacy,
  eip2930, eip1559, is_legacy, as_u8, is_eth_sig, as_bytes, add_chain_replay_protection,
}

unfoldable pub truncate_slice {ℓ} : {A : Type ℓ} → List A → ℕ → List A
truncate_slice xs n = if leb (length xs) n then xs else take n xs

-- `Encodable for SignatureComponents`
unfoldable pub signature_items : SignatureComponents → Items
unfolding truncate_slice
signature_items sc =
    if is_eth_sig sc
    then append (num sc.standard_v) (
        append (num (from_big_endian (truncate_slice sc.r 32)))
          (append (num (from_big_endian (truncate_slice sc.s 32))) nil))
    else append (num sc.standard_v) (append (bytes sc.r) (append (bytes sc.s) nil))

unfoldable pub legacy_tail : Option ℕ → Option SignatureComponents → Items
unfolding truncate_slice
legacy_tail chain_id (some sig) = append (num (add_chain_replay_protection sig chain_id)) (
    append (num (from_big_endian (truncate_slice sig.r 32)))
      (append (num (from_big_endian (truncate_slice sig.s 32))) nil))
legacy_tail (some id) none = append (num id) (append (num 0) (append (num 0) nil))
legacy_tail none none = nil

-- `LegacyTransaction::rlp_encode`
unfoldable pub legacy_item : LegacyTransaction → Option ℕ → Option SignatureComponents → Item
unfolding legacy_tail
legacy_item t chain_id signature =
    begin_list (if is_some signature || is_some chain_id then 9 else 6) (
      append (num t.nonce) (
        append (num t.gas_price) (
          append (num t.gas_limit) (
            append (action t.action)
              (append (num t.value) (append (bytes t.payload) (legacy_tail chain_id signature)))))))

unfoldable pub access_item : AccessListItem → Item
access_item a = begin_list 2 (
    append (address a.address)
      (append (begin_list (length a.storage_keys) (each hash a.storage_keys)) nil))

unfoldable pub typed_tail : AccessList → Option SignatureComponents → Items
unfolding access_item signature_items
typed_tail accesses none = append (begin_list (length accesses) (each access_item accesses)) nil
typed_tail accesses (some sig) =
    append (begin_list (length accesses) (each access_item accesses)) (signature_items sig)

-- `Eip2930Transaction::rlp_encode`
unfoldable pub eip2930_item : Eip2930Transaction → Option ℕ → Option SignatureComponents → Item
unfolding typed_tail
eip2930_item t chain_id signature = begin_list (if is_some signature then 11 else 8) (
    append (num (unwrap_or chain_id 0)) (
      append (num t.nonce) (
        append (num t.gas_price) (
          append (num t.gas_limit) (
            append (action t.action) (
              append (num t.value)
                (append (bytes t.payload) (typed_tail t.access_list signature))))))))

-- `Eip1559Transaction::rlp_encode`
unfoldable pub eip1559_item : Eip1559Transaction → Option ℕ → Option SignatureComponents → Item
unfolding typed_tail
eip1559_item t chain_id signature = begin_list (if is_some signature then 12 else 9) (
    append (num (unwrap_or chain_id 0)) (
      append (num t.nonce) (
        append (num t.max_priority_fee_per_gas) (
          append (num t.gas_price) (
            append (num t.gas_limit) (
              append (action t.action) (
                append (num t.value)
                  (append (bytes t.payload) (typed_tail t.access_list signature)))))))))

-- `rlp_append` of `UnverifiedTransaction`, as a function of its three fields that it reads
unfoldable pub rlp_append : UnsignedTransaction → ℕ → Option SignatureComponents → Item
unfolding legacy_item eip2930_item eip1559_item
rlp_append (legacy t) id signature = legacy_item t (some id) signature
rlp_append (eip2930 t) id signature = eip2930_item t (some id) signature
rlp_append (eip1559 t) id signature = eip1559_item t (some id) signature

abbrev pub option_bytes : Option ℕ → Bytes
option_bytes none = []
option_bytes (some b) = b ∷ []

module _ ⦃ext : Externals⦄ where
  open ext use {out, keccak, recover}

  -- `rlp_bytes`; the type byte is written where the transaction is not legacy.
  unfoldable pub rlp_bytes : UnverifiedTransaction → Bytes
  rlp_bytes u =
      (if is_legacy u.unsigned then [] else option_bytes (as_u8 u.unsigned))
      ++ out (rlp_append u.unsigned u.chain_id u.signature)

  -- `UnsignedTransaction::encode`
  unfoldable pub encode : UnsignedTransaction → ℕ → Option SignatureComponents → Bytes
  encode t id sig = rlp_bytes (record { unsigned = t; signature = sig; chain_id = id; hash = 0 })

  unfoldable pub get_hash : UnverifiedTransaction → Hash
  get_hash u = keccak (encode u.unsigned u.chain_id u.signature)

  unfoldable pub calc_hash : UnverifiedTransaction → UnverifiedTransaction
  calc_hash u = record u { hash = get_hash u }

  unfoldable pub check_hash : UnverifiedTransaction → Outcome (Unit {0})
  check_hash u = if u.hash == get_hash u then ok tt else err tx_hash_mismatch

  -- `with_chain_id` is false in tests only.
  unfoldable pub signature_hash : UnverifiedTransaction → Bool → Hash
  signature_hash u true = keccak (encode u.unsigned u.chain_id none)
  signature_hash u false = elim u.unsigned [
    | legacy t ↦ keccak (out (legacy_item t none none))
    | eip2930 t ↦ keccak (encode (eip2930 t) u.chain_id none)
    | eip1559 t ↦ keccak (encode (eip1559 t) u.chain_id none)
  ]

  -- The last 20 bytes of the hash of the public key.
  unfoldable pub public_to_address : Bytes → H160
  public_to_address public = keccak public % 2 ^ 160

  -- `TryFrom<UnverifiedTransaction>`
  unfoldable pub try_from : UnverifiedTransaction → Outcome SignedTransaction
  try_from u = do
    sig ← or_err u.signature unsigned
    public ← or_err (recover (signature_hash u true) (as_bytes sig)) crypto
    ok (record {
      transaction = calc_hash u;
      sender = public_to_address public;
      public_key = some public;
    })
