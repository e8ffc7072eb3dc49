-- ===== src/Model/Transaction/Decode.antt =====
-- crates/model/src/codec/transaction.rs, the decoding side. The chain id of the node, the global
-- `CHAIN_ID`, is an argument.
use rt_evm.Common.{
  ℕ, zero, suc, Bytes, Option, none, some, [], ◌∷◌, true, if◌then◌else◌, ◌==◌, leb, not, length,
  unwrap_or, to_be,
}
use rt_evm.Common.Outcome.{
  Outcome, ok, panic, bad_codec, unsigned, crypto, reject_if, or_err, ◌>>=◌, ◌>>◌,
}
use rt_evm.Model.Rlp.{Externals, Item, bytes}
use rt_evm.Model.Reader.{Reader, items_in, rlp_at, val_at}
use rt_evm.Model.Transaction.{
  AccessListItem, AccessList, SignatureComponents, UnverifiedTransaction, SignedTransaction, legacy,
  eip2930, eip1559, as_bytes, extract_standard_v, extract_chain_id,
}
use rt_evm.Model.Transaction.Encode.{rlp_bytes, signature_hash, public_to_address}

module _ ⦃reader : Reader⦄ where
  -- the branch of `SignatureComponents::rlp_decode` for a parity: `r` and `s` are numbers
  abbrev pub eth_signature : reader.Rlp → ℕ → ℕ → Outcome SignatureComponents
  eth_signature r offset v = val_at reader.as_u256 r (suc offset) >>= λ x.
      val_at reader.as_u256 r (suc (suc offset)) >>= λ y.
      ok (record { standard_v = v; r = to_be 32 x; s = to_be 32 y })

  -- the other branch: they are byte strings of length 32
  abbrev pub raw_signature : reader.Rlp → ℕ → ℕ → Outcome SignatureComponents
  raw_signature r offset v = val_at reader.as_bytes r (suc offset) >>= λ x.
      val_at reader.as_bytes r (suc (suc offset)) >>= λ y.
      reject_if (not (length x == 32)) bad_codec
      >> (reject_if (not (length y == 32)) bad_codec
          >> ok (record { standard_v = v; r = x; s = y }))

  -- the parity, from the `v` of a legacy transaction or from the item
  abbrev pub standard_v_of : reader.Rlp → ℕ → Option ℕ → Outcome ℕ
  standard_v_of r offset none = val_at reader.as_u8 r offset
  standard_v_of r offset (some n) = or_err (extract_standard_v n) bad_codec

  -- `SignatureComponents::rlp_decode`
  unfoldable pub decode_signature : reader.Rlp → ℕ → Option ℕ → Outcome SignatureComponents
  decode_signature r offset legacy_v = standard_v_of r offset legacy_v >>= λ v.
      if leb v 1 then eth_signature r offset v else raw_signature r offset v

  abbrev pub access_at : reader.Rlp → ℕ → Outcome AccessListItem
  access_at r i = rlp_at r i >>= λ accounts. items_in accounts >>= λ n.
      reject_if (not (n == 2)) bad_codec
      >> (val_at reader.as_address accounts 0 >>= λ a.
          val_at reader.as_hashes accounts 1 >>= λ keys.
          ok (record { address = a; storage_keys = keys }))

  -- the items from `i` on, of which `n` are left
  unfoldable pub access_from : reader.Rlp → ℕ → ℕ → Outcome AccessList
  access_from r i zero = ok []
  access_from r i (suc n) = access_at r i >>= λ a. access_from r (suc i) n >>= λ rest. ok (a ∷ rest)

  unfoldable pub decode_access_list : reader.Rlp → ℕ → Outcome AccessList
  decode_access_list r i = rlp_at r i >>= λ l. items_in l >>= λ n. access_from l 0 n

  module _ ⦃ext : Externals⦄ where
    -- `LegacyTransaction::rlp_decode`
    unfoldable pub decode_legacy : ℕ → reader.Rlp → Outcome UnverifiedTransaction
    decode_legacy chain r = do
      n ← items_in r
      reject_if (not (n == 9)) bad_codec
      nonce ← val_at reader.as_u256 r 0
      price ← val_at reader.as_u256 r 1
      limit ← val_at reader.as_u256 r 2
      action ← val_at reader.as_action r 3
      value ← val_at reader.as_u256 r 4
      input ← val_at reader.as_bytes r 5
      v ← val_at reader.as_u64 r 6
      sig ← decode_signature r 6 (some v)
      ok (record {
        unsigned = legacy (record {
          nonce = nonce;
          gas_price = price;
          gas_limit = limit;
          action = action;
          value = value;
          payload = input;
        });
        signature = some sig;
        chain_id = unwrap_or (extract_chain_id v) chain;
        hash = ext.keccak (reader.as_raw r);
      })

    -- `Eip2930Transaction::rlp_decode`
    unfoldable pub decode_eip2930 : reader.Rlp → Outcome UnverifiedTransaction
    decode_eip2930 r = do
      n ← items_in r
      reject_if (not (n == 11)) bad_codec
      id ← val_at reader.as_u64 r 0
      nonce ← val_at reader.as_u256 r 1
      price ← val_at reader.as_u256 r 2
      limit ← val_at reader.as_u256 r 3
      action ← val_at reader.as_action r 4
      value ← val_at reader.as_u256 r 5
      input ← val_at reader.as_bytes r 6
      accesses ← decode_access_list r 7
      sig ← decode_signature r 8 none
      ok (record {
        unsigned = eip2930 (record {
          nonce = nonce;
          gas_price = price;
          gas_limit = limit;
          action = action;
          value = value;
          payload = input;
          access_list = accesses;
        });
        signature = some sig;
        chain_id = id;
        hash = ext.keccak (1 ∷ reader.as_raw r);
      })

    -- `Eip1559Transaction::rlp_decode`
    unfoldable pub decode_eip1559 : reader.Rlp → Outcome UnverifiedTransaction
    decode_eip1559 r = do
      n ← items_in r
      reject_if (not (n == 12)) bad_codec
      id ← val_at reader.as_u64 r 0
      nonce ← val_at reader.as_u256 r 1
      priority ← val_at reader.as_u256 r 2
      price ← val_at reader.as_u256 r 3
      limit ← val_at reader.as_u256 r 4
      action ← val_at reader.as_action r 5
      value ← val_at reader.as_u256 r 6
      input ← val_at reader.as_bytes r 7
      accesses ← decode_access_list r 8
      sig ← decode_signature r 9 none
      ok (record {
        unsigned = eip1559 (record {
          nonce = nonce;
          max_priority_fee_per_gas = priority;
          gas_price = price;
          gas_limit = limit;
          action = action;
          value = value;
          payload = input;
          access_list = accesses;
        });
        signature = some sig;
        chain_id = id;
        hash = ext.keccak (2 ∷ reader.as_raw r);
      })

    -- The test `header & 0x80` asks for the top bit of a byte; `raw[0]` panics on no bytes.
    unfoldable pub decode_raw : ℕ → reader.Rlp → Bytes → Outcome UnverifiedTransaction
    decode_raw chain r [] = panic
    decode_raw chain r (header ∷ rest) =
        if leb 0x80 header
        then decode_legacy chain r
        else if header == 1
        then decode_eip2930 (reader.view rest)
        else if header == 2
        then decode_eip1559 (reader.view rest)
        else Outcome.err bad_codec

    -- `Decodable for UnverifiedTransaction`
    unfoldable pub decode : ℕ → reader.Rlp → Outcome UnverifiedTransaction
    decode chain r = decode_raw chain r (reader.as_raw r)

    -- `Encodable for SignedTransaction`
    unfoldable pub signed_item : SignedTransaction → Item
    signed_item tx = bytes (rlp_bytes tx.transaction)

    -- `Decodable for SignedTransaction`
    unfoldable pub decode_signed : ℕ → reader.Rlp → Outcome SignedTransaction
    decode_signed chain r = do
      raw ← or_err (reader.payload r) bad_codec
      utx ← decode chain (reader.view raw)
      sig ← or_err utx.signature unsigned
      public ← or_err (ext.recover (signature_hash utx true) (as_bytes sig)) crypto
      ok (record { transaction = utx; sender = public_to_address public; public_key = some public })
