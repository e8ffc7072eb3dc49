-- ===== src/Tests/Codecs.antt =====
-- Decoded transactions, receipts, results and proposals of the small world.
use rt_evm.Common.{◌≡◌, refl, Bytes, Option, none, some, false, [], ◌∷◌, arith}
use rt_evm.Common.Outcome.{ok, err, bad_codec}
use rt_evm.Model.Block.{Proposal, proposal_item}
use rt_evm.Model.Response.{ExitReason, Receipt, succeed, invalid_nonce_resp}
use rt_evm.Model.Codec.{
  Bcs, receipt_item, tx_resp_item, decode_proposal, decode_receipt, decode_tx_resp,
}
use rt_evm.Model.Codec.RoundTrip.{decode_receipt-receipt_item, decode-own_item}
use rt_evm.Model.Transaction.Encode.{
  encode, try_from, calc_hash, get_hash, rlp_bytes, public_to_address,
}
use rt_evm.Model.Transaction.Decode.{decode, decode_signed, signed_item}
use rt_evm.Model.Transaction.RoundTrip.{decode-encode, decode_signed-signed_item}
use rt_evm.Tests.World.{externals, payment, sig, sign}
use rt_evm.Tests.Decoding.{reader, reader_laws}

-- One exit reason has a code of its own.
abbrev reason_bytes : ExitReason → Bytes
reason_bytes (succeed r) = 1 ∷ []
reason_bytes e = []

abbrev reason_of : Bytes → Option ExitReason
reason_of [] = none
reason_of (b ∷ bs) = some (succeed "returned")

instance abbrev bcs : Bcs
bcs = record { to_bytes = reason_bytes; from_bytes = reason_of }

abbrev receipt : Receipt
receipt = record {
  tx_hash = 11;
  block_number = 4;
  block_hash = 12;
  tx_index = 0;
  state_root = 13;
  used_gas = 21_000;
  logs_bloom = 9;
  logs = record { address = 7; topics = 1 ∷ 2 ∷ []; payload = 3 ∷ [] } ∷ [];
  log_index = 1;
  code_address = some 5;
  sender = 1953;
  ret = succeed "returned";
  removed = false;
}

abbrev proposal : Proposal
proposal = record {
  prev_hash = 1;
  proposer = 2;
  transactions_root = 3;
  timestamp = 4;
  number = 5;
  gas_limit = 6;
  extra_data = [];
  mixed_hash = none;
  base_fee_per_gas = 7;
  chain_id = 152;
  tx_hashes = 8 ∷ 9 ∷ [];
}

decode-encode_example :
    decode 1 (encode (payment 5) 152 (some sig))
    ≡ ok (record {
      unsigned = payment 5;
      signature = some sig;
      chain_id = 152;
      hash = externals.keccak (encode (payment 5) 152 (some sig));
    })
decode-encode_example =
    decode-encode reader_laws 1 (payment 5) sig 152 (omega arith) (omega arith) (omega arith)

decode_signed-signed_item_example :
    decode_signed 1 (externals.out (signed_item (sign (payment 5)))) ≡ ok (sign (payment 5))
unfolding try_from public_to_address calc_hash get_hash encode rlp_bytes
decode_signed-signed_item_example =
    decode_signed-signed_item reader_laws 1 (payment 5) sig 152 0 (sign (payment 5)) refl
      (omega arith) (omega arith) (omega arith)

decode_receipt-receipt_item_example :
    decode_receipt (externals.out (receipt_item receipt)) ≡ ok receipt
decode_receipt-receipt_item_example =
    decode_receipt-receipt_item reader_laws receipt refl (omega arith)

decode-own_item_example :
    (decode_proposal 152 (externals.out (proposal_item proposal)) ≡ err bad_codec)
    × (decode_tx_resp (externals.out (tx_resp_item (invalid_nonce_resp 21_000 5))) ≡ err bad_codec)
decode-own_item_example =
    decode-own_item reader_laws 152 proposal
      (externals.out (tx_resp_item (invalid_nonce_resp 21_000 5)))
