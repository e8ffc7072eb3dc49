-- ===== src/Model/Transaction/Parts.antt =====
-- Reading back the parts of an encoded transaction: items, access lists and signatures, of
-- crates/model/src/codec/transaction.rs.
use rt_evm.Common.{
  ℕ, suc, ◌^◌, ◌<◌, ◌≤◌, ◌≡◌, refl, sym, Bytes, none, some, [], ◌∷◌, leb, le→leb, length, All,
  from_be, from_big_endian, subst, Bool-cases, inl, inr,
}
use rt_evm.Common.Outcome.{ok}
use rt_evm.Model.Rlp.{
  Externals, Items, num, bytes, address, hash, begin_list, nil, append, each, count,
}
use rt_evm.Model.Reader.{
  Reader, ReaderLaws, item_at, val_at, val_at-item, items_in-list, rlp_at-item,
}
use rt_evm.Model.Transaction.{AccessListItem, AccessList, SignatureComponents, extract_standard_v}
use rt_evm.Model.Transaction.Encode.{signature_items, access_item, truncate_slice}
use rt_evm.Model.Transaction.Decode.{
  decode_signature, eth_signature, raw_signature, access_at, access_from, decode_access_list,
}
use rt_evm.Model.Transaction.Hashing.{count-each}
use rt_evm.Model.Transaction.Fits.{
  AccessFits, SignatureFits, skip, item_at-skip, skip-suc, word_bytes, truncate_slice_whole,
}

module _ ⦃ext : Externals⦄ ⦃reader : Reader⦄ (laws : ReaderLaws ext reader) where
  access_at-item :
      (n : ℕ) (is : Items) (i : ℕ) (a : AccessListItem)
      → count is ≡ n
      → item_at is i ≡ some (access_item a)
      → AccessFits a
      → access_at (reader.view (ext.out (begin_list n is))) i ≡ ok a
  unfolding access_item
  access_at-item n is i a counted found fits =
      let keys = begin_list (length a.storage_keys) (each hash a.storage_keys) in
      let parts : Items = append (address a.address) (append keys nil) in
      rw
        (
          rlp_at-item laws n is i (begin_list 2 parts) counted found,
          items_in-list laws 2 parts refl,
          val_at-item laws reader.as_address 2 parts 0 (address a.address) a.address refl refl
              (laws.address-address a.address fits.0),
          val_at-item laws reader.as_hashes 2 parts 1 keys a.storage_keys refl refl (
              laws.hashes-list (length a.storage_keys) a.storage_keys fits.1
                (sym (count-each hash a.storage_keys))),
        )
        refl

  access_from-each :
      (n : ℕ) (is : Items) (i : ℕ) (xs : AccessList)
      → count is ≡ n
      → skip i is ≡ each access_item xs
      → All AccessFits xs
      → access_from (reader.view (ext.out (begin_list n is))) i (length xs) ≡ ok xs
  unfolding access_from
  access_from-each n is i [] counted rest fits = refl
  access_from-each n is i (a ∷ xs) counted rest fits =
      rw
        (
          access_at-item n is i a counted
              (item_at-skip i is (access_item a) (each access_item xs) rest) fits.0,
          access_from-each n is (suc i) xs counted
              (skip-suc i is (access_item a) (each access_item xs) rest) fits.1,
        )
        refl

  pub decode_access_list-item :
      (n : ℕ) (is : Items) (i : ℕ) (xs : AccessList)
      → count is ≡ n
      → item_at is i ≡ some (begin_list (length xs) (each access_item xs))
      → All AccessFits xs
      → decode_access_list (reader.view (ext.out (begin_list n is))) i ≡ ok xs
  unfolding decode_access_list
  decode_access_list-item n is i xs counted found fits =
      rw
        (
          rlp_at-item laws n is i (begin_list (length xs) (each access_item xs)) counted found,
          items_in-list laws (length xs) (each access_item xs) (sym (count-each access_item xs)),
          access_from-each (length xs) (each access_item xs) 0 xs (sym (count-each access_item xs))
              refl fits,
        )
        refl

  -- A number of 32 bytes, as it stands in a signature.
  word_at :
      (n : ℕ) (is : Items) (i : ℕ) (bs : Bytes)
      → count is ≡ n
      → item_at is i ≡ some (num (from_big_endian (truncate_slice bs 32)))
      → length bs ≡ 32
      → All (λ b. b < 256) bs
      → val_at reader.as_u256 (reader.view (ext.out (begin_list n is))) i ≡ ok (from_be 0 bs)
  word_at n is i bs counted found size all =
      let (small, _) = word_bytes bs size all in
      val_at-item laws reader.as_u256 n is i (num (from_be 0 bs)) (from_be 0 bs) counted
        (subst (λ b. item_at is i ≡ some (num (from_be 0 b))) (truncate_slice_whole bs size) found)
        (laws.u256-num (from_be 0 bs) small)

  -- The branch for a recovery id of 0 or 1, over a legacy or a typed transaction.
  eth_signature-items :
      (n : ℕ) (is : Items) (o : ℕ) (sc : SignatureComponents)
      → count is ≡ n
      → SignatureFits sc
      → item_at is (suc o) ≡ some (num (from_big_endian (truncate_slice sc.r 32)))
      → item_at is (suc (suc o)) ≡ some (num (from_big_endian (truncate_slice sc.s 32)))
      → eth_signature (reader.view (ext.out (begin_list n is))) o sc.standard_v ≡ ok sc
  eth_signature-items n is o sc counted (nr, ns, br, bs) x y =
      rw
        (
          word_at n is (suc o) sc.r counted x nr br,
          word_at n is (suc (suc o)) sc.s counted y ns bs,
          (word_bytes sc.r nr br).1,
          (word_bytes sc.s ns bs).1,
        )
        refl

  raw_signature-items :
      (n : ℕ) (is : Items) (o : ℕ) (sc : SignatureComponents)
      → count is ≡ n
      → SignatureFits sc
      → item_at is (suc o) ≡ some (bytes sc.r)
      → item_at is (suc (suc o)) ≡ some (bytes sc.s)
      → raw_signature (reader.view (ext.out (begin_list n is))) o sc.standard_v ≡ ok sc
  raw_signature-items n is o sc counted (nr, ns, br, bs) x y =
      rw
        (
          val_at-item laws reader.as_bytes n is (suc o) (bytes sc.r) sc.r counted x
              (laws.bytes-bytes sc.r),
          val_at-item laws reader.as_bytes n is (suc (suc o)) (bytes sc.s) sc.s counted y
              (laws.bytes-bytes sc.s),
          nr,
          ns,
        )
        refl

  pub decode_signature-items :
      (n : ℕ) (is : Items) (o : ℕ) (sc : SignatureComponents)
      → count is ≡ n
      → SignatureFits sc
      → sc.standard_v < 2 ^ 8
      → skip o is ≡ signature_items sc
      → decode_signature (reader.view (ext.out (begin_list n is))) o none ≡ ok sc
  unfolding decode_signature signature_items
  decode_signature-items n is o sc counted fits small rest =
      elim (Bool-cases (leb sc.standard_v 1)) [
        | inl e ↦
            let x = num (from_big_endian (truncate_slice sc.r 32)) in
            let y = num (from_big_endian (truncate_slice sc.s 32)) in
            let rest0 : skip o is ≡ append (num sc.standard_v) (append x (append y nil)) =
              rw (rest, e) refl in
            let rest1 = skip-suc o is (num sc.standard_v) (append x (append y nil)) rest0 in
            let rest2 = skip-suc (suc o) is x (append y nil) rest1 in
            rw
              (
                val_at-item laws reader.as_u8 n is o (num sc.standard_v) sc.standard_v counted
                    (item_at-skip o is (num sc.standard_v) (append x (append y nil)) rest0)
                    (laws.u8-num sc.standard_v small),
                e,
              )
              (eth_signature-items n is o sc counted fits
                (item_at-skip (suc o) is x (append y nil) rest1)
                (item_at-skip (suc (suc o)) is y nil rest2))
        | inr e ↦
            let x = bytes sc.r in
            let y = bytes sc.s in
            let rest0 : skip o is ≡ append (num sc.standard_v) (append x (append y nil)) =
              rw (rest, e) refl in
            let rest1 = skip-suc o is (num sc.standard_v) (append x (append y nil)) rest0 in
            let rest2 = skip-suc (suc o) is x (append y nil) rest1 in
            rw
              (
                val_at-item laws reader.as_u8 n is o (num sc.standard_v) sc.standard_v counted
                    (item_at-skip o is (num sc.standard_v) (append x (append y nil)) rest0)
                    (laws.u8-num sc.standard_v small),
                e,
              )
              (raw_signature-items n is o sc counted fits
                (item_at-skip (suc o) is x (append y nil) rest1)
                (item_at-skip (suc (suc o)) is y nil rest2))
      ]

  pub decode_signature_legacy :
      (n : ℕ) (is : Items) (o : ℕ) (sc : SignatureComponents) (v : ℕ)
      → count is ≡ n
      → SignatureFits sc
      → sc.standard_v ≤ 1
      → extract_standard_v v ≡ some sc.standard_v
      → item_at is (suc o) ≡ some (num (from_big_endian (truncate_slice sc.r 32)))
      → item_at is (suc (suc o)) ≡ some (num (from_big_endian (truncate_slice sc.s 32)))
      → decode_signature (reader.view (ext.out (begin_list n is))) o (some v) ≡ ok sc
  unfolding decode_signature
  decode_signature_legacy n is o sc v counted fits small parity x y =
      rw (parity, le→leb sc.standard_v 1 small) (eth_signature-items n is o sc counted fits x y)
