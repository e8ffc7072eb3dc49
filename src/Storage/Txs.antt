-- ===== src/Storage/Txs.antt =====
-- Transactions, receipts and codes of crates/storage/src/lib.rs: reads after insertions, and the
-- batch limit.
use rt_evm.Common.{
  ℕ, ◌≤◌, ◌<◌, ◌≡◌, ◌≢◌, refl, ◌∙◌, Hash, Bytes, Option, none, some, List, [], ◌∷◌, map,
  if◌then◌else◌, ◌==◌, ==_refl, ltb, length, arith, inl, inr, All, ne→==, le→ltb, ltb→lt, ltb→le,
  length-map, Bool-cases, ◌⊎◌, ==→eq,
}
use rt_evm.Common.Outcome.{ok, err, request_too_large}
use rt_evm.Model.Transaction.{SignedTransaction}
use rt_evm.Model.Block.{Block}
use rt_evm.Model.Response.{Receipt}
use rt_evm.Store.Table.{Tables}
use rt_evm.Store.Cache.{Caches}
use rt_evm.Store.Cached.{read, write, read-write}
use rt_evm.Storage.{
  FunStorage, Located, batch_limit, insert_tx, insert_txs, get_txs, get_txs_unlimited, tx_in_block,
  unwrap_txs, fat_of, get_fatblock, get_block, insert_code, get_code_by_hash, get_code_by_address,
  code_at, get_receipts, receipt_in_block,
}
use rt_evm.Storage.Coherence.{IsCoherent, insert_tx-IsCoherent}

abbrev pub hash_of : SignedTransaction → Hash
hash_of tx = tx.transaction.hash

-- No two of the transactions have one hash.
abbrev pub Distinct : List SignedTransaction → Type 0
Distinct [] = Unit {0}
Distinct (tx ∷ txs) = All (λ u. hash_of u ≢ hash_of tx) txs × Distinct txs

-- No receipt, or one of block `n`.
abbrev pub InBlock : ℕ → Option Receipt → Type 0
InBlock n none = Unit {0}
InBlock n (some r) = r.block_number ≡ n

module _ ⦃tables : Tables⦄ ⦃caches : Caches⦄ where
  read-insert_tx :
      (n : ℕ) (tx : SignedTransaction) (s : FunStorage) (h : Hash)
      → IsCoherent s
      → read Located (insert_tx s n tx).transactions h
        ≡ (if hash_of tx == h then some (n, tx) else read Located s.transactions h)
  unfolding insert_tx
  read-insert_tx n tx s h c =
      read-write Located s.transactions (hash_of tx) (n, tx) h c.transactions

  read-insert_txs_other :
      (n : ℕ) (txs : List SignedTransaction) (s : FunStorage) (h : Hash)
      → IsCoherent s
      → All (λ u. hash_of u ≢ h) txs
      → read Located (insert_txs s n txs).transactions h ≡ read Located s.transactions h
  unfolding insert_txs
  read-insert_txs_other n [] s h c apart = refl
  read-insert_txs_other n (tx ∷ txs) s h c (ne, apart) =
      read-insert_txs_other n txs (insert_tx s n tx) h (insert_tx-IsCoherent n tx s c) apart
      ∙ read-insert_tx n tx s h c
      ∙ rw (ne→== _ _ ne)

  -- The transactions of a block are read back by their hashes, in order.
  get_txs_unlimited-insert_txs :
      (n : ℕ) (txs : List SignedTransaction) (s : FunStorage)
      → IsCoherent s
      → Distinct txs
      → get_txs_unlimited (insert_txs s n txs) (map hash_of txs) ≡ map (λ tx. some (n, tx)) txs
  unfolding get_txs_unlimited insert_txs
  get_txs_unlimited-insert_txs n [] s c d = refl
  get_txs_unlimited-insert_txs n (tx ∷ txs) s c (apart, d) =
      let kept = insert_tx-IsCoherent n tx s c in
      let head : read Located (insert_txs (insert_tx s n tx) n txs).transactions (hash_of tx)
          ≡ some (n, tx) =
        read-insert_txs_other n txs (insert_tx s n tx) (hash_of tx) kept apart
        ∙ read-insert_tx n tx s (hash_of tx) c
        ∙ rw (==_refl (hash_of tx)) in
      rw (head, get_txs_unlimited-insert_txs n txs (insert_tx s n tx) kept d)

  unwrap_txs-some :
      (n : ℕ) (txs : List SignedTransaction) → unwrap_txs (map (λ tx. some (n, tx)) txs) ≡ ok txs
  unfolding unwrap_txs
  unwrap_txs-some n [] = refl
  unwrap_txs-some n (tx ∷ txs) = rw (unwrap_txs-some n txs)

  map-tx_in_block :
      (n : ℕ) (txs : List SignedTransaction)
      → map (tx_in_block n) (map (λ tx. some (n, tx)) txs) ≡ map some txs
  map-tx_in_block n [] = refl
  map-tx_in_block n (tx ∷ txs) = rw (==_refl n, map-tx_in_block n txs)

  insert_txs_blocks :
      (n m : ℕ) (txs : List SignedTransaction) (s : FunStorage)
      → get_block (insert_txs s n txs) m ≡ get_block s m
  unfolding get_block insert_txs insert_tx
  insert_txs_blocks n m [] s = refl
  insert_txs_blocks n m (tx ∷ txs) s = insert_txs_blocks n m txs (insert_tx s n tx)

  -- Transactions with distinct hashes, inserted for a stored block that lists their hashes, come
  -- back in order as the full block; a request for them by the block's number returns them all, and
  -- a request for them under another number none.
  pub get_fatblock-insert_txs :
      (s : FunStorage) (b : Block) (txs : List SignedTransaction)
      → IsCoherent s
      → get_block s b.header.number ≡ ok (some b)
      → b.tx_hashes ≡ map hash_of txs
      → Distinct txs
      → length b.tx_hashes ≤ batch_limit
      → (get_fatblock (insert_txs s b.header.number txs) b.header.number
          ≡ ok (some (record { block = b; txs = txs })))
        × (get_txs (insert_txs s b.header.number txs) b.header.number b.tx_hashes
            ≡ ok (map some txs))
  unfolding get_fatblock fat_of get_txs
  get_fatblock-insert_txs s b txs c stored listed d small =
      let all = get_txs_unlimited-insert_txs b.header.number txs s c d in
      (
        rw (
          insert_txs_blocks b.header.number b.header.number txs s,
          stored,
          fat_of,
          listed,
          all,
          unwrap_txs-some b.header.number txs,
        ),
        rw (
          le→ltb batch_limit (length b.tx_hashes) small,
          listed,
          all,
          map-tx_in_block b.header.number txs,
        ),
      )

  receipt_in_block-InBlock : (n : ℕ) (o : Option Receipt) → InBlock n (receipt_in_block n o)
  receipt_in_block-InBlock n none = tt
  receipt_in_block-InBlock n (some r) = elim (Bool-cases (r.block_number == n)) [
    | inl e ↦ rw e (==→eq r.block_number n e)
    | inr e ↦ rw e tt
  ]

  receipts-InBlock :
      (s : FunStorage) (n : ℕ) (ks : List Hash)
      → All (InBlock n) (map (λ k. receipt_in_block n (read Receipt s.receipts k)) ks)
  receipts-InBlock s n [] = tt
  receipts-InBlock s n (k ∷ ks) =
      (receipt_in_block-InBlock n (read Receipt s.receipts k), receipts-InBlock s n ks)

  -- A request for more than 1000 receipts is refused. Any other is answered, with one answer for
  -- each hash, and no answer is a receipt of another block.
  pub get_receipts_cases :
      (s : FunStorage) (n : ℕ) (hashes : List Hash)
      → ((batch_limit < length hashes) × (get_receipts s n hashes ≡ err request_too_large))
        ⊎ ((rs : List (Option Receipt)) × (length hashes ≤ batch_limit)
            × (get_receipts s n hashes ≡ ok rs)
            × (length rs ≡ length hashes)
            × All (InBlock n) rs)
  unfolding get_receipts
  get_receipts_cases s n hashes = elim (Bool-cases (ltb batch_limit (length hashes))) [
    | inl e ↦ inl (ltb→lt batch_limit (length hashes) e, rw e)
    | inr e ↦ inr (
      map (λ k. receipt_in_block n (read Receipt s.receipts k)) hashes,
      ltb→le batch_limit (length hashes) e,
      rw e,
      length-map _ hashes,
      receipts-InBlock s n hashes,
    )
  ]

  -- An inserted code is found under its hash and through its address; codes under other hashes are
  -- found as before.
  pub get_code-insert_code :
      (s : FunStorage) (addr h : Hash) (code : Bytes) (h' : Hash)
      → IsCoherent s
      → (get_code_by_address (insert_code s addr h code) addr ≡ ok (some code))
        × (get_code_by_hash (insert_code s addr h code) h'
            ≡ (if h == h' then ok (some code) else get_code_by_hash s h'))
  unfolding get_code_by_hash get_code_by_address insert_code code_at
  get_code-insert_code s addr h code h' c = (
    ground (arith, codes h, read-write Hash s.codes_addr_to_hash addr h addr c.codes_addr_to_hash),
    ground (arith, codes h'),
  )
    where
      codes :
          (k : Hash)
          → read Bytes (write Bytes s.codes h code) k
            ≡ (if h == k then some code else read Bytes s.codes k)
      codes k = read-write Bytes s.codes h code k c.codes
