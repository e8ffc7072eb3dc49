-- ===== src/Storage/Coherence.antt =====
-- The invariant of crates/storage/src/lib.rs: caches against their tables, and the tables of blocks,
-- headers and numbers against one another.
use rt_evm.Common.{
  ℕ, ◌≡◌, Bytes, Hash, some, List, [], ◌∷◌, true, is_some, map_option, if◌then◌else◌, ◌==◌, arith,
}
use rt_evm.Model.Rlp.{Externals}
use rt_evm.Model.Transaction.{SignedTransaction}
use rt_evm.Model.Block.{Block, Header, block_hash}
use rt_evm.Model.Response.{Receipt}
use rt_evm.Store.Table.{Tables}
use rt_evm.Store.Cache.{Caches}
use rt_evm.Store.Cached.{write, read, Agrees, fresh-Agrees, write-Agrees, read-write, read-fresh}
use rt_evm.Storage.{
  FunStorage, Located, new, set_latest_block, set_block, insert_tx, insert_txs, insert_receipt,
  insert_receipts, insert_code,
}

module _ ⦃tables : Tables⦄ ⦃caches : Caches⦄ where
  pub record IsCoherent (s : FunStorage) : Type 0 where
    pub blocks : Agrees Block s.blocks
    pub block_numbers : Agrees ℕ s.block_numbers
    pub headers : Agrees Header s.headers
    pub transactions : Agrees Located s.transactions
    pub codes : Agrees Bytes s.codes
    pub codes_addr_to_hash : Agrees Hash s.codes_addr_to_hash
    pub receipts : Agrees Receipt s.receipts

  -- Blocks stand under their own numbers, their headers beside them, every number that a hash leads
  -- to has a block, and the latest block is stored.
  pub record IsLinked (s : FunStorage) : Type 0 where
    pub own_number : (n : ℕ) (b : Block) → read Block s.blocks n ≡ some b → b.header.number ≡ n
    pub header :
        (n : ℕ) → read Header s.headers n ≡ map_option (λ b. b.header) (read Block s.blocks n)
    pub numbered :
        (h n : ℕ) → read ℕ s.block_numbers h ≡ some n → is_some (read Block s.blocks n) ≡ true
    pub latest :
        (b : Block) → s.latest_block ≡ some b → read Block s.blocks b.header.number ≡ some b

  pub new-IsCoherent : IsCoherent new
  unfolding new
  new-IsCoherent = record {
    blocks = fresh-Agrees Block;
    block_numbers = fresh-Agrees ℕ;
    headers = fresh-Agrees Header;
    transactions = fresh-Agrees Located;
    codes = fresh-Agrees Bytes;
    codes_addr_to_hash = fresh-Agrees Hash;
    receipts = fresh-Agrees Receipt;
  }

  pub new-IsLinked : IsLinked new
  unfolding new
  new-IsLinked = record {
    own_number = λ n b h. cc (read-fresh Block n);
    header = λ n. rw (read-fresh Header n, read-fresh Block n);
    numbered = λ h n e. cc (read-fresh ℕ h);
    latest = λ b e. cc;
  }

  pub insert_tx-IsCoherent :
      (n : ℕ) (tx : SignedTransaction) (s : FunStorage)
      → IsCoherent s
      → IsCoherent (insert_tx s n tx)
  unfolding insert_tx
  insert_tx-IsCoherent n tx s c = record {
    blocks = c.blocks;
    block_numbers = c.block_numbers;
    headers = c.headers;
    transactions = write-Agrees Located s.transactions _ _ c.transactions;
    codes = c.codes;
    codes_addr_to_hash = c.codes_addr_to_hash;
    receipts = c.receipts;
  }

  pub insert_txs-IsCoherent :
      (n : ℕ) (txs : List SignedTransaction) (s : FunStorage)
      → IsCoherent s
      → IsCoherent (insert_txs s n txs)
  unfolding insert_txs
  insert_txs-IsCoherent n [] s c = c
  insert_txs-IsCoherent n (tx ∷ txs) s c =
      insert_txs-IsCoherent n txs (insert_tx s n tx) (insert_tx-IsCoherent n tx s c)

  pub insert_txs-IsLinked :
      (n : ℕ) (txs : List SignedTransaction) (s : FunStorage)
      → IsLinked s
      → IsLinked (insert_txs s n txs)
  unfolding insert_txs insert_tx
  insert_txs-IsLinked n [] s l = l
  insert_txs-IsLinked n (tx ∷ txs) s l = insert_txs-IsLinked n txs (insert_tx s n tx) (record {
    own_number = l.own_number;
    header = l.header;
    numbered = l.numbered;
    latest = l.latest;
  })

  insert_receipt-IsCoherent :
      (r : Receipt) (s : FunStorage) → IsCoherent s → IsCoherent (insert_receipt s r)
  unfolding insert_receipt
  insert_receipt-IsCoherent r s c = record {
    blocks = c.blocks;
    block_numbers = c.block_numbers;
    headers = c.headers;
    transactions = c.transactions;
    codes = c.codes;
    codes_addr_to_hash = c.codes_addr_to_hash;
    receipts = write-Agrees Receipt s.receipts _ _ c.receipts;
  }

  pub insert_receipts-IsCoherent :
      (n : ℕ) (rs : List Receipt) (s : FunStorage)
      → IsCoherent s
      → IsCoherent (insert_receipts s n rs)
  unfolding insert_receipts
  insert_receipts-IsCoherent n [] s c = c
  insert_receipts-IsCoherent n (r ∷ rs) s c =
      insert_receipts-IsCoherent n rs (insert_receipt s r) (insert_receipt-IsCoherent r s c)

  pub insert_receipts-IsLinked :
      (n : ℕ) (rs : List Receipt) (s : FunStorage) → IsLinked s → IsLinked (insert_receipts s n rs)
  unfolding insert_receipts insert_receipt
  insert_receipts-IsLinked n [] s l = l
  insert_receipts-IsLinked n (r ∷ rs) s l =
      insert_receipts-IsLinked n rs (insert_receipt s r) (record {
        own_number = l.own_number;
        header = l.header;
        numbered = l.numbered;
        latest = l.latest;
      })

  pub insert_code-IsCoherent :
      (s : FunStorage) (addr h : Hash) (code : Bytes)
      → IsCoherent s
      → IsCoherent (insert_code s addr h code)
  unfolding insert_code
  insert_code-IsCoherent s addr h code c = record {
    blocks = c.blocks;
    block_numbers = c.block_numbers;
    headers = c.headers;
    transactions = c.transactions;
    codes = write-Agrees Bytes s.codes _ _ c.codes;
    codes_addr_to_hash = write-Agrees Hash s.codes_addr_to_hash _ _ c.codes_addr_to_hash;
    receipts = c.receipts;
  }

  module _ ⦃ext : Externals⦄ where
    pub set_block-IsCoherent :
        (s : FunStorage) (b : Block) → IsCoherent s → IsCoherent (set_block s b)
    unfolding set_block set_latest_block
    set_block-IsCoherent s b c = record {
      blocks = write-Agrees Block s.blocks _ _ c.blocks;
      block_numbers = write-Agrees ℕ s.block_numbers _ _ c.block_numbers;
      headers = write-Agrees Header s.headers _ _ c.headers;
      transactions = c.transactions;
      codes = c.codes;
      codes_addr_to_hash = c.codes_addr_to_hash;
      receipts = c.receipts;
    }

    pub set_block-IsLinked :
        (s : FunStorage) (b : Block) → IsCoherent s → IsLinked s → IsLinked (set_block s b)
    unfolding set_block set_latest_block
    set_block-IsLinked s b c l = record {
      own_number = λ n d h. ground (arith, block n, l.own_number n d);
      header = λ n.
          ground (arith, block n, read-write Header s.headers k b.header n c.headers, l.header n);
      numbered = λ h n p. ground (
        arith,
        block n,
        read-write ℕ s.block_numbers (block_hash b) k h c.block_numbers,
        l.numbered h n,
      );
      latest = λ d p. ground (arith, block d.header.number);
    }
      where
        k : ℕ
        k = b.header.number

        block :
            (n : ℕ)
            → read Block (write Block s.blocks k b) n
              ≡ (if k == n then some b else read Block s.blocks n)
        block n = read-write Block s.blocks k b n c.blocks
