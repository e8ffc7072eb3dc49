-- ===== src/Storage/History.antt =====
-- Histories of the storage: any sequence of its writes, with caches that drop entries in between.
use rt_evm.Common.{ℕ, ◌≡◌, ap, sym, ◌∙◌, Bytes, Hash, some, List, map_option}
use rt_evm.Model.Rlp.{Externals}
use rt_evm.Model.Transaction.{SignedTransaction}
use rt_evm.Model.Block.{Block, Header}
use rt_evm.Model.Response.{Receipt}
use rt_evm.Store.Table.{Tables}
use rt_evm.Store.Cache.{Caches}
use rt_evm.Store.Cached.{Cached, read, Agrees, read-Agrees}
use rt_evm.Storage.Coherence.{
  IsCoherent, IsLinked, new-IsCoherent, new-IsLinked, insert_txs-IsCoherent, insert_txs-IsLinked,
  insert_receipts-IsCoherent, insert_receipts-IsLinked, insert_code-IsCoherent,
  set_block-IsCoherent, set_block-IsLinked,
}
use rt_evm.Storage.{FunStorage, Located, new, set_block, insert_txs, insert_receipts, insert_code}

module _ ⦃tables : Tables⦄ ⦃caches : Caches⦄ where
  -- Any cache may drop entries at any time; the tables and the latest block stay.
  abbrev Drops : (V : Type 0) → Cached V → Cached V → Type 0
  Drops V c d =
      (d.table ≡ c.table)
      × ((k : ℕ) (v : V) → caches.get V d.cache k ≡ some v → caches.get V c.cache k ≡ some v)

  pub record Evicts (s t : FunStorage) : Type 0 where
    pub blocks : Drops Block s.blocks t.blocks
    pub block_numbers : Drops ℕ s.block_numbers t.block_numbers
    pub headers : Drops Header s.headers t.headers
    pub transactions : Drops Located s.transactions t.transactions
    pub codes : Drops Bytes s.codes t.codes
    pub codes_addr_to_hash : Drops Hash s.codes_addr_to_hash t.codes_addr_to_hash
    pub receipts : Drops Receipt s.receipts t.receipts
    pub latest : t.latest_block ≡ s.latest_block

  Drops-Agrees : (V : Type 0) (c d : Cached V) → Drops V c d → Agrees V c → Agrees V d
  Drops-Agrees V c d (same, fewer) a k v h = rw same (a k v (fewer k v h))

  Drops-read :
      (V : Type 0) (c d : Cached V) (k : ℕ) → Drops V c d → Agrees V c → read V d k ≡ read V c k
  Drops-read V c d k drop a =
      read-Agrees V d k (Drops-Agrees V c d drop a)
      ∙ ap (λ t. tables.get V t k) drop.0
      ∙ sym (read-Agrees V c k a)

  Evicts-IsCoherent : (s t : FunStorage) → Evicts s t → IsCoherent s → IsCoherent t
  Evicts-IsCoherent s t e c = record {
    blocks = Drops-Agrees Block s.blocks t.blocks e.blocks c.blocks;
    block_numbers = Drops-Agrees ℕ s.block_numbers t.block_numbers e.block_numbers c.block_numbers;
    headers = Drops-Agrees Header s.headers t.headers e.headers c.headers;
    transactions = Drops-Agrees Located s.transactions t.transactions e.transactions c.transactions;
    codes = Drops-Agrees Bytes s.codes t.codes e.codes c.codes;
    codes_addr_to_hash =
        Drops-Agrees Hash s.codes_addr_to_hash t.codes_addr_to_hash e.codes_addr_to_hash
          c.codes_addr_to_hash;
    receipts = Drops-Agrees Receipt s.receipts t.receipts e.receipts c.receipts;
  }

  Evicts-IsLinked : (s t : FunStorage) → Evicts s t → IsCoherent s → IsLinked s → IsLinked t
  Evicts-IsLinked s t e c l = record {
    own_number = λ n b h. l.own_number n b (sym (block n) ∙ h);
    header = λ n.
        Drops-read Header s.headers t.headers n e.headers c.headers
        ∙ l.header n
        ∙ ap (map_option (λ b. b.header)) (sym (block n));
    numbered = λ h n p. rw (block n) (
        l.numbered h n (
          sym (Drops-read ℕ s.block_numbers t.block_numbers h e.block_numbers c.block_numbers)
          ∙ p));
    latest = λ b p. block _ ∙ l.latest b (sym e.latest ∙ p);
  }
    where
      block : (n : ℕ) → read Block t.blocks n ≡ read Block s.blocks n
      block n = Drops-read Block s.blocks t.blocks n e.blocks c.blocks

  module _ ⦃ext : Externals⦄ where
    -- One write of the storage, or an eviction.
    pub data Step (s : FunStorage) : FunStorage → Type 0 where
      sets_block : (b : Block) → Step s (set_block s b)
      inserts_txs : (n : ℕ) (txs : List SignedTransaction) → Step s (insert_txs s n txs)
      inserts_receipts : (n : ℕ) (rs : List Receipt) → Step s (insert_receipts s n rs)
      inserts_code : (addr h : Hash) (code : Bytes) → Step s (insert_code s addr h code)
      evicts : {t : FunStorage} → Evicts s t → Step s t

    pub data Reach : FunStorage → Type 0 where
      starts : Reach new
      steps : {s t : FunStorage} → Reach s → Step s t → Reach t

    Step-keeps :
        {s t : FunStorage} → Step s t → IsCoherent s → IsLinked s → IsCoherent t × IsLinked t
    Step-keeps {s} (sets_block b) c l = (set_block-IsCoherent s b c, set_block-IsLinked s b c l)
    Step-keeps {s} (inserts_txs n txs) c l =
        (insert_txs-IsCoherent n txs s c, insert_txs-IsLinked n txs s l)
    Step-keeps {s} (inserts_receipts n rs) c l =
        (insert_receipts-IsCoherent n rs s c, insert_receipts-IsLinked n rs s l)
    Step-keeps {s} (inserts_code addr h code) c l = (
      insert_code-IsCoherent s addr h code c,
      unfold insert_code in
          record {
            own_number = l.own_number;
            header = l.header;
            numbered = l.numbered;
            latest = l.latest;
          },
    )
    Step-keeps {s} (evicts {t} e) c l = (Evicts-IsCoherent s t e c, Evicts-IsLinked s t e c l)

    -- After any history of writes and evictions the caches agree with the tables, and the tables of
    -- blocks, headers, numbers and the latest block with one another.
    pub Reach-keeps : {s : FunStorage} → Reach s → IsCoherent s × IsLinked s
    Reach-keeps starts = (new-IsCoherent, new-IsLinked)
    Reach-keeps (steps r st) = let (c, l) = Reach-keeps r in Step-keeps st c l
