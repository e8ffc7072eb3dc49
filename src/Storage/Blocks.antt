-- ===== src/Storage/Blocks.antt =====
-- What the block getters return after `set_block`, and in any reachable storage.
use rt_evm.Common.{
  ℕ, ◌≡◌, refl, ap, ◌∙◌, Hash, Option, none, some, map_option, if◌then◌else◌, ◌==◌, arith, inl, inr,
  Option-cases,
}
use rt_evm.Common.Outcome.{ok}
use rt_evm.Model.Rlp.{Externals}
use rt_evm.Model.Block.{Block, Header, block_hash}
use rt_evm.Store.Table.{Tables}
use rt_evm.Store.Cache.{Caches}
use rt_evm.Store.Cached.{read, write, read-write, read-Agrees}
use rt_evm.Storage.{
  FunStorage, set_block, set_latest_block, get_block, get_block_header, get_block_by_hash, block_at,
  get_latest_block, get_latest_block_header,
}
use rt_evm.Storage.Coherence.{IsCoherent, IsLinked}
use rt_evm.Storage.History.{Reach, Reach-keeps}

module _ ⦃tables : Tables⦄ ⦃caches : Caches⦄ ⦃ext : Externals⦄ where
  -- After `set_block` the block is found by its number, by its hash and as the latest block, and so
  -- is its header; blocks and headers of other numbers are found as before.
  pub set_block_reads :
      (s : FunStorage) (b : Block) (n : ℕ)
      → IsCoherent s
      → (get_block (set_block s b) n
          ≡ (if b.header.number == n then ok (some b) else get_block s n))
        × (get_block_header (set_block s b) n
            ≡ (if b.header.number == n then ok (some b.header) else get_block_header s n))
        × (get_block_by_hash (set_block s b) (block_hash b) ≡ ok (some b))
        × (get_latest_block (set_block s b) ≡ ok b)
        × (get_latest_block_header (set_block s b) ≡ ok b.header)
  unfolding set_block set_latest_block get_block get_block_header get_block_by_hash block_at
      get_latest_block get_latest_block_header
  set_block_reads s b n c = (
    ground (arith, block n),
    ground (arith, read-write Header s.headers k b.header n c.headers),
    ground (arith, block k, read-write ℕ s.block_numbers h k h c.block_numbers),
    refl,
    refl,
  )
    where
      k : ℕ
      k = b.header.number

      h : Hash
      h = block_hash b

      block :
          (m : ℕ)
          → read Block (write Block s.blocks k b) m
            ≡ (if k == m then some b else read Block s.blocks m)
      block m = read-write Block s.blocks k b m c.blocks

  -- In a storage with any history, a lookup by hash never meets a number without a block.
  pub get_block_by_hash_total :
      (s : FunStorage) (h : Hash) → Reach s → (o : Option Block) × (get_block_by_hash s h ≡ ok o)
  unfolding get_block_by_hash block_at
  get_block_by_hash_total s h r = elim (Option-cases (read ℕ s.block_numbers h)) [
    | inl e ↦ (none, rw e)
    | inr (n, e) ↦ elim (Option-cases (read Block s.blocks n)) [
      | inl f ↦ absurd (ground (arith, (Reach-keeps r).1.numbered h n))
      | inr (b, f) ↦ (some b, rw (e, block_at, f))
    ]
  ]

  -- In a storage with any history, the latest block is also found under its own number, with its
  -- header, whether the latest block comes from the cache or from the end of the table.
  pub get_latest_block_stored :
      (s : FunStorage) (b : Block)
      → Reach s
      → get_latest_block s ≡ ok b
      → (get_block s b.header.number ≡ ok (some b))
        × (get_block_header s b.header.number ≡ ok (some b.header))
        × (get_latest_block_header s ≡ ok b.header)
  unfolding get_block get_block_header get_latest_block_header
  get_latest_block_stored s b r e =
      (ap ok found, ap ok (l.header b.header.number ∙ ap (map_option (λ d. d.header)) found), rw e)
    where
      c : IsCoherent s
      c = (Reach-keeps r).0

      l : IsLinked s
      l = (Reach-keeps r).1

      from_table :
          (k : ℕ) (d : Block)
          → tables.last Block s.blocks.table ≡ some (k, d)
          → d ≡ b
          → read Block s.blocks b.header.number ≡ some b
      from_table k d p same =
          let at_k : read Block s.blocks k ≡ some d =
            read-Agrees Block s.blocks k c.blocks ∙ tables.get-last Block s.blocks.table k d p in
          ground (arith, at_k, l.own_number k d at_k)

      found : read Block s.blocks b.header.number ≡ some b
      found = elim (Option-cases s.latest_block) [
        | inr (d, p) ↦ unfold get_latest_block in ground (arith, l.latest d p)
        | inl p ↦ elim (Option-cases (tables.last Block s.blocks.table)) [
          | inl q ↦ absurd (unfold get_latest_block in ground arith)
          | inr ((k, d), q) ↦ from_table k d q (unfold get_latest_block in ground arith)
        ]
      ]
