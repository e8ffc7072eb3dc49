-- ===== src/Runtime/Restart.antt =====
-- A node that was created is restored from its files.
use rt_evm.Common.{
  ℕ, ◌<◌, ◌^◌, ◌≡◌, ◌≢◌, refl, sym, subst, ap, ◌∙◌, [], Bytes, none, some, List, arith, Hash, to_be,
  from_big_endian, from_be-to_be,
}
use rt_evm.Common.Outcome.{
  ok, or_err, or_err-eq-ok, >>=-eq-ok, ok-injective, write_failed, bad_codec,
}
use rt_evm.Model.Rlp.{Externals}
use rt_evm.Model.Block.{Block, Header}
use rt_evm.Model.Response.{Receipt}
use rt_evm.Store.Table.{Tables}
use rt_evm.Store.Cache.{Caches}
use rt_evm.Store.Cached.{Cached}
use rt_evm.Store.Trie.{Tries}
use rt_evm.Storage.{FunStorage, Located}
use rt_evm.Storage
use rt_evm.Common.Map.{values}
use rt_evm.Executor.Adapter.{new as new_backend}
use rt_evm.Runtime.{
  TokenDistributon, MetaPath, chain_id, trie_db, storage, contents, Files, EvmRuntime, new, genesis,
  collect, apply_grants, default_context, save, restored, create, restore, restore_or_create,
}

module _ ⦃tries : Tries⦄ ⦃tables : Tables⦄ ⦃caches : Caches⦄ where
  abbrev dropped : (V : Type 0) → Cached V → Cached V
  dropped V c = record { table = c.table; cache = caches.empty V }

  -- The storage that a handle opens: the tables are there, the caches are empty.
  abbrev pub reopen : FunStorage → FunStorage
  reopen s = record {
    blocks = dropped Block s.blocks;
    block_numbers = dropped ℕ s.block_numbers;
    headers = dropped Header s.headers;
    transactions = dropped Located s.transactions;
    codes = dropped Bytes s.codes;
    codes_addr_to_hash = dropped Hash s.codes_addr_to_hash;
    receipts = dropped Receipt s.receipts;
    latest_block = none;
  }

  -- What is read back from files and from the bytes of handles.
  pub record FilesLaws (files : Files) : Type 1 where
    pub read-write :
        (d d' : files.Disk) (f : MetaPath) (bs : Bytes)
        → files.write d f bs ≡ some d'
        → files.read d' f ≡ contents bs
    pub read-write_other :
        (d d' : files.Disk) (f g : MetaPath) (bs : Bytes)
        → files.write d f bs ≡ some d'
        → f ≢ g
        → files.read d' g ≡ files.read d g

  -- The bytes of the handles of `t` and `s` open what they were made from.
  pub record HandleLaws (files : Files) (t : tries.Store) (s : FunStorage) : Type 1 where
    pub trie_from-to :
        (bs : Bytes) → files.trie_to_bytes t ≡ some bs → files.trie_from_bytes bs ≡ some t
    pub storage_from-to :
        (bs : Bytes)
        → files.storage_to_bytes s ≡ some bs
        → files.storage_from_bytes bs ≡ some (reopen s)

  module _ ⦃ext : Externals⦄ ⦃files : Files⦄ (laws : FilesLaws files) where
    restored-contents :
        (indexer n : ℕ) (trie_bytes storage_bytes : Bytes) (t : tries.Store) (s : FunStorage)
        → n < 2 ^ 64
        → files.trie_from_bytes trie_bytes ≡ some t
        → files.storage_from_bytes storage_bytes ≡ some s
        → restored indexer (contents (to_be 8 n)) (contents trie_bytes) (contents storage_bytes)
          ≡ ok (some (new indexer n t s))
    restored-contents indexer n trie_bytes storage_bytes t s fits trie_back storage_back =
        let id_back : from_big_endian (to_be 8 n) ≡ n = from_be-to_be 8 n (omega (arith, fits)) in
        rw (trie_back, storage_back, id_back) refl

    restore-save :
        (r : EvmRuntime) (d d' : files.Disk) (indexer : ℕ)
        → r.chain_id < 2 ^ 64
        → HandleLaws files r.trie_db r.storage
        → save r d ≡ ok d'
        → restore indexer d' ≡ ok (some (new indexer r.chain_id r.trie_db (reopen r.storage)))
    unfolding save restore
    restore-save r d d' indexer fits handles saved =
        let (d1, w1, r1) =
          >>=-eq-ok (or_err (files.write d chain_id (to_be 8 r.chain_id)) write_failed) _ saved in
        let (trie, t1, r2) = >>=-eq-ok (or_err (files.trie_to_bytes r.trie_db) bad_codec) _ r1 in
        let (d2, w2, r3) = >>=-eq-ok (or_err (files.write d1 trie_db trie) write_failed) _ r2 in
        let (store, s1, w3) =
          >>=-eq-ok (or_err (files.storage_to_bytes r.storage) bad_codec) _ r3 in
        let id_written = or_err-eq-ok _ _ w1 in
        let trie_written = or_err-eq-ok _ _ w2 in
        let store_written = or_err-eq-ok _ _ w3 in
        let id_read : files.read d' chain_id ≡ contents (to_be 8 r.chain_id) =
          laws.read-write_other d2 d' storage chain_id store store_written (λ h. cc)
          ∙ laws.read-write_other d1 d2 trie_db chain_id trie trie_written (λ h. cc)
          ∙ laws.read-write d d1 chain_id _ id_written in
        let trie_read : files.read d' trie_db ≡ contents trie =
          laws.read-write_other d2 d' storage trie_db store store_written (λ h. cc)
          ∙ laws.read-write d1 d2 trie_db trie trie_written in
        let store_read = laws.read-write d2 d' storage store store_written in
        rw (id_read, trie_read, store_read)
          (restored-contents indexer r.chain_id trie store r.trie_db (reopen r.storage) fits
            (handles.trie_from-to trie (or_err-eq-ok _ _ t1))
            (handles.storage_from-to store (or_err-eq-ok _ _ s1)))

    genesis-chain_id :
        (indexer chain : ℕ) (t : tries.Store) (tds : List TokenDistributon) (r : EvmRuntime)
        → genesis indexer chain t tds ≡ ok r
        → r.chain_id ≡ chain
    unfolding genesis new
    genesis-chain_id indexer chain t tds r made =
        let (backend, opened, r1) = >>=-eq-ok (new_backend t Storage.new default_context) _ made in
        let (granted, applied, r2) =
          >>=-eq-ok (apply_grants backend (values (collect [] tds))) _ r1 in
        sym (ap (λ (x : EvmRuntime). x.chain_id) (ok-injective r2))

    -- What `create` returns is what it wrote: a restart finds the chain id, the trie store and the
    -- tables of the storage, with an empty pool and empty caches, and restore_or_create makes
    -- nothing new whatever chain id and balances it is given.
    pub restore-create :
        (indexer chain : ℕ) (t : tries.Store) (tds : List TokenDistributon) (d d' : files.Disk)
        (r : EvmRuntime) (again other : ℕ) (t' : tries.Store) (tds' : List TokenDistributon)
        → chain < 2 ^ 64
        → HandleLaws files r.trie_db r.storage
        → create indexer chain t tds d ≡ ok (r, d')
        → (restore again d' ≡ ok (some (new again chain r.trie_db (reopen r.storage))))
          × (restore_or_create again other t' tds' d'
              ≡ ok (new again chain r.trie_db (reopen r.storage), d'))
    unfolding create restore_or_create
    restore-create indexer chain t tds d d' r again other t' tds' fits handles created =
        let (r1, made, r2) = >>=-eq-ok (genesis indexer chain t tds) _ created in
        let (d1, saved, r3) = >>=-eq-ok (save r1 d) _ r2 in
        let same_runtime : r1 ≡ r = ap (λ p. p.0) (ok-injective r3) in
        let same_disk : d1 ≡ d' = ap (λ p. p.1) (ok-injective r3) in
        let saved_same : save r d ≡ ok d' = cc in
        let id : r.chain_id ≡ chain =
          ap (λ (x : EvmRuntime). x.chain_id) (sym same_runtime)
          ∙ genesis-chain_id indexer chain t tds r1 made in
        let back : restore again d' ≡ ok (some (new again chain r.trie_db (reopen r.storage))) =
          restore-save r d d' again (subst (λ n. n < 2 ^ 64) (sym id) fits) handles saved_same
          ∙ ap (λ n. ok (some (new again n r.trie_db (reopen r.storage)))) id in
        (back, rw back refl)
