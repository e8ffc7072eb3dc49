-- ===== src/Store/Cached.antt =====
-- A table behind a cache, the way every part of the storage is kept: a write goes to both, and a
-- read asks the cache first.
use rt_evm.Common.{
  ℕ, ◌≡◌, Option, none, some, or_else, if◌then◌else◌, ◌==◌, arith, Option-cases, inl, inr,
}
use rt_evm.Store.Table.{Tables}
use rt_evm.Store.Cache.{Caches}

module _ ⦃tables : Tables⦄ ⦃caches : Caches⦄ where
  open tables use {Table}
  open caches use {Cache}

  pub record Cached (V : Type 0) : Type 0 where
    pub table : Table V
    pub cache : Cache V

  unfoldable pub fresh : (V : Type 0) → Cached V
  fresh V = record { table = tables.empty V; cache = caches.empty V }

  -- `db.t.insert(&k, &v); self.cache.t.insert(k, v)`
  unfoldable pub write : (V : Type 0) → Cached V → ℕ → V → Cached V
  write V c k v = record {
    table = tables.insert V c.table k v;
    cache = caches.insert V c.cache k v;
  }

  -- `self.cache.t.get(&k).or_else(|| self.db.t.get(&k))`
  unfoldable pub read : (V : Type 0) → Cached V → ℕ → Option V
  read V c k = or_else (caches.get V c.cache k) (tables.get V c.table k)

  -- What the cache holds is what the table holds.
  abbrev pub Agrees : (V : Type 0) → Cached V → Type 0
  Agrees V c = (k : ℕ) (v : V) → caches.get V c.cache k ≡ some v → tables.get V c.table k ≡ some v

  pub fresh-Agrees : (V : Type 0) → Agrees V (fresh V)
  unfolding fresh
  fresh-Agrees V k v h = cc (caches.get-empty V k)

  pub write-Agrees :
      (V : Type 0) (c : Cached V) (k : ℕ) (v : V) → Agrees V c → Agrees V (write V c k v)
  unfolding write
  write-Agrees V c k v a j w h =
      ground
        (arith, tables.get-insert V c.table k v j, caches.get-insert V c.cache k v j w h, a j w)

  -- So a read is a read of the table, whatever the cache has dropped.
  pub read-Agrees :
      (V : Type 0) (c : Cached V) (k : ℕ) → Agrees V c → read V c k ≡ tables.get V c.table k
  unfolding read
  read-Agrees V c k a = elim (Option-cases (caches.get V c.cache k)) [
    | inl e ↦ rw e
    | inr (v, e) ↦ rw (e, a k v e)
  ]

  pub read-write :
      (V : Type 0) (c : Cached V) (k : ℕ) (v : V) (j : ℕ)
      → Agrees V c
      → read V (write V c k v) j ≡ (if k == j then some v else read V c j)
  read-write V c k v j a =
      rw (read-Agrees V (write V c k v) j (write-Agrees V c k v a), read-Agrees V c j a)
        (unfold write in tables.get-insert V c.table k v j)

  pub read-fresh : (V : Type 0) (k : ℕ) → read V (fresh V) k ≡ none
  unfolding read fresh
  read-fresh V k = rw (caches.get-empty V k, tables.get-empty V k)
