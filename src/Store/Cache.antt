-- ===== src/Store/Cache.antt =====
-- `moka::sync::Cache`: a map that may drop any entry at any time. All that is known after an insert
-- is that an entry found is the one inserted, or one that was there before.
use rt_evm.Common.{ℕ, ◌≡◌, Option, none, some, if◌then◌else◌, ◌==◌}

pub record Caches : Type 1 where
  pub Cache : Type 0 → Type 0
  pub empty : (V : Type 0) → Cache V
  pub get : (V : Type 0) → Cache V → ℕ → Option V
  pub insert : (V : Type 0) → Cache V → ℕ → V → Cache V
  pub get-empty : (V : Type 0) (k : ℕ) → get V (empty V) k ≡ none
  pub get-insert :
      (V : Type 0) (c : Cache V) (k : ℕ) (v : V) (j : ℕ) (w : V)
      → get V (insert V c k v) j ≡ some w
      → (if k == j then some v else get V c j) ≡ some w
