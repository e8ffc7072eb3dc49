-- ===== src/Store/Table.antt =====
-- `MapxOrd` and `MapxRaw` of the crate vsdb: a table is a map that forgets nothing. Keys are
-- numbers: block numbers, and hashes as the numbers that they are.
use rt_evm.Common.{ℕ, ◌≡◌, Option, none, some, if◌then◌else◌, ◌==◌}

pub record Tables : Type 1 where
  pub Table : Type 0 → Type 0
  pub empty : (V : Type 0) → Table V
  pub get : (V : Type 0) → Table V → ℕ → Option V
  pub insert : (V : Type 0) → Table V → ℕ → V → Table V
  -- the entry with the largest key
  pub last : (V : Type 0) → Table V → Option (ℕ × V)
  pub get-empty : (V : Type 0) (k : ℕ) → get V (empty V) k ≡ none
  pub get-insert :
      (V : Type 0) (t : Table V) (k : ℕ) (v : V) (j : ℕ)
      → get V (insert V t k v) j ≡ (if k == j then some v else get V t j)
  pub last-empty : (V : Type 0) → last V (empty V) ≡ none
  pub get-last :
      (V : Type 0) (t : Table V) (k : ℕ) (v : V) → last V t ≡ some (k, v) → get V t k ≡ some v
