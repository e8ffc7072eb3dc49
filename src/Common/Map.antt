-- ===== src/Common/Map.antt =====
-- `BTreeMap` and `HashMap` of the standard library, with numbers for keys: a list of entries in
-- ascending order of keys.
use rt_evm.Common.Logic.{ltb, ◌==◌, if◌then◌else◌}
use rt_evm.Common.Lists.{length}
use Prim.Native.Nat.{ℕ, suc, ◌≤◌, ◌<◌}
use mathlib.Core.Path.{◌∙◌, ap, ◌≡◌, refl}
use mathlib.Core.Option.{Option, none, some}
use mathlib.Core.List.{List, [], ◌∷◌}
use native.Mathlib.Omega.{arith}

abbrev pub Map {ℓ} : Type ℓ → Type ℓ
Map V = List (ℕ × V)

module _ {ℓ} {V : Type ℓ} where
  unfoldable pub lookup : ℕ → Map V → Option V
  lookup k [] = none
  lookup k ((j, v) ∷ m) = if j == k then some v else lookup k m

  unfoldable pub insert : ℕ → V → Map V → Map V
  insert k v [] = (k, v) ∷ []
  insert k v ((j, w) ∷ m) =
      if ltb k j then (k, v) ∷ (j, w) ∷ m else if j == k then (k, v) ∷ m else (j, w) ∷ insert k v m

  unfoldable pub remove : ℕ → Map V → Map V
  remove k [] = []
  remove k ((j, w) ∷ m) = if j == k then m else (j, w) ∷ remove k m

  -- The two parts that `split_off` makes: the keys below `k`, and the rest.
  unfoldable pub below : ℕ → Map V → Map V
  below k [] = []
  below k ((j, w) ∷ m) = if ltb j k then (j, w) ∷ below k m else below k m

  unfoldable pub at_least : ℕ → Map V → Map V
  at_least k [] = []
  at_least k ((j, w) ∷ m) = if ltb j k then at_least k m else (j, w) ∷ at_least k m

  -- All keys are at least `lo`, and they ascend.
  abbrev pub Ascends : ℕ → Map V → Type 0
  Ascends lo [] = Unit {0}
  Ascends lo ((j, w) ∷ m) = (lo ≤ j) × Ascends (suc j) m

  pub Ascends-mono : (lo hi : ℕ) (m : Map V) → lo ≤ hi → Ascends hi m → Ascends lo m
  Ascends-mono lo hi [] h a = tt
  Ascends-mono lo hi ((j, w) ∷ m) h a = (omega arith, a.1)

  pub lookup_below : (k lo : ℕ) (m : Map V) → Ascends lo m → k < lo → lookup k m ≡ none
  unfolding lookup
  lookup_below k lo [] a h = refl
  lookup_below k lo ((j, w) ∷ m) a h = ground (arith, lookup_below k (suc j) m a.1)

  pub lookup-insert :
      (at key : ℕ) (new : V) (entries : Map V)
      → lookup key (insert at new entries) ≡ (if at == key then some new else lookup key entries)
  unfolding insert lookup
  lookup-insert at key new [] = refl
  lookup-insert at key new (first ∷ rest) =
      let (i, w) = first in ground (lookup-insert at key new rest, arith)

  pub insert-Ascends :
      (k lo : ℕ) (v : V) (m : Map V) → lo ≤ k → Ascends lo m → Ascends lo (insert k v m)
  unfolding insert
  insert-Ascends k lo v [] h a = (h, tt)
  insert-Ascends k lo v ((j, w) ∷ m) h a = ground (arith, insert-Ascends k (suc j) v m)

  pub remove-Ascends : (k lo : ℕ) (m : Map V) → Ascends lo m → Ascends lo (remove k m)
  unfolding remove
  remove-Ascends k lo [] a = tt
  remove-Ascends k lo ((j, w) ∷ m) a =
      ground (arith, remove-Ascends k (suc j) m a.1, Ascends-mono lo (suc j) m)

  pub lookup-remove :
      (k j lo : ℕ) (m : Map V)
      → Ascends lo m
      → lookup j (remove k m) ≡ (if k == j then none else lookup j m)
  unfolding lookup remove
  lookup-remove k j lo [] a = ground arith
  lookup-remove k j lo ((i, w) ∷ m) a =
      ground (arith, lookup-remove k j (suc i) m a.1, lookup_below j (suc i) m a.1)

  pub at_least-Ascends : (k lo : ℕ) (m : Map V) → Ascends lo m → Ascends lo (at_least k m)
  unfolding at_least
  at_least-Ascends k lo [] a = tt
  at_least-Ascends k lo ((j, w) ∷ m) a =
      ground (arith, at_least-Ascends k (suc j) m a.1, Ascends-mono lo (suc j) (at_least k m))

  pub below-Ascends : (k lo : ℕ) (m : Map V) → Ascends lo m → Ascends lo (below k m)
  unfolding below
  below-Ascends k lo [] a = tt
  below-Ascends k lo ((j, w) ∷ m) a =
      ground (arith, below-Ascends k (suc j) m a.1, Ascends-mono lo (suc j) (below k m))

  pub lookup-below :
      (k j : ℕ) (m : Map V) → lookup j (below k m) ≡ (if ltb j k then lookup j m else none)
  unfolding lookup below
  lookup-below k j [] = ground arith
  lookup-below k j ((i, w) ∷ m) = ground (arith, lookup-below k j m)

  pub length-insert :
      (k : ℕ) (v : V) (m : Map V) → lookup k m ≡ none → length (insert k v m) ≡ suc (length m)
  unfolding lookup insert
  length-insert k v [] h = refl
  length-insert k v ((j, w) ∷ m) h = ground (arith, length-insert k v m)

module _ {ℓ} {V : Type ℓ} where
  -- `into_values`, in ascending order of keys
  unfoldable pub values : Map V → List V
  values [] = []
  values ((k, v) ∷ m) = v ∷ values m

  -- `pop_last`: the entry with the largest key
  unfoldable pub last : Map V → Option (ℕ × V)
  last [] = none
  last (e ∷ []) = some e
  last (e ∷ f ∷ m) = last (f ∷ m)

  pub length-values : (m : Map V) → length (values m) ≡ length m
  unfolding values
  length-values [] = refl
  length-values ((k, v) ∷ m) = ap suc (length-values m)

  pub length-remove-le : (k : ℕ) (m : Map V) → length (remove k m) ≤ length m
  unfolding remove
  length-remove-le k [] = omega arith
  length-remove-le k ((j, w) ∷ m) = ground (arith, length-remove-le k m)

  pub length-below-le : (k : ℕ) (m : Map V) → length (below k m) ≤ length m
  unfolding below
  length-below-le k [] = omega arith
  length-below-le k ((j, w) ∷ m) = ground (arith, length-below-le k m)

module _ {V : Type 0} where
  -- All keys are at most `b`.
  abbrev pub Under : ℕ → Map V → Type 0
  Under b [] = Unit {0}
  Under b ((j, w) ∷ m) = (j ≤ b) × Under b m

  below_all : (b k : ℕ) (m : Map V) → Under k m → k < b → below b m ≡ m
  unfolding below
  below_all b k [] u h = refl
  below_all b k ((j, w) ∷ m) u h = ground (arith, below_all b k m u.1)

  -- An entry whose key is none below the others is the last one, and a bound above it keeps all.
  pub below-insert_top :
      (b k : ℕ) (v : V) (m : Map V) → Under k m → k < b → below b (insert k v m) ≡ insert k v m
  unfolding below insert
  below-insert_top b k v [] u h = ground arith
  below-insert_top b k v ((j, w) ∷ m) u h =
      ground (arith, below-insert_top b k v m u.1, below_all b k m u.1)

  last_cons :
      (e : ℕ × V) (k : ℕ) (v : V) (m : Map V) → last (e ∷ insert k v m) ≡ last (insert k v m)
  unfolding insert last
  last_cons e k v [] = refl
  last_cons e k v ((j, w) ∷ m) = ground arith

  insert_after :
      (j k : ℕ) (v w : V) (m : Map V)
      → j < k
      → last (insert k v ((j, w) ∷ m)) ≡ last ((j, w) ∷ insert k v m)
  unfolding insert
  insert_after j k v w m h = ground arith

  pub last-insert_top :
      (lo k : ℕ) (v : V) (m : Map V) → Ascends lo m → Under k m → last (insert k v m) ≡ some (k, v)
  last-insert_top lo k v [] a u = unfold insert last in refl
  last-insert_top lo k v ((j, w) ∷ []) a u = unfold insert last in ground arith
  last-insert_top lo k v ((j, w) ∷ (i, x) ∷ m) a u =
      let later : j < k = omega arith in
      insert_after j k v w ((i, x) ∷ m) later
      ∙ last_cons (j, w) k v ((i, x) ∷ m)
      ∙ last-insert_top (suc j) k v ((i, x) ∷ m) a.1 u.1
