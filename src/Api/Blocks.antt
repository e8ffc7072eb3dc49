-- ===== src/Api/Blocks.antt =====
-- What the requests of a filter for blocks return.
use rt_evm.Common.{
  ℕ, zero, suc, ◌+◌, ◌-◌, ◌≤◌, ◌<◌, ◌≡◌, refl, inl, inr, Bool-cases, sym, ap, ◌∙◌, subst, arith,
  Hash, some, List, [], ◌∷◌, ◌++◌, map, leb, ==_refl,
}
use rt_evm.Common.Outcome.{ok}
use rt_evm.Common.Map.{lookup, insert, lookup-insert}
use rt_evm.Model.Rlp.{Externals}
use rt_evm.Model.Block.{Block, block_hash}
use rt_evm.Store.Table.{Tables}
use rt_evm.Store.Cache.{Caches}
use rt_evm.Storage.{FunStorage, get_block, get_latest_block}
use rt_evm.Api.Hub.{
  FilterHub, blocks, changes, filter_request, hashes_from, filter_block, impl_filter, handle,
}

-- The numbers from `n` on, `k` of them.
abbrev pub count_from : ℕ → ℕ → List ℕ
count_from n zero = []
count_from n (suc k) = n ∷ count_from (suc n) k

map-append {ℓ κ} :
    {A : Type ℓ} {B : Type κ} (f : A → B) (xs ys : List A) → map f (xs ++ ys) ≡ map f xs ++ map f ys
map-append f [] ys = refl
map-append f (x ∷ xs) ys = ap (◌∷◌ (f x)) (map-append f xs ys)

count_from-append : (n j k : ℕ) → count_from n (j + k) ≡ count_from n j ++ count_from (n + j) k
count_from-append n zero k =
    let same : n + 0 ≡ n = omega arith in
    let none_more : 0 + k ≡ k = omega arith in rw (same, none_more) refl
count_from-append n (suc j) k =
    let moved : suc n + j ≡ n + suc j = omega arith in
    let grown : suc j + k ≡ suc (j + k) = omega arith in
    rw grown (ap (◌∷◌ n) (count_from-append (suc n) j k ∙ rw moved refl))

-- What a function makes of the numbers after `a` up to `b`, taken in parts.
pub map-count_from-last {ℓ} :
    {B : Type ℓ} (f : ℕ → B) (a b : ℕ)
    → a < b
    → map f (count_from (suc a) (b - suc a)) ++ f b ∷ [] ≡ map f (count_from (suc a) (b - a))
map-count_from-last f a b h =
    let size : b - a ≡ b - suc a + 1 = omega arith in
    let top : suc a + (b - suc a) ≡ b = omega arith in
    rw (size, count_from-append (suc a) (b - suc a) 1, top)
      (sym (map-append f (count_from (suc a) (b - suc a)) (b ∷ [])))

pub map-count_from-append {ℓ} :
    {B : Type ℓ} (f : ℕ → B) (a b c : ℕ)
    → a ≤ b
    → b ≤ c
    → map f (count_from (suc a) (b - a)) ++ map f (count_from (suc b) (c - b))
      ≡ map f (count_from (suc a) (c - a))
map-count_from-append f a b c h k =
    let size : c - a ≡ b - a + (c - b) = omega arith in
    let top : suc a + (b - a) ≡ suc b = omega arith in
    rw (size, count_from-append (suc a) (b - a) (c - b), top)
      (sym (map-append f (count_from (suc a) (b - a)) (count_from (suc b) (c - b))))

module _ ⦃ext : Externals⦄ ⦃tables : Tables⦄ ⦃caches : Caches⦄ where
  -- The blocks below `bound` are stored, as a chain of theirs says.
  abbrev pub Holds : FunStorage → (ℕ → Block) → ℕ → Type 0
  Holds s chain bound = (n : ℕ) → n < bound → get_block s n ≡ ok (some (chain n))

  hashes_from-Holds :
      (s : FunStorage) (chain : ℕ → Block) (bound n k : ℕ)
      → Holds s chain bound
      → n + k ≤ bound
      → hashes_from s n k ≡ ok (map (λ m. block_hash (chain m)) (count_from n k))
  unfolding hashes_from
  hashes_from-Holds s chain bound n zero stored h = refl
  hashes_from-Holds s chain bound n (suc k) stored h =
      rw
        (
          stored n (omega (arith, h)),
          hashes_from-Holds s chain bound (suc n) k stored (omega (arith, h)),
        )
        refl

  -- The hashes of the blocks after `a` up to `b`, in order.
  abbrev pub hashes_between : (ℕ → Block) → ℕ → ℕ → List Hash
  hashes_between chain a b = map (λ m. block_hash (chain m)) (count_from (suc a) (b - a))

  hashes_between-last :
      (chain : ℕ → Block) (a b : ℕ)
      → a < b
      → map (λ m. block_hash (chain m)) (count_from (suc a) (b - suc a))
          ++ block_hash (chain b) ∷ []
        ≡ hashes_between chain a b
  hashes_between-last chain a b h = map-count_from-last (λ m. block_hash (chain m)) a b h

  hashes_between-append :
      (chain : ℕ → Block) (a b c : ℕ)
      → a ≤ b
      → b ≤ c
      → hashes_between chain a b ++ hashes_between chain b c ≡ hashes_between chain a c
  hashes_between-append chain a b c h k =
      map-count_from-append (λ m. block_hash (chain m)) a b c h k

  -- What a storage is to answer: its latest block is the last of a chain whose other blocks it has.
  abbrev pub Follows : FunStorage → (ℕ → Block) → ℕ → Type 0
  Follows s chain n =
      (get_latest_block s ≡ ok (chain n)) × ((chain n).header.number ≡ n) × Holds s chain n

  filter_request-range :
      (s : FunStorage) (chain : ℕ → Block) (now : ℕ) (hub : FilterHub) (id start time n : ℕ)
      → Follows s chain n
      → start ≤ n
      → lookup id hub.blocks_hub ≡ some (start, time)
      → (hub' : FilterHub) × (time' : ℕ) × (handle s now hub (filter_request id)
          ≡ ok (hub', changes (blocks (hashes_between chain start n))))
        × (lookup id hub'.blocks_hub ≡ some (n, time'))
  unfolding handle impl_filter filter_block
  filter_request-range s chain now hub id start time n (newest, number, stored) h found =
      elim (Bool-cases (leb n start)) [
        | inl e ↦
            let same : start ≡ n = ground (arith, e) in
            let nothing : n - start ≡ 0 = omega (arith, same) in
            (
              hub,
              time,
              rw (found, newest, number, e, nothing) refl,
              subst (λ m. lookup id hub.blocks_hub ≡ some (m, time)) same found,
            )
        | inr e ↦
            let later : start < n = ground (arith, e) in
            let next : start + 1 ≡ suc start = omega arith in
            let hs =
              hashes_from-Holds s chain n (suc start) (n - suc start) stored
                (omega (arith, later)) in
            (
              record hub { blocks_hub = insert id (n, now) hub.blocks_hub },
              now,
              simp (found, newest, number, e, next, hs, hashes_between-last chain start n later)
                  refl,
              lookup-insert id id (n, now) hub.blocks_hub ∙ rw (==_refl id) refl,
            )
      ]

  -- Two requests of a filter for blocks, with any growth of the chain between them, return together
  -- the hash of each block after the start of the filter, up to the latest block at the second
  -- request, once and in order. The storage has the blocks of the chain at both times.
  pub filter_request-twice :
      (s s' : FunStorage) (chain : ℕ → Block) (now now' : ℕ) (hub : FilterHub)
      (id start time n n' : ℕ)
      → Follows s chain n
      → Follows s' chain n'
      → start ≤ n
      → n ≤ n'
      → lookup id hub.blocks_hub ≡ some (start, time)
      → (hub1 : FilterHub) × (hub2 : FilterHub) × (first : List Hash) × (second : List Hash)
        × (handle s now hub (filter_request id) ≡ ok (hub1, changes (blocks first)))
        × (handle s' now' hub1 (filter_request id) ≡ ok (hub2, changes (blocks second)))
        × (first ++ second ≡ hashes_between chain start n')
  filter_request-twice s s' chain now now' hub id start time n n' f f' h h' found =
      let (hub1, time1, run1, found1) =
        filter_request-range s chain now hub id start time n f h found in
      let (hub2, _, run2, _) = filter_request-range s' chain now' hub1 id n time1 n' f' h' found1 in
      (
        hub1,
        hub2,
        hashes_between chain start n,
        hashes_between chain n n',
        run1,
        run2,
        hashes_between-append chain start n n' h h',
      )
