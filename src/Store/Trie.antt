-- ===== src/Store/Trie.antt =====
-- `MptStore` and `MptOnce` of the crate vsdb_trie_db. A trie handle is read and written by byte
-- strings; `commit` gives the root of its contents, and writes to the store behind it.
use rt_evm.Common.{◌≡◌, Option, none, some, if◌then◌else◌, list_eq, Bytes, Hash, Bool}
use rt_evm.Common.Outcome.{Outcome, ok}

pub record Tries : Type 1 where
  -- `MptStore` and `MptOnce`
  pub Store : Type 0
  pub Trie : Type 0
  -- with the flag set, what the store has under the name is dropped
  pub trie_create : Store → Bytes → Bool → Outcome (Store × Trie)
  pub trie_restore : Store → Bytes → Hash → Outcome Trie
  pub trie_remove : Store → Bytes → Store
  pub get : Trie → Bytes → Outcome (Option Bytes)
  pub contains : Trie → Bytes → Outcome Bool
  pub insert : Trie → Bytes → Bytes → Outcome Trie
  pub remove : Trie → Bytes → Outcome Trie
  pub commit : Store → Trie → Store × Trie × Hash

-- What is known of reads and writes.
pub record TrieLaws (tries : Tries) : Type 1 where
  pub get-insert :
      (t u : tries.Trie) (k v j : Bytes)
      → tries.insert t k v ≡ ok u
      → tries.get u j ≡ (if list_eq k j then ok (some v) else tries.get t j)
  pub get-remove :
      (t u : tries.Trie) (k j : Bytes)
      → tries.remove t k ≡ ok u
      → tries.get u j ≡ (if list_eq k j then ok none else tries.get t j)
  pub get-commit :
      (s : tries.Store) (t : tries.Trie) (j : Bytes)
      → tries.get (tries.commit s t).1 j ≡ tries.get t j
