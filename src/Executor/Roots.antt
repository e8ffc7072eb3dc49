-- ===== src/Executor/Roots.antt =====
-- crates/executor/src/utils.rs: code addresses, bloom filters and the roots of indexed lists.
use rt_evm.Common.{
  ℕ, suc, ◌+◌, ◌/◌, ◌%◌, ◌^◌, Bytes, Hash, H160, U256, List, [], ◌∷◌, map, nil_hash, to_be,
  from_big_endian, take, drop, if◌then◌else◌, ◌==◌,
}
use rt_evm.Model.Rlp.{Externals, num, address, begin_list, nil, append, Bloom, Log}
use rt_evm.Model.Transaction.{SignedTransaction}

-- Item `idx` of the list under the four bytes of `idx as u32`.
abbrev pub indexed : ℕ → List Hash → List (Bytes × Bytes)
indexed idx [] = []
indexed idx (h ∷ hs) = (to_be 4 idx, to_be 32 h) ∷ indexed (suc idx) hs

-- `|=` with the bit `bit` of the filter
abbrev pub set_bit : Bloom → ℕ → Bloom
set_bit bloom bit = if (bloom / 2 ^ bit) % 2 == 1 then bloom else bloom + 2 ^ bit

-- The bit that the bytes `i` and `i + 1` of a hash name.
abbrev pub bit_at : Hash → ℕ → ℕ
bit_at h i = from_big_endian (take 2 (drop i (to_be 32 h))) % 0x800

module _ ⦃ext : Externals⦄ where
  unfoldable pub code_address : H160 → U256 → Hash
  code_address sender nonce =
      ext.keccak (ext.out (begin_list 2 (append (address sender) (append (num nonce) nil))))

  unfoldable pub m3_2048 : Bloom → Bytes → Bloom
  m3_2048 bloom x =
      let h = ext.keccak x in
      set_bit (set_bit (set_bit bloom (bit_at h 0)) (bit_at h 2)) (bit_at h 4)

  -- the topics of a log, each added to the filter
  abbrev pub topics_bloom : Bloom → List Hash → Bloom
  topics_bloom bloom [] = bloom
  topics_bloom bloom (t ∷ ts) = topics_bloom (m3_2048 bloom (to_be 32 t)) ts

  abbrev pub logs_bloom_from : Bloom → List Log → Bloom
  logs_bloom_from bloom [] = bloom
  logs_bloom_from bloom (l ∷ ls) =
      logs_bloom_from (topics_bloom (m3_2048 bloom (to_be 20 l.address)) l.topics) ls

  unfoldable pub logs_bloom : List Log → Bloom
  logs_bloom logs = logs_bloom_from 0 logs

  unfoldable pub trie_root : List (Bytes × Bytes) → Hash
  trie_root [] = nil_hash
  trie_root (x ∷ xs) = ext.merkle (x ∷ xs)

  unfoldable pub trie_root_indexed : List Hash → Hash
  trie_root_indexed [] = nil_hash
  trie_root_indexed (h ∷ hs) = trie_root (indexed 0 (h ∷ hs))

  unfoldable pub trie_root_txs : List SignedTransaction → Hash
  trie_root_txs txs = trie_root_indexed (map (λ tx. tx.transaction.hash) txs)
