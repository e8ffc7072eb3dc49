-- ===== src/Store.antt =====
-- What the storage takes from the crates vsdb (tables on disk), moka (caches) and vsdb_trie_db (the
-- Merkle Patricia tries), each as a record of operations with the laws that the code relies on, and
-- the pairing of a cache with a table through which the storage reads.
pub mod Table
pub mod Cache
pub mod Trie
pub mod Cached
