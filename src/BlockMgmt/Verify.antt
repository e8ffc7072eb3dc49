-- ===== src/BlockMgmt/Verify.antt =====
-- crates/blockmgmt/src/lib.rs: what a proposal or a block that is accepted satisfies.
use rt_evm.Common.{
  not-eq-false, ℕ, ◌-◌, ◌≤◌, ◌≡◌, refl, sym, ◌∙◌, ap, Hash, Option, none, some, List, [], ◌∷◌, map,
  length, ltb, ◌==◌, ==→eq, ltb→le, not, false, nil_hash, arith,
}
use rt_evm.Common.Outcome.{Error, ok, or_err, reject_if, >>=-eq-ok, >>-eq-ok, reject_if-eq-tt}
use rt_evm.Model.Rlp.{Externals}
use rt_evm.Model.Transaction.{SignedTransaction}
use rt_evm.Model.Block.{Proposal, Header, FatBlock, header_hash, from_block, from_header}
use rt_evm.Store.Table.{Tables}
use rt_evm.Store.Cache.{Caches}
use rt_evm.Store.Trie.{Tries}
use rt_evm.Storage.{get_block_header}
use rt_evm.Mempool.{hash_of, tx_pre_check}
use rt_evm.Mempool.PreCheck.{Passes, tx_pre_check_sound}
use rt_evm.Executor.Roots.{trie_root_txs, trie_root_indexed}
use rt_evm.BlockMgmt.{BlockMgmt, verify_txs, verify_proposal, verify_refblock, verify_block}

reject_ne : (a b : ℕ) (e : Error) → reject_if (not (a == b)) e ≡ ok tt → a ≡ b
reject_ne a b e h = ==→eq a b (not-eq-false (a == b) (reject_if-eq-tt _ e h))

or_err-eq-ok {ℓ} : {A : Type ℓ} (o : Option A) (e : Error) {a : A} → or_err o e ≡ ok a → o ≡ some a
or_err-eq-ok none e h = cc
or_err-eq-ok (some a) e h = cc

no_txs : (txs : List SignedTransaction) → [] ≡ map hash_of txs → txs ≡ []
no_txs [] h = refl
no_txs (tx ∷ txs) h = cc

module _ ⦃ext : Externals⦄ ⦃tries : Tries⦄ ⦃tables : Tables⦄ ⦃caches : Caches⦄ where
  abbrev pub AllPass : BlockMgmt → List SignedTransaction → Type 0
  AllPass m [] = Unit {0}
  AllPass m (tx ∷ txs) = (Passes m.trie m.storage m.mempool tx false) × (AllPass m txs)

  pub record Acceptable (m : BlockMgmt) (now : ℕ) (p : Proposal) (txs : List SignedTransaction)
      : Type 0 where
    pub numbered : 1 ≤ p.number
    pub same_chain : p.chain_id ≡ m.chain_id
    pub not_early : p.timestamp ≤ now
    pub follows :
        (prev : Header) × (get_block_header m.storage (p.number - 1) ≡ ok (some prev))
        × (p.prev_hash ≡ header_hash prev)
    pub announced : p.tx_hashes ≡ map hash_of txs
    pub rooted : p.transactions_root ≡ trie_root_txs txs
    pub pass : AllPass m txs

  verify_txs_sound :
      (m : BlockMgmt) (txs : List SignedTransaction) (hs : List Hash)
      → length txs ≡ length hs
      → verify_txs m txs hs ≡ ok tt
      → (hs ≡ map hash_of txs) × AllPass m txs
  unfolding verify_txs
  verify_txs_sound m [] [] same h = (refl, tt)
  verify_txs_sound m [] (x ∷ hs) same h = absurd (omega arith)
  verify_txs_sound m (tx ∷ txs) [] same h = absurd (omega arith)
  verify_txs_sound m (tx ∷ txs) (x ∷ hs) same h =
      let (equal, h₁) = >>-eq-ok (reject_if (not (hash_of tx == x)) _) _ h in
      let (passed, h₂) = >>-eq-ok (tx_pre_check m.trie m.storage m.mempool tx false) _ h₁ in
      let (rest, all) = verify_txs_sound m txs hs (omega arith) h₂ in
      (
        rw (reject_ne (hash_of tx) x _ equal) (ap (λ t. x ∷ t) rest),
        (tx_pre_check_sound m.trie m.storage m.mempool tx false passed, all),
      )

  -- A proposal that is accepted with some transactions has a number from 1, this chain's id and a
  -- time that is not in the future; it names the hash of the stored header before it; its
  -- hashes are those of the transactions, its root is the root of them, and every transaction
  -- passes the pool's check with its signature.
  pub verify_proposal_sound :
      (m : BlockMgmt) (now : ℕ) (p : Proposal) (txs : List SignedTransaction)
      → verify_proposal m now p txs ≡ ok tt
      → Acceptable m now p txs
  unfolding verify_proposal trie_root_txs
  verify_proposal_sound m now p txs h =
      let (numbered, h₁) = >>-eq-ok (reject_if (ltb p.number 1) _) _ h in
      let (chain, h₂) = >>-eq-ok (reject_if (not (m.chain_id == p.chain_id)) _) _ h₁ in
      let (time, h₃) = >>-eq-ok (reject_if (ltb now p.timestamp) _) _ h₂ in
      let (found, read, h₄) = >>=-eq-ok (get_block_header m.storage (p.number - 1)) _ h₃ in
      let (prev, there, h₅) = >>=-eq-ok (or_err found _) _ h₄ in
      let (linked, h₆) = >>-eq-ok (reject_if (not (p.prev_hash == header_hash prev)) _) _ h₅ in
      let (rooted, h₇) =
        >>-eq-ok (reject_if (not (trie_root_indexed p.tx_hashes == p.transactions_root)) _) _ h₆ in
      let (counted, h₈) = >>-eq-ok (reject_if (not (length txs == length p.tx_hashes)) _) _ h₇ in
      let (announced, all) = verify_txs_sound m txs p.tx_hashes (reject_ne _ _ _ counted) h₈ in
      record {
        numbered = ltb→le p.number 1 (reject_if-eq-tt _ _ numbered);
        same_chain = sym (reject_ne _ _ _ chain);
        not_early = ltb→le now p.timestamp (reject_if-eq-tt _ _ time);
        follows = (prev, read ∙ ap ok (or_err-eq-ok found _ there), reject_ne _ _ _ linked);
        announced = announced;
        rooted = sym (reject_ne _ _ _ rooted) ∙ ap trie_root_indexed announced;
        pass = all;
      }

  -- A block that is accepted has no transactions, and its header has the root of an empty list: the
  -- proposal that is made from a block for the check has no transaction hashes.
  pub verify_block_empty :
      (m : BlockMgmt) (now : ℕ) (fb : FatBlock)
      → verify_block m now fb ≡ ok tt
      → (fb.txs ≡ []) × (fb.block.header.transactions_root ≡ nil_hash)
  unfolding verify_block verify_refblock from_block from_header trie_root_txs trie_root_indexed
  verify_block_empty m now fb h =
      let a = verify_proposal_sound m now (from_block fb.block) fb.txs h in
      let empty : fb.txs ≡ [] = no_txs fb.txs a.announced in
      (empty, a.rooted ∙ ap trie_root_txs empty)
