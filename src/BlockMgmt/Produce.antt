-- ===== src/BlockMgmt/Produce.antt =====
-- crates/blockmgmt/src/lib.rs: what a produced block leaves for the next one.
use rt_evm.Common.{ℕ, ◌+◌, ◌%◌, ◌≡◌, refl, sym, ◌∙◌, ap, subst, H160, List, u64_mod}
use rt_evm.Common.Outcome.{ok-injective, ok, >>=-eq-ok}
use rt_evm.Model.Rlp.{Externals}
use rt_evm.Model.Transaction.{SignedTransaction}
use rt_evm.Model.Response.{Receipt}
use rt_evm.Model.Block.{Block, Header, header_hash, new_block, context_of}
use rt_evm.Store.Table.{Tables}
use rt_evm.Store.Cache.{Caches}
use rt_evm.Store.Trie.{Tries}
use rt_evm.Storage.{
  set_block, set_latest_block, get_latest_block, get_latest_block_header, FunStorage,
}
use rt_evm.Mempool.{tx_cleanup}
use rt_evm.Executor.Adapter.{from_root}
use rt_evm.Executor.Roots.{trie_root_txs}
use rt_evm.Executor.Exec.{Evm, exec}
use rt_evm.BlockMgmt.{BlockMgmt, new, generate_proposal, generate_block, produce_block, persist}

module _ ⦃ext : Externals⦄ ⦃tries : Tries⦄ ⦃tables : Tables⦄ ⦃caches : Caches⦄ ⦃evm : Evm⦄ where
  -- The header of a block that is generated from `m` and `txs`.
  abbrev pub Continues : BlockMgmt → List SignedTransaction → Header → Type 0
  Continues m txs h =
      (h.number ≡ m.block_number)
      × (h.prev_hash ≡ m.prev_block_hash)
      × (h.chain_id ≡ m.chain_id)
      × (h.timestamp ≡ m.block_timestamp)
      × (h.transactions_root ≡ trie_root_txs txs)

  generate_block-Continues :
      (m m' : BlockMgmt) (txs : List SignedTransaction) (b : Block) (rs : List Receipt)
      → generate_block m txs ≡ ok (m', b, rs)
      → Continues m txs b.header × (m'.mempool ≡ tx_cleanup m.mempool txs)
  unfolding generate_block generate_proposal new_block
  generate_block-Continues m m' txs b rs h =
      let p = generate_proposal m txs in
      let (backend, h₁, e₁) =
        >>=-eq-ok (from_root m.prev_state_root m.trie m.storage (context_of p)) _ h in
      let ((backend', resp), h₂, e₂) = >>=-eq-ok (exec backend txs) _ e₁ in
      let made : b ≡ new_block p resp = sym (ap (λ x. x.1) (ok-injective e₂)) in
      let left = sym (ap (λ x. x.0.mempool) (ok-injective e₂)) in
      rw (made) ((refl, refl, refl, refl, refl), left)

  latest-persist :
      (s : FunStorage) (b : Block) (txs : List SignedTransaction) (rs : List Receipt)
      → get_latest_block_header (persist s b txs rs) ≡ ok b.header
  unfolding get_latest_block_header get_latest_block set_block set_latest_block
  latest-persist s b txs rs = refl

  -- A produced block is the latest of the storage that it leaves. Its header has the number, the
  -- previous hash, the chain id and the time that the manager was made with and the root of its
  -- transactions, and its transactions are cleaned from the pool. A manager that is made on the
  -- storage after it continues from it: its number is the next, and its previous hash and state
  -- root are those of the new header.
  pub produce_block_extends :
      (m m' n : BlockMgmt) (txs : List SignedTransaction) (h : Header) (proposer : H160)
      (timestamp : ℕ)
      → produce_block m txs ≡ ok (m', h)
      → new proposer timestamp m'.mempool m'.trie m'.storage ≡ ok n
      → (get_latest_block_header m'.storage ≡ ok h)
        × (Continues m txs h)
        × (m'.mempool ≡ tx_cleanup m.mempool txs)
        × (n.block_number ≡ (1 + m.block_number) % u64_mod)
        × (n.prev_block_hash ≡ header_hash h)
        × (n.prev_state_root ≡ h.state_root)
        × (n.chain_id ≡ m.chain_id)
  unfolding produce_block new
  produce_block_extends m m' n txs h proposer timestamp produced made =
      let ((g, b, rs), h₁, e₁) = >>=-eq-ok (generate_block m txs) _ produced in
      let end = ok-injective e₁ in
      let header : b.header ≡ h = ap (λ x. x.1) end in
      let (made_so, cleaned) = generate_block-Continues m g txs b rs h₁ in
      let continues : Continues m txs h = subst (Continues m txs) header made_so in
      let after = sym (ap (λ x. x.0) end) in
      let latest : get_latest_block_header m'.storage ≡ ok h =
        ap (λ x. get_latest_block_header x.storage) after
        ∙ latest-persist g.storage b txs rs
        ∙ ap ok header in
      let (found, read, e₂) = >>=-eq-ok (get_latest_block_header m'.storage) _ made in
      let is : found ≡ h = cc (latest, read) in
      let (number, prev, chain, time, root) = continues in
      let next = sym (ok-injective e₂) in
      (
        latest,
        continues,
        ap (λ x. x.mempool) after ∙ cleaned,
        ap (λ x. x.block_number) next
            ∙ ap (λ x. (1 + x.number) % u64_mod) is
            ∙ ap (λ x. (1 + x) % u64_mod) number,
        ap (λ x. x.prev_block_hash) next ∙ ap header_hash is,
        ap (λ x. x.prev_state_root) next ∙ ap (λ x. x.state_root) is,
        ap (λ x. x.chain_id) next ∙ ap (λ x. x.chain_id) is ∙ chain,
      )
