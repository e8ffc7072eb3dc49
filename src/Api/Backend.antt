-- ===== src/Api/Backend.antt =====
-- `DefaultAPIAdapter` of crates/api/src/adapter.rs: what the servers read and change. The pool, the
-- trie store and the storage are shared with the rest of the node; here they are fields.
use rt_evm.Common.{
  ℕ, Bytes, Hash, H160, U256, Option, none, some, true, unwrap_or, leb, if◌then◌else◌, u64_mod,
  address_bytes,
}
use rt_evm.Common.Outcome.{
  Outcome, ok, panic, or_err, or_panic, block_missing, not_found, bad_codec, ◌>>=◌,
}
use rt_evm.Model.Rlp.{Externals, Account}
use rt_evm.Model.Block.{Proposal, Header, Block, from_block, context_of, max_block_gas_limit}
use rt_evm.Model.Response.{TxResp}
use rt_evm.Model.Transaction.{SignedTransaction}
use rt_evm.Store.Table.{Tables}
use rt_evm.Store.Cache.{Caches}
use rt_evm.Store.Trie.{Tries}
use rt_evm.Storage.{
  FunStorage, get_block, get_latest_block, get_block_header, get_latest_block_header,
}
use rt_evm.Storage.Accounts.{world_state_meta_key, account_of}
use rt_evm.Mempool.{TinyMempool, tx_insert, tx_pending_cnt}
use rt_evm.Executor.Adapter.{Adapter, from_root, get, hash_bytes}
use rt_evm.Executor.Exec.{Evm, call_evm}

-- `as_u64` panics beyond a `u64`.
abbrev pub gas_or_default : Option U256 → Outcome ℕ
gas_or_default none = ok max_block_gas_limit
gas_or_default (some gas) = if leb u64_mod gas then panic else ok gas

module _ ⦃ext : Externals⦄ ⦃tries : Tries⦄ ⦃tables : Tables⦄ ⦃caches : Caches⦄ where
  pub record ApiAdapter : Type 0 where
    pub mempool : TinyMempool
    pub trie_db : tries.Store
    pub storage : FunStorage

  unfoldable pub insert_signed_tx : ApiAdapter → SignedTransaction → ℕ → Outcome ApiAdapter
  insert_signed_tx a tx now =
      tx_insert a.trie_db a.storage a.mempool tx true now >>= λ m. ok (record a { mempool = m })

  unfoldable pub get_block_by_number : ApiAdapter → Option ℕ → Outcome (Option Block)
  get_block_by_number a (some n) = get_block a.storage n
  get_block_by_number a none = get_latest_block a.storage >>= λ b. ok (some b)

  unfoldable pub get_block_header_by_number : ApiAdapter → Option ℕ → Outcome (Option Header)
  get_block_header_by_number a (some n) = get_block_header a.storage n
  get_block_header_by_number a none = get_latest_block_header a.storage >>= λ h. ok (some h)

  unfoldable pub evm_backend : ApiAdapter → Option ℕ → Outcome Adapter
  evm_backend a number = do
    found ← get_block_by_number a number
    block ← or_err found block_missing
    from_root block.header.state_root a.trie_db a.storage (context_of (from_block block))

  -- `get_account` of the adapter
  unfoldable pub account_at : ApiAdapter → H160 → Option ℕ → Outcome Account
  account_at a address number =
      evm_backend a number >>= λ b. account_of (get b (address_bytes address))

  unfoldable pub get_pending_tx_count : ApiAdapter → H160 → ℕ
  get_pending_tx_count a address = tx_pending_cnt a.mempool (some address)

  unfoldable pub evm_call :
      ⦃evm : Evm⦄
      → ApiAdapter
      → Option H160
      → Option H160
      → Option U256
      → Option U256
      → U256
      → Bytes
      → Hash
      → Proposal
      → Outcome TxResp
  evm_call a from to gas_price gas_limit value payload state_root mock_header = do
    let ctx = context_of mock_header
    backend ←
        from_root state_root a.trie_db a.storage
          (record ctx { origin = unwrap_or from 0; gas_price = unwrap_or gas_price 1 })
    limit ← gas_or_default gas_limit
    ok (call_evm backend limit from to value payload)

  unfoldable pub get_storage_at : ApiAdapter → H160 → U256 → Hash → Outcome Bytes
  get_storage_at a address position state_root = do
    state ← tries.trie_restore a.trie_db world_state_meta_key state_root
    found ← tries.get state (address_bytes address)
    raw ← or_err found not_found
    account ← or_panic (or_err (ext.decode_account raw) bad_codec)
    slots ← tries.trie_restore a.trie_db (address_bytes address) account.storage_root
    value ← tries.get slots (hash_bytes position)
    or_err value not_found
