-- ===== src/Executor/Adapter.antt =====
-- crates/executor/src/adapter/mod.rs: the backend that the EVM reads, and that its changes are
-- applied to. The trie store and the storage are behind references in the code and change in place;
-- here they are fields. `pnk!` on a failure is a panic.
pub mod Replay
use rt_evm.Common.{
  ℕ, length, ◌-◌, Bytes, Hash, H160, U256, Option, none, some, List, [], ◌∷◌, Bool, true, false,
  ◌&&◌, if◌then◌else◌, ltb, leb, ◌==◌, nil_hash, address_bytes, to_be, from_big_endian, unwrap_or,
  u64_mod,
}
use rt_evm.Common.Outcome.{Outcome, ok, panic, or_panic, ◌>>=◌, or_err, bad_codec}
use rt_evm.Model.Rlp.{Externals, Account, Log}
use rt_evm.Model.Block.{ExecutorContext, Block, block_hash}
use rt_evm.Store.Table.{Tables}
use rt_evm.Store.Cache.{Caches}
use rt_evm.Store.Trie.{Tries}
use rt_evm.Storage.{FunStorage, get_block, get_code_by_hash, insert_code}
use rt_evm.Storage.Accounts.{
  empty_account, world_state_meta_key, get_account_by_state, save_account_by_state,
}

-- `Basic` and `Apply` of the crate evm
pub record Basic : Type 0 where
  pub balance : U256
  pub nonce : U256

pub record Modify : Type 0 where
  pub address : H160
  pub basic : Basic
  pub code : Option Bytes
  pub storage : List (Hash × Hash)
  pub reset_storage : Bool

pub data Apply : Type 0 where
  modify : Modify → Apply
  delete : H160 → Apply

abbrev pub get_block_hash_number_range : ℕ
get_block_hash_number_range = 256

-- The bytes of an `H256`.
abbrev pub hash_bytes : Hash → Bytes
hash_bytes h = to_be 32 h

module _ ⦃ext : Externals⦄ ⦃tries : Tries⦄ ⦃tables : Tables⦄ ⦃caches : Caches⦄ where
  pub record Adapter : Type 0 where
    pub state : tries.Trie
    pub trie_db : tries.Store
    pub storage : FunStorage
    pub exec_ctx : ExecutorContext

  unfoldable pub new : tries.Store → FunStorage → ExecutorContext → Outcome Adapter
  new store s ctx = tries.trie_create store world_state_meta_key false >>= λ r.
      ok (record { state = r.1; trie_db = r.0; storage = s; exec_ctx = ctx })

  unfoldable pub from_root : Hash → tries.Store → FunStorage → ExecutorContext → Outcome Adapter
  from_root root store s ctx = tries.trie_restore store world_state_meta_key root >>= λ t.
      ok (record { state = t; trie_db = store; storage = s; exec_ctx = ctx })

  unfoldable pub set_origin : Adapter → H160 → Adapter
  set_origin b origin =
      let ctx = b.exec_ctx in record b { exec_ctx = record ctx { origin = origin } }

  unfoldable pub set_gas_price : Adapter → U256 → Adapter
  set_gas_price b price =
      let ctx = b.exec_ctx in record b { exec_ctx = record ctx { gas_price = price } }

  -- `mem::take` on the logs
  unfoldable pub get_logs : Adapter → Adapter × List Log
  get_logs b = let ctx = b.exec_ctx in (record b { exec_ctx = record ctx { logs = [] } }, ctx.logs)

  unfoldable pub commit : Adapter → Adapter × Hash
  commit b =
      let (store, state, root) = tries.commit b.trie_db b.state in
      (record b { trie_db = store; state = state }, root)

  unfoldable pub get : Adapter → Bytes → Option Bytes
  get b key = elim (tries.get b.state key) [ ok o ↦ o | _ ↦ none ]

  unfoldable pub get_account : Adapter → H160 → Outcome Account
  get_account b a = or_panic (get_account_by_state b.state a)

  unfoldable pub save_account : Adapter → H160 → Account → Outcome Adapter
  save_account b a acc =
      or_panic (save_account_by_state b.state a acc) >>= λ t. ok (record b { state = t })

  abbrev pub hash_or_default : Option Block → Hash
  hash_or_default none = 0
  hash_or_default (some blk) = block_hash blk

  -- The hash of one of the 256 blocks before the current one; `as_u64` panics beyond a `u64`.
  unfoldable pub get_block_hash : Adapter → U256 → Outcome Hash
  get_block_hash b number =
      if leb b.exec_ctx.block_number number
      then ok 0
      else if ltb get_block_hash_number_range (b.exec_ctx.block_number - number)
      then ok 0
      else if leb u64_mod number
      then panic
      else or_panic (get_block b.storage number) >>= λ o. ok (hash_or_default o)

  unfoldable pub exists : Adapter → H160 → Bool
  exists b a = elim (tries.contains b.state (address_bytes a)) [ ok c ↦ c | _ ↦ false ]

  abbrev pub basic_of : Option Account → Basic
  basic_of none = record { balance = 0; nonce = 0 }
  basic_of (some acc) = record { balance = acc.balance; nonce = acc.nonce }

  abbrev pub decode_raw : Option Bytes → Option Account
  decode_raw none = none
  decode_raw (some raw) = ext.decode_account raw

  unfoldable pub basic : Adapter → H160 → Basic
  basic b a = basic_of (decode_raw (get b (address_bytes a)))

  unfoldable pub code_of : Adapter → Option Account → Outcome Bytes
  code_of b none = ok []
  code_of b (some acc) =
      if acc.code_hash == nil_hash
      then ok []
      else or_panic (get_code_by_hash b.storage acc.code_hash) >>= λ o. ok (unwrap_or o [])

  -- The stored account, if any; a failed read or decoding panics.
  unfoldable pub stored_account : Adapter → Option Bytes → Outcome (Option Account)
  stored_account b none = ok none
  stored_account b (some raw) =
      or_panic (or_err (ext.decode_account raw) bad_codec) >>= λ acc. ok (some acc)

  unfoldable pub code : Adapter → H160 → Outcome Bytes
  code b a = or_panic (tries.get b.state (address_bytes a)) >>= λ raw.
      stored_account b raw >>= λ acc. code_of b acc

  -- `H256::from_slice` panics on any other length.
  abbrev pub from_slice : Bytes → Outcome Hash
  from_slice v = if length v == 32 then ok (from_big_endian v) else panic

  -- The value of a slot in the storage trie of an account.
  unfoldable pub slot_of : Adapter → H160 → Hash → Account → Outcome Hash
  slot_of b a index acc =
      if acc.storage_root == nil_hash
      then ok 0
      else elim (tries.trie_restore b.trie_db (address_bytes a) acc.storage_root) [
        | ok trie ↦ elim (tries.get trie (hash_bytes index)) [
          | ok o ↦ elim o [ none ↦ ok 0 | some v ↦ from_slice v ]
          | _ ↦ ok 0
        ]
        | _ ↦ ok 0
      ]

  unfoldable pub storage_at : Adapter → H160 → Hash → Outcome Hash
  storage_at b a index = elim (decode_raw (get b (address_bytes a))) [
    | none ↦ ok 0
    | some acc ↦ slot_of b a index acc
  ]

  -- `let _ = storage_trie.insert(k, v)`: a failed insertion is ignored.
  unfoldable pub write_slots : tries.Trie → List (Hash × Hash) → tries.Trie
  write_slots t [] = t
  write_slots t ((k, v) ∷ rest) =
      write_slots (elim (tries.insert t (hash_bytes k) (hash_bytes v)) [ ok u ↦ u | _ ↦ t ]) rest

  -- The storage trie that the changes of an account go to.
  unfoldable pub storage_trie :
      Adapter → Modify → Option Account → Outcome (tries.Store × tries.Trie)
  storage_trie b c none = tries.trie_create b.trie_db (address_bytes c.address) true
  storage_trie b c (some old) =
      if c.reset_storage
      then tries.trie_create b.trie_db (address_bytes c.address) true
      else tries.trie_restore b.trie_db (address_bytes c.address) old.storage_root >>= λ t.
          ok (b.trie_db, t)

  -- The code hash after a change, and the storage with the new code.
  unfoldable pub change_code : FunStorage → H160 → Hash → Option Bytes → FunStorage × Hash
  change_code s a old none = (s, old)
  change_code s a old (some c) =
      if ext.keccak c == old then (s, old) else (insert_code s a (ext.keccak c) c, ext.keccak c)

  -- `_ =>` in the match on the stored account: a failed read counts as no account.
  unfoldable pub old_account : Adapter → H160 → Outcome (Option Account)
  old_account b a = stored_account b (get b (address_bytes a))

  -- The inherent `apply`; the flag says that the account is left empty.
  unfoldable pub apply : Adapter → Modify → Outcome (Adapter × Bool)
  apply b c = do
    existing ← old_account b c.address
    (store, trie) ← or_panic (storage_trie b c existing)
    let old = unwrap_or existing empty_account
    let (store', trie', root) = tries.commit store (write_slots trie c.storage)
    let (storage', code_hash) = change_code b.storage c.address old.code_hash c.code
    let acc : Account = record {
      nonce = c.basic.nonce;
      balance = c.basic.balance;
      storage_root = root;
      code_hash = code_hash;
    }
    state ← or_panic (tries.insert b.state (address_bytes c.address) (ext.encode_account acc))
    ok (
      record b { state = state; trie_db = store'; storage = storage' },
      (acc.balance == 0) && ((acc.nonce == 0) && (acc.code_hash == 0)),
    )

  -- `trie_remove` and the removal from the world state
  unfoldable pub erase : Adapter → H160 → Outcome Adapter
  erase b a = or_panic (tries.remove b.state (address_bytes a)) >>= λ t.
      ok (record b { state = t; trie_db = tries.trie_remove b.trie_db (address_bytes a) })

  unfoldable pub apply_one : Adapter → Apply → Bool → Outcome Adapter
  apply_one b (modify c) delete_empty = do
    (b', is_empty) ← apply b c
    if is_empty && delete_empty then erase b' c.address else ok b'
  apply_one b (delete a) delete_empty = erase b a

  unfoldable pub apply_values : Adapter → List Apply → Bool → Outcome Adapter
  apply_values b [] delete_empty = ok b
  apply_values b (v ∷ vs) delete_empty =
      apply_one b v delete_empty >>= λ b'. apply_values b' vs delete_empty

  -- `ApplyBackend::apply`
  unfoldable pub apply_all : Adapter → List Apply → List Log → Bool → Outcome Adapter
  apply_all b values logs delete_empty = do
    b' ← apply_values b values delete_empty
    let ctx = b'.exec_ctx
    ok (record b' { exec_ctx = record ctx { logs = logs } })
