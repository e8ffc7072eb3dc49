-- ===== src/Tests/Starting.antt =====
-- A small world is created, saved and restored.
use rt_evm.Common.{◌≡◌, ◌≢◌, refl, sym, ap, ◌∙◌, Bytes, some, List, [], ◌∷◌, arith, address_bytes}
use rt_evm.Common.Map.{lookup, insert, values}
use rt_evm.Common.Outcome.{ok}
use rt_evm.Model.Rlp.{Account}
use rt_evm.Model.Block.{mock}
use rt_evm.Storage.{set_block, set_latest_block}
use rt_evm.Storage
use rt_evm.Executor.Adapter.{
  Adapter, basic as basic_at, apply, commit, new as new_backend, old_account, stored_account, get,
  storage_trie, change_code, write_slots,
}
use rt_evm.Runtime.{
  TokenDistributon, MetaPath, chain_id, trie_db, storage, FileRead, contents, missing, Files,
  EvmRuntime, new, basic, collect, apply_grants, default_context, genesis, save, create, restore,
  restore_or_create,
}
use rt_evm.Runtime.Genesis.{apply_grants-total}
use rt_evm.Runtime.Restart.{reopen, FilesLaws, HandleLaws, restore-create}
use rt_evm.Tests.World.{
  Writes, externals, tries, tables, caches, alice, write_account, world_laws, account_codec,
}

-- Two of the three distributions are to one address.
abbrev grants : List TokenDistributon
grants =
    record { address = alice; amount = 500 }
    ∷ record { address = 7; amount = 9 }
    ∷ record { address = alice; amount = 20 }
    ∷ []

abbrev blank : Adapter
blank = record { state = []; trie_db = []; storage = Storage.new; exec_ctx = default_context }

abbrev rich : Account
rich = record { nonce = 0; balance = 520; storage_root = 2; code_hash = 0 }

abbrev other : Account
other = record { nonce = 0; balance = 9; storage_root = 1; code_hash = 0 }

abbrev balances : Writes
balances =
    (address_bytes alice, some (write_account rich))
    ∷ (address_bytes 7, some (write_account other))
    ∷ []

abbrev granted : Adapter
granted = record blank { state = balances; trie_db = (2, []) ∷ (1, []) ∷ [] }

apply_grants-total_example : basic_at granted alice ≡ record { balance = 520; nonce = 0 }
unfolding apply_grants collect values lookup insert apply basic old_account stored_account get
    storage_trie change_code write_slots Storage.new new
apply_grants-total_example =
    apply_grants-total world_laws account_codec grants blank granted alice (omega arith)
      (omega arith) refl

abbrev started : EvmRuntime
started =
    new 1 152 ((3, balances) ∷ (2, []) ∷ (1, []) ∷ []) (set_block Storage.new (mock 152 0 3 0))

record Disk : Type 0 where
  id_file : FileRead
  trie_file : FileRead
  storage_file : FileRead

abbrev read_file : Disk → MetaPath → FileRead
read_file d chain_id = d.id_file
read_file d trie_db = d.trie_file
read_file d storage = d.storage_file

abbrev write_file : Disk → MetaPath → Bytes → Disk
write_file d chain_id bs = record d { id_file = contents bs }
write_file d trie_db bs = record d { trie_file = contents bs }
write_file d storage bs = record d { storage_file = contents bs }

-- There are only the handles of one node.
instance abbrev files : Files
files = record {
  Disk = Disk;
  read = read_file;
  write = λ d f bs. some (write_file d f bs);
  trie_to_bytes = λ t. some (9 ∷ []);
  trie_from_bytes = λ bs. some started.trie_db;
  storage_to_bytes = λ s. some (8 ∷ []);
  storage_from_bytes = λ bs. some (reopen started.storage);
}

read-write : (d : Disk) (f : MetaPath) (bs : Bytes) → read_file (write_file d f bs) f ≡ contents bs
read-write d chain_id bs = refl
read-write d trie_db bs = refl
read-write d storage bs = refl

read-write_other :
    (d : Disk) (f g : MetaPath) (bs : Bytes)
    → f ≢ g
    → read_file (write_file d f bs) g ≡ read_file d g
read-write_other d chain_id chain_id bs h = absurd (h refl)
read-write_other d chain_id trie_db bs h = refl
read-write_other d chain_id storage bs h = refl
read-write_other d trie_db chain_id bs h = refl
read-write_other d trie_db trie_db bs h = absurd (h refl)
read-write_other d trie_db storage bs h = refl
read-write_other d storage chain_id bs h = refl
read-write_other d storage trie_db bs h = refl
read-write_other d storage storage bs h = absurd (h refl)

files_laws : FilesLaws files
files_laws = record {
  read-write = λ d d' f bs h.
      let same : write_file d f bs ≡ d' = cc in
      ap (λ x. read_file x f) (sym same) ∙ read-write d f bs;
  read-write_other = λ d d' f g bs h ne.
      let same : write_file d f bs ≡ d' = cc in
      ap (λ x. read_file x g) (sym same) ∙ read-write_other d f g bs ne;
}

handle_laws : HandleLaws files started.trie_db started.storage
handle_laws = record { trie_from-to = λ bs h. refl; storage_from-to = λ bs h. refl }

abbrev empty_disk : Disk
empty_disk = record { id_file = missing; trie_file = missing; storage_file = missing }

abbrev full_disk : Disk
full_disk = record {
  id_file = contents (0 ∷ 0 ∷ 0 ∷ 0 ∷ 0 ∷ 0 ∷ 0 ∷ 152 ∷ []);
  trie_file = contents (9 ∷ []);
  storage_file = contents (8 ∷ []);
}

restore-create_example :
    (restore 4 full_disk ≡ ok (some (new 4 152 started.trie_db (reopen started.storage))))
    × (restore_or_create 4 1 [] [] full_disk
        ≡ ok (new 4 152 started.trie_db (reopen started.storage), full_disk))
unfolding create genesis save commit new_backend apply_grants collect values lookup insert apply
    basic old_account stored_account get storage_trie change_code write_slots Storage.new new
restore-create_example =
    restore-create files_laws 1 152 [] grants empty_disk full_disk started 4 1 [] [] (omega arith)
      handle_laws refl
