-- ===== src/Tests/World.antt =====
-- A small world for the tests: association lists for tables and tries, a cache of one entry, plain
-- concatenation for the encodings, and one account.
use rt_evm.Common.{
  ℕ, suc, ◌+◌, ◌-◌, ◌*◌, ◌%◌, ◌≡◌, refl, sym, ap, Bytes, Hash, H160, Option, none, some, List, [],
  ◌∷◌, ◌++◌, Bool, true, false, if◌then◌else◌, ◌==◌, leb, length, list_eq, from_be, u256_mod, arith,
  address_bytes, replicate,
}
use rt_evm.Common.Outcome.{Outcome, ok, err, trie_failure}
use rt_evm.Model.Rlp.{
  Externals, Item, Items, num, bytes, address, hash, action, bloom, flag, option_hash, logs,
  begin_list, nil, append, call, create, Account, Log,
}
use rt_evm.Model.Transaction.{UnsignedTransaction, legacy, SignedTransaction, SignatureComponents}
use rt_evm.Model.Transaction.Encode.{calc_hash}
use rt_evm.Model.Response.{succeed, revert}
use rt_evm.Model.Block.{Block, mock}
use rt_evm.Store.Table.{Tables}
use rt_evm.Store.Cache.{Caches}
use rt_evm.Store.Trie.{Tries, TrieLaws}
use rt_evm.Storage.{FunStorage, new, set_block}
use rt_evm.Executor.Exec.{Evm, Run}

-- Association lists with the newest entry first.
abbrev find : (V : Type 0) → List (ℕ × V) → ℕ → Option V
find V [] j = none
find V ((k, v) ∷ t) j = if k == j then some v else find V t j

abbrev max_key : (V : Type 0) → ℕ → List (ℕ × V) → ℕ
max_key V top [] = top
max_key V top ((k, v) ∷ t) = max_key V (if leb top k then k else top) t

abbrev entry : (V : Type 0) → ℕ → Option V → Option (ℕ × V)
entry V k none = none
entry V k (some v) = some (k, v)

abbrev last_entry : (V : Type 0) → List (ℕ × V) → Option (ℕ × V)
last_entry V t = entry V (max_key V 0 t) (find V t (max_key V 0 t))

entry-some :
    (V : Type 0) (i : ℕ) (o : Option V) (k : ℕ) (v : V)
    → entry V i o ≡ some (k, v)
    → (i ≡ k) × (o ≡ some v)
entry-some V i none k v h = cc
entry-some V i (some w) k v h =
    let same : ◌≡◌ {A = ℕ × V} (i, w) (k, v) = cc in (ap (λ p. p.0) same, ap (λ p. some p.1) same)

pub get-last_entry :
    (V : Type 0) (t : List (ℕ × V)) (k : ℕ) (v : V)
    → last_entry V t ≡ some (k, v)
    → find V t k ≡ some v
get-last_entry V t k v h =
    let (key, value) = entry-some V (max_key V 0 t) (find V t (max_key V 0 t)) k v h in
    rw (sym key) value

instance abbrev pub tables : Tables
tables = record {
  Table = λ V. List (ℕ × V);
  empty = λ V. [];
  get = find;
  insert = λ V t k v. (k, v) ∷ t;
  last = last_entry;
  get-empty = λ V k. refl;
  get-insert = λ V t k v j. refl;
  last-empty = λ V. refl;
  get-last = get-last_entry;
}

abbrev slot : (V : Type 0) → Option (ℕ × V) → ℕ → Option V
slot V none j = none
slot V (some (k, v)) j = if k == j then some v else none

pub slot-insert :
    (V : Type 0) (c : Option (ℕ × V)) (k : ℕ) (v : V) (j : ℕ) (w : V)
    → slot V (some (k, v)) j ≡ some w
    → (if k == j then some v else slot V c j) ≡ some w
slot-insert V c k v j w h = ground (arith, h)

instance abbrev pub caches : Caches
caches = record {
  Cache = λ V. Option (ℕ × V);
  empty = λ V. none;
  get = slot;
  insert = λ V c k v. some (k, v);
  get-empty = λ V k. refl;
  get-insert = slot-insert;
}

-- A trie is the list of its writes; a removal writes `none`. The store is the list of the committed
-- tries under their roots.
abbrev pub Writes : Type 0
Writes = List (Bytes × Option Bytes)

abbrev trie_get : Writes → Bytes → Option Bytes
trie_get [] k = none
trie_get ((j, v) ∷ t) k = if list_eq j k then v else trie_get t k

abbrev pub trie_at : List (Hash × Writes) → Hash → Outcome Writes
trie_at [] root = err trie_failure
trie_at ((r, t) ∷ s) root = if r == root then ok t else trie_at s root

abbrev found : Option Bytes → Bool
found none = false
found (some v) = true

instance abbrev pub tries : Tries
tries = record {
  Store = List (Hash × Writes);
  Trie = Writes;
  trie_create = λ s k force. ok (s, []);
  trie_restore = λ s k root. trie_at s root;
  trie_remove = λ s k. s;
  get = λ t k. ok (trie_get t k);
  contains = λ t k. ok (found (trie_get t k));
  insert = λ t k v. ok ((k, some v) ∷ t);
  remove = λ t k. ok ((k, none) ∷ t);
  commit = λ s t. ((suc (length s), t) ∷ s, t, suc (length s));
}

-- Reads after writes, removals and reads after a commit.
ok-if : (t : Bool) (x y : Option Bytes) → ok (if t then x else y) ≡ (if t then ok x else ok y)
ok-if true x y = refl
ok-if false x y = refl

written :
    (t u : Writes) (k : Bytes) (v : Option Bytes) (j : Bytes)
    → ok ((k, v) ∷ t) ≡ ok u
    → ok (trie_get u j) ≡ (if list_eq k j then ok v else ok (trie_get t j))
written t u k v j h =
    let same : ((k, v) ∷ t) ≡ u = cc in rw (sym same) (ok-if (list_eq k j) v (trie_get t j))

pub world_laws : TrieLaws tries
world_laws = record {
  get-insert = λ t u k v j h. written t u k (some v) j h;
  get-remove = λ t u k j h. written t u k none j h;
  get-commit = λ s t j. refl;
}

-- The lengths of the topics and of the payload stand before them.
abbrev pub write_logs : List Log → Bytes
write_logs [] = []
write_logs (l ∷ ls) =
    l.address ∷ length l.topics ∷ length l.payload ∷ (l.topics ++ (l.payload ++ write_logs ls))

-- Each item has a tag; a list has its length, and each of its items has its length before it.
abbrev mutual
  pub write_item : Item → Bytes
  write_item (num n) = 1 ∷ n ∷ []
  write_item (bytes bs) = 2 ∷ bs
  write_item (address a) = 3 ∷ a ∷ []
  write_item (hash h) = 4 ∷ h ∷ []
  write_item (action (call a)) = 5 ∷ a ∷ []
  write_item (action create) = 5 ∷ []
  write_item (bloom b) = 6 ∷ b ∷ []
  write_item (flag true) = 7 ∷ 1 ∷ []
  write_item (flag false) = 7 ∷ []
  write_item (option_hash none) = 8 ∷ []
  write_item (option_hash (some h)) = 8 ∷ h ∷ []
  write_item (logs ls) = 9 ∷ length ls ∷ write_logs ls
  write_item (begin_list n is) = 0xc0 ∷ n ∷ write_items is

  pub write_items : Items → Bytes
  write_items nil = []
  write_items (append i is) = length (write_item i) ∷ (write_item i ++ write_items is)

abbrev mix : Bytes → Hash
mix bs = from_be 7 bs % u256_mod

abbrev pub key_of : Bytes
key_of = 0xa1 ∷ []

abbrev pub write_account : Account → Bytes
write_account a = a.nonce ∷ a.balance ∷ a.storage_root ∷ a.code_hash ∷ []

abbrev pub read_account : Bytes → Option Account
read_account (n ∷ b ∷ s ∷ c ∷ []) =
    some (record { nonce = n; balance = b; storage_root = s; code_hash = c })
read_account bs = none

abbrev mix_pairs : List (Bytes × Bytes) → Hash
mix_pairs [] = 1
mix_pairs ((k, v) ∷ ps) = (mix k + mix v + 3 * mix_pairs ps) % u256_mod

instance abbrev pub externals : Externals
externals = record {
  out = write_item;
  keccak = mix;
  merkle = mix_pairs;
  recover = λ h sig. some key_of;
  encode_logs = λ logs. length logs ∷ [];
  encode_blooms = λ blooms. blooms;
  raw_bloom = from_be 0;
  encode_account = write_account;
  decode_account = read_account;
}

pub account_codec : (acc : Account) → read_account (write_account acc) ≡ some acc
account_codec acc = refl

-- A call is reverted after 21000 gas; a creation succeeds and leaves a log.
abbrev run_call : ℕ → Run
run_call limit = record {
  exit = revert "reverted";
  ret = 9 ∷ [];
  gas = limit - 21_000;
  used_gas = 21_000;
  values = [];
  logs = [];
  create_address = λ a. a + 1;
}

abbrev pub created : H160 → ℕ → Run
created a limit = record {
  exit = succeed "returned";
  ret = 8 ∷ [];
  gas = limit - 53_000;
  used_gas = 53_000;
  values = [];
  logs = record { address = a; topics = []; payload = [] } ∷ [];
  create_address = λ c. c + 1;
}

instance abbrev pub evm : Evm
evm = record {
  transact_call = λ b a c v payload limit accesses. run_call limit;
  transact_create = λ b a v payload limit accesses. created a limit;
}

-- The key that is recovered from every signature has this address.
abbrev pub alice : H160
alice = 1953

abbrev pub funds : Account
funds = record { nonce = 5; balance = 1_000_000_000; storage_root = 0; code_hash = 0 }

abbrev pub sig : SignatureComponents
sig = record { r = replicate 32 1; s = replicate 32 2; standard_v = 1 }

abbrev pub payment : ℕ → UnsignedTransaction
payment n = legacy (record {
  nonce = n;
  gas_price = 10;
  gas_limit = 30_000;
  action = call 0xb0b;
  value = 1;
  payload = 0 ∷ 7 ∷ [];
})

abbrev pub deployment : ℕ → UnsignedTransaction
deployment n = legacy (record {
  nonce = n;
  gas_price = 10;
  gas_limit = 60_000;
  action = create;
  value = 0;
  payload = 1 ∷ 2 ∷ 3 ∷ [];
})

abbrev pub sign : UnsignedTransaction → SignedTransaction
sign u = record {
  transaction = calc_hash (record { unsigned = u; signature = some sig; chain_id = 152; hash = 0 });
  sender = alice;
  public_key = some key_of;
}

-- The world state with the account, committed, and a storage with the first block on it.
abbrev pub state : Writes
state = (address_bytes alice, some (write_account funds)) ∷ []

abbrev pub store : List (Hash × Writes)
store = (1, state) ∷ []

abbrev pub genesis : Block
genesis = mock 152 3 1 1_000

abbrev pub chain : FunStorage
chain = set_block new genesis
