-- ===== src/Tests/Searching.antt =====
-- Searches for logs, blocks with their transactions, and websocket clients on a small chain.
use rt_evm.Common.{
  ℕ, zero, suc, ◌<◌, ◌≤◌, ◌≡◌, ◌⊎◌, refl, arith, Hash, Option, none, some, List, [], ◌∷◌, ◌++◌, map,
  length, false, true, All,
}
use rt_evm.Common.Outcome.{ok}
use rt_evm.Model.Transaction.{SignedTransaction}
use rt_evm.Model.Transaction.Encode.{calc_hash}
use rt_evm.Model.Block.{Block, mock, block_hash}
use rt_evm.Model.Response.{Receipt, succeed}
use rt_evm.Store.Cached.{fresh, write, read}
use rt_evm.Storage.{
  FunStorage, new, set_block, set_latest_block, get_latest_block, get_block, insert_receipts,
  insert_receipt, get_receipts, insert_txs, insert_tx, get_tx_by_hash,
}
use rt_evm.Api.Logs.{num, Web3Log}
use rt_evm.Api.Backend.{ApiAdapter, get_block_by_number}
use rt_evm.Api.Requests.{
  Web3Filter, single, nest_single, nest_null, topics_of, position_of, addresses_of,
}
use rt_evm.Api.Range.{max_log_num, get_logs}
use rt_evm.Api.Range.Cut.{Answers, get_logs-logs_between}
use rt_evm.Api.Range.Pieces.{logs_between}
use rt_evm.Api.Web3.{number_of}
use rt_evm.Api.Web3Types.{hash_in}
use rt_evm.Api.Web3Types.Blocks.{Web3Block}
use rt_evm.Api.Reads.{web3_block_by_number}
use rt_evm.Api.Reads.Fat.{Placed, Stores, web3_block_by_number-Placed}
use rt_evm.Tests.World.{externals, tables, caches, tries, payment, sign, store}
use rt_evm.Tests.Pooling.{pool}

abbrev hashes_at : ℕ → List Hash
hashes_at zero = []
hashes_at (suc zero) = 55 ∷ []
hashes_at (suc (suc n)) = []

-- The second block has a transaction.
abbrev pub busy : ℕ → Block
busy n = let b = mock 152 n 1 n in record b { tx_hashes = hashes_at n }

abbrev pub receipt : Receipt
receipt = record {
  tx_hash = 55;
  block_number = 1;
  block_hash = 12;
  tx_index = 0;
  state_root = 13;
  used_gas = 21_000;
  logs_bloom = 9;
  logs = record { address = 7; topics = 1 ∷ 2 ∷ []; payload = 3 ∷ [] } ∷ [];
  log_index = 1;
  code_address = none;
  sender = 1953;
  ret = succeed "returned";
  removed = false;
}

abbrev tx : SignedTransaction
tx =
    let signed = sign (payment 5) in
    let u = signed.transaction in record signed { transaction = record u { hash = 55 } }

-- Storages with the blocks below 2 and below 3.
abbrev pub short : FunStorage
short =
    insert_txs (insert_receipts (set_block (set_block new (busy 0)) (busy 1)) 1 (receipt ∷ [])) 1
      (tx ∷ [])

abbrev pub long : FunStorage
long = set_block short (busy 2)

abbrev node : ApiAdapter
node = record { mempool = pool; trie_db = store; storage = long }

abbrev pub received : ℕ → List (Option Receipt)
received zero = []
received (suc zero) = some receipt ∷ []
received (suc (suc n)) = []

abbrev asked : Web3Filter
asked = record {
  from_block = some (num 0);
  to_block = none;
  block_hash = none;
  address = single 7;
  topics = some (nest_single 1 ∷ nest_null ∷ []);
}

pub stored : (n : ℕ) → n < 2 → get_block long n ≡ ok (some (busy n))
unfolding get_block insert_receipts insert_receipt insert_txs insert_tx set_block set_latest_block
    new fresh write read mock
stored zero h = refl
stored (suc zero) h = refl
stored (suc (suc n)) h = absurd (omega arith)

numbered : (n : ℕ) → n ≤ 2 → (busy n).header.number ≡ n
unfolding mock
numbered n h = refl

pub receipts_read : (n : ℕ) → n ≤ 2 → get_receipts long n (busy n).tx_hashes ≡ ok (received n)
unfolding get_receipts insert_receipts insert_receipt insert_txs insert_tx set_block
    set_latest_block new fresh write read mock
receipts_read zero h = refl
receipts_read (suc zero) h = refl
receipts_read (suc (suc zero)) h = refl
receipts_read (suc (suc (suc n))) h = absurd (omega arith)

newest : get_block_by_number node none ≡ ok (some (busy 2))
unfolding get_block_by_number get_latest_block set_block set_latest_block insert_receipts
    insert_receipt insert_txs insert_tx new fresh write read mock
newest = refl

stored_at : (n : ℕ) → n < 2 → get_block_by_number node (some n) ≡ ok (some (busy n))
unfolding get_block_by_number
stored_at = stored

answers : Answers node busy received 2
answers = record {
  newest = newest;
  numbered = numbered;
  stored = stored_at;
  received = receipts_read;
}

get_logs-logs_between_example :
    (found : List Web3Log) × (rest : List Web3Log) × (get_logs node asked ≡ ok found)
    × (logs_between (some (some 1 ∷ []) ∷ none ∷ []) (7 ∷ []) received 0 3 ≡ found ++ rest)
    × ((rest ≡ []) ⊎ (max_log_num < length found))
unfolding topics_of position_of addresses_of
get_logs-logs_between_example =
    get_logs-logs_between node busy received 2 asked answers refl (omega arith)

asks_block : get_block_by_number node (number_of (num 1)) ≡ ok (some (busy 1))
unfolding number_of
asks_block = stored_at 1 (omega arith)

tx_stored : All (Stores node) (busy 1).tx_hashes
unfolding get_tx_by_hash insert_receipts insert_receipt insert_txs insert_tx set_block
    set_latest_block new fresh write read mock calc_hash
tx_stored = ((tx, refl, refl, (omega arith, omega arith)), tt)

web3_block_by_number-Placed_example :
    (shown : Web3Block) × (web3_block_by_number (λ h. 500) node (num 1) true ≡ ok (some shown))
    × (shown.hash ≡ block_hash (busy 1))
    × (map hash_in shown.transactions ≡ 55 ∷ [])
    × Placed 1 (block_hash (busy 1)) 0 shown.transactions
unfolding mock
web3_block_by_number-Placed_example =
    web3_block_by_number-Placed (λ h. 500) node (num 1) (busy 1) asks_block tx_stored
