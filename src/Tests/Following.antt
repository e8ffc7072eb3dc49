-- ===== src/Tests/Following.antt =====
-- Clients of the websocket server, and filters for logs, while a small chain grows.
use rt_evm.Common.{
  ℕ, zero, suc, ◌<◌, ◌≤◌, ◌≡◌, refl, arith, none, some, List, [], ◌∷◌, ◌++◌, false, All,
}
use rt_evm.Common.Outcome.{ok}
use rt_evm.Model.Response.{Receipt}
use rt_evm.Model.Block.{mock}
use rt_evm.Store.Cached.{fresh, write, read}
use rt_evm.Storage.{
  new, set_block, set_latest_block, get_latest_block, get_block, insert_receipts, insert_receipt,
  get_receipts, insert_txs, insert_tx,
}
use rt_evm.Api.Logs.{num, Web3Log}
use rt_evm.Api.Blocks.{Follows}
use rt_evm.Api.Range.Pieces.{logs_between}
use rt_evm.Api.Subscription.{
  Hub, LoggerFilter, SyncStatus, Subscription, Sent, entry_of, send_receipt, send_receipts,
  retain_open, notify,
}
use rt_evm.Api.Subscription.Headers.{notify-twice}
use rt_evm.Api.Subscription.Reading.{Received}
use rt_evm.Api.Subscription.Sinks.{headers_for, headers_between}
use rt_evm.Api.Subscription.Index.{HasIndex, send_receipts-HasIndex}
use rt_evm.Tests.World.{externals, tables, caches, tries}
use rt_evm.Tests.Searching.{busy, receipt, short, long, received, stored, receipts_read}
use rt_evm.Common.Map.{lookup}
use rt_evm.Api.Logs
use rt_evm.Api.Hub.{FilterHub, filter_request, changes, logs, handle}
use rt_evm.Api.LogFilters.{HasReceipts, filter_request-logs_between}

stored_short : (n : ℕ) → n < 1 → get_block short n ≡ ok (some (busy n))
unfolding get_block insert_receipts insert_receipt insert_txs insert_tx set_block set_latest_block
    new fresh write read mock
stored_short zero h = refl
stored_short (suc n) h = absurd (omega arith)

short-Follows : Follows short busy 1
unfolding get_latest_block insert_receipts insert_receipt insert_txs insert_tx set_block
    set_latest_block new mock
short-Follows = (refl, refl, stored_short)

long-Follows : Follows long busy 2
unfolding get_latest_block insert_receipts insert_receipt insert_txs insert_tx set_block
    set_latest_block new mock
long-Follows = (refl, refl, stored)

long-Received : (n : ℕ) → n ≤ 2 → Received long (entry_of (busy n))
unfolding mock
long-Received n h = (received n, receipts_read n h)

short-Received : (n : ℕ) → n ≤ 1 → Received short (entry_of (busy n))
unfolding get_receipts insert_receipts insert_receipt insert_txs insert_tx set_block
    set_latest_block new fresh write read mock
short-Received zero h = ([], refl)
short-Received (suc zero) h = (some receipt ∷ [], refl)
short-Received (suc (suc n)) h = absurd (omega arith)

-- A client for headers, whose sink is 4, and one for logs.
abbrev clients : Subscription
clients = record {
  log_hubs = record { filter = record { address = none; topics = [] }; sink = 3 } ∷ [];
  header_hubs = record { filter = tt; sink = 4 } ∷ [];
  sync_hubs = [];
  current_number = 0;
}

abbrev in_sync : SyncStatus
in_sync = record { starting_block = 0; current_block = 0; highest_block = 0 }

notify-twice_example :
    (sub1 : Subscription) × (sub2 : Subscription) × (first : Sent) × (second : Sent) × (notify short
        (λ sink. false)
        in_sync
        clients
      ≡ ok (sub1, first))
    × (notify long (λ sink. false) in_sync sub1 ≡ ok (sub2, second))
    × (headers_for 4 first ++ headers_for 4 second ≡ headers_between busy 0 2)
unfolding retain_open
notify-twice_example =
    notify-twice short long busy 1 2 (λ sink. false) (λ sink. false) in_sync in_sync clients 4
      short-Follows long-Follows short-Received long-Received (omega arith) (omega arith)
      (omega arith) refl refl

abbrev log_hub : Hub LoggerFilter
log_hub = record { filter = record { address = none; topics = [] }; sink = 3 }

abbrev with_two_logs : Receipt
with_two_logs = record receipt { logs = receipt.logs ++ receipt.logs }

-- The logs of the second transaction, which has the index 1 in its block, get the index 2.
send_receipts-HasIndex_example :
    (send_receipts (log_hub ∷ []) 0 (some with_two_logs ∷ some receipt ∷ [])
      ≡ send_receipts (log_hub ∷ []) 0 (some with_two_logs ∷ [])
        ++ (send_receipt (log_hub ∷ []) 2 receipt ++ send_receipts (log_hub ∷ []) 3 []))
    × All (λ e. HasIndex 2 e.1) (send_receipt (log_hub ∷ []) 2 receipt)
send_receipts-HasIndex_example =
    send_receipts-HasIndex (log_hub ∷ []) 0 (some with_two_logs ∷ []) receipt []

short_receipts : (n : ℕ) → n ≤ 1 → get_receipts short n (busy n).tx_hashes ≡ ok (received n)
unfolding get_receipts insert_receipts insert_receipt insert_txs insert_tx set_block
    set_latest_block new fresh write read mock
short_receipts zero h = refl
short_receipts (suc zero) h = refl
short_receipts (suc (suc n)) h = absurd (omega arith)

numbered : (n : ℕ) → (busy n).header.number ≡ n
unfolding mock
numbered n = refl

short-HasReceipts : HasReceipts short busy received 1
short-HasReceipts = record {
  newest = short-Follows.0;
  numbered = λ n h. numbered n;
  stored = stored_short;
  received = short_receipts;
}

long-HasReceipts : HasReceipts long busy received 2
long-HasReceipts = record {
  newest = long-Follows.0;
  numbered = λ n h. numbered n;
  stored = stored;
  received = receipts_read;
}

abbrev logs_of_seven : Logs.LoggerFilter
logs_of_seven = record {
  from_block = some (num 0);
  to_block = none;
  address = some (7 ∷ []);
  topics = [];
}

abbrev waiting : FilterHub
waiting = record { logs_hub = (1, (logs_of_seven, 100)) ∷ []; blocks_hub = []; id = 1 }

filter_request-logs_between_example :
    (hub1 : FilterHub) × (hub2 : FilterHub) × (first : List Web3Log) × (second : List Web3Log)
    × (handle short 110 waiting (filter_request 1) ≡ ok (hub1, changes (logs first)))
    × (handle long 120 hub1 (filter_request 1) ≡ ok (hub2, changes (logs second)))
    × (first ++ second ≡ logs_between [] (7 ∷ []) received 0 3)
unfolding lookup
filter_request-logs_between_example =
    filter_request-logs_between short long busy received 110 120 waiting logs_of_seven 1 0 100 1 2
      short-HasReceipts long-HasReceipts (omega arith) (omega arith) (omega arith) refl refl refl
      refl
