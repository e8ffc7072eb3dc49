-- ===== src/Api/Subscription.antt =====
-- `Subscription` of crates/api/src/jsonrpc/ws_subscription.rs, the task that sends new blocks and
-- logs to the clients of the websocket server. `step` is one round of its loop: it takes a new
-- client in, or looks for new blocks every three seconds (`notify`). What is sent is returned, in
-- order, with the sink it goes to; a failure to send is ignored. The adapter's reads are those of the
-- storage at the time, and which sinks are closed and the state of the synchronization are arguments.
pub mod Sinks
pub mod Reading
pub mod Headers
pub mod Index
use rt_evm.Common.{
  ℕ, zero, suc, ◌+◌, ◌-◌, ◌%◌, Hash, H160, U256, Option, none, some, List, [], ◌∷◌, ◌++◌, map,
  length, Bool, true, false, ◌==◌, if◌then◌else◌, unwrap_or, u64_mod,
}
use rt_evm.Common.Outcome.{Outcome, ok, or_panic, ◌>>=◌}
use rt_evm.Model.Rlp.{Externals}
use rt_evm.Model.Block.{Block}
use rt_evm.Model.Response.{Receipt}
use rt_evm.Store.Table.{Tables}
use rt_evm.Store.Cache.{Caches}
use rt_evm.Storage.{FunStorage, get_latest_block, get_latest_block_header, get_receipts}
use rt_evm.Api.Logs.{TopicFilter, Web3Log, from_receipt_to_web3_log}
use rt_evm.Api.Hub.{block_or_panic}
use rt_evm.Api.Requests.{MultiType, MultiNestType, addresses_of, topics_of}
use rt_evm.Api.Web3Types.Blocks.{Web3Header, web3_header}

pub record SyncStatus : Type 0 where
  pub starting_block : U256
  pub current_block : U256
  pub highest_block : U256

pub record RawLoggerFilter : Type 0 where
  pub address : MultiType
  pub topics : Option (List MultiNestType)

pub record LoggerFilter : Type 0 where
  pub address : Option (List H160)
  pub topics : List TopicFilter

unfoldable pub from_raw : RawLoggerFilter → LoggerFilter
from_raw src = record { address = addresses_of src.address; topics = topics_of src.topics }

-- A sink is known by its number.
pub record Hub (F : Type 0) : Type 0 where
  pub filter : F
  pub sink : ℕ

pub data SubscriptionType : Type 0 where
  new_heads : SubscriptionType
  for_logs : LoggerFilter → SubscriptionType
  syncing : SubscriptionType

pub data Message : Type 0 where
  header_message : Web3Header → Message
  sync_message : SyncStatus → Message
  log_message : Web3Log → Message

abbrev pub Sent : Type 0
Sent = List (ℕ × Message)

pub record Subscription : Type 0 where
  pub log_hubs : List (Hub LoggerFilter)
  pub header_hubs : List (Hub (Unit {0}))
  pub sync_hubs : List (Hub (Unit {0}))
  pub current_number : ℕ

-- `retain` of the hubs whose sinks are open
unfoldable pub retain_open : {F : Type 0} → (ℕ → Bool) → List (Hub F) → List (Hub F)
retain_open closed [] = []
retain_open closed (hub ∷ hubs) =
    let kept = retain_open closed hubs in if closed hub.sink then kept else hub ∷ kept

unfoldable pub keep_open : (ℕ → Bool) → Subscription → Subscription
keep_open closed sub = record sub {
  log_hubs = retain_open closed sub.log_hubs;
  header_hubs = retain_open closed sub.header_hubs;
  sync_hubs = retain_open closed sub.sync_hubs;
}

abbrev pub send_all : {F : Type 0} → List (Hub F) → Message → Sent
send_all hubs m = map (λ hub. (hub.sink, m)) hubs

abbrev pub is_empty : {A : Type 0} → List A → Bool
is_empty [] = true
is_empty (x ∷ xs) = false

-- An entry of `log_vec`
abbrev pub entry_of : Block → ℕ × List Hash
entry_of b = (b.header.number, b.tx_hashes)

-- The logs of one receipt for each hub, after `index` logs of the block.
unfoldable pub send_receipt : List (Hub LoggerFilter) → ℕ → Receipt → Sent
send_receipt [] index r = []
send_receipt (hub ∷ hubs) index r =
    map (λ log. (hub.sink, log_message log))
      (from_receipt_to_web3_log index hub.filter.topics (unwrap_or hub.filter.address []) r [])
    ++ send_receipt hubs index r

unfoldable pub send_receipts : List (Hub LoggerFilter) → ℕ → List (Option Receipt) → Sent
send_receipts hubs index [] = []
send_receipts hubs index (none ∷ rs) = send_receipts hubs index rs
send_receipts hubs index (some r ∷ rs) =
    send_receipt hubs index r ++ send_receipts hubs (index + length r.logs) rs

module _ ⦃ext : Externals⦄ ⦃tables : Tables⦄ ⦃caches : Caches⦄ where
  unfoldable pub new : FunStorage → Outcome Subscription
  new s = or_panic (get_latest_block_header s) >>= λ last.
      ok (record { log_hubs = []; header_hubs = []; sync_hubs = []; current_number = last.number })

  -- The blocks from `n` on, of which `k` are left.
  unfoldable pub blocks_from : FunStorage → ℕ → ℕ → Outcome (List Block)
  blocks_from s n zero = ok []
  blocks_from s n (suc k) =
      block_or_panic s n >>= λ b. blocks_from s (suc n) k >>= λ bs. ok (b ∷ bs)

  -- `current_number + 1..latest`
  unfoldable pub blocks_between : FunStorage → Subscription → Block → Outcome (List Block)
  blocks_between s sub last =
      let start = (sub.current_number + 1) % u64_mod in
      blocks_from s start (last.header.number - start)

  unfoldable pub send_headers : List (Hub (Unit {0})) → List Block → Sent
  send_headers hubs [] = []
  send_headers hubs (b ∷ bs) =
      send_all hubs (header_message (web3_header b.header)) ++ send_headers hubs bs

  -- Without a hub for headers the blocks between are not read here.
  unfoldable pub notify_headers :
      FunStorage → Subscription → Block → Outcome (Sent × List (ℕ × List Hash))
  notify_headers s sub last =
      if is_empty sub.header_hubs
      then ok ([], [])
      else (blocks_between s sub last >>= λ bs. ok (
        send_headers sub.header_hubs bs
            ++ send_all sub.header_hubs (header_message (web3_header last.header)),
        map entry_of bs,
      ))

  unfoldable pub notify_blocks :
      FunStorage → List (Hub LoggerFilter) → List (ℕ × List Hash) → Outcome Sent
  notify_blocks s hubs [] = ok []
  notify_blocks s hubs ((number, tx_hashes) ∷ rest) =
      or_panic (get_receipts s number tx_hashes) >>= λ receipts.
      notify_blocks s hubs rest >>= λ sent. ok (send_receipts hubs 0 receipts ++ sent)

  -- The blocks between are read here if they were not read for the headers.
  unfoldable pub notify_logs :
      FunStorage → Subscription → Block → List (ℕ × List Hash) → Outcome Sent
  notify_logs s sub last log_vec =
      if is_empty sub.log_hubs
      then ok []
      else ((if is_empty log_vec
            then (blocks_between s sub last >>= λ bs. ok (map entry_of bs))
            else ok log_vec)
          >>= λ entries. notify_blocks s sub.log_hubs (entries ++ entry_of last ∷ []))

  abbrev pub notify_open :
      FunStorage → SyncStatus → Subscription → Block → Outcome (Subscription × Sent)
  notify_open s status sub last =
      if sub.current_number == last.header.number then ok (sub, []) else (do
        (headers, log_vec) ← notify_headers s sub last
        logs ← notify_logs s sub last log_vec
        ok (
          record sub { current_number = last.header.number },
          headers ++ (send_all sub.sync_hubs (sync_message status) ++ logs),
        ))

  unfoldable pub notify :
      FunStorage → (ℕ → Bool) → SyncStatus → Subscription → Outcome (Subscription × Sent)
  notify s closed status sub =
      or_panic (get_latest_block s) >>= notify_open s status (keep_open closed sub)

  -- `push` on the hubs of the type
  unfoldable pub subscribe : SubscriptionType → ℕ → Subscription → Subscription
  subscribe new_heads sink sub = record sub {
    header_hubs = sub.header_hubs ++ record { filter = tt; sink = sink } ∷ [];
  }
  subscribe (for_logs filter) sink sub = record sub {
    log_hubs = sub.log_hubs ++ record { filter = filter; sink = sink } ∷ [];
  }
  subscribe syncing sink sub = record sub {
    sync_hubs = sub.sync_hubs ++ record { filter = tt; sink = sink } ∷ [];
  }

  pub data Event : Type 0 where
    raw_hub : SubscriptionType → ℕ → Event
    tick : FunStorage → (ℕ → Bool) → SyncStatus → Event

  -- One round of the loop of `run`.
  unfoldable pub step : Event → Subscription → Outcome (Subscription × Sent)
  step (raw_hub typ sink) sub = ok (subscribe typ sink sub, [])
  step (tick s closed status) sub = notify s closed status sub
