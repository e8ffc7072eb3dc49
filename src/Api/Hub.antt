-- ===== src/Api/Hub.antt =====
-- `FilterHub` of crates/api/src/jsonrpc/impls/filter.rs. The hub is a task that handles one command
-- after another and looks for old filters in between: `handle` and `check_hubs` are its steps. A
-- reply is returned; the senders of commands wait for it. Time is in seconds, and the
-- adapter's reads are those of the storage.
use rt_evm.Common.{
  ℕ, zero, suc, ◌+◌, ◌-◌, ◌%◌, min, Hash, Option, none, some, List, [], ◌∷◌, ◌++◌, Bool, true,
  false, ltb, leb, ◌==◌, if◌then◌else◌, is_some, unwrap_or, u64_mod,
}
use rt_evm.Common.Outcome.{Outcome, ok, err, panic, Error, not_found, or_panic, ◌>>=◌}
use rt_evm.Common.Map.{Map, lookup, insert, remove}
use rt_evm.Model.Rlp.{Externals}
use rt_evm.Model.Block.{Block, block_hash}
use rt_evm.Store.Table.{Tables}
use rt_evm.Store.Cache.{Caches}
use rt_evm.Storage.{FunStorage, get_block, get_latest_block, get_latest_block_header, get_receipts}
use rt_evm.Api.Logs.{BlockId, num, latest, earliest, pending, LoggerFilter, Web3Log, extend_logs}

pub data FilterChanges : Type 0 where
  blocks : List Hash → FilterChanges
  logs : List Web3Log → FilterChanges

pub data Command : Type 0 where
  new_logs : LoggerFilter → Command
  new_blocks : Command
  filter_request : ℕ → Command
  uninstall : ℕ → Command

pub data Reply : Type 0 where
  filter_id : ℕ → Reply
  changes : FilterChanges → Reply
  refused : Error → Reply
  removed : Bool → Reply

pub record FilterHub : Type 0 where
  pub logs_hub : Map (LoggerFilter × ℕ)
  pub blocks_hub : Map (ℕ × ℕ)
  pub id : ℕ

unfoldable pub new : FilterHub
new = record { logs_hub = []; blocks_hub = []; id = 0 }

-- `retain` of the entries that are younger than 40 seconds
unfoldable pub retain : {A : Type 0} → ℕ → Map (A × ℕ) → Map (A × ℕ)
retain now [] = []
retain now ((id, (a, time)) ∷ rest) =
    let kept = retain now rest in if ltb (now - time) 40 then (id, (a, time)) ∷ kept else kept

unfoldable pub check_hubs : ℕ → FilterHub → FilterHub
check_hubs now hub = record hub {
  blocks_hub = retain now hub.blocks_hub;
  logs_hub = retain now hub.logs_hub;
}

-- The first block that a new filter for logs asks for.
abbrev pub first_block : ℕ → LoggerFilter → LoggerFilter
first_block number filter = elim (unwrap_or filter.from_block latest) [
  | num n ↦
      if ltb n number
      then record filter { from_block = some (num ((number + 1) % u64_mod)) }
      else filter
  | latest ↦ record filter { from_block = some (num ((number + 1) % u64_mod)) }
  | earliest ↦ record filter { from_block = some (num ((number + 1) % u64_mod)) }
  | pending ↦ record filter { from_block = some (num ((number + 1) % u64_mod)) }
]

-- The closure `convert`.
abbrev pub convert : ℕ → BlockId → ℕ
convert number (num n) = n
convert number earliest = 0
convert number latest = number
convert number pending = number

abbrev pub convert_or_latest : ℕ → Option BlockId → ℕ
convert_or_latest number none = number
convert_or_latest number (some b) = convert number b

-- `*n = end + 1` where the filter starts at a number
abbrev pub advance : ℕ → LoggerFilter → Option BlockId → LoggerFilter
advance end filter (some (num n)) = record filter { from_block = some (num ((end + 1) % u64_mod)) }
advance end filter (some latest) = filter
advance end filter (some earliest) = filter
advance end filter (some pending) = filter
advance end filter none = filter

-- `unwrap` on an `Option`
abbrev pub expect : {A : Type 0} → Option A → Outcome A
expect none = panic
expect (some a) = ok a

module _ ⦃ext : Externals⦄ ⦃tables : Tables⦄ ⦃caches : Caches⦄ where
  abbrev pub block_or_panic : FunStorage → ℕ → Outcome Block
  block_or_panic s n = or_panic (get_block s n) >>= expect

  -- The hashes of the blocks from `number` on, of which `k` are left.
  unfoldable pub hashes_from : FunStorage → ℕ → ℕ → Outcome (List Hash)
  hashes_from s number zero = ok []
  hashes_from s number (suc k) =
      block_or_panic s number >>= λ b. hashes_from s (suc number) k >>= λ hs. ok (block_hash b ∷ hs)

  -- The hashes of the blocks after the last request, and the number for the next one.
  unfoldable pub filter_block :
      FunStorage → ℕ → FilterHub → ℕ → ℕ × ℕ → Outcome (FilterHub × List Hash)
  filter_block s now hub id (start, time) = or_panic (get_latest_block s) >>= λ last.
      if leb last.header.number start
      then ok (hub, [])
      else (hashes_from s (start + 1) (last.header.number - (start + 1)) >>= λ hs. ok (
        record hub { blocks_hub = insert id (last.header.number, now) hub.blocks_hub },
        hs ++ block_hash last ∷ [],
      ))

  abbrev pub addresses_of : LoggerFilter → List ℕ
  addresses_of filter = unwrap_or filter.address []

  abbrev pub logs_of_block :
      FunStorage → LoggerFilter → Block → List Web3Log → Outcome (List Web3Log)
  logs_of_block s filter b all_logs = get_receipts s b.header.number b.tx_hashes >>= λ receipts.
      ok (extend_logs filter.topics (addresses_of filter) 0 all_logs receipts)

  -- One round of the loop; the latest block is left for the end.
  unfoldable pub visit_one :
      FunStorage → LoggerFilter → ℕ → ℕ → List Web3Log × Bool → Outcome (List Web3Log × Bool)
  visit_one s filter latest_number n (all_logs, last) =
      if n == latest_number
      then ok (all_logs, true)
      else (get_block s n >>= expect >>= λ b.
          logs_of_block s filter b all_logs >>= λ more. ok (more, last))

  -- The loop over the blocks from `n` on, of which `k` are left; the flag says that the latest
  -- block is among them.
  unfoldable pub visit :
      FunStorage → LoggerFilter → ℕ → ℕ → ℕ → List Web3Log × Bool → Outcome (List Web3Log × Bool)
  visit s filter latest_number n zero found = ok found
  visit s filter latest_number n (suc k) found =
      visit_one s filter latest_number n found >>= visit s filter latest_number (suc n) k

  unfoldable pub filter_logs :
      FunStorage → ℕ → FilterHub → ℕ → LoggerFilter × ℕ → Outcome (FilterHub × List Web3Log)
  filter_logs s now hub id (filter, time) = do
    last ← get_latest_block s
    let latest_number = last.header.number
    let start = convert_or_latest latest_number filter.from_block
    let end = min (convert_or_latest latest_number filter.to_block) latest_number
    if ltb latest_number start then ok (hub, []) else do
      (all_logs, visiter_last_block) ←
          visit s filter latest_number start (end + 1 - start) ([], false)
      final ← if visiter_last_block then logs_of_block s filter last all_logs else ok all_logs
      ok (
        record hub {
          logs_hub = insert id (advance end filter filter.from_block, now) hub.logs_hub;
        },
        final,
      )

  -- An error removes the filter for logs.
  abbrev pub reply_logs :
      FilterHub → ℕ → Outcome (FilterHub × List Web3Log) → Outcome (FilterHub × Reply)
  reply_logs hub id (ok (hub', ls)) = ok (hub', changes (logs ls))
  reply_logs hub id (err e) = ok (record hub { logs_hub = remove id hub.logs_hub }, refused e)
  reply_logs hub id panic = panic

  abbrev pub request_logs :
      FunStorage → ℕ → FilterHub → ℕ → Option (LoggerFilter × ℕ) → Outcome (FilterHub × Reply)
  request_logs s now hub id none = ok (hub, refused not_found)
  request_logs s now hub id (some f) = reply_logs hub id (filter_logs s now hub id f)

  abbrev pub request : FunStorage → ℕ → FilterHub → ℕ → Option (ℕ × ℕ) → Outcome (FilterHub × Reply)
  request s now hub id none = request_logs s now hub id (lookup id hub.logs_hub)
  request s now hub id (some b) =
      filter_block s now hub id b >>= λ r. ok (r.0, changes (blocks r.1))

  unfoldable pub impl_filter : FunStorage → ℕ → FilterHub → ℕ → Outcome (FilterHub × Reply)
  impl_filter s now hub id = request s now hub id (lookup id hub.blocks_hub)

  -- `||` leaves the filters for logs alone where a filter for blocks was removed.
  unfoldable pub remove_filter : FilterHub → ℕ → FilterHub × Bool
  remove_filter hub id =
      if is_some (lookup id hub.blocks_hub)
      then (record hub { blocks_hub = remove id hub.blocks_hub }, true)
      else (record hub { logs_hub = remove id hub.logs_hub }, is_some (lookup id hub.logs_hub))

  unfoldable pub handle : FunStorage → ℕ → FilterHub → Command → Outcome (FilterHub × Reply)
  handle s now hub (new_logs filter) = or_panic (get_latest_block_header s) >>= λ header.
      let id = (hub.id + 1) % u64_mod in
      ok (
        record hub {
          id = id;
          logs_hub = insert id (first_block header.number filter, now) hub.logs_hub;
        },
        filter_id id,
      )
  handle s now hub new_blocks = or_panic (get_latest_block_header s) >>= λ header.
      let id = (hub.id + 1) % u64_mod in
      ok (
        record hub { id = id; blocks_hub = insert id (header.number, now) hub.blocks_hub },
        filter_id id,
      )
  handle s now hub (filter_request id) = impl_filter s now hub id
  handle s now hub (uninstall id) = let r = remove_filter hub id in ok (r.0, removed r.1)
