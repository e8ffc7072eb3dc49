-- ===== src/Api/Range.antt =====
-- `get_logs` of crates/api/src/jsonrpc/impls/web3.rs: the logs of one block or of a range of blocks,
-- cut off when there are too many of them.
pub mod Pieces
pub mod Cut
use rt_evm.Common.{
  ℕ, zero, suc, ◌+◌, ◌-◌, min, Hash, H160, Option, none, some, List, [], ◌∷◌, length, Bool, true,
  false, ltb, ◌==◌, if◌then◌else◌, unwrap_or,
}
use rt_evm.Common.Outcome.{Outcome, ok, err, bad_request, not_found, or_err, ◌>>=◌}
use rt_evm.Model.Rlp.{Externals}
use rt_evm.Model.Block.{Block}
use rt_evm.Model.Response.{Receipt}
use rt_evm.Store.Table.{Tables}
use rt_evm.Store.Cache.{Caches}
use rt_evm.Store.Trie.{Tries}
use rt_evm.Storage.{get_receipts, get_block_by_hash}
use rt_evm.Api.Logs.{TopicFilter, Web3Log, from_receipt_to_web3_log}
use rt_evm.Api.Hub.{expect, convert_or_latest}
use rt_evm.Api.Requests.{Web3Filter, addresses_of, topics_of}
use rt_evm.Api.Backend.{ApiAdapter, get_block_by_number}

abbrev pub max_log_num : ℕ
max_log_num = 10_000

-- `all_logs`, `early_return` and `visiter_last_block`
pub record Search : Type 0 where
  pub all_logs : List Web3Log
  pub early_return : Bool
  pub visited_last : Bool

abbrev pub empty_search : Search
empty_search = record { all_logs = []; early_return = false; visited_last = false }

-- The closure `extend_logs`.
unfoldable pub extend : List TopicFilter → List H160 → ℕ → List (Option Receipt) → Search → Search
extend topics addresses index [] found = found
extend topics addresses index (none ∷ rs) found = extend topics addresses index rs found
extend topics addresses index (some r ∷ rs) found =
    let more = from_receipt_to_web3_log index topics addresses r found.all_logs in
    let rest = extend topics addresses (suc index) rs (record found { all_logs = more }) in
    if ltb max_log_num (length more)
    then record found { all_logs = more; early_return = true }
    else rest

pub data BlockPosition : Type 0 where
  by_hash : Hash → BlockPosition
  by_number : ℕ → BlockPosition
  by_block : Block → BlockPosition

module _ ⦃ext : Externals⦄ ⦃tries : Tries⦄ ⦃tables : Tables⦄ ⦃caches : Caches⦄ where
  unfoldable pub logs_of_block :
      ApiAdapter → List TopicFilter → List H160 → Block → Search → Outcome Search
  logs_of_block a topics addresses b found =
      get_receipts a.storage b.header.number b.tx_hashes >>= λ receipts.
      ok (extend topics addresses 0 receipts found)

  -- The inner function `get_logs`.
  unfoldable pub logs_at :
      ApiAdapter → List TopicFilter → List H160 → BlockPosition → Search → Outcome Search
  logs_at a topics addresses (by_hash h) found = get_block_by_hash a.storage h >>= λ b.
      or_err b not_found >>= λ block. logs_of_block a topics addresses block found
  logs_at a topics addresses (by_number n) found =
      get_block_by_number a (some n) >>= expect >>= λ block.
      logs_of_block a topics addresses block found
  logs_at a topics addresses (by_block block) found = logs_of_block a topics addresses block found

  -- One round of the loop; the latest block is left for the end.
  unfoldable pub visit_one :
      ApiAdapter → List TopicFilter → List H160 → ℕ → ℕ → Search → Outcome Search
  visit_one a topics addresses latest_number n found =
      if n == latest_number
      then ok (record found { visited_last = true })
      else logs_at a topics addresses (by_number n) found

  abbrev pub unless_early : (Search → Outcome Search) → Search → Outcome Search
  unless_early next found = if found.early_return then ok found else next found

  -- The loop over the blocks from `n` on, of which `k` are left.
  unfoldable pub visit :
      ApiAdapter → List TopicFilter → List H160 → ℕ → ℕ → ℕ → Search → Outcome Search
  visit a topics addresses latest_number n zero found = ok found
  visit a topics addresses latest_number n (suc k) found =
      visit_one a topics addresses latest_number n found
      >>= unless_early (visit a topics addresses latest_number (suc n) k)

  -- The latest block, if it is in the range and the loop was not left early.
  abbrev pub visit_last :
      ApiAdapter → List TopicFilter → List H160 → Block → Search → Outcome Search
  visit_last a topics addresses last found =
      if found.visited_last then logs_at a topics addresses (by_block last) found else ok found

  unfoldable pub logs_up_to :
      ApiAdapter → List TopicFilter → List H160 → Web3Filter → Block → ℕ → Outcome (List Web3Log)
  logs_up_to a topics addresses filter last latest_number =
      let start = convert_or_latest latest_number filter.from_block in
      let end = min (convert_or_latest latest_number filter.to_block) latest_number in
      if ltb latest_number start then err bad_request else (do
        visited ← visit a topics addresses latest_number start (end + 1 - start) empty_search
        final ← unless_early (visit_last a topics addresses last) visited
        ok final.all_logs)

  unfoldable pub get_logs_range :
      ApiAdapter → List TopicFilter → List H160 → Web3Filter → Outcome (List Web3Log)
  get_logs_range a topics addresses filter = get_block_by_number a none >>= expect >>= λ last.
      logs_up_to a topics addresses filter last last.header.number

  -- `match filter.block_hash`
  abbrev pub logs_for :
      ApiAdapter → List TopicFilter → List H160 → Web3Filter → Option Hash → Outcome (List Web3Log)
  logs_for a topics addresses filter none = get_logs_range a topics addresses filter
  logs_for a topics addresses filter (some h) =
      logs_at a topics addresses (by_hash h) empty_search >>= λ found. ok found.all_logs

  unfoldable pub get_logs : ApiAdapter → Web3Filter → Outcome (List Web3Log)
  get_logs a filter =
      logs_for a (topics_of filter.topics) (unwrap_or (addresses_of filter.address) []) filter
        filter.block_hash
