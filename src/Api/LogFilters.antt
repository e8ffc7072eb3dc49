-- ===== src/Api/LogFilters.antt =====
-- What the requests of a filter for logs return (`filter_logs` of
-- crates/api/src/jsonrpc/impls/filter.rs), while the chain grows.
use mathlib.Core.List.{append_assoc, append-nil}
use rt_evm.Common.{
  ℕ, zero, suc, ◌+◌, ◌-◌, ◌%◌, ◌^◌, min, ◌≤◌, ◌<◌, ◌≡◌, refl, inl, inr, Bool-cases, sym, ap, ◌∙◌,
  subst, arith, Option, none, some, List, [], ◌++◌, Bool, true, false, ltb, ◌==◌, ==_refl,
  unwrap_or, u64_mod,
}
use rt_evm.Common.Outcome.{ok}
use rt_evm.Common.Map.{lookup, insert, lookup-insert}
use rt_evm.Model.Rlp.{Externals}
use rt_evm.Model.Block.{Block}
use rt_evm.Model.Response.{Receipt}
use rt_evm.Store.Table.{Tables}
use rt_evm.Store.Cache.{Caches}
use rt_evm.Storage.{FunStorage, get_latest_block, get_receipts}
use rt_evm.Api.Logs.{num, LoggerFilter, Web3Log}
use rt_evm.Api.Hub.{
  FilterHub, logs, changes, filter_request, convert_or_latest, logs_of_block, visit_one, visit,
  filter_logs, reply_logs, impl_filter, handle,
}
use rt_evm.Api.Blocks.{Holds}
use rt_evm.Api.Range.Pieces.{
  logs_in, logs_between, extend_logs-logs_in, logs_between-append, logs_between-top,
}

-- The logs of a filter in the blocks from `n` on, `k` of them.
abbrev pub logs_for_filter : LoggerFilter → (ℕ → List (Option Receipt)) → ℕ → ℕ → List Web3Log
logs_for_filter filter receipts n k =
    logs_between filter.topics (unwrap_or filter.address []) receipts n k

-- The filter, with another block to start from.
abbrev pub from_number : ℕ → LoggerFilter → LoggerFilter
from_number n filter = record filter { from_block = some (num n) }

module _ ⦃ext : Externals⦄ ⦃tables : Tables⦄ ⦃caches : Caches⦄ where
  -- The storage has the blocks of a chain up to the latest one, `top`, with their receipts.
  pub record HasReceipts (s : FunStorage) (chain : ℕ → Block) (receipts : ℕ → List (Option Receipt))
      (top : ℕ) : Type 0 where
    pub newest : get_latest_block s ≡ ok (chain top)
    pub numbered : (n : ℕ) → n ≤ top → (chain n).header.number ≡ n
    pub stored : Holds s chain top
    pub received : (n : ℕ) → n ≤ top → get_receipts s n (chain n).tx_hashes ≡ ok (receipts n)

  module _ (s : FunStorage) (chain : ℕ → Block) (receipts : ℕ → List (Option Receipt)) (top : ℕ)
      (has : HasReceipts s chain receipts top) (filter : LoggerFilter) where
    logs_of_block-logs_in :
        (n : ℕ) (found : List Web3Log)
        → n ≤ top
        → logs_of_block s filter (chain n) found
          ≡ ok (found ++ logs_in filter.topics (unwrap_or filter.address []) 0 (receipts n))
    logs_of_block-logs_in n found h =
        rw
          (
            has.numbered n h,
            has.received n h,
            extend_logs-logs_in filter.topics (unwrap_or filter.address []) 0 found (receipts n),
          )
          refl

    -- The loop up to the latest block, which is left for the end.
    visit-logs_between :
        (n k : ℕ) (found : List Web3Log) (last : Bool)
        → n + k ≡ top
        → visit s filter top n (suc k) (found, last)
          ≡ ok (found ++ logs_for_filter filter receipts n k, true)
    unfolding visit visit_one
    visit-logs_between n zero found last h =
        let same : n ≡ top = omega (arith, h) in
        let here : n == top ≡ true = subst (λ m. n == m ≡ true) same (==_refl n) in
        rw here (ap (λ l. ok (l, true)) (sym (append-nil found)))
    visit-logs_between n (suc k) found last h =
        let other : n == top ≡ false = ground (arith, h) in
        let here = logs_in filter.topics (unwrap_or filter.address []) 0 (receipts n) in
        rw
          (other, has.stored n (omega (arith, h)), logs_of_block-logs_in n found (omega (arith, h)))
          (visit-logs_between (suc n) k (found ++ here) last (omega (arith, h))
            ∙ ap (λ l. ok (l, true))
                (append_assoc found here (logs_for_filter filter receipts (suc n) k)))

  -- A request that finds blocks to look at.
  filter_logs-logs_for_filter :
      (s : FunStorage) (chain : ℕ → Block) (receipts : ℕ → List (Option Receipt)) (top now : ℕ)
      (hub : FilterHub) (filter : LoggerFilter) (id start time : ℕ)
      → HasReceipts s chain receipts top
      → start ≤ top
      → suc top < 2 ^ 64
      → filter.to_block ≡ none
      → filter_logs s now hub id (from_number start filter, time)
        ≡ ok (
          record hub { logs_hub = insert id (from_number (suc top) filter, now) hub.logs_hub },
          logs_for_filter filter receipts start (suc top - start),
        )
  unfolding filter_logs
  filter_logs-logs_for_filter s chain receipts top now hub filter id start time has low fits
        open_end =
      let end : min (convert_or_latest top filter.to_block) top ≡ top = rw open_end (omega arith) in
      let size : min (convert_or_latest top filter.to_block) top + 1 - start ≡ suc (top - start) =
        omega (arith, low, end) in
      let wraps : (min (convert_or_latest top filter.to_block) top + 1) % u64_mod ≡ suc top =
        omega (arith, fits, end) in
      let inside : ltb top start ≡ false = ground (arith, low) in
      let addresses = unwrap_or filter.address [] in
      rw
        (
          has.newest,
          has.numbered top (omega arith),
          inside,
          size,
          visit-logs_between s chain receipts top has (from_number start filter) start (top - start)
              [] false (omega (arith, low)),
          has.received top (omega arith),
          extend_logs-logs_in filter.topics addresses 0
              (logs_for_filter filter receipts start (top - start)) (receipts top),
          wraps,
          logs_between-top filter.topics addresses receipts start top low,
        )
        refl

  filter_request-logs_for_filter :
      (s : FunStorage) (chain : ℕ → Block) (receipts : ℕ → List (Option Receipt)) (top now : ℕ)
      (hub : FilterHub) (filter : LoggerFilter) (id start time : ℕ)
      → HasReceipts s chain receipts top
      → start ≤ suc top
      → suc top < 2 ^ 64
      → filter.to_block ≡ none
      → lookup id hub.blocks_hub ≡ none
      → lookup id hub.logs_hub ≡ some (from_number start filter, time)
      → (hub' : FilterHub) × (time' : ℕ) × (handle s now hub (filter_request id)
          ≡ ok (hub', changes (logs (logs_for_filter filter receipts start (suc top - start)))))
        × (lookup id hub'.blocks_hub ≡ none)
        × (lookup id hub'.logs_hub ≡ some (from_number (suc top) filter, time'))
  unfolding handle impl_filter filter_logs
  filter_request-logs_for_filter s chain receipts top now hub filter id start time has low fits
        open_end no_blocks found =
      elim (Bool-cases (ltb top start)) [
        | inl past ↦
            let same : start ≡ suc top = ground (arith, past) in
            let nothing : suc top - start ≡ 0 = omega (arith, same) in
            (
              hub,
              time,
              rw (no_blocks, found, has.newest, has.numbered top (omega arith), past, nothing) refl,
              no_blocks,
              subst (λ m. lookup id hub.logs_hub ≡ some (from_number m filter, time)) same found,
            )
        | inr inside ↦
            let answer =
              filter_logs-logs_for_filter s chain receipts top now hub filter id start time has
                (ground (arith, inside)) fits open_end in
            (
              record hub { logs_hub = insert id (from_number (suc top) filter, now) hub.logs_hub },
              now,
              rw (no_blocks, found) (ap (reply_logs hub id) answer),
              no_blocks,
              lookup-insert id id (from_number (suc top) filter, now) hub.logs_hub
                  ∙ rw (==_refl id) refl,
            )
      ]

  -- Two requests of a filter for logs that has no last block, with any growth of the chain between
  -- them, return together the logs that the filter asks for in the blocks from its start up to the
  -- latest one at the second request, once and in order. The storage has the blocks of the chain and
  -- their receipts both times, the start is at most one past the latest block of the first, and no
  -- filter for blocks has the identifier.
  pub filter_request-logs_between :
      (s s' : FunStorage) (chain : ℕ → Block) (receipts : ℕ → List (Option Receipt)) (now now' : ℕ)
      (hub : FilterHub) (filter : LoggerFilter) (id start time top top' : ℕ)
      → HasReceipts s chain receipts top
      → HasReceipts s' chain receipts top'
      → start ≤ suc top
      → top ≤ top'
      → suc top' < 2 ^ 64
      → filter.from_block ≡ some (num start)
      → filter.to_block ≡ none
      → lookup id hub.blocks_hub ≡ none
      → lookup id hub.logs_hub ≡ some (filter, time)
      → (hub1 : FilterHub) × (hub2 : FilterHub) × (first : List Web3Log) × (second : List Web3Log)
        × (handle s now hub (filter_request id) ≡ ok (hub1, changes (logs first)))
        × (handle s' now' hub1 (filter_request id) ≡ ok (hub2, changes (logs second)))
        × (first ++ second
            ≡ logs_between filter.topics
                (unwrap_or filter.address [])
                receipts
                start
                (suc top' - start))
  filter_request-logs_between s s' chain receipts now now' hub filter id start time top top' has
        has' low grows fits begins open_end no_blocks found =
      let own : filter ≡ from_number start filter =
        ap (λ b. record filter { from_block = b }) begins in
      let (hub1, time1, run1, none1, found1) =
        filter_request-logs_for_filter s chain receipts top now hub filter id start time has low
          (omega (arith, grows, fits)) open_end no_blocks (found ∙ ap (λ f. some (f, time)) own) in
      let (hub2, _, run2, _, _) =
        filter_request-logs_for_filter s' chain receipts top' now' hub1 filter id (suc top) time1
          has' (omega (arith, grows)) fits open_end none1 found1 in
      let next : start + (suc top - start) ≡ suc top = omega (arith, low) in
      let size : suc top - start + (suc top' - suc top) ≡ suc top' - start =
        omega (arith, low, grows) in
      let addresses = unwrap_or filter.address [] in
      (
        hub1,
        hub2,
        logs_for_filter filter receipts start (suc top - start),
        logs_for_filter filter receipts (suc top) (suc top' - suc top),
        run1,
        run2,
        ap
              (λ m.
                logs_for_filter filter receipts start (suc top - start)
                ++ logs_for_filter filter receipts m (suc top' - suc top))
              (sym next)
            ∙ sym (
                logs_between-append filter.topics addresses receipts start (suc top - start)
                  (suc top' - suc top))
            ∙ ap (logs_for_filter filter receipts start) size,
      )
