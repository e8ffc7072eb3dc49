-- ===== src/Api/Range/Cut.antt =====
-- What `get_logs` returns for a range: all logs of its blocks that the filter asks for, in order, or
-- a beginning of them that has more than the limit.
use mathlib.Core.List.{append-nil}
use rt_evm.Common.{
  ℕ, zero, suc, ◌+◌, ◌-◌, min, ◌≤◌, ◌<◌, ◌≡◌, ◌⊎◌, inl, inr, refl, sym, ap, ◌∙◌, subst, arith, H160,
  Option, none, some, List, [], ◌++◌, length, true, false, Bool-cases, if◌then◌else◌, ltb, ◌==◌,
  ==→eq, unwrap_or,
}
use rt_evm.Common.Outcome.{Outcome, ok, err, panic, ◌>>=◌}
use rt_evm.Model.Rlp.{Externals}
use rt_evm.Model.Block.{Block}
use rt_evm.Model.Response.{Receipt}
use rt_evm.Store.Table.{Tables}
use rt_evm.Store.Cache.{Caches}
use rt_evm.Store.Trie.{Tries}
use rt_evm.Storage.{get_receipts}
use rt_evm.Api.Logs.{TopicFilter, Web3Log}
use rt_evm.Api.Hub.{convert_or_latest}
use rt_evm.Api.Requests.{Web3Filter, addresses_of, topics_of}
use rt_evm.Api.Backend.{ApiAdapter, get_block_by_number}
use rt_evm.Api.Range.{
  max_log_num, Search, empty_search, extend, logs_of_block, logs_at, visit_one, unless_early, visit,
  visit_last, logs_up_to, get_logs_range, logs_for, get_logs,
}
use rt_evm.Api.Range.Pieces.{
  logs_in, logs_between, Cut, extend-Cut, extend-visited_last, Cut-stop, Cut-next,
}

-- What comes after a chain that returns a value.
>>=-then :
    {A B C : Type 0} (m : Outcome A) (f : A → Outcome B) (g : B → Outcome C) (x : B)
    → (m >>= f) ≡ ok x
    → (m >>= λ v. f v >>= g) ≡ g x
>>=-then (ok v) f g x h = ap (λ o. o >>= g) h
>>=-then (err e) f g x h = cc
>>=-then panic f g x h = cc

module _ ⦃ext : Externals⦄ ⦃tries : Tries⦄ ⦃tables : Tables⦄ ⦃caches : Caches⦄ where
  -- The adapter has the blocks of a chain up to the latest one, `top`, with their receipts.
  pub record Answers (a : ApiAdapter) (chain : ℕ → Block) (receipts : ℕ → List (Option Receipt))
      (top : ℕ) : Type 0 where
    pub newest : get_block_by_number a none ≡ ok (some (chain top))
    pub numbered : (n : ℕ) → n ≤ top → (chain n).header.number ≡ n
    pub stored : (n : ℕ) → n < top → get_block_by_number a (some n) ≡ ok (some (chain n))
    pub received :
        (n : ℕ) → n ≤ top → get_receipts a.storage n (chain n).tx_hashes ≡ ok (receipts n)

  unless_early-on :
      (next : Search → Outcome Search) (found : Search)
      → found.early_return ≡ true
      → unless_early next found ≡ ok found
  unless_early-on next found early = ap (λ t. if t then ok found else next found) early

  unless_early-off :
      (next : Search → Outcome Search) (found : Search)
      → found.early_return ≡ false
      → unless_early next found ≡ next found
  unless_early-off next found on = ap (λ t. if t then ok found else next found) on

  module _ (a : ApiAdapter) (chain : ℕ → Block) (receipts : ℕ → List (Option Receipt)) (top : ℕ)
      (answers : Answers a chain receipts top) (topics : List TopicFilter)
      (addresses : List H160) where
    logs_of_block-extend :
        (n : ℕ) (found : Search)
        → n ≤ top
        → logs_of_block a topics addresses (chain n) found
          ≡ ok (extend topics addresses 0 (receipts n) found)
    unfolding logs_of_block
    logs_of_block-extend n found h = rw (answers.numbered n h, answers.received n h) refl

    visit_one-inner :
        (n : ℕ) (found : Search)
        → n ≤ top
        → n == top ≡ false
        → visit_one a topics addresses top n found
          ≡ ok (extend topics addresses 0 (receipts n) found)
    unfolding visit_one logs_at
    visit_one-inner n found h other =
        rw (other, answers.stored n (ground (arith, other))) (logs_of_block-extend n found h)

    Searches : ℕ → ℕ → Search → Type 0
    Searches n k found =
        (after : Search) × (visit a topics addresses top n k found
            >>= unless_early (visit_last a topics addresses (chain top))
          ≡ ok after)
        × Cut found (logs_between topics addresses receipts n k) after

    -- The latest block is the last of the range.
    search-last :
        (n k : ℕ) (found : Search)
        → n + suc k ≤ suc top
        → found.early_return ≡ false
        → n == top ≡ true
        → Searches n (suc k) found
    unfolding visit visit_one logs_at Searches
    search-last n (suc k) found h on same = absurd (ground (arith, same))
    search-last n zero found h on same =
        let logs = logs_in topics addresses 0 (receipts n) in
        let found' : Search = record {
          all_logs = found.all_logs;
          early_return = false;
          visited_last = true;
        } in
        let after = extend topics addresses 0 (receipts n) found' in
        let cut = extend-Cut topics addresses 0 (receipts n) found' refl in
        (
          after,
          rw (same, on, sym (==→eq n top same)) (logs_of_block-extend n found' (omega (arith, h))),
          subst (λ l. Cut found l after) (sym (append-nil logs))
              (record { rest = cut.rest; split = cut.split; left = cut.left }),
        )

    -- The loop and the latest block, from `n` on.
    search-Cut :
        (n k : ℕ) (found : Search)
        → n + k ≤ suc top
        → found.early_return ≡ false
        → found.visited_last ≡ false
        → Searches n k found
    unfolding visit Searches
    search-Cut n zero found h on before = (
      found,
      rw (on, before) refl,
      record {
        rest = [];
        split = append-nil found.all_logs ∙ sym (append-nil found.all_logs);
        left = inl (on, refl);
      },
    )
    search-Cut n (suc k) found h on before = elim (Bool-cases (n == top)) [
      | inl same ↦ search-last n k found h on same
      | inr other ↦
          let more = extend topics addresses 0 (receipts n) found in
          let step = visit_one-inner n found (omega (arith, h)) other in
          let cut = extend-Cut topics addresses 0 (receipts n) found on in
          let next = visit a topics addresses top (suc n) k in
          let last = unless_early (visit_last a topics addresses (chain top)) in
          elim (Bool-cases more.early_return) [
            | inl early ↦ (
              more,
              rw step (
                  ap (λ m. m >>= last) (unless_early-on next more early)
                  ∙ unless_early-on (visit_last a topics addresses (chain top)) more early),
              Cut-stop found more (logs_in topics addresses 0 (receipts n))
                  (logs_between topics addresses receipts (suc n) k) early cut,
            )
            | inr on' ↦
                let (after, run, cut') =
                  search-Cut (suc n) k more (omega (arith, h)) on'
                    (extend-visited_last topics addresses 0 (receipts n) found ∙ before) in
                (
                  after,
                  rw step (ap (λ m. m >>= last) (unless_early-off next more on') ∙ run),
                  Cut-next found more after (logs_in topics addresses 0 (receipts n))
                      (logs_between topics addresses receipts (suc n) k) on' cut cut',
                )
          ]
    ]

    get_logs_range-Cut :
        (filter : Web3Filter)
        → convert_or_latest top filter.from_block ≤ top
        → (after : Search) × (get_logs_range a topics addresses filter ≡ ok after.all_logs)
          × Cut empty_search
              (logs_between topics addresses receipts (convert_or_latest top filter.from_block) (
                min (convert_or_latest top filter.to_block) top
                + 1
                - convert_or_latest top filter.from_block))
              after
    unfolding get_logs_range logs_up_to Searches
    get_logs_range-Cut filter low =
        let start = convert_or_latest top filter.from_block in
        let end = min (convert_or_latest top filter.to_block) top in
        let (after, run, cut) =
          search-Cut start (end + 1 - start) empty_search (omega (arith, low)) refl refl in
        let inside : ltb top start ≡ false = ground (arith, low) in
        (
          after,
          rw answers.newest (
              ap (logs_up_to a topics addresses filter (chain top))
                (answers.numbered top (omega arith))
              ∙ rw inside (
                  >>=-then (visit a topics addresses top start (end + 1 - start) empty_search)
                    (unless_early (visit_last a topics addresses (chain top)))
                    (λ final. ok final.all_logs) after run)),
          cut,
        )

  -- A request for the logs of a range of blocks that starts no later than the latest one returns all
  -- logs of its blocks that the filter asks for, in order, or a beginning of them that has more than
  -- 10000 logs, where the adapter has the blocks of a chain up to the latest one with their receipts.
  pub get_logs-logs_between :
      (a : ApiAdapter) (chain : ℕ → Block) (receipts : ℕ → List (Option Receipt)) (top : ℕ)
      (filter : Web3Filter)
      → Answers a chain receipts top
      → filter.block_hash ≡ none
      → convert_or_latest top filter.from_block ≤ top
      → (found : List Web3Log) × (rest : List Web3Log) × (get_logs a filter ≡ ok found)
        × (logs_between
              (topics_of filter.topics)
              (unwrap_or (addresses_of filter.address) [])
              receipts
              (convert_or_latest top filter.from_block)
              (min (convert_or_latest top filter.to_block) top
                + 1
                - convert_or_latest top filter.from_block)
            ≡ found ++ rest)
        × ((rest ≡ []) ⊎ (max_log_num < length found))
  unfolding get_logs
  get_logs-logs_between a chain receipts top filter answers ranged low =
      let (after, run, cut) =
        get_logs_range-Cut a chain receipts top answers (topics_of filter.topics)
          (unwrap_or (addresses_of filter.address) []) filter low in
      (
        after.all_logs,
        cut.rest,
        ap
              (logs_for a (topics_of filter.topics) (unwrap_or (addresses_of filter.address) [])
                filter)
              ranged
            ∙ run,
        cut.split,
        elim cut.left [ inl (_, all) ↦ inl all | inr (_, full) ↦ inr full ],
      )
