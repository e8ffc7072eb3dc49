-- ===== src/Tests/Filtering.antt =====
-- Filters of the JSON-RPC servers on a small chain.
use rt_evm.Common.{
  ℕ, zero, suc, ◌<◌, ◌≡◌, refl, arith, Hash, none, some, List, [], ◌∷◌, ◌++◌, ◌&&◌, leb,
}
use rt_evm.Common.Outcome.{ok}
use rt_evm.Common.Map.{lookup, insert}
use rt_evm.Model.Block.{Block, mock}
use rt_evm.Store.Cached.{fresh, write, read}
use rt_evm.Storage.{
  FunStorage, new, set_block, set_latest_block, get_latest_block, get_block,
  get_latest_block_header,
}
use rt_evm.Api.Logs.{contains_topic, matches, contains_topic-matches}
use rt_evm.Api.Hub.{
  FilterHub, Reply, changes, blocks, filter_id, new_blocks, filter_request, handle,
}
use rt_evm.Api.Hub
use rt_evm.Api.Blocks.{Follows, hashes_between, filter_request-twice}
use rt_evm.Api.Invariant.{IsConsistent}
use rt_evm.Api.Steps.{begun, handled, Steps-new-IsConsistent}
use rt_evm.Tests.World.{externals, tables, caches}

abbrev chain_block : ℕ → Block
chain_block n = mock 152 n 1 n

-- Storages with the blocks below 2 and below 3.
abbrev short : FunStorage
short = set_block (set_block new (chain_block 0)) (chain_block 1)

abbrev long : FunStorage
long = set_block short (chain_block 2)

abbrev watching : FilterHub
watching = record { logs_hub = []; blocks_hub = (1, (0, 100)) ∷ []; id = 1 }

contains_topic-matches_example :
    contains_topic (some (some 7 ∷ []) ∷ none ∷ []) (7 ∷ 8 ∷ [])
    ≡ (leb 2 4 && matches (some (some 7 ∷ []) ∷ none ∷ []) (7 ∷ 8 ∷ []))
contains_topic-matches_example =
    contains_topic-matches (some (some 7 ∷ []) ∷ none ∷ []) (7 ∷ 8 ∷ [])

short_blocks : (n : ℕ) → n < 1 → get_block short n ≡ ok (some (chain_block n))
unfolding get_block set_block set_latest_block new fresh write read mock
short_blocks zero h = refl
short_blocks (suc n) h = absurd (omega arith)

Steps-new-IsConsistent_example :
    IsConsistent (record { logs_hub = []; blocks_hub = (1, (1, 50)) ∷ []; id = 1 })
unfolding Hub.new handle insert set_block set_latest_block get_latest_block_header get_latest_block
    new mock
Steps-new-IsConsistent_example =
    Steps-new-IsConsistent (record { logs_hub = []; blocks_hub = (1, (1, 50)) ∷ []; id = 1 })
      (handled begun short 50 new_blocks (filter_id 1) (omega arith) refl)

long_blocks : (n : ℕ) → n < 2 → get_block long n ≡ ok (some (chain_block n))
unfolding get_block set_block set_latest_block new fresh write read mock
long_blocks zero h = refl
long_blocks (suc zero) h = refl
long_blocks (suc (suc n)) h = absurd (omega arith)

short-Follows : Follows short chain_block 1
unfolding get_latest_block set_block set_latest_block new mock
short-Follows = (refl, refl, short_blocks)

long-Follows : Follows long chain_block 2
unfolding get_latest_block set_block set_latest_block new mock
long-Follows = (refl, refl, long_blocks)

filter_request-twice_example :
    (hub1 : FilterHub) × (hub2 : FilterHub) × (first : List Hash) × (second : List Hash) × (handle
        short 110 watching
        (filter_request 1)
      ≡ ok (hub1, changes (blocks first)))
    × (handle long 120 hub1 (filter_request 1) ≡ ok (hub2, changes (blocks second)))
    × (first ++ second ≡ hashes_between chain_block 0 2)
unfolding lookup
filter_request-twice_example =
    filter_request-twice short long chain_block 110 120 watching 1 0 100 1 2 short-Follows
      long-Follows (omega arith) (omega arith) refl
