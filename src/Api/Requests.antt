-- ===== src/Api/Requests.antt =====
-- What clients send as filters: `MultiType`, `MultiNestType`, `Web3Filter` and `RawLoggerFilter` of
-- crates/api/src/jsonrpc/web3_types.rs, with the conversions to `LoggerFilter` and the guards of
-- `new_filter` in crates/api/src/jsonrpc/impls/filter.rs.
use rt_evm.Common.{
  ℕ, ◌≡◌, ◌≤◌, refl, ◌∙◌, Hash, H160, Option, none, some, List, [], ◌∷◌, map, take, length, Bool,
  true, false, leb, ◌==◌, unwrap_or, length-take, length-map, arith,
}
use rt_evm.Common.Outcome.{Outcome, reject_if, bad_request, ◌>>◌}
use rt_evm.Model.Rlp.{Externals}
use rt_evm.Store.Table.{Tables}
use rt_evm.Store.Cache.{Caches}
use rt_evm.Storage.{FunStorage}
use rt_evm.Api.Logs.{
  BlockId, num, latest, earliest, pending, TopicFilter, LoggerFilter, contains_topic, matches,
  contains_topic-matches,
}
use rt_evm.Api.Hub.{FilterHub, Reply, new_logs, handle}

pub data MultiType : Type 0 where
  single : H160 → MultiType
  multi : List H160 → MultiType
  null : MultiType

pub data MultiNestType : Type 0 where
  nest_single : Hash → MultiNestType
  nest_multi : List (Option Hash) → MultiNestType
  nest_null : MultiNestType

-- `From<MultiType<T>> for Option<Vec<T>>`
unfoldable pub addresses_of : MultiType → Option (List H160)
addresses_of null = none
addresses_of (single a) = some (a ∷ [])
addresses_of (multi l) = some l

-- `From<MultiNestType<T>> for Option<Vec<Option<T>>>`
unfoldable pub position_of : MultiNestType → TopicFilter
position_of nest_null = none
position_of (nest_single h) = some (some h ∷ [])
position_of (nest_multi l) = some l

-- At most four positions are kept.
unfoldable pub topics_of : Option (List MultiNestType) → List TopicFilter
topics_of topics = map position_of (take 4 (unwrap_or topics []))

pub record RawLoggerFilter : Type 0 where
  pub from_block : Option BlockId
  pub to_block : Option BlockId
  pub address : MultiType
  pub topics : Option (List MultiNestType)

pub record Web3Filter : Type 0 where
  pub from_block : Option BlockId
  pub to_block : Option BlockId
  pub block_hash : Option Hash
  pub address : MultiType
  pub topics : Option (List MultiNestType)

-- `From<RawLoggerFilter> for LoggerFilter`
unfoldable pub from_raw : RawLoggerFilter → LoggerFilter
from_raw src = record {
  from_block = src.from_block;
  to_block = src.to_block;
  address = addresses_of src.address;
  topics = topics_of src.topics;
}

abbrev pub is_pending : Option BlockId → Bool
is_pending none = false
is_pending (some pending) = true
is_pending (some latest) = false
is_pending (some earliest) = false
is_pending (some (num n)) = false

abbrev pub is_first : Option BlockId → Bool
is_first none = false
is_first (some earliest) = true
is_first (some (num n)) = n == 0
is_first (some latest) = false
is_first (some pending) = false

-- The command is handled by the hub, whose reply is waited for.
unfoldable pub new_filter :
    ⦃ext : Externals⦄
    → ⦃tables : Tables⦄ → ⦃caches : Caches⦄ → FunStorage
    → ℕ
    → FilterHub
    → RawLoggerFilter
    → Outcome (FilterHub × Reply)
new_filter s now hub filter = do
  reject_if (is_pending filter.from_block) bad_request
  reject_if (is_first filter.to_block) bad_request
  handle s now hub (new_logs (from_raw filter))

pub length-topics_of : (topics : Option (List MultiNestType)) → length (topics_of topics) ≤ 4
unfolding topics_of
length-topics_of topics =
    let kept = unwrap_or topics [] in
    omega (arith, length-map position_of (take 4 kept), length-take 4 kept)

-- The topics of a request decide on a log as the positions that were kept do, each by itself: no
-- number of positions that a client sends makes the macro reject every log.
pub contains_topic-topics_of :
    (topics : Option (List MultiNestType)) (found : List Hash)
    → contains_topic (topics_of topics) found ≡ matches (topics_of topics) found
contains_topic-topics_of topics found =
    let small : leb (length (topics_of topics)) 4 ≡ true =
      ground (arith, length-topics_of topics) in
    contains_topic-matches (topics_of topics) found ∙ rw small refl
