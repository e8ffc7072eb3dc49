-- ===== src/Api/Logs.antt =====
-- Filters for logs: `BlockId` and `Web3Log` of crates/api/src/jsonrpc/web3_types.rs, `LoggerFilter`
-- of crates/api/src/jsonrpc/impls/filter.rs, and `from_receipt_to_web3_log` of
-- crates/api/src/jsonrpc/impls/web3.rs. The text of the payload is left as the bytes it encodes.
use rt_evm.Common.{
  ℕ, suc, ◌≡◌, refl, Bytes, Hash, H160, Option, none, some, List, [], ◌∷◌, ◌++◌, Bool, true, false,
  ◌&&◌, ◌||◌, length, get_elem?, leb, ◌==◌, if◌then◌else◌, arith,
}
use rt_evm.Model.Rlp.{Log}
use rt_evm.Model.Response.{Receipt}

pub data BlockId : Type 0 where
  num : ℕ → BlockId
  latest : BlockId
  earliest : BlockId
  pending : BlockId

-- One entry stands for one position of the topics: `none` for any topic, or the accepted topics,
-- among which `none` stands for any.
abbrev pub TopicFilter : Type 0
TopicFilter = Option (List (Option Hash))

pub record LoggerFilter : Type 0 where
  pub from_block : Option BlockId
  pub to_block : Option BlockId
  pub address : Option (List H160)
  pub topics : List TopicFilter

pub record Web3Log : Type 0 where
  pub address : H160
  pub topics : List Hash
  pub payload : Bytes
  pub block_hash : Option Hash
  pub block_number : Option ℕ
  pub transaction_hash : Option Hash
  pub transaction_index : Option ℕ
  pub log_index : Option ℕ
  pub removed : Bool

-- `contains` on addresses
abbrev pub contains : List ℕ → ℕ → Bool
contains [] a = false
contains (x ∷ xs) a = x == a || contains xs a

-- `i.contains(&None) || i.contains(&Some(topic))`
abbrev pub has_any : List (Option Hash) → Bool
has_any [] = false
has_any (none ∷ xs) = true
has_any (some h ∷ xs) = has_any xs

abbrev pub has_topic : List (Option Hash) → Hash → Bool
has_topic [] t = false
has_topic (none ∷ xs) t = has_topic xs t
has_topic (some h ∷ xs) t = h == t || has_topic xs t

-- `$topics[offset].as_ref().map(…).unwrap_or(true)`; an index is always in range.
abbrev pub accepts : Option TopicFilter → Option Hash → Bool
accepts (some (some i)) (some t) = has_any i || has_topic i t
accepts (some (some i)) none = false
accepts (some none) t = true
accepts none t = true

abbrev pub accepts_at : List TopicFilter → List Hash → ℕ → Bool
accepts_at topics found offset = accepts (get_elem? topics offset) (get_elem? found offset)

abbrev pub has_lengths : List TopicFilter → List Hash → ℕ → Bool
has_lengths topics found min_len = length topics == min_len && leb min_len (length found)

abbrev pub is_empty : List TopicFilter → Bool
is_empty [] = true
is_empty (t ∷ ts) = false

-- The macro `contains_topic`, on the topics of a log.
unfoldable pub contains_topic : List TopicFilter → List Hash → Bool
contains_topic topics found =
    is_empty topics
    || ((has_lengths topics found 1 && accepts_at topics found 0)
        || ((has_lengths topics found 2 && (accepts_at topics found 0 && accepts_at topics found 1))
            || ((has_lengths topics found 3
                  && (accepts_at topics found 0
                      && (accepts_at topics found 1 && accepts_at topics found 2)))
                || (has_lengths topics found 4
                    && (accepts_at topics found 0
                        && (accepts_at topics found 1
                            && (accepts_at topics found 2 && accepts_at topics found 3)))))))

abbrev pub no_addresses : List H160 → Bool
no_addresses [] = true
no_addresses (a ∷ rest) = false

abbrev pub wanted : List TopicFilter → List H160 → Log → Bool
wanted topics addresses log =
    (no_addresses addresses || contains addresses log.address) && contains_topic topics log.topics

abbrev pub web3_log : ℕ → Receipt → ℕ → Log → Web3Log
web3_log index r log_index log = record {
  address = log.address;
  topics = log.topics;
  payload = log.payload;
  block_hash = some r.block_hash;
  block_number = some r.block_number;
  transaction_hash = some r.tx_hash;
  transaction_index = some index;
  log_index = some log_index;
  removed = false;
}

-- The logs of the receipt from index `i` on.
unfoldable pub logs_from : ℕ → List TopicFilter → List H160 → Receipt → ℕ → List Log → List Web3Log
logs_from index topics addresses r i [] = []
logs_from index topics addresses r i (log ∷ logs) =
    let rest = logs_from index topics addresses r (suc i) logs in
    if wanted topics addresses log then web3_log index r i log ∷ rest else rest

-- `from_receipt_to_web3_log`, with the logs that it appends to
unfoldable pub from_receipt_to_web3_log :
    ℕ → List TopicFilter → List H160 → Receipt → List Web3Log → List Web3Log
from_receipt_to_web3_log index topics addresses r logs =
    logs ++ logs_from index topics addresses r 0 r.logs

-- The closure `extend_logs`: `flatten` skips what has no receipt, and the index counts the others.
unfoldable pub extend_logs :
    List TopicFilter → List H160 → ℕ → List Web3Log → List (Option Receipt) → List Web3Log
extend_logs topics addresses index logs [] = logs
extend_logs topics addresses index logs (none ∷ rs) = extend_logs topics addresses index logs rs
extend_logs topics addresses index logs (some r ∷ rs) =
    extend_logs topics addresses (suc index)
      (from_receipt_to_web3_log index topics addresses r logs) rs

-- What a filter asks of a log, position by position.
abbrev pub matches : List TopicFilter → List Hash → Bool
matches [] xs = true
matches (t ∷ ts) [] = false
matches (none ∷ ts) (x ∷ xs) = matches ts xs
matches (some i ∷ ts) (x ∷ xs) = (has_any i || has_topic i x) && matches ts xs

matches-accepts :
    (t : TopicFilter) (ts : List TopicFilter) (x : Hash) (xs : List Hash)
    → matches (t ∷ ts) (x ∷ xs) ≡ (accepts (some t) (some x) && matches ts xs)
matches-accepts none ts x xs = refl
matches-accepts (some i) ts x xs = refl

-- The macro accepts the topics of a log exactly when the filter has at most four positions and each
-- of them accepts the topic at its place, which has to be there.
pub contains_topic-matches :
    (topics : List TopicFilter) (found : List Hash)
    → contains_topic topics found ≡ (leb (length topics) 4 && matches topics found)
unfolding contains_topic
contains_topic-matches [] found = refl
contains_topic-matches (a ∷ []) [] = ground arith
contains_topic-matches (a ∷ []) (x ∷ found) = ground (arith, matches-accepts a [] x found)
contains_topic-matches (a ∷ b ∷ []) [] = ground arith
contains_topic-matches (a ∷ b ∷ []) (x ∷ []) = ground (arith, matches-accepts a (b ∷ []) x [])
contains_topic-matches (a ∷ b ∷ []) (x ∷ y ∷ found) =
    ground (arith, matches-accepts a (b ∷ []) x (y ∷ found), matches-accepts b [] y found)
contains_topic-matches (a ∷ b ∷ c ∷ []) [] = ground arith
contains_topic-matches (a ∷ b ∷ c ∷ []) (x ∷ []) =
    ground (arith, matches-accepts a (b ∷ c ∷ []) x [])
contains_topic-matches (a ∷ b ∷ c ∷ []) (x ∷ y ∷ []) =
    ground (arith, matches-accepts a (b ∷ c ∷ []) x (y ∷ []), matches-accepts b (c ∷ []) y [])
contains_topic-matches (a ∷ b ∷ c ∷ []) (x ∷ y ∷ z ∷ found) = ground (
  arith,
  matches-accepts a (b ∷ c ∷ []) x (y ∷ z ∷ found),
  matches-accepts b (c ∷ []) y (z ∷ found),
  matches-accepts c [] z found,
)
contains_topic-matches (a ∷ b ∷ c ∷ d ∷ []) [] = ground arith
contains_topic-matches (a ∷ b ∷ c ∷ d ∷ []) (x ∷ []) =
    ground (arith, matches-accepts a (b ∷ c ∷ d ∷ []) x [])
contains_topic-matches (a ∷ b ∷ c ∷ d ∷ []) (x ∷ y ∷ []) =
    ground
      (arith, matches-accepts a (b ∷ c ∷ d ∷ []) x (y ∷ []), matches-accepts b (c ∷ d ∷ []) y [])
contains_topic-matches (a ∷ b ∷ c ∷ d ∷ []) (x ∷ y ∷ z ∷ []) = ground (
  arith,
  matches-accepts a (b ∷ c ∷ d ∷ []) x (y ∷ z ∷ []),
  matches-accepts b (c ∷ d ∷ []) y (z ∷ []),
  matches-accepts c (d ∷ []) z [],
)
contains_topic-matches (a ∷ b ∷ c ∷ d ∷ []) (x ∷ y ∷ z ∷ w ∷ found) = ground (
  arith,
  matches-accepts a (b ∷ c ∷ d ∷ []) x (y ∷ z ∷ w ∷ found),
  matches-accepts b (c ∷ d ∷ []) y (z ∷ w ∷ found),
  matches-accepts c (d ∷ []) z (w ∷ found),
  matches-accepts d [] w found,
)
contains_topic-matches (a ∷ b ∷ c ∷ d ∷ e ∷ rest) found = ground arith
