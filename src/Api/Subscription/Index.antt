-- ===== src/Api/Subscription/Index.antt =====
-- The indices that a client of the websocket server gets with the logs of a block.
use mathlib.Core.List.{append_assoc}
use rt_evm.Common.{
  ℕ, suc, ◌+◌, ◌≡◌, refl, sym, ap, ◌∙◌, arith, H160, Option, none, some, List, [], ◌∷◌, ◌++◌, map,
  length, unwrap_or, Bool-cases, inl, inr, All,
}
use rt_evm.Model.Rlp.{Log}
use rt_evm.Model.Response.{Receipt}
use rt_evm.Api.Logs.{TopicFilter, wanted, logs_from, from_receipt_to_web3_log}
use rt_evm.Api.Subscription.{
  Hub, LoggerFilter, Message, header_message, sync_message, log_message, Sent, send_receipt,
  send_receipts,
}

-- A message that is no log of another transaction than the given one.
abbrev pub HasIndex : ℕ → Message → Type 0
HasIndex index (header_message h) = Unit {0}
HasIndex index (sync_message s) = Unit {0}
HasIndex index (log_message log) = log.transaction_index ≡ some index

-- How many logs the receipts have that are there.
abbrev pub log_count : List (Option Receipt) → ℕ
log_count [] = 0
log_count (none ∷ rs) = log_count rs
log_count (some r ∷ rs) = length r.logs + log_count rs

logs-HasIndex :
    (sink index : ℕ) (topics : List TopicFilter) (addresses : List H160) (r : Receipt) (i : ℕ)
    (logs : List Log) (more : Sent)
    → All (λ e. HasIndex index e.1) more
    → All
        (λ e. HasIndex index e.1)
        (map (λ log. (sink, log_message log)) (logs_from index topics addresses r i logs) ++ more)
unfolding logs_from
logs-HasIndex sink index topics addresses r i [] more rest = rest
logs-HasIndex sink index topics addresses r i (log ∷ logs) more rest =
    let later = logs-HasIndex sink index topics addresses r (suc i) logs more rest in
    elim (Bool-cases (wanted topics addresses log)) [
      | inl e ↦ rw e (refl, later)
      | inr e ↦ rw e later
    ]

send_receipt-HasIndex :
    (hubs : List (Hub LoggerFilter)) (index : ℕ) (r : Receipt)
    → All (λ e. HasIndex index e.1) (send_receipt hubs index r)
unfolding send_receipt from_receipt_to_web3_log
send_receipt-HasIndex [] index r = tt
send_receipt-HasIndex (hub ∷ hubs) index r =
    logs-HasIndex hub.sink index hub.filter.topics (unwrap_or hub.filter.address []) r 0 r.logs
      (send_receipt hubs index r) (send_receipt-HasIndex hubs index r)

-- Of the logs of a block, those of one receipt are sent after those of the receipts before it, and
-- their transaction index is the number of logs that the receipts before it have, on top of the index
-- that the block starts with.
pub send_receipts-HasIndex :
    (hubs : List (Hub LoggerFilter)) (index : ℕ) (before : List (Option Receipt)) (r : Receipt)
    (after : List (Option Receipt))
    → (send_receipts hubs index (before ++ some r ∷ after)
        ≡ send_receipts hubs index before
          ++ (send_receipt hubs (index + log_count before) r
              ++ send_receipts hubs (index + log_count before + length r.logs) after))
      × All
          (λ e. HasIndex (index + log_count before) e.1)
          (send_receipt hubs (index + log_count before) r)
unfolding send_receipts
send_receipts-HasIndex hubs index [] r after =
    let same : index + 0 ≡ index = omega arith in
    (rw same refl, send_receipt-HasIndex hubs (index + 0) r)
send_receipts-HasIndex hubs index (none ∷ before) r after =
    send_receipts-HasIndex hubs index before r after
send_receipts-HasIndex hubs index (some b ∷ before) r after =
    let moved : index + length b.logs + log_count before
        ≡ index + (length b.logs + log_count before) =
      omega arith in
    let (split, _) = send_receipts-HasIndex hubs (index + length b.logs) before r after in
    (
      ap (λ l. send_receipt hubs index b ++ l) split
          ∙ sym (
              append_assoc (send_receipt hubs index b)
                (send_receipts hubs (index + length b.logs) before) _)
          ∙ rw moved refl,
      send_receipt-HasIndex hubs (index + (length b.logs + log_count before)) r,
    )
