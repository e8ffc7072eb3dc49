-- ===== src/Api/Subscription/Sinks.antt =====
-- What goes to one sink among the messages of the websocket task.
use rt_evm.Common.{
  ℕ, suc, ◌+◌, ◌-◌, ◌≡◌, refl, ap, ◌∙◌, arith, none, some, Option, List, [], ◌∷◌, ◌++◌, map, false,
  Bool-cases, inl, inr, ◌==◌, if◌then◌else◌, unwrap_or, length,
}
use rt_evm.Model.Block.{Block}
use rt_evm.Model.Response.{Receipt}
use rt_evm.Api.Logs.{Web3Log, from_receipt_to_web3_log}
use rt_evm.Api.Blocks.{count_from}
use rt_evm.Api.Web3Types.Blocks.{Web3Header, web3_header}
use rt_evm.Api.Subscription.{
  SyncStatus, Hub, LoggerFilter, header_message, sync_message, log_message, Sent, send_all,
  is_empty, send_receipt, send_receipts,
}

-- The headers that go to one sink, in order.
abbrev pub headers_for : ℕ → Sent → List Web3Header
headers_for id [] = []
headers_for id ((sink, header_message h) ∷ sent) =
    let rest = headers_for id sent in if sink == id then h ∷ rest else rest
headers_for id ((sink, sync_message s) ∷ sent) = headers_for id sent
headers_for id ((sink, log_message l) ∷ sent) = headers_for id sent

-- The headers of the blocks after `a` up to `b`, in order.
abbrev pub headers_between : (ℕ → Block) → ℕ → ℕ → List Web3Header
headers_between chain a b = map (λ m. web3_header (chain m).header) (count_from (suc a) (b - a))

-- How many of the hubs have the sink.
abbrev pub sinks : {F : Type 0} → ℕ → List (Hub F) → ℕ
sinks id [] = 0
sinks id (hub ∷ hubs) = (if hub.sink == id then 1 else 0) + sinks id hubs

pub headers_for-append :
    (id : ℕ) (first second : Sent)
    → headers_for id (first ++ second) ≡ headers_for id first ++ headers_for id second
headers_for-append id [] second = refl
headers_for-append id ((sink, header_message h) ∷ sent) second = elim (Bool-cases (sink == id)) [
  | inl e ↦ rw e (ap (◌∷◌ h) (headers_for-append id sent second))
  | inr e ↦ rw e (headers_for-append id sent second)
]
headers_for-append id ((sink, sync_message s) ∷ sent) second = headers_for-append id sent second
headers_for-append id ((sink, log_message l) ∷ sent) second = headers_for-append id sent second

no_sink :
    {F : Type 0} (id : ℕ) (h : Web3Header) (hubs : List (Hub F))
    → sinks id hubs ≡ 0
    → headers_for id (send_all hubs (header_message h)) ≡ []
no_sink id h [] e = refl
no_sink id h (hub ∷ hubs) e = elim (Bool-cases (hub.sink == id)) [
  | inl same ↦ absurd (ground (arith, same))
  | inr other ↦ rw other (no_sink id h hubs (ground (arith, other)))
]

pub one_sink :
    {F : Type 0} (id : ℕ) (h : Web3Header) (hubs : List (Hub F))
    → sinks id hubs ≡ 1
    → headers_for id (send_all hubs (header_message h)) ≡ h ∷ []
one_sink id h [] e = absurd (omega arith)
one_sink id h (hub ∷ hubs) e = elim (Bool-cases (hub.sink == id)) [
  | inl same ↦ rw same (ap (◌∷◌ h) (no_sink id h hubs (ground (arith, same))))
  | inr other ↦ rw other (one_sink id h hubs (ground (arith, other)))
]

pub some_listens :
    {F : Type 0} (id : ℕ) (hubs : List (Hub F)) → sinks id hubs ≡ 1 → is_empty hubs ≡ false
some_listens id [] e = absurd (omega arith)
some_listens id (hub ∷ hubs) e = refl

pub no_headers-sync :
    {F : Type 0} (id : ℕ) (status : SyncStatus) (hubs : List (Hub F))
    → headers_for id (send_all hubs (sync_message status)) ≡ []
no_headers-sync id status [] = refl
no_headers-sync id status (hub ∷ hubs) = no_headers-sync id status hubs

no_headers-logs :
    (id sink : ℕ) (logs : List Web3Log)
    → headers_for id (map (λ log. (sink, log_message log)) logs) ≡ []
no_headers-logs id sink [] = refl
no_headers-logs id sink (log ∷ logs) = no_headers-logs id sink logs

pub no_headers-append :
    (id : ℕ) (first second : Sent)
    → headers_for id first ≡ []
    → headers_for id second ≡ []
    → headers_for id (first ++ second) ≡ []
no_headers-append id first second h k = headers_for-append id first second ∙ rw (h, k) refl

no_headers-receipt :
    (id : ℕ) (hubs : List (Hub LoggerFilter)) (index : ℕ) (r : Receipt)
    → headers_for id (send_receipt hubs index r) ≡ []
unfolding send_receipt
no_headers-receipt id [] index r = refl
no_headers-receipt id (hub ∷ hubs) index r =
    let logs =
      from_receipt_to_web3_log index hub.filter.topics (unwrap_or hub.filter.address []) r [] in
    no_headers-append id (map (λ log. (hub.sink, log_message log)) logs) (send_receipt hubs index r)
      (no_headers-logs id hub.sink logs) (no_headers-receipt id hubs index r)

pub no_headers-receipts :
    (id : ℕ) (hubs : List (Hub LoggerFilter)) (index : ℕ) (rs : List (Option Receipt))
    → headers_for id (send_receipts hubs index rs) ≡ []
unfolding send_receipts
no_headers-receipts id hubs index [] = refl
no_headers-receipts id hubs index (none ∷ rs) = no_headers-receipts id hubs index rs
no_headers-receipts id hubs index (some r ∷ rs) =
    no_headers-append id (send_receipt hubs index r) (send_receipts hubs (index + length r.logs) rs)
      (no_headers-receipt id hubs index r) (no_headers-receipts id hubs (index + length r.logs) rs)
