-- ===== src/Api/Subscription/Reading.antt =====
-- What the websocket task reads of a chain, and sends for it.
use rt_evm.Common.{
  ℕ, zero, suc, ◌+◌, ◌≤◌, ◌≡◌, refl, ◌∙◌, arith, Hash, Option, List, [], ◌∷◌, ◌++◌, map, All,
}
use rt_evm.Common.Outcome.{ok}
use rt_evm.Model.Rlp.{Externals}
use rt_evm.Model.Block.{Block}
use rt_evm.Model.Response.{Receipt}
use rt_evm.Store.Table.{Tables}
use rt_evm.Store.Cache.{Caches}
use rt_evm.Storage.{FunStorage, get_receipts}
use rt_evm.Api.Blocks.{count_from, Holds}
use rt_evm.Api.Web3Types.Blocks.{web3_header}
use rt_evm.Api.Subscription.{
  Hub, LoggerFilter, header_message, Sent, send_all, send_receipts, blocks_from, send_headers,
  notify_blocks,
}
use rt_evm.Api.Subscription.Sinks.{
  headers_for, sinks, headers_for-append, one_sink, no_headers-append, no_headers-receipts,
}

module _ ⦃ext : Externals⦄ ⦃tables : Tables⦄ ⦃caches : Caches⦄ where
  -- The receipts of a block can be read.
  abbrev pub Received : FunStorage → ℕ × List Hash → Type 0
  Received s (number, hashes) =
      (rs : List (Option Receipt)) × (get_receipts s number hashes ≡ ok rs)

  pub send_headers-one :
      (id : ℕ) (hubs : List (Hub (Unit {0}))) (bs : List Block)
      → sinks id hubs ≡ 1
      → headers_for id (send_headers hubs bs) ≡ map (λ b. web3_header b.header) bs
  unfolding send_headers
  send_headers-one id hubs [] one = refl
  send_headers-one id hubs (b ∷ bs) one =
      headers_for-append id (send_all hubs (header_message (web3_header b.header)))
        (send_headers hubs bs)
      ∙ rw (one_sink id (web3_header b.header) hubs one, send_headers-one id hubs bs one) refl

  pub blocks_from-Holds :
      (s : FunStorage) (chain : ℕ → Block) (bound n k : ℕ)
      → Holds s chain bound
      → n + k ≤ bound
      → blocks_from s n k ≡ ok (map chain (count_from n k))
  unfolding blocks_from
  blocks_from-Holds s chain bound n zero stored h = refl
  blocks_from-Holds s chain bound n (suc k) stored h =
      rw
        (
          stored n (omega (arith, h)),
          blocks_from-Holds s chain bound (suc n) k stored (omega (arith, h)),
        )
        refl

  pub notify_blocks-Received :
      (s : FunStorage) (hubs : List (Hub LoggerFilter)) (id : ℕ) (entries : List (ℕ × List Hash))
      → All (Received s) entries
      → (sent : Sent) × (notify_blocks s hubs entries ≡ ok sent) × (headers_for id sent ≡ [])
  unfolding notify_blocks
  notify_blocks-Received s hubs id [] received = ([], refl, refl)
  notify_blocks-Received s hubs id ((number, hashes) ∷ rest) ((rs, read), received) =
      let (sent, run, quiet) = notify_blocks-Received s hubs id rest received in
      (
        send_receipts hubs 0 rs ++ sent,
        rw (read, run) refl,
        no_headers-append id (send_receipts hubs 0 rs) sent (no_headers-receipts id hubs 0 rs)
            quiet,
      )
