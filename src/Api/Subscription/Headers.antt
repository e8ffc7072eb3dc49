-- ===== src/Api/Subscription/Headers.antt =====
-- Which headers a client of the websocket server gets.
use mathlib.Core.List.{append-nil, map-map}
use rt_evm.Common.{
  ℕ, zero, suc, ◌+◌, ◌-◌, ◌%◌, ◌≤◌, ◌<◌, ◌^◌, ◌≡◌, refl, ap, ◌∙◌, arith, Hash, List, [], ◌∷◌, ◌++◌,
  map, Bool, true, false, Bool-cases, inl, inr, ◌==◌, ==→eq, if◌then◌else◌, All, u64_mod,
}
use rt_evm.Common.Outcome.{ok, ◌>>=◌}
use rt_evm.Model.Rlp.{Externals}
use rt_evm.Model.Block.{Block}
use rt_evm.Store.Table.{Tables}
use rt_evm.Store.Cache.{Caches}
use rt_evm.Storage.{FunStorage}
use rt_evm.Api.Blocks.{count_from, map-count_from-last, map-count_from-append, Follows}
use rt_evm.Api.Web3Types.Blocks.{web3_header}
use rt_evm.Api.Subscription.{
  Subscription, SyncStatus, header_message, sync_message, Sent, retain_open, keep_open, send_all,
  is_empty, entry_of, blocks_from, blocks_between, send_headers, notify_headers, notify_blocks,
  notify_logs, notify_open, notify,
}
use rt_evm.Api.Subscription.Sinks.{
  headers_for, headers_between, sinks, headers_for-append, one_sink, some_listens, no_headers-sync,
  no_headers-append,
}
use rt_evm.Api.Subscription.Reading.{
  Received, send_headers-one, blocks_from-Holds, notify_blocks-Received,
}

module _ ⦃ext : Externals⦄ ⦃tables : Tables⦄ ⦃caches : Caches⦄ where
  module _ (s : FunStorage) (chain : ℕ → Block) (n : ℕ) (follows : Follows s chain n)
      (received : (m : ℕ) → m ≤ n → Received s (entry_of (chain m))) where
    all-Received :
        (a k : ℕ)
        → a + k ≡ n
        → All (Received s) (map entry_of (map chain (count_from a k)) ++ entry_of (chain n) ∷ [])
    all-Received a zero h = (received n (omega arith), tt)
    all-Received a (suc k) h =
        (received a (omega (arith, h)), all-Received (suc a) k (omega (arith, h)))

    -- The blocks after the current one, without the latest.
    passed : Subscription → List Block
    passed sub = map chain (count_from (suc sub.current_number) (n - suc sub.current_number))

    blocks_between-passed :
        (sub : Subscription)
        → sub.current_number < n
        → n < 2 ^ 64
        → blocks_between s sub (chain n) ≡ ok (passed sub)
    unfolding blocks_between passed
    blocks_between-passed sub later fits =
        let (_, number, stored) = follows in
        let start : (sub.current_number + 1) % u64_mod ≡ suc sub.current_number =
          omega (arith, later, fits) in
        ap (λ i. blocks_from s i ((chain n).header.number - i)) start
        ∙ ap (λ m. blocks_from s (suc sub.current_number) (m - suc sub.current_number)) number
        ∙ blocks_from-Holds s chain n (suc sub.current_number) (n - suc sub.current_number) stored
            (omega (arith, later))

    entries-again :
        (sub : Subscription) (log_vec : List (ℕ × List Hash))
        → sub.current_number < n
        → n < 2 ^ 64
        → log_vec ≡ map entry_of (passed sub)
        → (if is_empty log_vec
            then (blocks_between s sub (chain n) >>= λ bs. ok (map entry_of bs))
            else ok log_vec)
          ≡ ok (map entry_of (passed sub))
    entries-again sub [] later fits same = rw (blocks_between-passed sub later fits) refl
    entries-again sub (e ∷ es) later fits same = ap (λ l. ok l) same

    notify_logs-Received :
        (sub : Subscription) (id : ℕ)
        → sub.current_number < n
        → n < 2 ^ 64
        → (sent : Sent) × (notify_logs s sub (chain n) (map entry_of (passed sub)) ≡ ok sent)
          × (headers_for id sent ≡ [])
    unfolding notify_logs passed
    notify_logs-Received sub id later fits = elim (Bool-cases (is_empty sub.log_hubs)) [
      | inl none_listens ↦ ([], rw none_listens refl, refl)
      | inr listening ↦
          let entries = map entry_of (passed sub) ++ entry_of (chain n) ∷ [] in
          let (sent, run, quiet) = notify_blocks-Received s sub.log_hubs id entries (
            all-Received (suc sub.current_number) (n - suc sub.current_number)
              (omega (arith, later))) in
          (
            sent,
            rw listening (
                ap (λ m. m >>= λ es. notify_blocks s sub.log_hubs (es ++ entry_of (chain n) ∷ []))
                  (entries-again sub (map entry_of (passed sub)) later fits refl)
                ∙ run),
            quiet,
          )
    ]

    notify_headers-one :
        (sub : Subscription) (id : ℕ)
        → sub.current_number < n
        → n < 2 ^ 64
        → sinks id sub.header_hubs ≡ 1
        → (sent : Sent) × (notify_headers s sub (chain n) ≡ ok (sent, map entry_of (passed sub)))
          × (headers_for id sent ≡ headers_between chain sub.current_number n)
    unfolding notify_headers passed
    notify_headers-one sub id later fits one =
        let headers = send_headers sub.header_hubs (passed sub) in
        let newest = send_all sub.header_hubs (header_message (web3_header (chain n).header)) in
        (
          headers ++ newest,
          rw (some_listens id sub.header_hubs one, blocks_between-passed sub later fits) refl,
          headers_for-append id headers newest
              ∙ rw
                  (
                    send_headers-one id sub.header_hubs (passed sub) one,
                    one_sink id (web3_header (chain n).header) sub.header_hubs one,
                  )
                  (ap (λ l. l ++ web3_header (chain n).header ∷ [])
                      (map-map (λ b. web3_header b.header) chain
                        (count_from (suc sub.current_number) (n - suc sub.current_number)))
                    ∙ map-count_from-last (λ m. web3_header (chain m).header) sub.current_number n
                        later),
        )

    -- A look for new blocks that finds some.
    notify_open-later :
        (status : SyncStatus) (sub : Subscription) (id : ℕ)
        → sub.current_number < n
        → n < 2 ^ 64
        → sinks id sub.header_hubs ≡ 1
        → (sent : Sent) × (notify_open s status sub (chain n)
            ≡ ok (record sub { current_number = n }, sent))
          × (headers_for id sent ≡ headers_between chain sub.current_number n)
    notify_open-later status sub id later fits one =
        let (_, number, _) = follows in
        let (headers, sent_headers, delivered) = notify_headers-one sub id later fits one in
        let (logs, sent_logs, quiet) = notify_logs-Received sub id later fits in
        let changed : (sub.current_number == (chain n).header.number) ≡ false =
          ap (λ m. sub.current_number == m) number ∙ ground (arith, later) in
        let statuses = send_all sub.sync_hubs (sync_message status) in
        (
          headers ++ (statuses ++ logs),
          rw (changed, sent_headers, sent_logs)
              (ap (λ m. ok (record sub { current_number = m }, headers ++ (statuses ++ logs)))
                number),
          headers_for-append id headers (statuses ++ logs)
              ∙ rw
                  (
                    no_headers-append id statuses logs (no_headers-sync id status sub.sync_hubs)
                        quiet,
                    delivered,
                  )
                  (append-nil (headers_between chain sub.current_number n)),
        )

    -- A look for new blocks sends a client the headers since the last look.
    notify-headers_between :
        (closed : ℕ → Bool) (status : SyncStatus) (sub : Subscription) (id : ℕ)
        → sub.current_number ≤ n
        → n < 2 ^ 64
        → sinks id (retain_open closed sub.header_hubs) ≡ 1
        → (sub' : Subscription) × (sent : Sent) × (notify s closed status sub ≡ ok (sub', sent))
          × (headers_for id sent ≡ headers_between chain sub.current_number n)
          × (sub'.current_number ≡ n)
          × (sub'.header_hubs ≡ retain_open closed sub.header_hubs)
    unfolding notify keep_open
    notify-headers_between closed status sub id low fits one =
        let (newest, number, _) = follows in
        elim (Bool-cases (sub.current_number == n)) [
          | inl same ↦
              let equal : sub.current_number ≡ n = ==→eq sub.current_number n same in
              let unchanged : (sub.current_number == (chain n).header.number) ≡ true =
                ap (λ m. sub.current_number == m) number ∙ same in
              let nothing : n - sub.current_number ≡ 0 = omega (arith, equal) in
              (keep_open closed sub, [], rw (newest, unchanged) refl, rw nothing refl, equal, refl)
          | inr other ↦
              let (sent, run, delivered) =
                notify_open-later status (keep_open closed sub) id (ground (arith, other, low)) fits
                  one in
              (
                record (keep_open closed sub) { current_number = n },
                sent,
                rw newest run,
                delivered,
                refl,
                refl,
              )
        ]

  -- Two looks for new blocks, with any growth of the chain between them, send a client that stays the
  -- header of each block after the first number up to the latest one, once and in order, whatever
  -- other clients there are. The storage has the blocks of the chain and their receipts both times.
  pub notify-twice :
      (s s' : FunStorage) (chain : ℕ → Block) (n n' : ℕ) (closed closed' : ℕ → Bool)
      (status status' : SyncStatus) (sub : Subscription) (id : ℕ)
      → Follows s chain n
      → Follows s' chain n'
      → ((m : ℕ) → m ≤ n → Received s (entry_of (chain m)))
      → ((m : ℕ) → m ≤ n' → Received s' (entry_of (chain m)))
      → sub.current_number ≤ n
      → n ≤ n'
      → n' < 2 ^ 64
      → sinks id (retain_open closed sub.header_hubs) ≡ 1
      → sinks id (retain_open closed' (retain_open closed sub.header_hubs)) ≡ 1
      → (sub1 : Subscription) × (sub2 : Subscription) × (first : Sent) × (second : Sent) × (notify s
            closed status sub
          ≡ ok (sub1, first))
        × (notify s' closed' status' sub1 ≡ ok (sub2, second))
        × (headers_for id first ++ headers_for id second
            ≡ headers_between chain sub.current_number n')
  notify-twice s s' chain n n' closed closed' status status' sub id f f' r r' low grows fits one
        one' =
      let (sub1, first, run1, got1, at1, hubs1) =
        notify-headers_between s chain n f r closed status sub id low (omega (arith, grows, fits))
          one in
      let still : sinks id (retain_open closed' sub1.header_hubs) ≡ 1 =
        ap (λ hubs. sinks id (retain_open closed' hubs)) hubs1 ∙ one' in
      let (sub2, second, run2, got2, _, _) =
        notify-headers_between s' chain n' f' r' closed' status' sub1 id (omega (arith, at1, grows))
          fits still in
      (
        sub1,
        sub2,
        first,
        second,
        run1,
        run2,
        rw (got1, got2, at1)
            (map-count_from-append (λ m. web3_header (chain m).header) sub.current_number n n' low
              grows),
      )
