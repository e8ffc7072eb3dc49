-- ===== src/Api/Steps.antt =====
-- Hubs after any sequence of commands and of looks for old filters.
use rt_evm.Common.{
  ℕ, ◌+◌, ◌-◌, ◌%◌, min, ◌<◌, ◌≡◌, ◌⊎◌, inl, inr, refl, sym, ap, ◌∙◌, subst, arith, Option, none,
  some, List, [], Bool, true, false, ltb, leb, if◌then◌else◌, is_some, u64_mod, Bool-cases,
}
use rt_evm.Common.Outcome.{Outcome, ok, err, panic, or_panic, ◌>>=◌, >>=-eq-ok, ok-injective}
use rt_evm.Common.Map.{lookup, insert, remove}
use rt_evm.Model.Rlp.{Externals}
use rt_evm.Store.Table.{Tables}
use rt_evm.Store.Cache.{Caches}
use rt_evm.Storage.{FunStorage, get_latest_block, get_latest_block_header}
use rt_evm.Api.Logs.{LoggerFilter, Web3Log}
use rt_evm.Api.Hub.{
  FilterHub, Reply, Command, new_logs, new_blocks, filter_request, uninstall, first_block, new,
  check_hubs, remove_filter, handle, filter_block, filter_logs, hashes_from, impl_filter, request,
  request_logs, reply_logs, convert_or_latest, advance, visit, logs_of_block,
}
use rt_evm.Api.Invariant.{
  IsConsistent, check_hubs-IsConsistent, add_logs-IsConsistent, add_blocks-IsConsistent,
  set_logs-IsConsistent, set_blocks-IsConsistent, remove_logs-IsConsistent,
  remove_blocks-IsConsistent,
}

-- A chain that ends with one hub.
abbrev Ends : {B : Type 0} → FilterHub → Outcome (FilterHub × B) → Type 0
Ends {B} hub m = (r : FilterHub × B) → m ≡ ok r → r.0 ≡ hub

ok-Ends : {B : Type 0} (hub : FilterHub) (b : B) → Ends hub (ok (hub, b))
ok-Ends hub b r h = ap (λ x. x.0) (sym (ok-injective h))

>>=-Ends :
    {A B : Type 0} (hub : FilterHub) (m : Outcome A) (k : A → Outcome (FilterHub × B))
    → ((a : A) → Ends hub (k a))
    → Ends hub (m >>= k)
>>=-Ends hub m k h r e = let (a, _, last) = >>=-eq-ok m k e in h a r last

if-Ends :
    {B : Type 0} (t : Bool) (hub hub' : FilterHub) (m m' : Outcome (FilterHub × B))
    (r : FilterHub × B)
    → Ends hub m
    → Ends hub' m'
    → (if t then m else m') ≡ ok r
    → (r.0 ≡ hub) ⊎ (r.0 ≡ hub')
if-Ends true hub hub' m m' r h h' e = inl (h r e)
if-Ends false hub hub' m m' r h h' e = inr (h' r e)

module _ ⦃ext : Externals⦄ ⦃tables : Tables⦄ ⦃caches : Caches⦄ where
  filter_block-cases :
      (s : FunStorage) (now : ℕ) (hub : FilterHub) (id start time : ℕ) (r : FilterHub × List ℕ)
      → filter_block s now hub id (start, time) ≡ ok r
      → (v : ℕ × ℕ) × ((r.0 ≡ hub) ⊎ (r.0 ≡ record hub { blocks_hub = insert id v hub.blocks_hub }))
  unfolding filter_block
  filter_block-cases s now hub id start time r run =
      let (last, _, rest) = >>=-eq-ok (or_panic (get_latest_block s)) _ run in
      let v : ℕ × ℕ = (last.header.number, now) in
      let after = record hub { blocks_hub = insert id v hub.blocks_hub } in
      (
        v,
        if-Ends (leb last.header.number start) hub after (ok (hub, [])) _ r (ok-Ends hub [])
            (>>=-Ends after (hashes_from s (start + 1) (last.header.number - (start + 1))) _
              (λ hs. ok-Ends after _))
            rest,
      )

  filter_logs-cases :
      (s : FunStorage) (now : ℕ) (hub : FilterHub) (id : ℕ) (f : LoggerFilter) (time : ℕ)
      (r : FilterHub × List Web3Log)
      → filter_logs s now hub id (f, time) ≡ ok r
      → (v : LoggerFilter × ℕ) × ((r.0 ≡ hub)
          ⊎ (r.0 ≡ record hub { logs_hub = insert id v hub.logs_hub }))
  unfolding filter_logs
  filter_logs-cases s now hub id f time r run =
      let (last, _, rest) = >>=-eq-ok (get_latest_block s) _ run in
      let number = last.header.number in
      let start = convert_or_latest number f.from_block in
      let end = min (convert_or_latest number f.to_block) number in
      let v : LoggerFilter × ℕ = (advance end f f.from_block, now) in
      let after = record hub { logs_hub = insert id v hub.logs_hub } in
      (
        v,
        if-Ends (ltb number start) hub after (ok (hub, [])) _ r (ok-Ends hub [])
            (>>=-Ends after (visit s f number start (end + 1 - start) ([], false)) _ (λ found.
              >>=-Ends after (if found.1 then logs_of_block s f last found.0 else ok found.0) _
                (λ final. ok-Ends after final)))
            rest,
      )

  reply_logs-IsConsistent :
      (hub : FilterHub) (id : ℕ) (m : Outcome (FilterHub × List Web3Log)) (r : FilterHub × Reply)
      → IsConsistent hub
      → ((x : FilterHub × List Web3Log) → m ≡ ok x → IsConsistent x.0)
      → reply_logs hub id m ≡ ok r
      → IsConsistent r.0
  reply_logs-IsConsistent hub id (ok x) r c h e =
      subst IsConsistent (sym (ok-Ends x.0 _ r e)) (h x refl)
  reply_logs-IsConsistent hub id (err e') r c h e =
      subst IsConsistent (sym (ok-Ends (record hub { logs_hub = remove id hub.logs_hub }) _ r e))
        (remove_logs-IsConsistent hub id c)
  reply_logs-IsConsistent hub id panic r c h e = cc

  request_logs-IsConsistent :
      (s : FunStorage) (now : ℕ) (hub : FilterHub) (id : ℕ) (o : Option (LoggerFilter × ℕ))
      (r : FilterHub × Reply)
      → IsConsistent hub
      → lookup id hub.logs_hub ≡ o
      → request_logs s now hub id o ≡ ok r
      → IsConsistent r.0
  request_logs-IsConsistent s now hub id none r c found e =
      subst IsConsistent (sym (ok-Ends hub _ r e)) c
  request_logs-IsConsistent s now hub id (some (f, time)) r c found e =
      reply_logs-IsConsistent hub id (filter_logs s now hub id (f, time)) r c
        (λ x run.
          let (v, cases) = filter_logs-cases s now hub id f time x run in
          elim cases [
            | inl same ↦ subst IsConsistent (sym same) c
            | inr same ↦
                subst IsConsistent (sym same) (set_logs-IsConsistent hub id (f, time) v c found)
          ])
        e

  request-IsConsistent :
      (s : FunStorage) (now : ℕ) (hub : FilterHub) (id : ℕ) (o : Option (ℕ × ℕ))
      (r : FilterHub × Reply)
      → IsConsistent hub
      → lookup id hub.blocks_hub ≡ o
      → request s now hub id o ≡ ok r
      → IsConsistent r.0
  request-IsConsistent s now hub id none r c found e =
      request_logs-IsConsistent s now hub id (lookup id hub.logs_hub) r c refl e
  request-IsConsistent s now hub id (some (start, time)) r c found e =
      let (x, run, last) = >>=-eq-ok (filter_block s now hub id (start, time)) _ e in
      let (v, cases) = filter_block-cases s now hub id start time x run in
      let final = ok-Ends x.0 _ r last in
      elim cases [
        | inl same ↦ subst IsConsistent (sym (final ∙ same)) c
        | inr same ↦
            subst IsConsistent (sym (final ∙ same))
              (set_blocks-IsConsistent hub id (start, time) v c found)
      ]

  -- Each command leaves the hub consistent, while the identifiers do not run out.
  handle-IsConsistent :
      (s : FunStorage) (now : ℕ) (hub : FilterHub) (c : Command) (r : FilterHub × Reply)
      → hub.id + 1 < u64_mod
      → IsConsistent hub
      → handle s now hub c ≡ ok r
      → IsConsistent r.0
  unfolding handle impl_filter
  handle-IsConsistent s now hub (new_logs f) r room c run =
      let (header, _, rest) = >>=-eq-ok (or_panic (get_latest_block_header s)) _ run in
      let id : (hub.id + 1) % u64_mod ≡ hub.id + 1 = omega (arith, room) in
      let v : LoggerFilter × ℕ = (first_block header.number f, now) in
      let same =
        ok-Ends
          (record hub {
            id = (hub.id + 1) % u64_mod;
            logs_hub = insert ((hub.id + 1) % u64_mod) v hub.logs_hub;
          })
          _ r rest in
      rw (same, id) (add_logs-IsConsistent hub v c)
  handle-IsConsistent s now hub new_blocks r room c run =
      let (header, _, rest) = >>=-eq-ok (or_panic (get_latest_block_header s)) _ run in
      let id : (hub.id + 1) % u64_mod ≡ hub.id + 1 = omega (arith, room) in
      let v : ℕ × ℕ = (header.number, now) in
      let same =
        ok-Ends
          (record hub {
            id = (hub.id + 1) % u64_mod;
            blocks_hub = insert ((hub.id + 1) % u64_mod) v hub.blocks_hub;
          })
          _ r rest in
      rw (same, id) (add_blocks-IsConsistent hub v c)
  handle-IsConsistent s now hub (filter_request id) r room c run =
      request-IsConsistent s now hub id (lookup id hub.blocks_hub) r c refl run
  handle-IsConsistent s now hub (uninstall id) r room c run =
      let same = ok-Ends (remove_filter hub id).0 _ r run in
      subst IsConsistent (sym same) (elim (Bool-cases (is_some (lookup id hub.blocks_hub))) [
        | inl e ↦ unfold remove_filter in rw e (remove_blocks-IsConsistent hub id c)
        | inr e ↦ unfold remove_filter in rw e (remove_logs-IsConsistent hub id c)
      ])

  -- The hubs that a task goes through: it handles a command with the storage of that time, while
  -- identifiers are left, or looks for old filters.
  pub data Steps (start : FilterHub) : FilterHub → Type 0 where
    begun : Steps start start
    handled :
        {hub hub' : FilterHub}
        → Steps start hub
        → (s : FunStorage) (now : ℕ) (c : Command) (reply : Reply) → hub.id + 1 < u64_mod
        → handle s now hub c ≡ ok (hub', reply)
        → Steps start hub'
    checked :
        {hub hub' : FilterHub}
        → Steps start hub
        → (now : ℕ) → hub' ≡ check_hubs now hub
        → Steps start hub'

  Steps-IsConsistent :
      {start hub : FilterHub} → Steps start hub → IsConsistent start → IsConsistent hub
  Steps-IsConsistent begun c = c
  Steps-IsConsistent (handled steps s now command reply room run) c =
      handle-IsConsistent s now _ command (_, reply) room (Steps-IsConsistent steps c) run
  Steps-IsConsistent (checked steps now same) c =
      subst IsConsistent (sym same) (check_hubs-IsConsistent now _ (Steps-IsConsistent steps c))

  -- In every hub that is reached from a new one, both tables are sorted and hold no identifier above
  -- the last one given, so that the next one is fresh, and no identifier is in both.
  pub Steps-new-IsConsistent : (hub : FilterHub) → Steps new hub → IsConsistent hub
  unfolding new
  Steps-new-IsConsistent hub steps = Steps-IsConsistent steps (record {
    logs_ascend = tt;
    blocks_ascend = tt;
    logs_under = tt;
    blocks_under = tt;
    apart = λ k. inl (unfold lookup in refl);
  })
