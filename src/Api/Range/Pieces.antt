-- ===== src/Api/Range/Pieces.antt =====
-- The logs of a range of blocks: searches that took all of them, or left early, how two searches
-- compose, and ranges taken in parts.
use mathlib.Core.List.{append_assoc, append-nil}
use rt_evm.Common.{
  ◌-◌, ◌≤◌, ◌+◌, arith, ℕ, zero, suc, ◌<◌, ◌≡◌, ◌⊎◌, inl, inr, refl, sym, ap, ◌∙◌, H160, Option,
  none, some, List, [], ◌∷◌, ◌++◌, length, true, false, Bool-cases, ltb, ltb→lt,
}
use rt_evm.Model.Response.{Receipt}
use rt_evm.Api.Logs.{TopicFilter, Web3Log, logs_from, from_receipt_to_web3_log, extend_logs}
use rt_evm.Api.Range.{max_log_num, Search, extend}

-- The logs of receipts that a filter asks for; the index counts the receipts that are there.
abbrev pub logs_in : List TopicFilter → List H160 → ℕ → List (Option Receipt) → List Web3Log
logs_in topics addresses i [] = []
logs_in topics addresses i (none ∷ rs) = logs_in topics addresses i rs
logs_in topics addresses i (some r ∷ rs) =
    logs_from i topics addresses r 0 r.logs ++ logs_in topics addresses (suc i) rs

-- The logs of the blocks from `n` on, `k` of them, by their receipts.
abbrev pub logs_between :
    List TopicFilter → List H160 → (ℕ → List (Option Receipt)) → ℕ → ℕ → List Web3Log
logs_between topics addresses receipts n zero = []
logs_between topics addresses receipts n (suc k) =
    logs_in topics addresses 0 (receipts n) ++ logs_between topics addresses receipts (suc n) k

-- A search went over logs: it took all of them, or left early with more than the limit.
pub record Cut (before : Search) (want : List Web3Log) (after : Search) : Type 0 where
  pub rest : List Web3Log
  pub split : before.all_logs ++ want ≡ after.all_logs ++ rest
  pub left :
      ((after.early_return ≡ false) × (rest ≡ []))
      ⊎ ((after.early_return ≡ true) × (max_log_num < length after.all_logs))

pub extend-Cut :
    (topics : List TopicFilter) (addresses : List H160) (i : ℕ) (rs : List (Option Receipt))
    (found : Search)
    → found.early_return ≡ false
    → Cut found (logs_in topics addresses i rs) (extend topics addresses i rs found)
unfolding extend from_receipt_to_web3_log
extend-Cut topics addresses i [] found h = record { rest = []; split = refl; left = inl (h, refl) }
extend-Cut topics addresses i (none ∷ rs) found h = extend-Cut topics addresses i rs found h
extend-Cut topics addresses i (some r ∷ rs) found h =
    let here = logs_from i topics addresses r 0 r.logs in
    let later = logs_in topics addresses (suc i) rs in
    elim (Bool-cases (ltb max_log_num (length (found.all_logs ++ here)))) [
      | inl full ↦ rw full (record {
        rest = later;
        split = sym (append_assoc found.all_logs here later);
        left = inr (refl, ltb→lt max_log_num (length (found.all_logs ++ here)) full);
      })
      | inr room ↦
          let next =
            extend-Cut topics addresses (suc i) rs
              (record found { all_logs = found.all_logs ++ here }) h in
          rw room (record {
            rest = next.rest;
            split = sym (append_assoc found.all_logs here later) ∙ next.split;
            left = next.left;
          })
    ]

pub extend-visited_last :
    (topics : List TopicFilter) (addresses : List H160) (i : ℕ) (rs : List (Option Receipt))
    (found : Search)
    → (extend topics addresses i rs found).visited_last ≡ found.visited_last
unfolding extend from_receipt_to_web3_log
extend-visited_last topics addresses i [] found = refl
extend-visited_last topics addresses i (none ∷ rs) found =
    extend-visited_last topics addresses i rs found
extend-visited_last topics addresses i (some r ∷ rs) found =
    let more = found.all_logs ++ logs_from i topics addresses r 0 r.logs in
    elim (Bool-cases (ltb max_log_num (length more))) [
      | inl full ↦ rw full refl
      | inr room ↦
          rw room
            (extend-visited_last topics addresses (suc i) rs (record found { all_logs = more }))
    ]

-- A search that was cut off has gone over whatever comes after.
pub Cut-stop :
    (a b : Search) (first second : List Web3Log)
    → b.early_return ≡ true
    → Cut a first b
    → Cut a (first ++ second) b
Cut-stop a b first second early cut = record {
  rest = cut.rest ++ second;
  split =
      sym (append_assoc a.all_logs first second)
      ∙ ap (λ l. l ++ second) cut.split
      ∙ append_assoc b.all_logs cut.rest second;
  left = elim cut.left [ inl (on, _) ↦ cc | inr full ↦ inr full ];
}

Cut-all :
    (a b : Search) (first : List Web3Log)
    → b.early_return ≡ false
    → Cut a first b
    → a.all_logs ++ first ≡ b.all_logs
Cut-all a b first on cut = elim cut.left [
  | inl (_, all) ↦ cut.split ∙ ap (λ l. b.all_logs ++ l) all ∙ append-nil b.all_logs
  | inr (early, _) ↦ cc
]

pub Cut-next :
    (a b c : Search) (first second : List Web3Log)
    → b.early_return ≡ false
    → Cut a first b
    → Cut b second c
    → Cut a (first ++ second) c
Cut-next a b c first second on one two = record {
  rest = two.rest;
  split =
      sym (append_assoc a.all_logs first second)
      ∙ ap (λ l. l ++ second) (Cut-all a b first on one)
      ∙ two.split;
  left = two.left;
}

pub extend_logs-logs_in :
    (topics : List TopicFilter) (addresses : List H160) (i : ℕ) (found : List Web3Log)
    (rs : List (Option Receipt))
    → extend_logs topics addresses i found rs ≡ found ++ logs_in topics addresses i rs
unfolding extend_logs from_receipt_to_web3_log
extend_logs-logs_in topics addresses i found [] = sym (append-nil found)
extend_logs-logs_in topics addresses i found (none ∷ rs) =
    extend_logs-logs_in topics addresses i found rs
extend_logs-logs_in topics addresses i found (some r ∷ rs) =
    let here = logs_from i topics addresses r 0 r.logs in
    extend_logs-logs_in topics addresses (suc i) (found ++ here) rs
    ∙ append_assoc found here (logs_in topics addresses (suc i) rs)

pub logs_between-append :
    (topics : List TopicFilter) (addresses : List H160) (receipts : ℕ → List (Option Receipt))
    (n j k : ℕ)
    → logs_between topics addresses receipts n (j + k)
      ≡ logs_between topics addresses receipts n j
        ++ logs_between topics addresses receipts (n + j) k
logs_between-append topics addresses receipts n zero k =
    let same : n + 0 ≡ n = omega arith in
    let none_more : 0 + k ≡ k = omega arith in rw (same, none_more) refl
logs_between-append topics addresses receipts n (suc j) k =
    let moved : suc n + j ≡ n + suc j = omega arith in
    let grown : suc j + k ≡ suc (j + k) = omega arith in
    let here = logs_in topics addresses 0 (receipts n) in
    rw grown (
      ap (λ l. here ++ l)
        (logs_between-append topics addresses receipts (suc n) j k ∙ rw moved refl)
      ∙ sym (
          append_assoc here (logs_between topics addresses receipts (suc n) j)
            (logs_between topics addresses receipts (n + suc j) k)))

logs_between-last :
    (topics : List TopicFilter) (addresses : List H160) (receipts : ℕ → List (Option Receipt))
    (n k : ℕ)
    → logs_between topics addresses receipts n k ++ logs_in topics addresses 0 (receipts (n + k))
      ≡ logs_between topics addresses receipts n (suc k)
logs_between-last topics addresses receipts n k =
    let one : k + 1 ≡ suc k = omega arith in
    ap (λ l. logs_between topics addresses receipts n k ++ l)
      (sym (append-nil (logs_in topics addresses 0 (receipts (n + k)))))
    ∙ sym (logs_between-append topics addresses receipts n k 1)
    ∙ ap (logs_between topics addresses receipts n) one

-- The blocks from `start` on below the latest one, and the latest one.
pub logs_between-top :
    (topics : List TopicFilter) (addresses : List H160) (receipts : ℕ → List (Option Receipt))
    (start top : ℕ)
    → start ≤ top
    → logs_between topics addresses receipts start (top - start)
        ++ logs_in topics addresses 0 (receipts top)
      ≡ logs_between topics addresses receipts start (suc top - start)
logs_between-top topics addresses receipts start top low =
    let grown : suc (top - start) ≡ suc top - start = omega (arith, low) in
    let here : start + (top - start) ≡ top = omega (arith, low) in
    let before = logs_between topics addresses receipts start (top - start) in
    ap (λ m. before ++ logs_in topics addresses 0 (receipts m)) (sym here)
    ∙ logs_between-last topics addresses receipts start (top - start)
    ∙ ap (logs_between topics addresses receipts start) grown
