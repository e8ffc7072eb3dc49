-- ===== src/Api/Invariant.antt =====
-- The identifiers of filters: what holds of a hub after any sequence of its steps.
use rt_evm.Common.{
  ℕ, suc, ◌+◌, ◌-◌, ◌≤◌, ◌<◌, ◌≡◌, ◌⊎◌, inl, inr, refl, ◌∙◌, arith, none, some, [], ◌∷◌, ltb, ◌==◌,
  Bool-cases,
}
use rt_evm.Common.Map.{
  Map, lookup, insert, remove, Ascends, Ascends-mono, insert-Ascends, remove-Ascends, lookup-insert,
  lookup-remove, Under,
}
use rt_evm.Api.Logs.{LoggerFilter}
use rt_evm.Api.Hub.{FilterHub, retain, check_hubs}

-- Both tables are sorted, no identifier is above the last one given, and none is in both.
pub record IsConsistent (hub : FilterHub) : Type 0 where
  pub logs_ascend : Ascends 0 hub.logs_hub
  pub blocks_ascend : Ascends 0 hub.blocks_hub
  pub logs_under : Under hub.id hub.logs_hub
  pub blocks_under : Under hub.id hub.blocks_hub
  pub apart : (k : ℕ) → (lookup k hub.logs_hub ≡ none) ⊎ (lookup k hub.blocks_hub ≡ none)

module _ {V : Type 0} where
  Under-mono : (b c : ℕ) (m : Map V) → b ≤ c → Under b m → Under c m
  Under-mono b c [] h u = tt
  Under-mono b c ((j, w) ∷ m) h u = (omega arith, Under-mono b c m h u.1)

  insert-Under : (b k : ℕ) (v : V) (m : Map V) → k ≤ b → Under b m → Under b (insert k v m)
  unfolding insert
  insert-Under b k v [] h u = (h, tt)
  insert-Under b k v ((j, w) ∷ m) h u = ground (arith, insert-Under b k v m)

  remove-Under : (b k : ℕ) (m : Map V) → Under b m → Under b (remove k m)
  unfolding remove
  remove-Under b k [] u = tt
  remove-Under b k ((j, w) ∷ m) u = ground (arith, remove-Under b k m)

  -- What is found is at most the bound, and what is above it is not found.
  lookup_above : (b k : ℕ) (m : Map V) → Under b m → b < k → lookup k m ≡ none
  unfolding lookup
  lookup_above b k [] u h = refl
  lookup_above b k ((j, w) ∷ m) u h = ground (arith, lookup_above b k m u.1)

  lookup-le : (b k : ℕ) (m : Map V) (v : V) → Under b m → lookup k m ≡ some v → k ≤ b
  unfolding lookup
  lookup-le b k [] v u h = cc
  lookup-le b k ((j, w) ∷ m) v u h = ground (arith, lookup-le b k m v u.1)

module _ {A : Type 0} where
  retain-Ascends : (now lo : ℕ) (m : Map (A × ℕ)) → Ascends lo m → Ascends lo (retain now m)
  unfolding retain
  retain-Ascends now lo [] a = tt
  retain-Ascends now lo ((j, (x, t)) ∷ m) a = elim (Bool-cases (ltb (now - t) 40)) [
    | inl e ↦ rw e (a.0, retain-Ascends now (suc j) m a.1)
    | inr e ↦
        rw e
          (Ascends-mono lo (suc j) (retain now m) (omega arith) (retain-Ascends now (suc j) m a.1))
  ]

  retain-Under : (now b : ℕ) (m : Map (A × ℕ)) → Under b m → Under b (retain now m)
  unfolding retain
  retain-Under now b [] u = tt
  retain-Under now b ((j, (x, t)) ∷ m) u = elim (Bool-cases (ltb (now - t) 40)) [
    | inl e ↦ rw e (u.0, retain-Under now b m u.1)
    | inr e ↦ rw e (retain-Under now b m u.1)
  ]

  lookup-retain : (now k : ℕ) (m : Map (A × ℕ)) → lookup k m ≡ none → lookup k (retain now m) ≡ none
  unfolding retain lookup
  lookup-retain now k [] h = refl
  lookup-retain now k ((j, (x, t)) ∷ m) h = elim (Bool-cases (ltb (now - t) 40)) [
    | inl e ↦ rw e (ground (arith, lookup-retain now k m))
    | inr e ↦ rw e (ground (arith, lookup-retain now k m))
  ]

pub check_hubs-IsConsistent :
    (now : ℕ) (hub : FilterHub) → IsConsistent hub → IsConsistent (check_hubs now hub)
unfolding check_hubs
check_hubs-IsConsistent now hub c = record {
  logs_ascend = retain-Ascends now 0 hub.logs_hub c.logs_ascend;
  blocks_ascend = retain-Ascends now 0 hub.blocks_hub c.blocks_ascend;
  logs_under = retain-Under now hub.id hub.logs_hub c.logs_under;
  blocks_under = retain-Under now hub.id hub.blocks_hub c.blocks_under;
  apart = λ k. elim (c.apart k) [
    | inl e ↦ inl (lookup-retain now k hub.logs_hub e)
    | inr e ↦ inr (lookup-retain now k hub.blocks_hub e)
  ];
}

-- The changes of a hub: an entry under a fresh identifier, another value for one that is there,
-- and a removal.
pub add_logs-IsConsistent :
    (hub : FilterHub) (v : LoggerFilter × ℕ)
    → IsConsistent hub
    → IsConsistent (record hub { id = hub.id + 1; logs_hub = insert (hub.id + 1) v hub.logs_hub })
add_logs-IsConsistent hub v c = record {
  logs_ascend = insert-Ascends (hub.id + 1) 0 v hub.logs_hub (omega arith) c.logs_ascend;
  blocks_ascend = c.blocks_ascend;
  logs_under =
      insert-Under (hub.id + 1) (hub.id + 1) v hub.logs_hub (omega arith)
        (Under-mono hub.id (hub.id + 1) hub.logs_hub (omega arith) c.logs_under);
  blocks_under = Under-mono hub.id (hub.id + 1) hub.blocks_hub (omega arith) c.blocks_under;
  apart = λ k. elim (Bool-cases (hub.id + 1 == k)) [
    | inl e ↦ inr (lookup_above hub.id k hub.blocks_hub c.blocks_under (ground (arith, e)))
    | inr e ↦ elim (c.apart k) [
      | inl f ↦ inl (lookup-insert (hub.id + 1) k v hub.logs_hub ∙ rw (e, f) refl)
      | inr f ↦ inr f
    ]
  ];
}

pub add_blocks-IsConsistent :
    (hub : FilterHub) (v : ℕ × ℕ)
    → IsConsistent hub
    → IsConsistent
        (record hub { id = hub.id + 1; blocks_hub = insert (hub.id + 1) v hub.blocks_hub })
add_blocks-IsConsistent hub v c = record {
  logs_ascend = c.logs_ascend;
  blocks_ascend = insert-Ascends (hub.id + 1) 0 v hub.blocks_hub (omega arith) c.blocks_ascend;
  logs_under = Under-mono hub.id (hub.id + 1) hub.logs_hub (omega arith) c.logs_under;
  blocks_under =
      insert-Under (hub.id + 1) (hub.id + 1) v hub.blocks_hub (omega arith)
        (Under-mono hub.id (hub.id + 1) hub.blocks_hub (omega arith) c.blocks_under);
  apart = λ k. elim (Bool-cases (hub.id + 1 == k)) [
    | inl e ↦ inl (lookup_above hub.id k hub.logs_hub c.logs_under (ground (arith, e)))
    | inr e ↦ elim (c.apart k) [
      | inl f ↦ inl f
      | inr f ↦ inr (lookup-insert (hub.id + 1) k v hub.blocks_hub ∙ rw (e, f) refl)
    ]
  ];
}

pub set_logs-IsConsistent :
    (hub : FilterHub) (id : ℕ) (old v : LoggerFilter × ℕ)
    → IsConsistent hub
    → lookup id hub.logs_hub ≡ some old
    → IsConsistent (record hub { logs_hub = insert id v hub.logs_hub })
set_logs-IsConsistent hub id old v c found = record {
  logs_ascend = insert-Ascends id 0 v hub.logs_hub (omega arith) c.logs_ascend;
  blocks_ascend = c.blocks_ascend;
  logs_under =
      insert-Under hub.id id v hub.logs_hub
        (lookup-le hub.id id hub.logs_hub old c.logs_under found) c.logs_under;
  blocks_under = c.blocks_under;
  apart = λ k. elim (c.apart k) [
    | inl f ↦ inl (lookup-insert id k v hub.logs_hub ∙ ground (arith, f, found))
    | inr f ↦ inr f
  ];
}

pub set_blocks-IsConsistent :
    (hub : FilterHub) (id : ℕ) (old v : ℕ × ℕ)
    → IsConsistent hub
    → lookup id hub.blocks_hub ≡ some old
    → IsConsistent (record hub { blocks_hub = insert id v hub.blocks_hub })
set_blocks-IsConsistent hub id old v c found = record {
  logs_ascend = c.logs_ascend;
  blocks_ascend = insert-Ascends id 0 v hub.blocks_hub (omega arith) c.blocks_ascend;
  logs_under = c.logs_under;
  blocks_under =
      insert-Under hub.id id v hub.blocks_hub
        (lookup-le hub.id id hub.blocks_hub old c.blocks_under found) c.blocks_under;
  apart = λ k. elim (c.apart k) [
    | inl f ↦ inl f
    | inr f ↦ inr (lookup-insert id k v hub.blocks_hub ∙ ground (arith, f, found))
  ];
}

pub remove_logs-IsConsistent :
    (hub : FilterHub) (id : ℕ)
    → IsConsistent hub
    → IsConsistent (record hub { logs_hub = remove id hub.logs_hub })
remove_logs-IsConsistent hub id c = record {
  logs_ascend = remove-Ascends id 0 hub.logs_hub c.logs_ascend;
  blocks_ascend = c.blocks_ascend;
  logs_under = remove-Under hub.id id hub.logs_hub c.logs_under;
  blocks_under = c.blocks_under;
  apart = λ k. elim (c.apart k) [
    | inl f ↦ inl (lookup-remove id k 0 hub.logs_hub c.logs_ascend ∙ ground (arith, f))
    | inr f ↦ inr f
  ];
}

pub remove_blocks-IsConsistent :
    (hub : FilterHub) (id : ℕ)
    → IsConsistent hub
    → IsConsistent (record hub { blocks_hub = remove id hub.blocks_hub })
remove_blocks-IsConsistent hub id c = record {
  logs_ascend = c.logs_ascend;
  blocks_ascend = remove-Ascends id 0 hub.blocks_hub c.blocks_ascend;
  logs_under = c.logs_under;
  blocks_under = remove-Under hub.id id hub.blocks_hub c.blocks_under;
  apart = λ k. elim (c.apart k) [
    | inl f ↦ inl f
    | inr f ↦ inr (lookup-remove id k 0 hub.blocks_hub c.blocks_ascend ∙ ground (arith, f))
  ];
}
