-- ===== src/Executor/Adapter/Replay.antt =====
-- crates/executor/src/adapter/mod.rs: what the changes of an execution do to the accounts that the
-- EVM reads with `basic`.
use rt_evm.Common.{
  ℕ, ◌<◌, ◌^◌, ◌≡◌, refl, sym, ◌∙◌, ap, subst, Bytes, H160, Option, none, some, List, [], ◌∷◌, Bool,
  true, false, ◌&&◌, if◌then◌else◌, ◌==◌, ==→eq, ==→ne, Bool-cases, inl, inr, address_bytes,
  address_bytes_injective, list_eq, list_eq_refl, list_eq→eq, All,
}
use rt_evm.Common.Outcome.{ok-injective, or_panic-eq-ok, Outcome, ok, or_panic, >>=-eq-ok}
use rt_evm.Model.Rlp.{Externals, Account}
use rt_evm.Store.Table.{Tables}
use rt_evm.Store.Cache.{Caches}
use rt_evm.Store.Trie.{Tries, TrieLaws}
use rt_evm.Executor.Adapter.{
  Adapter, Basic, Apply, modify, delete, Modify, apply, erase, apply_one, apply_values, basic, get,
  decode_raw, basic_of, old_account, storage_trie,
}

abbrev pub address_of : Apply → H160
address_of (modify c) = c.address
address_of (delete a) = a

abbrev no_basic : Basic
no_basic = record { balance = 0; nonce = 0 }

abbrev basic_after : Apply → Basic
basic_after (modify c) = c.basic
basic_after (delete a) = no_basic

-- The nonce and balance at an address after some changes: those of the last change of it.
abbrev pub replay : List Apply → H160 → Basic → Basic
replay [] a before = before
replay (v ∷ vs) a before = replay vs a (if address_of v == a then basic_after v else before)

and-left : (s t : Bool) → s && t ≡ true → s ≡ true
and-left true t h = refl
and-left false t h = h

and-right : (s t : Bool) → s && t ≡ true → t ≡ true
and-right true t h = h
and-right false t h = cc

basic_eq : (x y : ℕ) → x ≡ 0 → y ≡ 0 → ◌≡◌ {A = Basic} (record { balance = x; nonce = y }) no_basic
basic_eq x y hx hy = rw (hx, hy) refl

none_left :
    (basic : Basic) (rest : Bool)
    → (basic.balance == 0) && ((basic.nonce == 0) && rest) ≡ true
    → basic ≡ no_basic
none_left basic rest h =
    let no_nonce : (basic.nonce == 0) && rest ≡ true = and-right (basic.balance == 0) _ h in
    basic_eq basic.balance basic.nonce (==→eq basic.balance 0 (and-left (basic.balance == 0) _ h))
      (==→eq basic.nonce 0 (and-left (basic.nonce == 0) rest no_nonce))

same_test :
    (t : Bool) (x y : Basic) → (if t then x else (if t then x else y)) ≡ (if t then x else y)
same_test true x y = refl
same_test false x y = refl

module _ ⦃ext : Externals⦄ ⦃tries : Tries⦄ ⦃tables : Tables⦄ ⦃caches : Caches⦄ where
  -- what `basic` reads from an answer of the trie
  basic_in : Outcome (Option Bytes) → Basic
  basic_in answer = basic_of (decode_raw (elim answer [ ok o ↦ o | _ ↦ none ]))

  basic-answer :
      (b : Adapter) (a : H160) → basic b a ≡ basic_in (tries.get b.state (address_bytes a))
  unfolding basic get basic_in
  basic-answer b a = refl

  address_test :
      (a b : H160)
      → a < 2 ^ 160
      → b < 2 ^ 160
      → list_eq (address_bytes a) (address_bytes b) ≡ (a == b)
  address_test a b ha hb = elim (Bool-cases (a == b)) [
    | inl e ↦ rw (e, ==→eq a b e) (list_eq_refl (address_bytes b))
    | inr e ↦ elim (Bool-cases (list_eq (address_bytes a) (address_bytes b))) [
      | inl same ↦ absurd (==→ne a b e (address_bytes_injective a b ha hb (list_eq→eq _ _ same)))
      | inr other ↦ rw (e) other
    ]
  ]

  basic_in-if :
      (t : Bool) (x y : Outcome (Option Bytes))
      → basic_in (if t then x else y) ≡ (if t then basic_in x else basic_in y)
  basic_in-if true x y = refl
  basic_in-if false x y = refl

  module _ (laws : TrieLaws tries)
      (codec : (acc : Account) → ext.decode_account (ext.encode_account acc) ≡ some acc) where
    -- The world state `t` reads as `b` does, but at one address.
    abbrev Reads : Adapter → tries.Trie → H160 → Basic → Type 0
    Reads b t a new =
        (other : H160)
        → other < 2 ^ 160
        → basic_in (tries.get t (address_bytes other)) ≡ (if a == other then new else basic b other)

    insert-Reads :
        (b : Adapter) (t : tries.Trie) (a : H160) (acc : Account)
        → a < 2 ^ 160
        → tries.insert b.state (address_bytes a) (ext.encode_account acc) ≡ ok t
        → Reads b t a (record { balance = acc.balance; nonce = acc.nonce })
    unfolding basic_in
    insert-Reads b t a acc ha h other ho =
        ap basic_in (
          laws.get-insert b.state t (address_bytes a) (ext.encode_account acc) (address_bytes other)
            h)
        ∙ rw (address_test a other ha ho, basic_in-if (a == other), codec acc, basic-answer b other)
            refl

    remove-Reads :
        (b : Adapter) (t : tries.Trie) (a : H160)
        → a < 2 ^ 160
        → tries.remove b.state (address_bytes a) ≡ ok t
        → Reads b t a no_basic
    unfolding basic_in
    remove-Reads b t a ha h other ho =
        ap basic_in (laws.get-remove b.state t (address_bytes a) (address_bytes other) h)
        ∙ rw (address_test a other ha ho, basic_in-if (a == other), basic-answer b other) refl

    apply-Reads :
        (b b' : Adapter) (c : Modify) (is_empty : Bool)
        → c.address < 2 ^ 160
        → apply b c ≡ ok (b', is_empty)
        → (Reads b b'.state c.address c.basic) × (is_empty ≡ true → c.basic ≡ no_basic)
    unfolding apply
    apply-Reads b b' c is_empty ha h =
        let (existing, h₁, e₁) = >>=-eq-ok (old_account b c.address) _ h in
        let (opened, h₂, e₂) = >>=-eq-ok (or_panic (storage_trie b c existing)) _ e₁ in
        let (t, h₃, e₃) =
          >>=-eq-ok (or_panic (tries.insert b.state (address_bytes c.address) _)) _ e₂ in
        let left = ok-injective e₃ in
        let state : t ≡ b'.state = ap (λ p. p.0.state) left in
        (
          subst (λ u. Reads b u c.address c.basic) state
              (insert-Reads b t c.address _ ha (or_panic-eq-ok _ h₃)),
          λ e. none_left c.basic _ (ap (λ p. p.1) left ∙ e),
        )

    erase-Reads :
        (b b' : Adapter) (a : H160) → a < 2 ^ 160 → erase b a ≡ ok b' → Reads b b'.state a no_basic
    unfolding erase
    erase-Reads b b' a ha h =
        let (t, h₁, e₁) = >>=-eq-ok (or_panic (tries.remove b.state (address_bytes a))) _ h in
        let state : t ≡ b'.state = ap (λ x. x.state) (ok-injective e₁) in
        subst (λ u. Reads b u a no_basic) state (remove-Reads b t a ha (or_panic-eq-ok _ h₁))

    -- an account that is left empty is erased, where the flag says so
    kept-Reads :
        (b b1 b' : Adapter) (a : H160) (new : Basic) (drops : Bool)
        → a < 2 ^ 160
        → (drops ≡ true → new ≡ no_basic)
        → Reads b b1.state a new
        → (if drops then erase b1 a else ok b1) ≡ ok b'
        → Reads b b'.state a new
    kept-Reads b b1 b' a new false ha empty reads h =
        subst (λ x. Reads b x.state a new) (ok-injective h) reads
    kept-Reads b b1 b' a new true ha empty reads h = λ other ho.
        let before = subst (λ n. Reads b b1.state a n) (empty refl) reads other ho in
        rw (empty refl) (
          erase-Reads b1 b' a ha h other ho
          ∙ ap (λ x. if a == other then no_basic else x) (basic-answer b1 other ∙ before)
          ∙ same_test (a == other) no_basic (basic b other))

    apply_one-Reads :
        (b b' : Adapter) (v : Apply) (delete_empty : Bool)
        → address_of v < 2 ^ 160
        → apply_one b v delete_empty ≡ ok b'
        → Reads b b'.state (address_of v) (basic_after v)
    unfolding apply_one
    apply_one-Reads b b' (delete a) delete_empty ha h = erase-Reads b b' a ha h
    apply_one-Reads b b' (modify c) delete_empty ha h =
        let ((b1, is_empty), h₁, e₁) = >>=-eq-ok (apply b c) _ h in
        let (reads, none_kept) = apply-Reads b b1 c is_empty ha h₁ in
        kept-Reads b b1 b' c.address c.basic (is_empty && delete_empty) ha
          (λ both. none_kept (and-left is_empty delete_empty both)) reads e₁

    -- A list of changes, as `ApplyBackend::apply` goes through it, has the effect of its replay: after
    -- it, `basic` has at every address the nonce and balance of the last change of that address,
    -- none after a deletion, and those from before where there is no change.
    pub apply_values-replay :
        (vs : List Apply) (b b' : Adapter) (delete_empty : Bool) (a : H160)
        → All (λ v. address_of v < 2 ^ 160) vs
        → a < 2 ^ 160
        → apply_values b vs delete_empty ≡ ok b'
        → basic b' a ≡ replay vs a (basic b a)
    unfolding apply_values
    apply_values-replay [] b b' delete_empty a hv ha h = ap (λ x. basic x a) (sym (ok-injective h))
    apply_values-replay (v ∷ vs) b b' delete_empty a (hv, hs) ha h =
        let (b1, h₁, e₁) = >>=-eq-ok (apply_one b v delete_empty) _ h in
        apply_values-replay vs b1 b' delete_empty a hs ha e₁
        ∙ ap (replay vs a) (basic-answer b1 a ∙ apply_one-Reads b b1 v delete_empty hv h₁ a ha)
