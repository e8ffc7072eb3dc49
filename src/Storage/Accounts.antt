-- ===== src/Storage/Accounts.antt =====
-- crates/storage/src/lib.rs: accounts of the world state, read and written through a trie handle.
use rt_evm.Common.{
  ℕ, ◌<◌, ◌^◌, ◌≡◌, ◌≢◌, Bytes, H160, Option, none, some, [], ◌∷◌, nil_hash, address_bytes,
  address_bytes_injective, list_eq, list_eq_refl, list_eq→eq, Bool-cases, inl, inr,
}
use rt_evm.Common.Outcome.{Outcome, ok, bad_codec, not_found, or_err, ◌>>=◌}
use rt_evm.Model.Rlp.{Externals, Account}
use rt_evm.Model.Block.{Header}
use rt_evm.Store.Table.{Tables}
use rt_evm.Store.Cache.{Caches}
use rt_evm.Store.Trie.{Tries, TrieLaws}
use rt_evm.Storage.{FunStorage, get_block_header, get_latest_block_header}

abbrev pub empty_account : Account
empty_account = record { nonce = 0; balance = 0; storage_root = nil_hash; code_hash = nil_hash }

-- `[0]`
abbrev pub world_state_meta_key : Bytes
world_state_meta_key = 0 ∷ []

module _ ⦃ext : Externals⦄ where
  -- `Account::decode` on what the trie has, if it has anything
  unfoldable pub account_of : Option Bytes → Outcome Account
  account_of none = ok empty_account
  account_of (some bytes) = or_err (ext.decode_account bytes) bad_codec

  module _ ⦃tries : Tries⦄ where
    unfoldable pub get_account_by_state : tries.Trie → H160 → Outcome Account
    get_account_by_state t a = tries.get t (address_bytes a) >>= account_of

    unfoldable pub save_account_by_state : tries.Trie → H160 → Account → Outcome tries.Trie
    save_account_by_state t a acc = tries.insert t (address_bytes a) (ext.encode_account acc)

    module _ ⦃tables : Tables⦄ ⦃caches : Caches⦄ where
      -- the header of block `n`, or of the latest block
      unfoldable pub header_for : FunStorage → Option ℕ → Outcome Header
      header_for s none = get_latest_block_header s
      header_for s (some n) = get_block_header s n >>= λ h. or_err h not_found

      unfoldable pub get_account_by_backend :
          tries.Store → FunStorage → H160 → Option ℕ → Outcome Account
      get_account_by_backend store s a number = do
        header ← header_for s number
        state ← tries.trie_restore store world_state_meta_key header.state_root
        get_account_by_state state a

      -- The handle that is written to is dropped without a commit: neither the store nor the
      -- storage changes, and only the success of the write is returned.
      unfoldable pub save_account_by_backend :
          tries.Store → FunStorage → H160 → Account → Outcome (Unit {0})
      save_account_by_backend store s a acc = do
        header ← get_latest_block_header s
        state ← tries.trie_restore store world_state_meta_key header.state_root
        saved ← save_account_by_state state a acc
        ok tt

    pub get-save-same :
        (laws : TrieLaws tries)
        (codec : (acc : Account) → ext.decode_account (ext.encode_account acc) ≡ some acc)
        (t u : tries.Trie) (a : H160) (acc : Account)
        → save_account_by_state t a acc ≡ ok u
        → get_account_by_state u a ≡ ok acc
    unfolding get_account_by_state save_account_by_state account_of
    get-save-same laws codec t u a acc saved =
        rw
          (
            laws.get-insert t u (address_bytes a) (ext.encode_account acc) (address_bytes a) saved,
            list_eq_refl (address_bytes a),
          )
          (rw (account_of, codec acc))

    -- A saved account is read back from the handle, and accounts at other addresses are read as
    -- before, where the account codec reads back what it writes.
    pub get-save_account_by_state :
        (laws : TrieLaws tries)
        (codec : (acc : Account) → ext.decode_account (ext.encode_account acc) ≡ some acc)
        (t u : tries.Trie) (a b : H160) (acc : Account)
        → a < 2 ^ 160
        → b < 2 ^ 160
        → a ≢ b
        → save_account_by_state t a acc ≡ ok u
        → (get_account_by_state u a ≡ ok acc)
          × (get_account_by_state u b ≡ get_account_by_state t b)
    unfolding get_account_by_state save_account_by_state account_of
    get-save_account_by_state laws codec t u a b acc ha hb ne saved =
        let other =
          laws.get-insert t u (address_bytes a) (ext.encode_account acc) (address_bytes b) saved in
        (
          get-save-same laws codec t u a acc saved,
          elim (Bool-cases (list_eq (address_bytes a) (address_bytes b))) [
            | inl e ↦ absurd (ne (address_bytes_injective a b ha hb (list_eq→eq _ _ e)))
            | inr e ↦ rw (other, e)
          ],
        )
