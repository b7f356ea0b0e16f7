-- ===== src/Vault/Upkeep.antt =====
-- The operations of VaultService that check, reject, use and purge keys.
use intelli_study_planner_br.Base.{
  ℕ, ◌+◌, Bool, true, false, not, Option, none, some, List, [], ◌∷◌, Text, ltb, if◌then◌else◌, ◌==◌,
  text_eq, nat_eq, keep, take,
}
use intelli_study_planner_br.Vault.Rows.{
  Provider, Status, active, invalid, Credential, verified, rejected, row_of, change_row,
}
use intelli_study_planner_br.Vault.Secrets.{SecretStore, Stores, store_for}
use intelli_study_planner_br.Vault.Requests.{
  Vault, Verdict, accepted, key_rejected, unavailable, vault_error, key_not_found, Result, ok,
  failed, get_key, audit, with_audit,
}
use intelli_study_planner_br.Vault.Service.{delete_in}

abbrev pub set_status : Status → Credential → Credential
set_status status c = record c { status = status }

abbrev pub set_verified : ℕ → Credential → Credential
set_verified now c = record c { status = active; last_verified_at = some now }

-- `last_used_at IS NULL OR last_used_at < cutoff`, in seconds.
abbrev is_stale : ℕ → Option ℕ → Bool
is_stale now none = true
is_stale now (some t) = ltb (t + 300) now

abbrev pub touch_row : ℕ → Credential → Credential
touch_row now c = if is_stale now c.last_used_at then record c { last_used_at = some now } else c

abbrev pub detail_of : Text → Text
detail_of detail = take 255 detail

abbrev pub purged : {S : Type 0} → Option S → (S → Option S) → Option S
purged none rest = none
purged (some s) rest = rest s

module _ {S : Type 0} where
  -- VaultService.mark_rejected
  unfoldable pub mark_rejected : ℕ → Text → Vault S → Vault S
  unfolding row_of change_row
  mark_rejected n detail v = on (row_of n v.db.rows)
    where
      on : Option Credential → Vault S
      on none = v
      on (some c) = record v {
        db =
            with_audit (audit c c.user_id rejected (some (detail_of detail)))
              (change_row n (set_status invalid) v.db.rows) v.db;
      }

  -- VaultService.touch_used
  unfoldable pub touch_used : ℕ → ℕ → Vault S → Vault S
  unfolding change_row
  touch_used n now v = record v {
    db = record v.db { rows = change_row n (touch_row now) v.db.rows };
  }

  -- What a verdict on a stored key changes; the text is the provider's explanation.
  abbrev pub record_verdict : ℕ → Credential → ℕ → Text → Vault S → Verdict → Result Bool × Vault S
  record_verdict user c now why v key_rejected = (
    ok false,
    record v {
      db =
          with_audit (audit c user rejected (some (detail_of why)))
            (change_row c.id (set_status invalid) v.db.rows) v.db;
    },
  )
  record_verdict user c now why v unavailable = (ok false, v)
  record_verdict user c now why v accepted = (
    ok true,
    record v {
      db =
          with_audit (audit c user verified none) (change_row c.id (set_verified now) v.db.rows)
            v.db;
    },
  )

  abbrev pub verify_revealed :
      (Provider → Text → Verdict)
      → ℕ
      → Credential
      → ℕ
      → Text
      → Vault S
      → Option Text
      → Result Bool × Vault S
  verify_revealed verify_key user c now why v none = (ok false, v)
  verify_revealed verify_key user c now why v (some key) =
      record_verdict user c now why v (verify_key c.provider key)

abbrev pub purge_found : {S : Type 0} → ℕ → Vault S → Option S → Result (Vault S)
purge_found user v none = failed vault_error
purge_found user v (some s) = ok (record {
  db = record v.db { rows = keep (λ c. not (c.user_id == user)) v.db.rows };
  secrets = s;
})

module _ {S : Type 0} (stores : Stores S) where
  abbrev reveal_in : Option (SecretStore S) → S → Credential → Option Text
  reveal_in none s c = none
  reveal_in (some store) s c = store.get s c

  -- reveal
  unfoldable pub reveal : Credential → S → Option Text
  unfolding store_for
  reveal c s = reveal_in (store_for stores c.backend) s c

  abbrev pub verify_found :
      (Provider → Text → Verdict)
      → ℕ
      → ℕ
      → Text
      → Vault S
      → Option Credential
      → Result Bool × Vault S
  verify_found verify_key user now why v none = (failed key_not_found, v)
  verify_found verify_key user now why v (some c) =
      verify_revealed verify_key user c now why v (reveal c v.secrets)

  -- VaultService.verify_stored_key
  unfoldable pub verify_stored_key :
      (Provider → Text → Verdict) → ℕ → ℕ → ℕ → Text → Vault S → Result Bool × Vault S
  unfolding get_key change_row reveal
  verify_stored_key verify_key user n now why v =
      verify_found verify_key user now why v (get_key user n v.db.rows)

  -- The secrets of a list of keys, deleted one by one; `none` where a store fails.
  unfoldable pub delete_secrets : List Credential → S → Option S
  unfolding store_for
  delete_secrets [] s = some s
  delete_secrets (c ∷ cs) s =
      purged (delete_in (store_for stores c.backend) s c) (λ s'. delete_secrets cs s')

  -- VaultService.purge_keys_for_user: the database where every secret was deleted. The caller commits.
  unfoldable pub purge_keys_for_user : ℕ → Vault S → Result (Vault S)
  unfolding delete_secrets
  purge_keys_for_user user v =
      purge_found user v (delete_secrets (keep (λ c. c.user_id == user) v.db.rows) v.secrets)
