-- ===== src/Vault/Service.antt =====
-- The operations of VaultService. Each takes the database and the state of the secret stores, and
-- returns both: an exception drops what the session did to the database, and not what a store did.
-- Other failures of the database than a taken label are not modelled.
use intelli_study_planner_br.Base.{
  ℕ, Option, none, some, List, [], ◌∷◌, ◌++◌, Text, if◌then◌else◌, text_eq, nat_eq,
}
use intelli_study_planner_br.Vault.Rows.{
  Provider, StoredSecret, Credential, created, rotated, relabelled, deleted, Audit, Db, change_row,
  label_taken,
}
use intelli_study_planner_br.Vault.Secrets.{SecretStore, Stores, store_for, active_store}
use intelli_study_planner_br.Vault.Requests.{
  CreateRequest, Result, UpdateRequest, Vault, Verdict, apply_stored, audit, check_key,
  choose_default, default_audits, drop_row, duplicate_label, failed, get_key, hint, insert_row,
  key_not_found, label_change, last4, new_row, ok, rotate, unhandled, vault_error, with_audit,
}

module _ {S : Type 0} where
  -- What a store did is kept where the database does not get its row.
  abbrev after_forget : Option S → S → S
  after_forget none s = s
  after_forget (some s') s = s'

  abbrev forget : Option (SecretStore S) → Credential → S → S
  forget none c s = s
  forget (some store) c s = after_forget (store.delete s c) s

  abbrev pub finish_update :
      UpdateRequest → Credential → List Audit → Db → S → Result Credential × Vault S
  finish_update r c audits db s = (
    ok c,
    record {
      db = record {
        rows = choose_default r.make_default c (change_row c.id (λ _. c) db.rows);
        audits = db.audits ++ audits ++ default_audits r.make_default r.user c;
      };
      secrets = s;
    },
  )

  -- The label, once the key is replaced or kept. A taken label rolls the database back.
  abbrev pub relabel :
      UpdateRequest → Option Text → Credential → List Audit → Db → S → Result Credential × Vault S
  relabel r none c audits db s = finish_update r c audits db s
  relabel r (some l) c audits db s =
      let renamed : Credential = record c { label = l } in
      if label_taken renamed db.rows
      then (failed duplicate_label, record { db = db; secrets = s })
      else finish_update r renamed (audits ++ audit renamed r.user relabelled (some l) ∷ []) db s

  abbrev pub put_rotated :
      UpdateRequest
      → Text
      → Option ℕ
      → Credential
      → Vault S
      → Option (S × StoredSecret)
      → Result Credential × Vault S
  put_rotated r key verified_at c v none = (failed vault_error, v)
  put_rotated r key verified_at c v (some (s, stored)) =
      let c' : Credential = rotate stored key verified_at c in
      relabel r (label_change r.label c') c' (audit c' r.user rotated (hint c') ∷ []) v.db s

  abbrev pub put_in : Option (SecretStore S) → S → Credential → Text → Option (S × StoredSecret)
  put_in none s c key = none
  put_in (some store) s c key = store.put s c key

  abbrev pub delete_in : Option (SecretStore S) → S → Credential → Option S
  delete_in none s c = none
  delete_in (some store) s c = store.delete s c

  abbrev pub delete_secret : ℕ → Credential → Vault S → Option S → Result (Unit {0}) × Vault S
  delete_secret user c v none = (failed vault_error, v)
  delete_secret user c v (some s) = (
    ok tt,
    record {
      db = with_audit (audit c user deleted (hint c)) (drop_row c v.db.rows) v.db;
      secrets = s;
    },
  )

module _ {S : Type 0} (stores : Stores S) (verify_key : Provider → Text → Verdict) where
  -- _forget_quietly
  unfoldable pub forget_quietly : Credential → S → S
  unfolding store_for
  forget_quietly c s = forget (store_for stores c.backend) c s

  abbrev pub insert_stored : CreateRequest → Credential → Db → S → Result Credential × Vault S
  insert_stored r c db s =
      if label_taken c db.rows
      then (failed duplicate_label, record { db = db; secrets = forget_quietly c s })
      else (
        ok c,
        record {
          db = with_audit (audit c r.user created (hint c)) (insert_row r c db.rows) db;
          secrets = s;
        },
      )

  abbrev pub put_new :
      CreateRequest → Credential → Vault S → Option (S × StoredSecret) → Result Credential × Vault S
  put_new r c v none = (failed vault_error, v)
  put_new r c v (some (s, stored)) = insert_stored r (apply_stored stored c) v.db s

  abbrev pub create_in :
      CreateRequest → Option ℕ → Vault S → Option (SecretStore S) → Result Credential × Vault S
  create_in r verified_at v none = (failed unhandled, v)
  create_in r verified_at v (some store) =
      let c : Credential = new_row r store.name verified_at in
      put_new r c v (store.put v.secrets c r.api_key)

  abbrev pub create_checked :
      CreateRequest → Vault S → Result (Option ℕ) → Result Credential × Vault S
  create_checked r v (failed e) = (failed e, v)
  create_checked r v (ok verified_at) = create_in r verified_at v (active_store stores)

  -- VaultService.create_key
  unfoldable pub create_key : CreateRequest → Vault S → Result Credential × Vault S
  unfolding check_key active_store insert_row forget_quietly last4
  create_key r v = create_checked r v (check_key verify_key r.verify r.now r.provider r.api_key)

  abbrev pub replace_key :
      UpdateRequest → Text → Credential → Vault S → Result (Option ℕ) → Result Credential × Vault S
  replace_key r key c v (failed e) = (failed e, v)
  replace_key r key c v (ok verified_at) =
      put_rotated r key verified_at c v (put_in (store_for stores c.backend) v.secrets c key)

  abbrev pub update_row :
      UpdateRequest → Option Text → Credential → Vault S → Result Credential × Vault S
  update_row r none c v = relabel r (label_change r.label c) c [] v.db v.secrets
  update_row r (some key) c v =
      replace_key r key c v (check_key verify_key r.verify r.now c.provider key)

  abbrev pub update_found :
      UpdateRequest → Vault S → Option Credential → Result Credential × Vault S
  update_found r v none = (failed key_not_found, v)
  update_found r v (some c) = update_row r r.api_key c v

  -- VaultService.update_key
  unfoldable pub update_key : UpdateRequest → Vault S → Result Credential × Vault S
  unfolding get_key check_key store_for change_row choose_default last4
  update_key r v = update_found r v (get_key r.user r.id v.db.rows)

  abbrev pub delete_found : ℕ → Vault S → Option Credential → Result (Unit {0}) × Vault S
  delete_found user v none = (failed key_not_found, v)
  delete_found user v (some c) =
      delete_secret user c v (delete_in (store_for stores c.backend) v.secrets c)

  -- VaultService.delete_key
  unfoldable pub delete_key : ℕ → ℕ → Vault S → Result (Unit {0}) × Vault S
  unfolding get_key drop_row store_for
  delete_key user n v = delete_found user v (get_key user n v.db.rows)
