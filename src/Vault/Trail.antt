-- ===== src/Vault/Trail.antt =====
-- The audit trail (LLMCredentialAudit) under the operations of app/services/vault_service.py.
use intelli_study_planner_br.Base.{
  ℕ, ◌≡◌, refl, ap, sym, ◌∙◌, Option, none, some, List, [], ◌∷◌, ◌++◌, Text, keep, Bool-cases,
  Option-cases, inl, inr, ◌==◌, nat_eq,
}
use intelli_study_planner_br.Vault.Rows.{
  Provider, Credential, StoredSecret, Audit, row_of, label_taken, rotated, relabelled,
}
use intelli_study_planner_br.Vault.Secrets.{SecretStore, Stores, store_for, active_store}
use intelli_study_planner_br.Vault.Requests.{
  Vault, Verdict, accepted, key_rejected, unavailable, Result, ok, failed, CreateRequest,
  UpdateRequest, get_key, check_key, new_row, apply_stored, rotate, label_change, audit, hint,
  default_audits,
}
use intelli_study_planner_br.Vault.Service.{
  finish_update, create_key, update_key, delete_key, put_new, create_in, create_checked, relabel,
  put_rotated, put_in, replace_key, update_row, update_found, delete_secret, delete_in,
  delete_found,
}
use intelli_study_planner_br.Vault.Upkeep.{
  mark_rejected, touch_used, reveal, record_verdict, verify_revealed, verify_stored_key,
  delete_secrets, purge_keys_for_user, verify_found, purge_found,
}
use intelli_study_planner_br.Vault.Reachable.{
  Steps, creates, updates, deletes, verifies, rejects, touches, purges,
}

nil_right : (es : List Audit) → es ≡ es ++ []
nil_right [] = refl
nil_right (a ∷ es) = ap (λ t. a ∷ t) (nil_right es)

append_assoc : (es fs gs : List Audit) → (es ++ fs) ++ gs ≡ es ++ (fs ++ gs)
append_assoc [] fs gs = refl
append_assoc (a ∷ es) fs gs = ap (λ t. a ∷ t) (append_assoc es fs gs)

unchanged : (es : List Audit) → (new : List Audit) × (es ≡ es ++ new)
unchanged es = ([], nil_right es)

module _ {S : Type 0} where
  -- The entries of `v` come first in those of `w`.
  abbrev pub Extends : Vault S → Vault S → Type 0
  Extends v w = (new : List Audit) × (w.db.audits ≡ v.db.audits ++ new)

  same : (v w : Vault S) → w.db.audits ≡ v.db.audits → Extends v w
  same v w e = let (new, grown) = unchanged v.db.audits in (new, e ∙ grown)

  Extends-finish_update :
      (r : UpdateRequest) (c : Credential) (audits : List Audit) (v : Vault S) (s : S)
      → Extends v (finish_update r c audits v.db s).1
  Extends-finish_update r c audits v s = (
    audits ++ default_audits r.make_default r.user c,
    append_assoc v.db.audits audits (default_audits r.make_default r.user c),
  )

  Extends-relabel :
      (r : UpdateRequest) (l : Option Text) (c : Credential) (audits : List Audit) (v : Vault S)
      (s : S)
      → Extends v (relabel r l c audits v.db s).1
  Extends-relabel r none c audits v s = Extends-finish_update r c audits v s
  Extends-relabel r (some l) c audits v s =
      elim (Bool-cases (label_taken (record c { label = l }) v.db.rows)) [
        | inl taken ↦ rw taken (same v (record { db = v.db; secrets = s }) refl)
        | inr free ↦ rw free (
            Extends-finish_update r (record c { label = l })
              (audits ++ audit (record c { label = l }) r.user relabelled (some l) ∷ []) v s)
      ]

  Extends-put_rotated :
      (r : UpdateRequest) (key : Text) (at : Option ℕ) (c : Credential) (v : Vault S)
      (o : Option (S × StoredSecret))
      → Extends v (put_rotated r key at c v o).1
  Extends-put_rotated r key at c v none = same v v refl
  Extends-put_rotated r key at c v (some (s, stored)) =
      let c' : Credential = rotate stored key at c in
      Extends-relabel r (label_change r.label c') c' (audit c' r.user rotated (hint c') ∷ []) v s

  Extends-delete_secret :
      (user : ℕ) (c : Credential) (v : Vault S) (o : Option S)
      → Extends v (delete_secret user c v o).1
  Extends-delete_secret user c v none = same v v refl
  Extends-delete_secret user c v (some s) = (_, refl)

  Extends-verdict :
      (user now : ℕ) (why : Text) (c : Credential) (v : Vault S) (x : Verdict)
      → Extends v (record_verdict user c now why v x).1
  Extends-verdict user now why c v accepted = (_, refl)
  Extends-verdict user now why c v key_rejected = (_, refl)
  Extends-verdict user now why c v unavailable = same v v refl

module _ {S : Type 0} (stores : Stores S) (verify_key : Provider → Text → Verdict)
    (v : Vault S) where
  Extends-put_new :
      (r : CreateRequest) (c : Credential) (o : Option (S × StoredSecret))
      → Extends v (put_new stores verify_key r c v o).1
  Extends-put_new r c none = same v v refl
  Extends-put_new r c (some (s, stored)) =
      elim (Bool-cases (label_taken (apply_stored stored c) v.db.rows)) [
        | inl taken ↦ rw taken (unchanged v.db.audits)
        | inr free ↦ rw free (_, refl)
      ]

  Extends-create_in :
      (r : CreateRequest) (at : Option ℕ) (o : Option (SecretStore S))
      → Extends v (create_in stores verify_key r at v o).1
  Extends-create_in r at none = same v v refl
  Extends-create_in r at (some store) =
      Extends-put_new r (new_row r store.name at)
        (store.put v.secrets (new_row r store.name at) r.api_key)

  Extends-create_checked :
      (r : CreateRequest) (x : Result (Option ℕ))
      → Extends v (create_checked stores verify_key r v x).1
  Extends-create_checked r (failed e) = same v v refl
  Extends-create_checked r (ok at) = Extends-create_in r at (active_store stores)

  Extends-replace_key :
      (r : UpdateRequest) (key : Text) (c : Credential) (x : Result (Option ℕ))
      → Extends v (replace_key stores verify_key r key c v x).1
  Extends-replace_key r key c (failed e) = same v v refl
  Extends-replace_key r key c (ok at) =
      Extends-put_rotated r key at c v (put_in (store_for stores c.backend) v.secrets c key)

  Extends-update_row :
      (r : UpdateRequest) (o : Option Text) (c : Credential)
      → Extends v (update_row stores verify_key r o c v).1
  Extends-update_row r none c = Extends-relabel r (label_change r.label c) c [] v v.secrets
  Extends-update_row r (some key) c =
      Extends-replace_key r key c (check_key verify_key r.verify r.now c.provider key)

  Extends-update_found :
      (r : UpdateRequest) (o : Option Credential)
      → Extends v (update_found stores verify_key r v o).1
  Extends-update_found r none = same v v refl
  Extends-update_found r (some c) = Extends-update_row r r.api_key c

  Extends-delete_found :
      (user : ℕ) (o : Option Credential) → Extends v (delete_found stores verify_key user v o).1
  Extends-delete_found user none = same v v refl
  Extends-delete_found user (some c) =
      Extends-delete_secret user c v (delete_in (store_for stores c.backend) v.secrets c)

  Extends-revealed :
      (user now : ℕ) (why : Text) (c : Credential) (o : Option Text)
      → Extends v (verify_revealed verify_key user c now why v o).1
  Extends-revealed user now why c none = same v v refl
  Extends-revealed user now why c (some key) =
      Extends-verdict user now why c v (verify_key c.provider key)

  Extends-verify_found :
      (user now : ℕ) (why : Text) (o : Option Credential)
      → Extends v (verify_found stores verify_key user now why v o).1
  Extends-verify_found user now why none = same v v refl
  Extends-verify_found user now why (some c) =
      Extends-revealed user now why c (reveal stores c v.secrets)

  Extends-mark_rejected : (n : ℕ) (detail : Text) → Extends v (mark_rejected n detail v)
  unfolding mark_rejected
  Extends-mark_rejected n detail = elim (Option-cases (row_of n v.db.rows)) [
    | inl absent ↦ rw absent (same v v refl)
    | inr (c, found) ↦ rw found (_, refl)
  ]

  Extends-purge_found :
      (user : ℕ) (w : Vault S) (o : Option S) → purge_found user v o ≡ ok w → Extends v w
  Extends-purge_found user w none e = cc
  Extends-purge_found user w (some s) e = same v w (sym (ap audits_of e))
    where
      audits_of : Result (Vault S) → List Audit
      audits_of (ok x) = x.db.audits
      audits_of (failed e) = []

module _ {S : Type 0} (stores : Stores S) (verify_key : Provider → Text → Verdict) where
  -- Whatever an operation of the vault does, refused and failing ones included, every entry of the audit
  -- trail stays, in its place; deleted and purged keys keep theirs.
  pub Steps-Extends : (v w : Vault S) → Steps stores verify_key v w → Extends v w
  unfolding create_key update_key delete_key verify_stored_key touch_used purge_keys_for_user
  Steps-Extends _ _ (creates r v fresh) =
      Extends-create_checked stores verify_key v r
        (check_key verify_key r.verify r.now r.provider r.api_key)
  Steps-Extends _ _ (updates r v) =
      Extends-update_found stores verify_key v r (get_key r.user r.id v.db.rows)
  Steps-Extends _ _ (deletes user n v) =
      Extends-delete_found stores verify_key v user (get_key user n v.db.rows)
  Steps-Extends _ _ (verifies user n now why v) =
      Extends-verify_found stores verify_key v user now why (get_key user n v.db.rows)
  Steps-Extends _ _ (rejects n detail v) = Extends-mark_rejected stores verify_key v n detail
  Steps-Extends _ _ (touches n now v) = unchanged v.db.audits
  Steps-Extends _ _ (purges user v w e) =
      Extends-purge_found stores verify_key v user w
        (delete_secrets stores (keep (λ c. c.user_id == user) v.db.rows) v.secrets) e
