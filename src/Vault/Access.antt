-- ===== src/Vault/Access.antt =====
-- app/services/vault_service.py: whose keys the operations reach.
use intelli_study_planner_br.Base.{
  ℕ, ◌≡◌, ◌≢◌, refl, none, some, List, Text, Bool-cases, inl, inr, ◌==◌, nat_eq, nat_beq_iff,
  text_eq,
}
use intelli_study_planner_br.Vault.Rows.{Provider, Credential, row_of}
use intelli_study_planner_br.Vault.Secrets.{Stores}
use intelli_study_planner_br.Vault.Requests.{
  Vault, Verdict, failed, key_not_found, UpdateRequest, get_key,
}
use intelli_study_planner_br.Vault.Service.{update_key, delete_key}
use intelli_study_planner_br.Vault.Upkeep.{verify_stored_key}

get_key-foreign :
    (user n : ℕ) (rows : List Credential) (c : Credential)
    → row_of n rows ≡ some c
    → c.user_id ≢ user
    → get_key user n rows ≡ none
unfolding get_key
get_key-foreign user n rows c found foreign = rw found (elim (Bool-cases (c.user_id == user)) [
  | inl own ↦ absurd (foreign ((nat_beq_iff c.user_id user).0 own))
  | inr other ↦ rw other refl
])

module _ {S : Type 0} (stores : Stores S) (verify_key : Provider → Text → Verdict)
    (v : Vault S) where
  -- An update, a deletion and a check of a key that belongs to another user all answer that there is no
  -- such key, and change neither the table, the audit trail nor the secret stores.
  pub foreign-key_not_found :
      (r : UpdateRequest) (c : Credential) (now : ℕ) (why : Text)
      → row_of r.id v.db.rows ≡ some c
      → c.user_id ≢ r.user
      → (update_key stores verify_key r v ≡ (failed key_not_found, v))
        × ((delete_key stores verify_key r.user r.id v ≡ (failed key_not_found, v))
            × (verify_stored_key stores verify_key r.user r.id now why v
                ≡ (failed key_not_found, v)))
  unfolding update_key delete_key verify_stored_key
  foreign-key_not_found r c now why found foreign =
      let absent = get_key-foreign r.user r.id v.db.rows c found foreign in
      (rw absent refl, (rw absent refl, rw absent refl))
