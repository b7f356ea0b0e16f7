-- ===== src/Auth/Deletion.antt =====
-- AuthService.delete_account, with delete_checkpoint_threads (app/core/checkpointer.py) and the purge
-- of the user's keys by the vault. The checkpoints are LangGraph's: their state and `adelete_thread`
-- are parameters. They are not part of the transaction, so they are answered beside its outcome.
use intelli_study_planner_br.Base.{
  ℕ, Bool, false, not, Option, none, some, List, [], ◌∷◌, Text, keep, map, if◌then◌else◌, ◌==◌,
  nat_eq,
}
use intelli_study_planner_br.Vault.Rows.{Credential, Audit}
use intelli_study_planner_br.Vault.Secrets.{Stores}
use intelli_study_planner_br.Vault.Requests.{Vault, Result}
use intelli_study_planner_br.Vault.Requests
use intelli_study_planner_br.Vault.Upkeep.{purge_keys_for_user}
use intelli_study_planner_br.Auth.Rows.{
  User, Db, invalid_password, vault_failed, Outcome, done, failed, delete_user,
}
use intelli_study_planner_br.Auth.Service.{Platform, verify_password}

-- ChatSession (app/models/session.py), as far as an account needs it: a row without a user is
-- older than sign-in.
pub record ChatSession : Type 0 where
  pub id : ℕ
  pub user_id : Option ℕ

pub record Store (S : Type 0) : Type 0 where
  pub auth : Db
  pub vault : Vault S
  pub chats : List ChatSession

abbrev pub is_owned : ℕ → ChatSession → Bool
is_owned n c = elim c.user_id [ none ↦ false | some m ↦ m == n ]

abbrev pub session_ids : ℕ → List ChatSession → List ℕ
session_ids n chats = map (λ (c : ChatSession). c.id) (keep (is_owned n) chats)

-- delete_checkpoint_threads
unfoldable pub delete_checkpoint_threads : {T : Type 0} → (ℕ → T → T) → List ℕ → T → T
delete_checkpoint_threads adelete_thread [] t = t
delete_checkpoint_threads adelete_thread (n ∷ ns) t =
    delete_checkpoint_threads adelete_thread ns (adelete_thread n t)

-- What ON DELETE CASCADE of the foreign key on app_user.id leaves of the table llm_credential.
abbrev pub cascade_keys : ℕ → List Credential → List Credential
cascade_keys n rows = keep (λ c. not (c.user_id == n)) rows

-- The same for the table of the audits.
abbrev pub cascade_audits : ℕ → List Audit → List Audit
cascade_audits n rows = keep (λ a. not (a.user_id == n)) rows

-- The same for the table chat_session, where a row may have no user.
abbrev pub cascade_chats : ℕ → List ChatSession → List ChatSession
cascade_chats n rows = keep (λ c. not (is_owned n c)) rows

-- The purge, and then db.delete(user) with the rows that the foreign keys cascade to.
abbrev pub deleted : {S : Type 0} → ℕ → Store S → Result (Vault S) → Outcome (Store S)
deleted n st (Requests.failed e) = failed vault_failed
deleted n st (Requests.ok v) = done (record {
  auth = delete_user n st.auth;
  vault = record v {
    db = record { rows = cascade_keys n v.db.rows; audits = cascade_audits n v.db.audits };
  };
  chats = cascade_chats n st.chats;
})

module _ {S T : Type 0} (P : Platform) (stores : Stores S) (adelete_thread : ℕ → T → T) where
  unfoldable pub delete_account : User → Text → Store S × T → Outcome (Store S) × T
  unfolding verify_password delete_checkpoint_threads delete_user purge_keys_for_user
  delete_account user password (st, threads) =
      if verify_password P user.password_hash password
      then (
        deleted user.id st (purge_keys_for_user stores user.id st.vault),
        delete_checkpoint_threads adelete_thread (session_ids user.id st.chats) threads,
      )
      else (failed invalid_password, threads)
