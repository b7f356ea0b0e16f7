-- ===== src/Auth/Erased.antt =====
-- What the deletion of an account erases, and what it keeps.
use intelli_study_planner_br.Base.{
  ℕ, ◌≡◌, refl, sym, ap, ◌∙◌, subst, Bool, true, false, not, ◌&&◌, Option, none, some, Text, arith,
  any, keep, ◌==◌, text_eq, nat_eq, Bool-cases, inl, inr,
}
use intelli_study_planner_br.Vault.Rows.{Credential, Audit}
use intelli_study_planner_br.Vault.Secrets.{Stores}
use intelli_study_planner_br.Vault.Requests.{Vault, Result}
use intelli_study_planner_br.Vault.Requests
use intelli_study_planner_br.Vault.Upkeep.{delete_secrets, purge_found, purge_keys_for_user}
use intelli_study_planner_br.Vault.Candidates.{IsRow}
use intelli_study_planner_br.Auth.Rows.{User, done, delete_user, has_id}
use intelli_study_planner_br.Auth.Service.{Platform, verify_password}
use intelli_study_planner_br.Auth.Deletion.{
  Store, session_ids, delete_account, deleted, is_owned, cascade_keys, cascade_audits,
  cascade_chats,
}
use intelli_study_planner_br.Auth.Gone.{
  Erases, DeletesThread, is_infisical, keep-IsRow, any-owned, has-delete_checkpoint_threads, IsGone,
  delete_secrets-erases, keep_twice, dropped, none-any,
}

-- Whether Infisical answers with a secret for a key.
abbrev pub is_stored : {S : Type 0} → Stores S → S → Credential → Bool
is_stored stores s c = elim (stores.infisical_store.get s c) [ none ↦ false | some key ↦ true ]

-- What is left of a user, whose account was deleted from the first store, in the second one.
pub record IsErased {S T : Type 0} (stores : Stores S) (has_thread : ℕ → T → Bool) (n : ℕ)
    (st st' : Store S) (threads threads' : T) : Type 0 where
  pub no_account : any (has_id n) st'.auth.users ≡ false
  pub no_session : any (λ s. s.user_id == n) st'.auth.sessions ≡ false
  pub no_link : any (λ r. r.user_id == n) st'.auth.resets ≡ false
  pub no_chat : any (is_owned n) st'.chats ≡ false
  pub no_key : any (λ (c : Credential). c.user_id == n) st'.vault.db.rows ≡ false
  pub no_audit : any (λ (a : Audit). a.user_id == n) st'.vault.db.audits ≡ false
  pub no_secret :
      any
        (λ c. c.user_id == n && (is_infisical c && is_stored stores st'.vault.secrets c))
        st.vault.db.rows
      ≡ false
  pub other_threads :
      (m : ℕ)
      → has_thread m threads'
        ≡ (not (any (λ c. is_owned n c && c.id == m) st.chats) && has_thread m threads)
  pub other_keys :
      keep (λ (c : Credential). not (c.user_id == n)) st'.vault.db.rows
      ≡ keep (λ (c : Credential). not (c.user_id == n)) st.vault.db.rows
  pub other_sessions :
      keep (λ s. not (s.user_id == n)) st'.auth.sessions
      ≡ keep (λ s. not (s.user_id == n)) st.auth.sessions

module _ {S T : Type 0} (stores : Stores S) (has_thread : ℕ → T → Bool) where
  purge-some :
      (n : ℕ) (v v' : Vault S)
      → purge_keys_for_user stores n v ≡ Requests.ok v'
      → (s : S) × (delete_secrets stores (keep (λ c. c.user_id == n) v.db.rows) v.secrets ≡ some s)
        × (v' ≡ record {
          db = record v.db { rows = keep (λ c. not (c.user_id == n)) v.db.rows };
          secrets = s;
        })
  unfolding purge_keys_for_user
  purge-some n v v' e =
      on (delete_secrets stores (keep (λ c. c.user_id == n) v.db.rows) v.secrets) refl e
    where
      on :
          (o : Option S)
          → delete_secrets stores (keep (λ c. c.user_id == n) v.db.rows) v.secrets ≡ o
          → purge_found n v o ≡ Requests.ok v'
          → (s : S) × (delete_secrets stores (keep (λ c. c.user_id == n) v.db.rows) v.secrets
              ≡ some s)
            × (v' ≡ record {
              db = record v.db { rows = keep (λ c. not (c.user_id == n)) v.db.rows };
              secrets = s;
            })
      on none there e = absurd (grind arith)
      on (some s) there e = (s, there, grind arith)

  deleted-IsErased :
      (n : ℕ) (st st' : Store S) (threads threads' : T) (r : Result (Vault S))
      → Erases stores
      → ((m : ℕ)
          → has_thread m threads'
            ≡ (not (any (λ c. is_owned n c && c.id == m) st.chats) && has_thread m threads))
      → purge_keys_for_user stores n st.vault ≡ r
      → deleted n st r ≡ done st'
      → IsErased stores has_thread n st st' threads threads'
  unfolding delete_user IsGone
  deleted-IsErased n st st' threads threads' (Requests.failed x) law others purge e =
      absurd (grind arith)
  deleted-IsErased n st st' threads threads' (Requests.ok v) law others purge e =
      let (s, gone, left) = purge-some n st.vault v purge in
      subst (λ x. IsErased stores has_thread n st x threads threads') (grind arith)
        (subst (λ x. IsErased stores has_thread n st (after x) threads threads') (sym left)
          (record {
            no_account = dropped (has_id n) st.auth.users;
            no_session = dropped (λ s. s.user_id == n) st.auth.sessions;
            no_link = dropped (λ r. r.user_id == n) st.auth.resets;
            no_chat = dropped (is_owned n) st.chats;
            no_key =
                dropped (λ (c : Credential). c.user_id == n)
                  (keep (λ c. not (c.user_id == n)) st.vault.db.rows);
            no_audit = dropped (λ (a : Audit). a.user_id == n) st.vault.db.audits;
            no_secret = none-any _ st.vault.db.rows (secrets_gone s gone);
            other_threads = others;
            other_keys =
                keep_twice (λ (c : Credential). not (c.user_id == n))
                  (keep (λ c. not (c.user_id == n)) st.vault.db.rows)
                ∙ keep_twice (λ (c : Credential). not (c.user_id == n)) st.vault.db.rows;
            other_sessions = keep_twice (λ s. not (s.user_id == n)) st.auth.sessions;
          }))
    where
      after : Vault S → Store S
      after v = record {
        auth = delete_user n st.auth;
        vault = record v {
          db = record { rows = cascade_keys n v.db.rows; audits = cascade_audits n v.db.audits };
        };
        chats = cascade_chats n st.chats;
      }

      secrets_gone :
          (s : S)
          → delete_secrets stores (keep (λ c. c.user_id == n) st.vault.db.rows) st.vault.secrets
            ≡ some s
          → (c : Credential) → IsRow c st.vault.db.rows
          → (c.user_id == n && (is_infisical c && is_stored stores s c)) ≡ false
      secrets_gone s gone c row = elim (Bool-cases (c.user_id == n)) [
        | inr other ↦ rw other refl
        | inl mine ↦ elim (Bool-cases (is_infisical c)) [
          | inr elsewhere ↦ grind (arith, elsewhere)
          | inl remote ↦ grind (
            arith,
            delete_secrets-erases stores law (keep (λ c. c.user_id == n) st.vault.db.rows) c
                st.vault.secrets s (keep-IsRow (λ c. c.user_id == n) c st.vault.db.rows row mine)
                remote gone,
          )
        ]
      ]

  -- Where the stores erase what they are told to and adelete_thread deletes the thread of its id alone, a
  -- deletion of an account that returns was asked for with the password of the account. It leaves no row
  -- of the user in any table, and none of the user's keys that Infisical held can be read there. Of the
  -- checkpoint threads exactly those of the user's chats are gone, and the keys and the sessions of every
  -- other user are as they were.
  pub delete_account-IsErased :
      (P : Platform) (adelete_thread : ℕ → T → T) (user : User) (password : Text) (st st' : Store S)
      (threads threads' : T)
      → Erases stores
      → DeletesThread adelete_thread has_thread
      → delete_account P stores adelete_thread user password (st, threads) ≡ (done st', threads')
      → (verify_password P user.password_hash password ≡ true)
        × IsErased stores has_thread user.id st st' threads threads'
  unfolding delete_account
  delete_account-IsErased P adelete_thread user password st st' threads threads' law deletes e =
      elim (Bool-cases (verify_password P user.password_hash password)) [
        | inl right ↦ (
          right,
          deleted-IsErased user.id st st' threads threads'
              (purge_keys_for_user stores user.id st.vault) law
              (λ m.
                ap (has_thread m) (sym (ap (λ x. x.1) (rw right at e)))
                ∙ has-delete_checkpoint_threads adelete_thread has_thread
                    (session_ids user.id st.chats) m threads deletes
                ∙ ap (λ b. not b && has_thread m threads) (any-owned user.id m st.chats))
              refl (ap (λ x. x.0) (rw right at e)),
        )
        | inr wrong ↦ absurd (grind arith)
      ]
