-- ===== src/Auth/Invariant.antt =====
-- The tables are valid after every run of calls.
use intelli_study_planner_br.Base.{
  ℕ, ◌≡◌, refl, ap, ◌∙◌, subst, true, not, Option, none, some, List, [], ◌∷◌, Text, arith, any,
  find, ◌==◌, text_eq, nat_eq, Bool-cases, Option-cases, inl, inr, ==_refl,
}
use intelli_study_planner_br.Vault.Secrets.{Stores}
use intelli_study_planner_br.Auth.Rows.{
  User, PasswordResetToken, Db, Outcome, done, failed, ◌>>=◌, is_unused_of, insert_reset,
  insert_user, set_password, has_email, has_id,
}
use intelli_study_planner_br.Auth.Service.{
  Platform, Drawn, register, login, logout, request_password_reset, reset_password, create_session,
  verify_password, Mail, request_found, reset_found, login_found, signed_in, without_unused,
  new_user,
}
use intelli_study_planner_br.Auth.Deletion.{Store, delete_account}
use intelli_study_planner_br.Auth.Calls.{
  Step, registers, logs_in, logs_out, asks_link, resets, leaves, Steps, stops, steps,
}
use intelli_study_planner_br.Base.Tables.{find-some, length-kept}
use intelli_study_planner_br.Auth.Valid.{
  IsValid, any_id-set_password, set_password-IsValid, mark_used-IsValid,
}
use intelli_study_planner_br.Auth.Kept.{
  insert_session-IsValid, insert_reset-IsValid, add_user-IsValid, keep_sessions-IsValid,
  keep_resets-IsValid, delete_user-IsValid,
}

-- The value that a call's first part gave, where the call returned.
bind-done :
    {A B : Type 0} (m : Outcome A) (f : A → Outcome B) (b : B)
    → (m >>= f) ≡ done b
    → (a : A) × (m ≡ done a) × (f a ≡ done b)
bind-done (done a) f b e = (a, refl, e)
bind-done (failed x) f b e = grind arith

module _ (P : Platform) where
  signed_in-IsValid :
      (u : User) (token : Text) (now : ℕ) (db db' : Db) (answer : User × Text)
      → any (has_id u.id) db.users ≡ true
      → IsValid db
      → signed_in P u token now db ≡ done (answer, db')
      → IsValid db'
  unfolding create_session
  signed_in-IsValid u token now db db' answer owned v e =
      let (db1, made, same) = bind-done (create_session P u token now db) _ _ e in
      subst IsValid (grind arith) (insert_session-IsValid _ db db1 owned v made)

  register-IsValid :
      (email password : Text) (name : Option Text) (id : ℕ) (drawn : Drawn) (now : ℕ) (db db' : Db)
      (answer : User × Text)
      → IsValid db
      → register P email password name id drawn now db ≡ done (answer, db')
      → IsValid db'
  unfolding register insert_user
  register-IsValid email password name id drawn now db db' answer v e =
      elim (Bool-cases (any (has_email email) db.users)) [
        | inl taken ↦ absurd (grind arith)
        | inr new_email ↦ elim (Bool-cases (any (has_id id) db.users)) [
          | inl taken ↦ absurd (grind arith)
          | inr new_id ↦
              signed_in-IsValid user drawn.token now (record db { users = user ∷ db.users }) db'
                answer (grind (arith, ==_refl id)) (add_user-IsValid user db new_email new_id v)
                (grind arith)
        ]
      ]
    where
      user : User
      user = new_user id email name (P.hash drawn.salt password)

  login_found-IsValid :
      (password : Text) (drawn : Drawn) (now : ℕ) (db db' : Db) (u : Option User)
      (answer : User × Text)
      → ((user : User) → u ≡ some user → any (has_id user.id) db.users ≡ true)
      → IsValid db
      → login_found P password drawn now db u ≡ done (answer, db')
      → IsValid db'
  login_found-IsValid password drawn now db db' none answer owned v e = absurd (grind arith)
  login_found-IsValid password drawn now db db' (some u) answer owned v e =
      elim (Bool-cases (verify_password P u.password_hash password)) [
        | inr wrong ↦ absurd (grind arith)
        | inl right ↦ elim (Bool-cases (P.check_needs_rehash u.password_hash)) [
          | inl old ↦
              signed_in-IsValid (record u { password_hash = P.hash drawn.salt password })
                drawn.token now
                (record db { users = set_password u.id (P.hash drawn.salt password) db.users }) db'
                answer (any_id-set_password u.id _ u.id db.users ∙ owned u refl)
                (set_password-IsValid u.id (P.hash drawn.salt password) db v) (grind arith)
          | inr new ↦
              signed_in-IsValid u drawn.token now db db' answer (owned u refl) v (grind arith)
        ]
      ]

  logout-IsValid : (token : Option Text) (db : Db) → IsValid db → IsValid (logout P token db)
  unfolding logout
  logout-IsValid none db v = v
  logout-IsValid (some []) db v = v
  logout-IsValid (some (c ∷ cs)) db v = keep_sessions-IsValid _ db v

  request_found-IsValid :
      (raw_token : Text) (now : ℕ) (db db' : Db) (mail : Option Mail) (u : Option User)
      → ((user : User) → u ≡ some user → any (has_id user.id) db.users ≡ true)
      → IsValid db
      → request_found P raw_token now db u ≡ done (mail, db')
      → IsValid db'
  request_found-IsValid raw_token now db db' mail none owned v e = subst IsValid (grind arith) v
  request_found-IsValid raw_token now db db' mail (some u) owned v e =
      let (db1, made, same) = bind-done (insert_reset _ (without_unused P u.id db)) _ _ e in
      subst IsValid (grind arith) (
        insert_reset-IsValid _ (without_unused P u.id db) db1 (owned u refl)
          (length-kept (is_unused_of u.id) (λ r. not (is_unused_of u.id r)) (λ r h. ap not h)
            db.resets)
          (keep_resets-IsValid _ db v) made)

  reset_found-IsValid :
      (token password salt : Text) (now : ℕ) (db db' : Db) (r : Option PasswordResetToken)
      → IsValid db
      → reset_found P token password salt now db r ≡ done db'
      → IsValid db'
  reset_found-IsValid token password salt now db db' none v e = absurd (grind arith)
  reset_found-IsValid token password salt now db db' (some r) v e =
      elim (Option-cases (find (has_id r.user_id) db.users)) [
        | inl gone ↦ absurd (grind arith)
        | inr (u, there) ↦ subst IsValid (grind arith) (
            keep_sessions-IsValid (λ s. not (s.user_id == u.id)) _
              (mark_used-IsValid (P.hash_session_token token) now _
                (set_password-IsValid u.id (P.hash salt password) db v)))
      ]

  owned_by_email :
      (email : Text) (us : List User) (u : User)
      → find (has_email email) us ≡ some u
      → any (has_id u.id) us ≡ true
  owned_by_email email us u e = find-some _ _ us e (==_refl u.id)

  module _ {S T : Type 0} (stores : Stores S) (adelete_thread : ℕ → T → T) where
    leaves-IsValid :
        (user : User) (password : Text) (st st' : Store S) (threads threads' : T)
        → IsValid st.auth
        → delete_account P stores adelete_thread user password (st, threads) ≡ (done st', threads')
        → IsValid st'.auth
    unfolding delete_account
    leaves-IsValid user password st st' threads threads' v e =
        subst IsValid (grind arith) (delete_user-IsValid user.id st.auth v)

    Step-IsValid :
        {Allowed : Text → Type 0} {db db' : Db}
        → Step P stores adelete_thread Allowed db db'
        → IsValid db
        → IsValid db'
    unfolding login request_password_reset reset_password
    Step-IsValid (registers email password name id drawn now db db' answer e) v =
        register-IsValid email password name id drawn now db db' answer v e
    Step-IsValid (logs_in email password drawn now db db' answer e) v =
        login_found-IsValid password drawn now db db' _ answer (owned_by_email email db.users) v e
    Step-IsValid (logs_out token db) v = logout-IsValid token db v
    Step-IsValid (asks_link email raw_token now db db' mail fresh e) v =
        request_found-IsValid raw_token now db db' mail _ (owned_by_email email db.users) v e
    Step-IsValid (resets token password salt now db db' e) v =
        reset_found-IsValid token password salt now db db' _ v e
    Step-IsValid (leaves user password st st' threads threads' e) v =
        leaves-IsValid user password st st' threads threads' v e

    -- After any run of calls on tables that are valid (the empty ones are), the tables are valid: no two
    -- accounts have an email or an id, no two sessions and no two links a token's hash, every session and
    -- link belongs to an account, and no account has two links that were not used.
    pub Steps-IsValid :
        {Allowed : Text → Type 0} {db db' : Db}
        → Steps P stores adelete_thread Allowed db db'
        → IsValid db
        → IsValid db'
    Steps-IsValid (stops db) v = v
    Steps-IsValid (steps step rest) v = Steps-IsValid rest (Step-IsValid step v)
