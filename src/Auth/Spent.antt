-- ===== src/Auth/Spent.antt =====
-- What a call leaves of the links.
use intelli_study_planner_br.Base.{
  ◌≢◌, ℕ, ◌≡◌, refl, sym, subst, false, not, Option, none, some, List, [], ◌∷◌, Text, arith, any,
  find, ◌==◌, text_eq, text_beq_iff, nat_eq,
}
use intelli_study_planner_br.Vault.Secrets.{Stores}
use intelli_study_planner_br.Auth.Rows.{
  User, Db, done, failed, invalid_link, PasswordResetToken, is_open, is_usable, mark_used,
  insert_session, insert_reset, insert_user, delete_user, is_unused_of,
}
use intelli_study_planner_br.Auth.Service.{
  Platform, Drawn, register, login, logout, request_password_reset, reset_password, create_session,
  Mail, request_found, reset_found, login_found,
}
use intelli_study_planner_br.Auth.Deletion.{Store, delete_account}
use intelli_study_planner_br.Auth.Calls.{
  Step, registers, logs_in, logs_out, asks_link, resets, leaves, Steps, stops, steps,
}
use intelli_study_planner_br.Base.Tables.{any-keep}

-- No link that was not used has the hash.
abbrev pub IsSpent : Text → Db → Type 0
IsSpent h db = any (is_open h) db.resets ≡ false

mark_used-any :
    (h h' : Text) (now : ℕ) (rs : List PasswordResetToken)
    → any (is_open h) rs ≡ false
    → any (is_open h) (mark_used h' now rs) ≡ false
unfolding mark_used
mark_used-any h h' now [] e = refl
mark_used-any h h' now (r ∷ rs) e = grind (arith, mark_used-any h h' now rs)

mark_used-closed :
    (h : Text) (now : ℕ) (rs : List PasswordResetToken)
    → any (is_open h) (mark_used h now rs) ≡ false
unfolding mark_used
mark_used-closed h now [] = refl
mark_used-closed h now (r ∷ rs) = grind (arith, mark_used-closed h now rs)

module _ (P : Platform) where
  register-resets :
      (email password : Text) (name : Option Text) (id : ℕ) (drawn : Drawn) (now : ℕ) (db db' : Db)
      (answer : User × Text)
      → register P email password name id drawn now db ≡ done (answer, db')
      → db'.resets ≡ db.resets
  unfolding register insert_user create_session insert_session
  register-resets email password name id drawn now db db' answer h = grind arith

  login_found-resets :
      (password : Text) (drawn : Drawn) (now : ℕ) (db db' : Db) (u : Option User)
      (answer : User × Text)
      → login_found P password drawn now db u ≡ done (answer, db')
      → db'.resets ≡ db.resets
  unfolding create_session insert_session
  login_found-resets password drawn now db db' u answer h = grind arith

  request_found-IsSpent :
      (h : Text) (raw_token : Text) (now : ℕ) (db db' : Db) (mail : Option Mail) (u : Option User)
      → P.hash_session_token raw_token ≢ h
      → IsSpent h db
      → request_found P raw_token now db u ≡ done (mail, db')
      → IsSpent h db'
  unfolding insert_reset
  request_found-IsSpent h raw_token now db db' mail none ne spent e = grind arith
  request_found-IsSpent h raw_token now db db' mail (some u) ne spent e =
      grind
        (arith, text_beq_iff, any-keep (is_open h) (λ r. not (is_unused_of u.id r)) db.resets spent)

  reset_found-IsSpent :
      (h token password salt : Text) (now : ℕ) (db db' : Db) (r : Option PasswordResetToken)
      → IsSpent h db
      → reset_found P token password salt now db r ≡ done db'
      → IsSpent h db'
  reset_found-IsSpent h token password salt now db db' none spent e = grind arith
  reset_found-IsSpent h token password salt now db db' (some r) spent e =
      grind (arith, mark_used-any h)

  pub logout-resets : (token : Option Text) (db : Db) → (logout P token db).resets ≡ db.resets
  unfolding logout
  logout-resets none db = refl
  logout-resets (some token) db = grind arith

  -- A link that a reset used is spent.
  reset_found-closed :
      (token password salt : Text) (now : ℕ) (db db' : Db) (r : Option PasswordResetToken)
      → reset_found P token password salt now db r ≡ done db'
      → IsSpent (P.hash_session_token token) db'
  reset_found-closed token password salt now db db' none e = grind arith
  reset_found-closed token password salt now db db' (some r) e = grind (arith, mark_used-closed)

  usable-any :
      (h : Text) (now : ℕ) (rs : List PasswordResetToken)
      → any (is_open h) rs ≡ false
      → find (is_usable h now) rs ≡ none
  usable-any h now [] e = refl
  usable-any h now (r ∷ rs) e = grind (arith, usable-any h now rs)

  pub spent-refused :
      (token password salt : Text) (now : ℕ) (db : Db)
      → IsSpent (P.hash_session_token token) db
      → reset_password P token password salt now db ≡ failed invalid_link
  unfolding reset_password
  spent-refused token password salt now db e =
      rw (usable-any (P.hash_session_token token) now db.resets e)

  module _ {S T : Type 0} (stores : Stores S) (adelete_thread : ℕ → T → T) where
    leaves-IsSpent :
        (h : Text) (user : User) (password : Text) (st st' : Store S) (threads threads' : T)
        → IsSpent h st.auth
        → delete_account P stores adelete_thread user password (st, threads) ≡ (done st', threads')
        → IsSpent h st'.auth
    unfolding delete_account delete_user
    leaves-IsSpent h user password st st' threads threads' spent e =
        grind (arith, any-keep (is_open h) (λ r. not (r.user_id == user.id)) st.auth.resets spent)

    Step-IsSpent :
        (h : Text) {db db' : Db}
        → Step P stores adelete_thread (λ t. t ≢ h) db db'
        → IsSpent h db
        → IsSpent h db'
    unfolding login request_password_reset reset_password
    Step-IsSpent h (registers email password name id drawn now db db' answer e) s =
        subst (λ rs. any (is_open h) rs ≡ false)
          (sym (register-resets email password name id drawn now db db' answer e)) s
    Step-IsSpent h (logs_in email password drawn now db db' answer e) s =
        subst (λ rs. any (is_open h) rs ≡ false)
          (sym (login_found-resets password drawn now db db' _ answer e)) s
    Step-IsSpent h (logs_out token db) s =
        subst (λ rs. any (is_open h) rs ≡ false) (sym (logout-resets token db)) s
    Step-IsSpent h (asks_link email raw_token now db db' mail fresh e) s =
        request_found-IsSpent h raw_token now db db' mail _ fresh s e
    Step-IsSpent h (resets token password salt now db db' e) s =
        reset_found-IsSpent h token password salt now db db' _ s e
    Step-IsSpent h (leaves user password st st' threads threads' e) s =
        leaves-IsSpent h user password st st' threads threads' s e

    Steps-IsSpent :
        (h : Text) {db db' : Db}
        → Steps P stores adelete_thread (λ t. t ≢ h) db db'
        → IsSpent h db
        → IsSpent h db'
    Steps-IsSpent h (stops db) s = s
    Steps-IsSpent h (steps step rest) s = Steps-IsSpent h rest (Step-IsSpent h step s)

    -- A link that has reset a password resets none after any later run of calls, at whatever time,
    -- provided that no link drawn in the run has a token of the same hash.
    pub reset_password-once :
        (token password salt : Text) (now : ℕ) (db used later : Db)
        → reset_password P token password salt now db ≡ done used
        → Steps P stores adelete_thread (λ t. t ≢ P.hash_session_token token) used later
        → (password' salt' : Text) (now' : ℕ)
        → reset_password P token password' salt' now' later ≡ failed invalid_link
    unfolding reset_password
    reset_password-once token password salt now db used later e run password' salt' now' =
        spent-refused token password' salt' now' later
          (Steps-IsSpent _ run (reset_found-closed token password salt now db used _ e))
