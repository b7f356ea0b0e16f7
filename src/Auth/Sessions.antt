-- ===== src/Auth/Sessions.antt =====
-- Who a session token is taken for.
use intelli_study_planner_br.Base.{
  ℕ, ◌+◌, ◌*◌, ◌≡◌, ◌≢◌, refl, ap, ◌∙◌, Bool, true, false, not, Option, none, some, List, [], ◌∷◌,
  Text, arith, any, find, keep, if◌then◌else◌, ◌==◌, text_eq, nat_eq, nat_beq_iff, Bool-cases, inl,
  inr, ==_refl, ltb, is_empty,
}
use intelli_study_planner_br.Auth.Rows.{
  User, AuthSession, PasswordResetToken, Db, done, insert_session, set_password, with_password,
  has_email, has_id, is_live, is_usable,
}
use intelli_study_planner_br.Auth.Service.{
  Platform, Drawn, login, reset_password, create_session, verify_password, reset_for, login_found,
  signed_in_rehashed, signed_in, authenticate, owner,
}
use intelli_study_planner_br.Base.Tables.{any-kept, find-holds, find-some, distinct}
use intelli_study_planner_br.Auth.Valid.{IsValid, user_id}

-- The row of an id, after a password was changed.
find-set_password :
    (p : User → Bool) (n : ℕ) (hash : Text)
    → ((u : User) → p (with_password n hash u) ≡ p u)
    → (us : List User) (u : User) → find p us ≡ some u
    → find p (set_password n hash us) ≡ some (with_password n hash u)
unfolding set_password
find-set_password p n hash same [] u e = grind arith
find-set_password p n hash same (x ∷ us) u e =
    grind (arith, same x, find-set_password p n hash same us u)

pub find_id-set_password :
    (m n : ℕ) (hash : Text) (us : List User) (u : User)
    → find (has_id m) us ≡ some u
    → find (has_id m) (set_password n hash us) ≡ some (with_password n hash u)
find_id-set_password m n hash us u = find-set_password (has_id m) n hash (λ x. grind arith) us u

pub find_email-set_password :
    (e : Text) (n : ℕ) (hash : Text) (us : List User) (u : User)
    → find (has_email e) us ≡ some u
    → find (has_email e) (set_password n hash us) ≡ some (with_password n hash u)
find_email-set_password e n hash us u =
    find-set_password (has_email e) n hash (λ x. grind arith) us u

-- A row found by whatever test is the row of its id.
pub find-by_id :
    (p : User → Bool) (us : List User) (u : User)
    → distinct user_id us ≡ true
    → find p us ≡ some u
    → find (has_id u.id) us ≡ some u
find-by_id p [] u d e = grind arith
find-by_id p (x ∷ us) u d e = grind (
  arith,
  find-by_id p us u,
  find-some p (has_id x.id) us {x = u},
  ==_refl u.id,
  nat_beq_iff u.id x.id,
  nat_beq_iff x.id u.id,
)

no-live :
    (h : Text) (now : ℕ) (ss : List AuthSession)
    → any (λ x. x.token_hash == h) ss ≡ false
    → find (is_live h now) ss ≡ none
no-live h now [] e = refl
no-live h now (s ∷ ss) e = grind (arith, no-live h now ss)

module _ (P : Platform) where
  -- The answer to a token that was just given to a user.
  pub signed_in-authenticate :
      (u : User) (token : Text) (now : ℕ) (db db' : Db) (answer : User × Text)
      → is_empty token ≡ false
      → find (has_id u.id) db.users ≡ some u
      → signed_in P u token now db ≡ done (answer, db')
      → (now' : ℕ)
      → authenticate P (some token) now' db'
        ≡ (if ltb now' (now + P.session_days * 86400) then some u else none)
  unfolding authenticate create_session insert_session
  signed_in-authenticate u token now db db' answer filled there e now' = grind (
    arith,
    ==_refl (P.hash_session_token token),
    no-live (P.hash_session_token token) now' db.sessions,
  )

  signed_in-answer :
      (u : User) (token : Text) (now : ℕ) (db db' : Db) (answer : User × Text)
      → signed_in P u token now db ≡ done (answer, db')
      → answer ≡ (u, token)
  unfolding create_session insert_session
  signed_in-answer u token now db db' answer e = grind arith

  rehashed-authenticate :
      (u : User) (password : Text) (drawn : Drawn) (now : ℕ) (db db' : Db) (answer : User × Text)
      → is_empty drawn.token ≡ false
      → find (has_id u.id) db.users ≡ some u
      → signed_in_rehashed P u password drawn now db ≡ done (answer, db')
      → (now' : ℕ)
      → authenticate P (some drawn.token) now' db'
        ≡ (if ltb now' (now + P.session_days * 86400) then some answer.0 else none)
  rehashed-authenticate u password drawn now db db' answer filled there e now' =
      elim (Bool-cases (P.check_needs_rehash u.password_hash)) [
        | inl old ↦ grind (
          arith,
          signed_in-answer u' drawn.token now db1 db' answer,
          signed_in-authenticate u' drawn.token now db1 db' answer filled there',
        )
        | inr new ↦ grind (
          arith,
          signed_in-answer u drawn.token now db db' answer,
          signed_in-authenticate u drawn.token now db db' answer filled there,
        )
      ]
    where
      hash : Text
      hash = P.hash drawn.salt password

      u' : User
      u' = record u { password_hash = hash }

      db1 : Db
      db1 = record db { users = set_password u.id hash db.users }

      there' : find (has_id u.id) db1.users ≡ some u'
      there' = find_id-set_password u.id u.id hash db.users u there ∙ rw (==_refl u.id)

  login_found-authenticate :
      (password : Text) (drawn : Drawn) (now : ℕ) (db db' : Db) (o : Option User)
      (answer : User × Text)
      → is_empty drawn.token ≡ false
      → ((u : User) → o ≡ some u → find (has_id u.id) db.users ≡ some u)
      → login_found P password drawn now db o ≡ done (answer, db')
      → (now' : ℕ)
      → authenticate P (some drawn.token) now' db'
        ≡ (if ltb now' (now + P.session_days * 86400) then some answer.0 else none)
  login_found-authenticate password drawn now db db' none answer filled there e now' =
      absurd (grind arith)
  login_found-authenticate password drawn now db db' (some u) answer filled there e now' =
      elim (Bool-cases (verify_password P u.password_hash password)) [
        | inl right ↦
            rehashed-authenticate u password drawn now db db' answer filled (there u refl)
              (grind arith) now'
        | inr wrong ↦ absurd (grind arith)
      ]

  -- On valid tables, the token that a sign-in answers with is taken for the account that it answers
  -- with at every time before AUTH_SESSION_DAYS have passed, and for nobody from then on.
  pub login-authenticate :
      (email password : Text) (drawn : Drawn) (now : ℕ) (db db' : Db) (answer : User × Text)
      → is_empty drawn.token ≡ false
      → IsValid db
      → login P email password drawn now db ≡ done (answer, db')
      → (now' : ℕ)
      → authenticate P (some drawn.token) now' db'
        ≡ (if ltb now' (now + P.session_days * 86400) then some answer.0 else none)
  unfolding login
  login-authenticate email password drawn now db db' answer filled v e now' =
      login_found-authenticate password drawn now db db' _ answer filled
        (λ u found. find-by_id (has_email email) db.users u v.ids found) e now'

  owner-user :
      (us : List User) (o : Option AuthSession) (u : User)
      → owner P us o ≡ some u
      → (s : AuthSession) × (o ≡ some s) × ((u.id == s.user_id) ≡ true)
  owner-user us none u e = grind arith
  owner-user us (some s) u e = (s, refl, find-holds (has_id s.user_id) us e)

  -- Whoever a token is taken for owns a session in the table.
  authenticate-session :
      (token : Option Text) (now : ℕ) (db : Db) (u : User)
      → authenticate P token now db ≡ some u
      → any (λ s. s.user_id == u.id) db.sessions ≡ true
  unfolding authenticate
  authenticate-session none now db u e = absurd (grind arith)
  authenticate-session (some []) now db u e = absurd (grind arith)
  authenticate-session (some (c ∷ cs)) now db u e =
      let (s, found, same) = owner-user db.users _ u e in
      find-some _ (λ s. s.user_id == u.id) db.sessions found
        (grind (arith, nat_beq_iff u.id s.user_id, nat_beq_iff s.user_id u.id))

  signed_out :
      (n : ℕ) (ss : List AuthSession)
      → any (λ s. s.user_id == n) (keep (λ s. not (s.user_id == n)) ss) ≡ false
  signed_out n ss = any-kept (λ s. s.user_id == n) (λ s. not (s.user_id == n)) (λ s h. ap not h) ss

  without-authenticate :
      (n : ℕ) (token : Option Text) (now : ℕ) (db : Db) (u : User)
      → any (λ s. s.user_id == n) db.sessions ≡ false
      → authenticate P token now db ≡ some u
      → u.id ≢ n
  without-authenticate n token now db u none_left e same =
      grind (arith, authenticate-session token now db u e)

  reset_for-signs_out :
      (token password salt : Text) (now : ℕ) (db db' : Db) (n : ℕ) (o : Option User)
      → ((u : User) → o ≡ some u → (u.id == n) ≡ true)
      → reset_for P token password salt now db o ≡ done db'
      → any (λ s. s.user_id == n) db'.sessions ≡ false
  reset_for-signs_out token password salt now db db' n none is_n e = absurd (grind arith)
  reset_for-signs_out token password salt now db db' n (some u) is_n e =
      grind (arith, signed_out n db.sessions, is_n u refl, nat_beq_iff u.id n)

  -- Once a link has reset a password, no token that was given out before is taken for the account that
  -- the link was made for.
  pub reset_password-signs_out :
      (token password salt : Text) (now : ℕ) (db db' : Db) (r : PasswordResetToken)
      → find (is_usable (P.hash_session_token token) now) db.resets ≡ some r
      → reset_password P token password salt now db ≡ done db'
      → (token' : Option Text) (now' : ℕ) (u : User) → authenticate P token' now' db' ≡ some u
      → u.id ≢ r.user_id
  unfolding reset_password
  reset_password-signs_out token password salt now db db' r found e token' now' u taken =
      without-authenticate r.user_id token' now' db' u
        (reset_for-signs_out token password salt now db db' r.user_id
          (find (has_id r.user_id) db.users) (λ x. find-holds (has_id r.user_id) db.users)
          (grind arith))
        taken
