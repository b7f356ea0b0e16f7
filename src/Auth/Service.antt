-- ===== src/Auth/Service.antt =====
-- AuthService, all but the deletion of an account. A sign-in time is in seconds: a session lasts
-- AUTH_SESSION_DAYS, a link PASSWORD_RESET_EXPIRE_MINUTES.
use intelli_study_planner_br.Base.{
  ℕ, ◌+◌, ◌*◌, Bool, true, false, not, Option, none, some, List, [], Text, codes, any, find, keep,
  is_empty, if◌then◌else◌, ◌==◌, text_eq, nat_eq,
}
use intelli_study_planner_br.Auth.Rows.{
  User, AuthSession, PasswordResetToken, Db, email_taken, invalid_login, invalid_link, Outcome,
  done, failed, ◌>>=◌, has_id, has_email, set_password, is_live, is_usable, is_unused_of, mark_used,
  insert_session, insert_reset, insert_user, without_sessions,
}

-- PasswordHasher.verify: true, or one of the two exceptions that the service catches.
pub data Check : Type 0 where
  matches mismatch invalid_hash : Check

-- What the service calls or reads: argon2 (a salt is drawn for each hash), the hash of a token, and
-- the settings.
pub record Platform : Type 0 where
  pub hash : Text → Text → Text
  pub verify : Text → Text → Check
  pub check_needs_rehash : Text → Bool
  pub hash_session_token : Text → Text
  pub session_days : ℕ
  pub reset_minutes : ℕ

-- AuthService._verify_password
abbrev pub is_match : Check → Bool
is_match matches = true
is_match mismatch = false
is_match invalid_hash = false

abbrev pub new_user : ℕ → Text → Option Text → Text → User
new_user id email display_name password_hash = record {
  id = id;
  email = email;
  display_name = display_name;
  password_hash = password_hash;
  degree_code = codes "766";
  commencement_year = none;
  campus = none;
  major = none;
  elective_interests = [];
}

-- The mail that carries a link: to whom, and the raw token.
pub record Mail : Type 0 where
  pub to_email : Text
  pub raw_token : Text

-- The values drawn in a call.
pub record Drawn : Type 0 where
  pub salt : Text
  pub token : Text

module _ (P : Platform) where
  open P use {hash, verify, check_needs_rehash, hash_session_token, session_days, reset_minutes}

  unfoldable pub verify_password : Text → Text → Bool
  verify_password password_hash password = is_match (verify password_hash password)

  unfoldable pub create_session : User → Text → ℕ → Db → Outcome Db
  unfolding insert_session
  create_session user token now db =
      insert_session
        (record {
          user_id = user.id;
          token_hash = hash_session_token token;
          expires_at = now + session_days * 86400;
        })
        db

  abbrev pub signed_in : User → Text → ℕ → Db → Outcome ((User × Text) × Db)
  signed_in user token now db =
      create_session user token now db >>= λ db'. done ((user, token), db')

  unfoldable pub register :
      Text → Text → Option Text → ℕ → Drawn → ℕ → Db → Outcome ((User × Text) × Db)
  unfolding create_session insert_user
  register email password display_name id drawn now db =
      if any (has_email email) db.users
      then failed email_taken
      else insert_user user db >>= λ db'. signed_in user drawn.token now db'
    where
      user : User
      user = new_user id email display_name (hash drawn.salt password)

  -- The hash of a password that was verified, made again where argon2's parameters have changed.
  abbrev pub signed_in_rehashed : User → Text → Drawn → ℕ → Db → Outcome ((User × Text) × Db)
  signed_in_rehashed user password drawn now db =
      if check_needs_rehash user.password_hash
      then signed_in (record user { password_hash = hash drawn.salt password }) drawn.token now
          (record db { users = set_password user.id (hash drawn.salt password) db.users })
      else signed_in user drawn.token now db

  abbrev pub login_found : Text → Drawn → ℕ → Db → Option User → Outcome ((User × Text) × Db)
  login_found password drawn now db none = failed invalid_login
  login_found password drawn now db (some user) =
      if verify_password user.password_hash password
      then signed_in_rehashed user password drawn now db
      else failed invalid_login

  unfoldable pub login : Text → Text → Drawn → ℕ → Db → Outcome ((User × Text) × Db)
  unfolding create_session set_password verify_password
  login email password drawn now db =
      login_found password drawn now db (find (has_email email) db.users)

  abbrev pub owner : List User → Option AuthSession → Option User
  owner users none = none
  owner users (some s) = find (has_id s.user_id) users

  unfoldable pub authenticate : Option Text → ℕ → Db → Option User
  authenticate none now db = none
  authenticate (some token) now db =
      if is_empty token
      then none
      else owner db.users (find (is_live (hash_session_token token) now) db.sessions)

  unfoldable pub logout : Option Text → Db → Db
  logout none db = db
  logout (some token) db = if is_empty token then db else record db {
    sessions = keep (λ s. not (s.token_hash == hash_session_token token)) db.sessions;
  }

  abbrev pub without_unused : ℕ → Db → Db
  without_unused n db = record db { resets = keep (λ r. not (is_unused_of n r)) db.resets }

  abbrev pub link_for : User → Text → ℕ → PasswordResetToken
  link_for user raw_token now = record {
    user_id = user.id;
    token_hash = hash_session_token raw_token;
    expires_at = now + reset_minutes * 60;
    used_at = none;
  }

  abbrev pub request_found : Text → ℕ → Db → Option User → Outcome (Option Mail × Db)
  request_found raw_token now db none = done (none, db)
  request_found raw_token now db (some user) =
      insert_reset (link_for user raw_token now) (without_unused user.id db) >>= λ db'.
      done (some (record { to_email = user.email; raw_token = raw_token }), db')

  unfoldable pub request_password_reset : Text → Text → ℕ → Db → Outcome (Option Mail × Db)
  unfolding insert_reset
  request_password_reset email raw_token now db =
      request_found raw_token now db (find (has_email email) db.users)

  abbrev pub reset_for : Text → Text → Text → ℕ → Db → Option User → Outcome Db
  reset_for token new_password salt now db none = failed invalid_link
  reset_for token new_password salt now db (some user) = done (
      without_sessions user.id (record db {
        users = set_password user.id (hash salt new_password) db.users;
        resets = mark_used (hash_session_token token) now db.resets;
      }))

  abbrev pub reset_found : Text → Text → Text → ℕ → Db → Option PasswordResetToken → Outcome Db
  reset_found token new_password salt now db none = failed invalid_link
  reset_found token new_password salt now db (some r) =
      reset_for token new_password salt now db (find (has_id r.user_id) db.users)

  unfoldable pub reset_password : Text → Text → Text → ℕ → Db → Outcome Db
  unfolding set_password mark_used
  reset_password token new_password salt now db =
      reset_found token new_password salt now db
        (find (is_usable (hash_session_token token) now) db.resets)
