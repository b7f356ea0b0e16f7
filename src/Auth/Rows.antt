-- ===== src/Auth/Rows.antt =====
-- The rows of app_user, auth_session and password_reset_token (app/models/auth.py), with the
-- statements that the service issues on them. Ids and instants (in seconds) are numbers; the ids of
-- sessions and links, which nothing reads, are left out. A new row goes to the front.
use intelli_study_planner_br.Base.{
  ℕ, Bool, true, false, not, ◌&&◌, Option, none, some, List, [], ◌∷◌, Text, ltb, any, keep,
  if◌then◌else◌, ◌==◌, text_eq, nat_eq,
}

pub record User : Type 0 where
  pub id : ℕ
  pub email : Text
  pub display_name : Option Text
  pub password_hash : Text
  pub degree_code : Text
  pub commencement_year : Option ℕ
  pub campus : Option Text
  pub major : Option Text
  pub elective_interests : List Text

pub record AuthSession : Type 0 where
  pub user_id : ℕ
  pub token_hash : Text
  pub expires_at : ℕ

pub record PasswordResetToken : Type 0 where
  pub user_id : ℕ
  pub token_hash : Text
  pub expires_at : ℕ
  pub used_at : Option ℕ

pub record Db : Type 0 where
  pub users : List User
  pub sessions : List AuthSession
  pub resets : List PasswordResetToken

-- What a call raises.
pub data Error : Type 0 where
  email_taken invalid_login invalid_link invalid_password vault_failed integrity_error : Error

pub data Outcome {ℓ} (A : Type ℓ) : Type ℓ where
  done : A → Outcome A
  failed : Error → Outcome A

infixl 5 ◌>>=◌
abbrev pub ◌>>=◌ {ℓ κ} : {A : Type ℓ} {B : Type κ} → Outcome A → (A → Outcome B) → Outcome B
done a >>= f = f a
failed e >>= f = failed e

abbrev pub has_id : ℕ → User → Bool
has_id n u = u.id == n

abbrev pub has_email : Text → User → Bool
has_email email u = u.email == email

abbrev pub with_password : ℕ → Text → User → User
with_password n hash u = if has_id n u then record u { password_hash = hash } else u

-- user.password_hash = ..., flushed.
unfoldable pub set_password : ℕ → Text → List User → List User
set_password n hash [] = []
set_password n hash (u ∷ us) = with_password n hash u ∷ set_password n hash us

-- A session that a token opens at an instant.
abbrev pub is_live : Text → ℕ → AuthSession → Bool
is_live hash now s = (s.token_hash == hash) && ltb now s.expires_at

abbrev pub is_unused : Option ℕ → Bool
is_unused none = true
is_unused (some t) = false

-- A link that has the hash and was not used.
abbrev pub is_open : Text → PasswordResetToken → Bool
is_open hash r = (r.token_hash == hash) && is_unused r.used_at

abbrev pub is_usable : Text → ℕ → PasswordResetToken → Bool
is_usable hash now r = is_open hash r && ltb now r.expires_at

-- A user's links that were not used.
abbrev pub is_unused_of : ℕ → PasswordResetToken → Bool
is_unused_of n r = (r.user_id == n) && is_unused r.used_at

abbrev pub used : Text → ℕ → PasswordResetToken → PasswordResetToken
used hash now r = if r.token_hash == hash then record r { used_at = some now } else r

-- reset_token.used_at = now, flushed; the hashes of the table are distinct.
unfoldable pub mark_used : Text → ℕ → List PasswordResetToken → List PasswordResetToken
mark_used hash now [] = []
mark_used hash now (r ∷ rs) = used hash now r ∷ mark_used hash now rs

-- The unique index on auth_session.token_hash.
unfoldable pub insert_session : AuthSession → Db → Outcome Db
insert_session s db =
    if any (λ x. x.token_hash == s.token_hash) db.sessions
    then failed integrity_error
    else done (record db { sessions = s ∷ db.sessions })

-- The unique index on password_reset_token.token_hash.
unfoldable pub insert_reset : PasswordResetToken → Db → Outcome Db
insert_reset r db =
    if any (λ x. x.token_hash == r.token_hash) db.resets
    then failed integrity_error
    else done (record db { resets = r ∷ db.resets })

-- The primary key of app_user; the caller has looked for the email.
unfoldable pub insert_user : User → Db → Outcome Db
insert_user u db =
    if any (has_id u.id) db.users
    then failed integrity_error
    else done (record db { users = u ∷ db.users })

abbrev pub without_sessions : ℕ → Db → Db
without_sessions n db = record db { sessions = keep (λ s. not (s.user_id == n)) db.sessions }

-- What ON DELETE CASCADE of the foreign key on app_user.id leaves of the table auth_session.
abbrev pub cascade_sessions : ℕ → List AuthSession → List AuthSession
cascade_sessions n rows = keep (λ s. not (s.user_id == n)) rows

-- The same for the table password_reset_token.
abbrev pub cascade_resets : ℕ → List PasswordResetToken → List PasswordResetToken
cascade_resets n rows = keep (λ r. not (r.user_id == n)) rows

-- db.delete(user), with the rows that the foreign keys cascade to.
unfoldable pub delete_user : ℕ → Db → Db
delete_user n db = record {
  users = keep (λ u. not (has_id n u)) db.users;
  sessions = cascade_sessions n db.sessions;
  resets = cascade_resets n db.resets;
}
