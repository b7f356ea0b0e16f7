-- ===== src/Auth/Valid.antt =====
-- What holds of the tables between two calls, and the statements that keep it.
use intelli_study_planner_br.Base.{
  ℕ, ◌≤◌, ◌≡◌, refl, ◌∙◌, Bool, true, List, [], ◌∷◌, Text, arith, any, all, keep, length, ◌==◌,
  text_eq, nat_eq,
}
use intelli_study_planner_br.Auth.Rows.{
  User, AuthSession, PasswordResetToken, Db, is_unused_of, mark_used, set_password, has_email,
  has_id,
}
use intelli_study_planner_br.Base.Tables.{distinct}

abbrev pub user_email : User → Text
user_email u = u.email

abbrev pub user_id : User → ℕ
user_id u = u.id

abbrev pub session_hash : AuthSession → Text
session_hash s = s.token_hash

abbrev pub reset_hash : PasswordResetToken → Text
reset_hash r = r.token_hash

-- The owners of sessions and links are users.
abbrev pub sessions_owned : List User → List AuthSession → Bool
sessions_owned users = all (λ s. any (has_id s.user_id) users)

abbrev pub resets_owned : List User → List PasswordResetToken → Bool
resets_owned users = all (λ r. any (has_id r.user_id) users)

-- The unique columns hold distinct values, every session and link has an owner, and no user has two
-- links that were not used.
pub record IsValid (db : Db) : Type 0 where
  pub emails : distinct user_email db.users ≡ true
  pub ids : distinct user_id db.users ≡ true
  pub session_hashes : distinct session_hash db.sessions ≡ true
  pub reset_hashes : distinct reset_hash db.resets ≡ true
  pub session_owners : sessions_owned db.users db.sessions ≡ true
  pub reset_owners : resets_owned db.users db.resets ≡ true
  pub single : (n : ℕ) → length (keep (is_unused_of n) db.resets) ≤ 1

-- A changed password is seen by no test of ids or emails.
module _ (n : ℕ) (hash : Text) where
  pub any_id-set_password :
      (m : ℕ) (us : List User) → any (has_id m) (set_password n hash us) ≡ any (has_id m) us
  unfolding set_password
  any_id-set_password m [] = refl
  any_id-set_password m (u ∷ us) = grind (arith, any_id-set_password m us)

  pub any_email-set_password :
      (e : Text) (us : List User)
      → any (has_email e) (set_password n hash us) ≡ any (has_email e) us
  unfolding set_password
  any_email-set_password m [] = refl
  any_email-set_password m (u ∷ us) = grind (arith, any_email-set_password m us)

  ids-set_password :
      (us : List User) → distinct user_id (set_password n hash us) ≡ distinct user_id us
  unfolding set_password
  ids-set_password [] = refl
  ids-set_password (u ∷ us) = grind (arith, ids-set_password us, any_id-set_password u.id us)

  emails-set_password :
      (us : List User) → distinct user_email (set_password n hash us) ≡ distinct user_email us
  unfolding set_password
  emails-set_password [] = refl
  emails-set_password (u ∷ us) =
      grind (arith, emails-set_password us, any_email-set_password u.email us)

  sessions_owned-set_password :
      (us : List User) (ss : List AuthSession)
      → sessions_owned (set_password n hash us) ss ≡ sessions_owned us ss
  sessions_owned-set_password us [] = refl
  sessions_owned-set_password us (s ∷ ss) =
      grind (arith, sessions_owned-set_password us ss, any_id-set_password s.user_id us)

  resets_owned-set_password :
      (us : List User) (rs : List PasswordResetToken)
      → resets_owned (set_password n hash us) rs ≡ resets_owned us rs
  resets_owned-set_password us [] = refl
  resets_owned-set_password us (s ∷ ss) =
      grind (arith, resets_owned-set_password us ss, any_id-set_password s.user_id us)

  pub set_password-IsValid :
      (db : Db) → IsValid db → IsValid (record db { users = set_password n hash db.users })
  set_password-IsValid db v = record {
    emails = emails-set_password db.users ∙ v.emails;
    ids = ids-set_password db.users ∙ v.ids;
    session_hashes = v.session_hashes;
    reset_hashes = v.reset_hashes;
    session_owners = sessions_owned-set_password db.users db.sessions ∙ v.session_owners;
    reset_owners = resets_owned-set_password db.users db.resets ∙ v.reset_owners;
    single = v.single;
  }

module _ (h : Text) (now : ℕ) where
  any-mark_used :
      (x : Text) (rs : List PasswordResetToken)
      → any (λ r. reset_hash r == x) (mark_used h now rs) ≡ any (λ r. reset_hash r == x) rs
  unfolding mark_used
  any-mark_used x [] = refl
  any-mark_used x (r ∷ rs) = grind (arith, any-mark_used x rs)

  hashes-mark_used :
      (rs : List PasswordResetToken)
      → distinct reset_hash (mark_used h now rs) ≡ distinct reset_hash rs
  unfolding mark_used
  hashes-mark_used [] = refl
  hashes-mark_used (r ∷ rs) = grind (arith, hashes-mark_used rs, any-mark_used r.token_hash rs)

  owned-mark_used :
      (us : List User) (rs : List PasswordResetToken)
      → resets_owned us (mark_used h now rs) ≡ resets_owned us rs
  unfolding mark_used
  owned-mark_used us [] = refl
  owned-mark_used us (r ∷ rs) = grind (arith, owned-mark_used us rs)

  single-mark_used :
      (n : ℕ) (rs : List PasswordResetToken)
      → length (keep (is_unused_of n) (mark_used h now rs)) ≤ length (keep (is_unused_of n) rs)
  unfolding mark_used
  single-mark_used n [] = omega arith
  single-mark_used n (r ∷ rs) = grind (arith, single-mark_used n rs)

  pub mark_used-IsValid :
      (db : Db) → IsValid db → IsValid (record db { resets = mark_used h now db.resets })
  mark_used-IsValid db v = record {
    emails = v.emails;
    ids = v.ids;
    session_hashes = v.session_hashes;
    reset_hashes = hashes-mark_used db.resets ∙ v.reset_hashes;
    session_owners = v.session_owners;
    reset_owners = owned-mark_used db.users db.resets ∙ v.reset_owners;
    single = λ n. omega (arith, v.single n, single-mark_used n db.resets);
  }
