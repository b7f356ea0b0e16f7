-- ===== src/Auth/Kept.antt =====
-- The inserts and deletes that keep the tables valid.
use intelli_study_planner_br.Base.{
  ℕ, ◌≡◌, refl, subst, Bool, true, false, not, List, [], ◌∷◌, arith, any, keep, length, ◌==◌,
  text_eq, nat_eq, Bool-cases, inl, inr,
}
use intelli_study_planner_br.Auth.Rows.{
  User, AuthSession, PasswordResetToken, Db, done, is_unused_of, insert_session, insert_reset,
  delete_user, has_email, has_id,
}
use intelli_study_planner_br.Base.Tables.{all-keep, length-keep-keep, all_mono, distinct-keep}
use intelli_study_planner_br.Auth.Valid.{
  IsValid, user_email, user_id, session_hash, reset_hash, sessions_owned, resets_owned,
}

pub keep_sessions-IsValid :
    (q : AuthSession → Bool) (db : Db)
    → IsValid db
    → IsValid (record db { sessions = keep q db.sessions })
keep_sessions-IsValid q db v = record {
  emails = v.emails;
  ids = v.ids;
  session_hashes = distinct-keep session_hash q db.sessions v.session_hashes;
  reset_hashes = v.reset_hashes;
  session_owners = all-keep _ q db.sessions v.session_owners;
  reset_owners = v.reset_owners;
  single = v.single;
}

pub keep_resets-IsValid :
    (q : PasswordResetToken → Bool) (db : Db)
    → IsValid db
    → IsValid (record db { resets = keep q db.resets })
keep_resets-IsValid q db v = record {
  emails = v.emails;
  ids = v.ids;
  session_hashes = v.session_hashes;
  reset_hashes = distinct-keep reset_hash q db.resets v.reset_hashes;
  session_owners = v.session_owners;
  reset_owners = all-keep _ q db.resets v.reset_owners;
  single = λ n. omega (arith, v.single n, length-keep-keep (is_unused_of n) q db.resets);
}

add_session-IsValid :
    (s : AuthSession) (db : Db)
    → any (has_id s.user_id) db.users ≡ true
    → any (λ x. x.token_hash == s.token_hash) db.sessions ≡ false
    → IsValid db
    → IsValid (record db { sessions = s ∷ db.sessions })
add_session-IsValid s db owned free v = record {
  emails = v.emails;
  ids = v.ids;
  session_hashes = grind (arith, v.session_hashes);
  reset_hashes = v.reset_hashes;
  session_owners = grind (arith, v.session_owners);
  reset_owners = v.reset_owners;
  single = v.single;
}

pub insert_session-IsValid :
    (s : AuthSession) (db db' : Db)
    → any (has_id s.user_id) db.users ≡ true
    → IsValid db
    → insert_session s db ≡ done db'
    → IsValid db'
unfolding insert_session
insert_session-IsValid s db db' owned v e =
    elim (Bool-cases (any (λ x. x.token_hash == s.token_hash) db.sessions)) [
      | inl taken ↦ absurd (grind arith)
      | inr free ↦ subst IsValid (grind arith) (add_session-IsValid s db owned free v)
    ]

add_reset-IsValid :
    (r : PasswordResetToken) (db : Db)
    → any (has_id r.user_id) db.users ≡ true
    → any (λ x. x.token_hash == r.token_hash) db.resets ≡ false
    → length (keep (is_unused_of r.user_id) db.resets) ≡ 0
    → IsValid db
    → IsValid (record db { resets = r ∷ db.resets })
add_reset-IsValid r db owned free none_left v = record {
  emails = v.emails;
  ids = v.ids;
  session_hashes = v.session_hashes;
  reset_hashes = grind (arith, v.reset_hashes);
  session_owners = v.session_owners;
  reset_owners = grind (arith, v.reset_owners);
  single = λ n. grind (arith, v.single n);
}

pub insert_reset-IsValid :
    (r : PasswordResetToken) (db db' : Db)
    → any (has_id r.user_id) db.users ≡ true
    → length (keep (is_unused_of r.user_id) db.resets) ≡ 0
    → IsValid db
    → insert_reset r db ≡ done db'
    → IsValid db'
unfolding insert_reset
insert_reset-IsValid r db db' owned none_left v e =
    elim (Bool-cases (any (λ x. x.token_hash == r.token_hash) db.resets)) [
      | inl taken ↦ absurd (grind arith)
      | inr free ↦ subst IsValid (grind arith) (add_reset-IsValid r db owned free none_left v)
    ]

-- A row has an owner also after a user was added.
owned_still :
    (u : User) (us : List User) (n : ℕ) → any (has_id n) us ≡ true → any (has_id n) (u ∷ us) ≡ true
owned_still u us n e = grind arith

pub add_user-IsValid :
    (u : User) (db : Db)
    → any (has_email u.email) db.users ≡ false
    → any (has_id u.id) db.users ≡ false
    → IsValid db
    → IsValid (record db { users = u ∷ db.users })
add_user-IsValid u db new_email new_id v = record {
  emails = grind (arith, v.emails);
  ids = grind (arith, v.ids);
  session_hashes = v.session_hashes;
  reset_hashes = v.reset_hashes;
  session_owners =
      all_mono _ _ (λ s. owned_still u db.users s.user_id) db.sessions v.session_owners;
  reset_owners = all_mono _ _ (λ r. owned_still u db.users r.user_id) db.resets v.reset_owners;
  single = v.single;
}

-- A row of another user keeps its owner when a user is deleted.
owned_else :
    (n m : ℕ) (us : List User)
    → (m == n) ≡ false
    → any (has_id m) us ≡ true
    → any (has_id m) (keep (λ u. not (has_id n u)) us) ≡ true
owned_else n m [] ne e = grind arith
owned_else n m (u ∷ us) ne e = grind (arith, owned_else n m us)

sessions_owned_else :
    (n : ℕ) (us : List User) (ss : List AuthSession)
    → sessions_owned us ss ≡ true
    → sessions_owned (keep (λ u. not (has_id n u)) us) (keep (λ s. not (s.user_id == n)) ss) ≡ true
sessions_owned_else n us [] e = refl
sessions_owned_else n us (s ∷ ss) e =
    grind (arith, sessions_owned_else n us ss, owned_else n s.user_id us)

resets_owned_else :
    (n : ℕ) (us : List User) (rs : List PasswordResetToken)
    → resets_owned us rs ≡ true
    → resets_owned (keep (λ u. not (has_id n u)) us) (keep (λ r. not (r.user_id == n)) rs) ≡ true
resets_owned_else n us [] e = refl
resets_owned_else n us (r ∷ rs) e =
    grind (arith, resets_owned_else n us rs, owned_else n r.user_id us)

pub delete_user-IsValid : (n : ℕ) (db : Db) → IsValid db → IsValid (delete_user n db)
unfolding delete_user
delete_user-IsValid n db v = record {
  emails = distinct-keep user_email _ db.users v.emails;
  ids = distinct-keep user_id _ db.users v.ids;
  session_hashes = distinct-keep session_hash _ db.sessions v.session_hashes;
  reset_hashes = distinct-keep reset_hash _ db.resets v.reset_hashes;
  session_owners = sessions_owned_else n db.users db.sessions v.session_owners;
  reset_owners = resets_owned_else n db.users db.resets v.reset_owners;
  single = λ m.
      omega (
        arith,
        v.single m,
        length-keep-keep (is_unused_of m) (λ r. not (r.user_id == n)) db.resets,
      );
}
