-- ===== src/Auth/Recovery.antt =====
-- A forgotten password: from the request of a link to the sign-in with the new password.
use intelli_study_planner_br.Base.{
  ℕ, ◌+◌, ◌*◌, ◌<◌, ◌≡◌, refl, ap, ◌∙◌, true, false, not, some, ◌∷◌, Text, arith, any, find, keep,
  ◌==◌, text_eq, nat_eq, Bool-cases, inl, inr, ==_refl, ltb,
}
use intelli_study_planner_br.Auth.Rows.{
  User, Db, Outcome, done, ◌>>=◌, insert_session, insert_reset, set_password, mark_used, has_email,
  has_id, without_sessions, is_usable, is_unused_of,
}
use intelli_study_planner_br.Auth.Service.{
  Platform, matches, Drawn, login, reset_password, request_password_reset, create_session,
  verify_password, reset_found, reset_for, login_found, link_for,
}
use intelli_study_planner_br.Base.Tables.{any-keep}
use intelli_study_planner_br.Auth.Valid.{IsValid}
use intelli_study_planner_br.Auth.Sessions.{find_email-set_password, find-by_id}

-- argon2 accepts the password that a hash was made of.
unfoldable pub IsHasher : Platform → Type 0
IsHasher P = (salt password : Text) → P.verify (P.hash salt password) password ≡ matches

lt→ltb : (a b : ℕ) → a < b → ltb a b ≡ true
lt→ltb a b h = ground arith

module _ (P : Platform) where
  -- The three calls in a row: the link of the mail is followed at `t2`, and the sign-in is at `t3`.
  abbrev pub recover :
      Text → Text → ℕ → Text → Text → ℕ → Drawn → ℕ → Db → Outcome ((User × Text) × Db)
  recover email raw_token t1 password salt t2 drawn t3 db =
      request_password_reset P email raw_token t1 db >>= λ asked.
      reset_password P raw_token password salt t2 asked.1 >>= λ db2.
      login P email password drawn t3 db2

  abbrev asked_db : User → Text → ℕ → Db → Db
  asked_db u raw_token t1 db = record db {
    resets = link_for P u raw_token t1 ∷ keep (λ r. not (is_unused_of u.id r)) db.resets;
  }

  request-asked :
      (email raw_token : Text) (t1 : ℕ) (db : Db) (u : User)
      → find (has_email email) db.users ≡ some u
      → any (λ r. r.token_hash == P.hash_session_token raw_token) db.resets ≡ false
      → request_password_reset P email raw_token t1 db
        ≡ done (
          some (record { to_email = u.email; raw_token = raw_token }),
          asked_db u raw_token t1 db,
        )
  unfolding request_password_reset insert_reset
  request-asked email raw_token t1 db u found fresh = rw (
    found,
    any-keep (λ r. r.token_hash == P.hash_session_token raw_token) (λ r. not (is_unused_of u.id r))
        db.resets fresh,
  )

  abbrev reset_db : User → Text → Text → Text → ℕ → Db → Db
  reset_db u raw_token password salt t2 db = without_sessions u.id (record db {
    users = set_password u.id (P.hash salt password) db.users;
    resets = mark_used (P.hash_session_token raw_token) t2 db.resets;
  })

  link-usable :
      (raw_token : Text) (t1 t2 : ℕ) (db : Db) (u : User)
      → t2 < t1 + P.reset_minutes * 60
      → find (is_usable (P.hash_session_token raw_token) t2) (asked_db u raw_token t1 db).resets
        ≡ some (link_for P u raw_token t1)
  link-usable raw_token t1 t2 db u early =
      rw (==_refl (P.hash_session_token raw_token), lt→ltb t2 (t1 + P.reset_minutes * 60) early)

  reset-changed :
      (raw_token password salt : Text) (t1 t2 : ℕ) (db : Db) (u : User)
      → find (has_id u.id) db.users ≡ some u
      → t2 < t1 + P.reset_minutes * 60
      → reset_password P raw_token password salt t2 (asked_db u raw_token t1 db)
        ≡ done (reset_db u raw_token password salt t2 (asked_db u raw_token t1 db))
  unfolding reset_password
  reset-changed raw_token password salt t1 t2 db u there early =
      ap (reset_found P raw_token password salt t2 (asked_db u raw_token t1 db))
        (link-usable raw_token t1 t2 db u early)
      ∙ ap (reset_for P raw_token password salt t2 (asked_db u raw_token t1 db)) there

  -- The login of a user whose hash is that of the password.
  login_found-succeeds :
      (password : Text) (drawn : Drawn) (t3 : ℕ) (db : Db) (u : User)
      → P.verify u.password_hash password ≡ matches
      → any (λ s. s.token_hash == P.hash_session_token drawn.token) db.sessions ≡ false
      → (v : User) × (db' : Db) × (login_found P password drawn t3 db (some u)
          ≡ done ((v, drawn.token), db'))
        × (v.id ≡ u.id)
  unfolding create_session insert_session verify_password
  login_found-succeeds password drawn t3 db u right fresh =
      elim (Bool-cases (P.check_needs_rehash u.password_hash)) [
        | inl old ↦ (
          u',
          opened u' (record db { users = set_password u.id hash db.users }),
          rw (right, old, fresh),
          refl,
        )
        | inr new ↦ (u, opened u db, rw (right, new, fresh), refl)
      ]
    where
      hash : Text
      hash = P.hash drawn.salt password

      u' : User
      u' = record u { password_hash = hash }

      opened : User → Db → Db
      opened x db0 = record db0 {
        sessions =
            record {
              user_id = x.id;
              token_hash = P.hash_session_token drawn.token;
              expires_at = t3 + P.session_days * 86400;
            }
            ∷ db0.sessions;
      }

  -- Whoever receives the link of an account and follows it before it expires can sign in with the new
  -- password and is then given that account, where argon2 accepts the passwords that it hashed and the
  -- two drawn tokens have hashes that the tables do not hold yet.
  pub recover-succeeds :
      (email raw_token : Text) (t1 : ℕ) (password salt : Text) (t2 : ℕ) (drawn : Drawn) (t3 : ℕ)
      (db : Db) (u : User)
      → IsHasher P
      → IsValid db
      → find (has_email email) db.users ≡ some u
      → any (λ r. r.token_hash == P.hash_session_token raw_token) db.resets ≡ false
      → any (λ s. s.token_hash == P.hash_session_token drawn.token) db.sessions ≡ false
      → t2 < t1 + P.reset_minutes * 60
      → (v : User) × (db' : Db) × (recover email raw_token t1 password salt t2 drawn t3 db
          ≡ done ((v, drawn.token), db'))
        × (v.id ≡ u.id)
  unfolding login IsHasher
  recover-succeeds email raw_token t1 password salt t2 drawn t3 db u hasher v found fresh unused
        early =
      let (w, db', e, same) =
        login_found-succeeds password drawn t3
          (reset_db u raw_token password salt t2 (asked_db u raw_token t1 db))
          (record u { password_hash = P.hash salt password }) (hasher salt password)
          (any-keep (λ s. s.token_hash == P.hash_session_token drawn.token)
            (λ s. not (s.user_id == u.id)) db.sessions unused) in
      (
        w,
        db',
        (rw (
          request-asked email raw_token t1 db u found fresh,
          reset-changed raw_token password salt t1 t2 db u
              (find-by_id (has_email email) db.users u v.ids found) early,
          find_email-set_password email u.id (P.hash salt password) db.users u found,
          ==_refl u.id,
        ))
            ∙ e,
        same,
      )
