-- ===== src/Vault/Invariant.antt =====
-- The table of keys under create_key, update_key and delete_key of app/services/vault_service.py.
use intelli_study_planner_br.Base.{
  ℕ, ◌≡◌, refl, sym, ◌∙◌, subst, Bool, true, false, not, ◌||◌, Option, none, some, List, [], ◌∷◌,
  ◌++◌, Text, arith, Bool-cases, Option-cases, inl, inr, ◌==◌, ==_refl, nat_eq, nat_beq_iff,
  text_eq, any,
}
use intelli_study_planner_br.Vault.Rows.{
  rotated, Provider, Credential, StoredSecret, Audit, Db, has_id, is_of, count, row_of, change_row,
  clear_defaults, set_default, label_taken,
}
use intelli_study_planner_br.Vault.Secrets.{SecretStore, Stores, store_for, active_store}
use intelli_study_planner_br.Vault.Counts.{
  change_row-here, change_row-there, one_if, row_of-first, row_of-here, row_of-there, count-cons,
}
use intelli_study_planner_br.Vault.Defaults.{
  IsValid, IsValid-change, IsValid-choose, IsValid-append, row_of-has_id,
}
use intelli_study_planner_br.Vault.Promotion.{IsValid-drop}
use intelli_study_planner_br.Vault.Requests.{
  owned_by, hint, label_change, audit, Vault, Verdict, Result, ok, failed, CreateRequest,
  UpdateRequest, insert_row, choose_default, get_key, check_key, new_row, apply_stored, rotate,
}
use intelli_study_planner_br.Vault.Service.{
  create_checked, create_key, update_key, delete_key, put_new, create_in, finish_update, relabel,
  put_rotated, put_in, replace_key, update_row, delete_secret, delete_in,
}

row_of-append :
    (n : ℕ) (c : Credential) (rows : List Credential)
    → has_id n c ≡ true
    → count (has_id n) rows ≡ 0
    → row_of n (rows ++ c ∷ []) ≡ some c
row_of-append n c [] is fresh = row_of-here n c [] is
row_of-append n c (x ∷ xs) is fresh = elim (Bool-cases (has_id n x)) [
  | inl same ↦
      absurd (
        omega (arith, fresh, count-cons (has_id n) x xs, subst (λ b. one_if b ≡ 1) (sym same) refl))
  | inr other ↦
      row_of-there n x (xs ++ c ∷ []) other
      ∙ row_of-append n c xs is (omega (arith, fresh, count-cons (has_id n) x xs))
]

IsValid-insert_row :
    (r : CreateRequest) (c : Credential) (rows : List Credential)
    → c.user_id ≡ r.user
    → c.provider ≡ r.provider
    → c.is_default ≡ false
    → count (has_id c.id) rows ≡ 0
    → IsValid rows
    → IsValid (insert_row r c rows)
unfolding insert_row
IsValid-insert_row r c rows whose which plain fresh v =
    elim (Bool-cases (r.make_default || not (any (is_of r.user r.provider) rows))) [
      | inr unasked ↦ rw unasked appended
      | inl chosen ↦ rw chosen (
          subst
            (λ u.
              IsValid
                (change_row c.id set_default (clear_defaults u r.provider none (rows ++ c ∷ []))))
            whose
            (subst
              (λ p.
                IsValid
                  (change_row c.id set_default (clear_defaults c.user_id p none (rows ++ c ∷ []))))
              which
              (IsValid-choose none c.id (rows ++ c ∷ []) c
                (row_of-append c.id c rows (==_refl c.id) fresh) (λ d h. refl) appended)))
    ]
  where
    appended : IsValid (rows ++ c ∷ [])
    appended = IsValid-append c rows fresh plain v

row_of-change :
    (n : ℕ) (c d : Credential) (rows : List Credential)
    → has_id n c ≡ true
    → row_of n rows ≡ some d
    → row_of n (change_row n (λ _. c) rows) ≡ some c
unfolding row_of
row_of-change n c d [] is h = cc
row_of-change n c d (x ∷ xs) is h = elim (row_of-first n x xs d h) [
  | inl (same, _) ↦ rw (change_row-here n (λ _. c) x xs same) (row_of-here n c xs is)
  | inr (other, there) ↦
      rw (change_row-there n (λ _. c) x xs other)
        (row_of-there n x (change_row n (λ _. c) xs) other ∙ row_of-change n c d xs is there)
]

-- What an update leaves of a row.
record IsSameKey (c d : Credential) : Type 0 where
  pub same_id : c.id ≡ d.id
  pub same_user : c.user_id ≡ d.user_id
  pub same_provider : c.provider ≡ d.provider
  pub same_default : c.is_default ≡ d.is_default

-- A changed row, and then perhaps the choice of it.
IsValid-choose_default :
    (b : Bool) (c d : Credential) (rows : List Credential)
    → row_of c.id rows ≡ some d
    → IsSameKey c d
    → IsValid rows
    → IsValid (choose_default b c (change_row c.id (λ _. c) rows))
unfolding choose_default
IsValid-choose_default b c d rows found same v = on b
  where
    the_row : (e : Credential) → row_of c.id rows ≡ some e → e ≡ d
    the_row e h = grind (arith, h, found)

    changed : IsValid (change_row c.id (λ _. c) rows)
    changed =
        IsValid-change c.id (λ _. c) rows (λ e h m. rw (the_row e h) (rw same.same_id refl))
          (λ e h u p.
            rw (the_row e h)
              (rw same.same_user (rw same.same_provider (rw same.same_default refl))))
          v

    on : (b : Bool) → IsValid (choose_default b c (change_row c.id (λ _. c) rows))
    on false = changed
    on true =
        IsValid-choose (some c.id) c.id (change_row c.id (λ _. c) rows) c
          (row_of-change c.id c d rows (==_refl c.id) found) (λ e h. h) changed

module _ {S : Type 0} where
  IsValid-finish_update :
      (r : UpdateRequest) (c d : Credential) (audits : List Audit) (db : Db) (s : S)
      → row_of c.id db.rows ≡ some d
      → IsSameKey c d
      → IsValid db.rows
      → IsValid (finish_update r c audits db s).1.db.rows
  IsValid-finish_update r c d audits db s found same v =
      IsValid-choose_default r.make_default c d db.rows found same v

  IsValid-relabel :
      (r : UpdateRequest) (l : Option Text) (c d : Credential) (audits : List Audit) (db : Db)
      (s : S)
      → row_of c.id db.rows ≡ some d
      → IsSameKey c d
      → IsValid db.rows
      → IsValid (relabel r l c audits db s).1.db.rows
  IsValid-relabel r none c d audits db s found same v =
      IsValid-finish_update r c d audits db s found same v
  IsValid-relabel r (some l) c d audits db s found same v =
      elim (Bool-cases (label_taken (record c { label = l }) db.rows)) [
        | inl taken ↦ rw taken v
        | inr free ↦ rw free (
            IsValid-choose_default r.make_default (record c { label = l }) d db.rows found
              (record {
                same_id = same.same_id;
                same_user = same.same_user;
                same_provider = same.same_provider;
                same_default = same.same_default;
              })
              v)
      ]

  IsValid-put_rotated :
      (r : UpdateRequest) (key : Text) (at : Option ℕ) (c : Credential) (v : Vault S)
      (o : Option (S × StoredSecret))
      → row_of c.id v.db.rows ≡ some c
      → IsValid v.db.rows
      → IsValid (put_rotated r key at c v o).1.db.rows
  IsValid-put_rotated r key at c v none found h = h
  IsValid-put_rotated r key at c v (some (s, stored)) found h =
      let c' : Credential = rotate stored key at c in
      IsValid-relabel r (label_change r.label c') c' c (audit c' r.user rotated (hint c') ∷ []) v.db
        s found
        (record { same_id = refl; same_user = refl; same_provider = refl; same_default = refl }) h

-- A key that is found is a row of the user.
pub get_key-row :
    (user n : ℕ) (rows : List Credential) (c : Credential)
    → get_key user n rows ≡ some c
    → row_of c.id rows ≡ some c
unfolding get_key
get_key-row user n rows c h = elim (Option-cases (row_of n rows)) [
  | inl absent ↦ absurd (grind (arith, h, absent))
  | inr (d, found) ↦
      let same : d ≡ c = owned user d c (subst (λ o. owned_by user o ≡ some c) found h) in
      subst (λ e. row_of e.id rows ≡ some e) same
        (subst (λ k. row_of k rows ≡ some d)
          (sym ((nat_beq_iff d.id n).0 (row_of-has_id n rows d found))) found)
]
  where
    owned : (user : ℕ) (d c : Credential) → owned_by user (some d) ≡ some c → d ≡ c
    owned user d c h = elim (Bool-cases (d.user_id == user)) [
      | inl own ↦ grind (arith, h, own)
      | inr foreign ↦ absurd (grind (arith, h, foreign))
    ]

module _ {S : Type 0} (stores : Stores S) (verify_key : Provider → Text → Verdict) where
  pub IsValid-create_key :
      (r : CreateRequest) (v : Vault S)
      → count (has_id r.id) v.db.rows ≡ 0
      → IsValid v.db.rows
      → IsValid (create_key stores verify_key r v).1.db.rows
  unfolding create_key
  IsValid-create_key r v fresh h = on (check_key verify_key r.verify r.now r.provider r.api_key)
    where
      put :
          (c : Credential) (o : Option (S × StoredSecret))
          → c.id ≡ r.id
          → c.user_id ≡ r.user
          → c.provider ≡ r.provider
          → c.is_default ≡ false
          → IsValid (put_new stores verify_key r c v o).1.db.rows
      put c none a b d e = h
      put c (some (s, stored)) a b d e =
          elim (Bool-cases (label_taken (apply_stored stored c) v.db.rows)) [
            | inl taken ↦ rw taken h
            | inr free ↦ rw free (
                IsValid-insert_row r (apply_stored stored c) v.db.rows b d e
                  (subst (λ n. count (has_id n) v.db.rows ≡ 0) (sym a) fresh) h)
          ]

      create :
          (at : Option ℕ) (o : Option (SecretStore S))
          → IsValid (create_in stores verify_key r at v o).1.db.rows
      create at none = h
      create at (some store) =
          put (new_row r store.name at) (store.put v.secrets (new_row r store.name at) r.api_key)
            refl refl refl refl

      on : (x : Result (Option ℕ)) → IsValid (create_checked stores verify_key r v x).1.db.rows
      on (failed e) = h
      on (ok at) = create at (active_store stores)

  pub IsValid-update_key :
      (r : UpdateRequest) (v : Vault S)
      → IsValid v.db.rows
      → IsValid (update_key stores verify_key r v).1.db.rows
  unfolding update_key
  IsValid-update_key r v h = elim (Option-cases (get_key r.user r.id v.db.rows)) [
    | inl absent ↦ rw absent h
    | inr (c, found) ↦ rw found (updated r.api_key c (get_key-row r.user r.id v.db.rows c found))
  ]
    where
      replaced :
          (key : Text) (c : Credential)
          → row_of c.id v.db.rows ≡ some c
          → (x : Result (Option ℕ)) → IsValid (replace_key stores verify_key r key c v x).1.db.rows
      replaced key c row (failed e) = h
      replaced key c row (ok at) =
          IsValid-put_rotated r key at c v (put_in (store_for stores c.backend) v.secrets c key) row
            h

      updated :
          (key : Option Text) (c : Credential)
          → row_of c.id v.db.rows ≡ some c
          → IsValid (update_row stores verify_key r key c v).1.db.rows
      updated none c row =
          IsValid-relabel r (label_change r.label c) c c [] v.db v.secrets row
            (record { same_id = refl; same_user = refl; same_provider = refl; same_default = refl })
            h
      updated (some key) c row =
          replaced key c row (check_key verify_key r.verify r.now c.provider key)

  pub IsValid-delete_key :
      (user n : ℕ) (v : Vault S)
      → IsValid v.db.rows
      → IsValid (delete_key stores verify_key user n v).1.db.rows
  unfolding delete_key
  IsValid-delete_key user n v h = elim (Option-cases (get_key user n v.db.rows)) [
    | inl absent ↦ rw absent h
    | inr (c, found) ↦ rw found (
        dropped c (get_key-row user n v.db.rows c found)
          (delete_in (store_for stores c.backend) v.secrets c))
  ]
    where
      dropped :
          (c : Credential)
          → row_of c.id v.db.rows ≡ some c
          → (o : Option S) → IsValid (delete_secret user c v o).1.db.rows
      dropped c row none = h
      dropped c row (some s) = IsValid-drop c v.db.rows row h
