-- ===== src/Vault/Reachable.antt =====
-- Sequences of operations of app/services/vault_service.py, from a table without keys.
use intelli_study_planner_br.Base.{
  ℕ, ◌≤◌, ◌≡◌, refl, ap, sym, subst, Bool, not, Option, none, some, List, [], ◌∷◌, Text, arith,
  Bool-cases, Option-cases, inl, inr, ◌==◌, nat_eq, keep,
}
use intelli_study_planner_br.Vault.Rows.{
  Provider, Credential, Status, invalid, has_id, is_default_of, count, row_of, change_row,
}
use intelli_study_planner_br.Vault.Secrets.{Stores}
use intelli_study_planner_br.Vault.Counts.{count-cons}
use intelli_study_planner_br.Vault.Defaults.{IsValid, IsValid-change}
use intelli_study_planner_br.Vault.Invariant.{
  IsValid-create_key, IsValid-update_key, IsValid-delete_key,
}
use intelli_study_planner_br.Vault.Requests.{
  Vault, Verdict, accepted, key_rejected, unavailable, Result, ok, failed, CreateRequest,
  UpdateRequest, get_key,
}
use intelli_study_planner_br.Vault.Service.{create_key, update_key, delete_key}
use intelli_study_planner_br.Vault.Upkeep.{
  set_status, set_verified, touch_row, mark_rejected, touch_used, reveal, record_verdict,
  verify_revealed, verify_stored_key, delete_secrets, purge_keys_for_user, verify_found,
  purge_found,
}

count-keep-le :
    (q p : Credential → Bool) (rows : List Credential) → count q (keep p rows) ≤ count q rows
unfolding count
count-keep-le q p [] = omega arith
count-keep-le q p (x ∷ xs) = elim (Bool-cases (p x)) [
  | inl pass ↦
      rw pass
        (rw (count-cons q x (keep p xs)) (omega (arith, count-cons q x xs, count-keep-le q p xs)))
  | inr drop ↦ rw drop (omega (arith, count-cons q x xs, count-keep-le q p xs))
]

-- A change that touches neither id nor owner nor provider nor default of any row.
IsValid-status :
    (n : ℕ) (status : Status) (rows : List Credential)
    → IsValid rows
    → IsValid (change_row n (set_status status) rows)
IsValid-status n status rows =
    IsValid-change n (set_status status) rows (λ c h m. refl) (λ c h u p. refl)

IsValid-verified :
    (n now : ℕ) (rows : List Credential)
    → IsValid rows
    → IsValid (change_row n (set_verified now) rows)
IsValid-verified n now rows =
    IsValid-change n (set_verified now) rows (λ c h m. refl) (λ c h u p. refl)

IsValid-touch :
    (n now : ℕ) (rows : List Credential)
    → IsValid rows
    → IsValid (change_row n (touch_row now) rows)
IsValid-touch n now rows =
    IsValid-change n (touch_row now) rows (λ c h m. ids c m) (λ c h u p. defaults c u p)
  where
    ids : (c : Credential) (m : ℕ) → has_id m (touch_row now c) ≡ has_id m c
    ids c m = ground arith

    defaults :
        (c : Credential) (u : ℕ) (p : Provider)
        → is_default_of u p (touch_row now c) ≡ is_default_of u p c
    defaults c u p = ground arith

IsValid-empty : IsValid []
unfolding count
IsValid-empty = record { id_once = λ n. omega arith; default_once = λ u p. omega arith }

module _ {S : Type 0} (stores : Stores S) (verify_key : Provider → Text → Verdict) where
  IsValid-mark_rejected :
      (n : ℕ) (detail : Text) (v : Vault S)
      → IsValid v.db.rows
      → IsValid (mark_rejected n detail v).db.rows
  unfolding mark_rejected
  IsValid-mark_rejected n detail v h = elim (Option-cases (row_of n v.db.rows)) [
    | inl absent ↦ rw absent h
    | inr (c, found) ↦ rw found (IsValid-status n invalid v.db.rows h)
  ]

  IsValid-verify_stored_key :
      (user n now : ℕ) (why : Text) (v : Vault S)
      → IsValid v.db.rows
      → IsValid (verify_stored_key stores verify_key user n now why v).1.db.rows
  unfolding verify_stored_key
  IsValid-verify_stored_key user n now why v h = found (get_key user n v.db.rows)
    where
      judged :
          (c : Credential) (x : Verdict) → IsValid (record_verdict user c now why v x).1.db.rows
      judged c accepted = IsValid-verified c.id now v.db.rows h
      judged c key_rejected = IsValid-status c.id invalid v.db.rows h
      judged c unavailable = h

      revealed :
          (c : Credential) (o : Option Text)
          → IsValid (verify_revealed verify_key user c now why v o).1.db.rows
      revealed c none = h
      revealed c (some key) = judged c (verify_key c.provider key)

      found :
          (o : Option Credential)
          → IsValid (verify_found stores verify_key user now why v o).1.db.rows
      found none = h
      found (some c) = revealed c (reveal stores c v.secrets)

  -- One operation, committed or refused. An id is given to one row only.
  pub data Steps : Vault S → Vault S → Type 0 where
    creates :
        (r : CreateRequest) (v : Vault S)
        → count (has_id r.id) v.db.rows ≡ 0
        → Steps v (create_key stores verify_key r v).1
    updates : (r : UpdateRequest) (v : Vault S) → Steps v (update_key stores verify_key r v).1
    deletes : (user n : ℕ) (v : Vault S) → Steps v (delete_key stores verify_key user n v).1
    verifies :
        (user n now : ℕ) (why : Text) (v : Vault S)
        → Steps v (verify_stored_key stores verify_key user n now why v).1
    rejects : (n : ℕ) (detail : Text) (v : Vault S) → Steps v (mark_rejected n detail v)
    touches : (n now : ℕ) (v : Vault S) → Steps v (touch_used n now v)
    purges : (user : ℕ) (v w : Vault S) → purge_keys_for_user stores user v ≡ ok w → Steps v w

  -- A run of operations from a table without keys.
  pub data Reaches : Vault S → Type 0 where
    starts : (v : Vault S) → v.db.rows ≡ [] → Reaches v
    goes_on : (v w : Vault S) → Reaches v → Steps v w → Reaches w

  IsValid-purge :
      (user : ℕ) (v w : Vault S)
      → purge_keys_for_user stores user v ≡ ok w
      → IsValid v.db.rows
      → IsValid w.db.rows
  unfolding purge_keys_for_user
  IsValid-purge user v w h valid =
      on (delete_secrets stores (keep (λ c. c.user_id == user) v.db.rows) v.secrets) h
    where
      kept : IsValid (keep (λ c. not (c.user_id == user)) v.db.rows)
      kept = record {
        id_once = λ n. omega (
          arith,
          valid.id_once n,
          count-keep-le (has_id n) (λ c. not (c.user_id == user)) v.db.rows,
        );
        default_once = λ u p. omega (
          arith,
          valid.default_once u p,
          count-keep-le (is_default_of u p) (λ c. not (c.user_id == user)) v.db.rows,
        );
      }

      rows_of : Result (Vault S) → List Credential
      rows_of (ok x) = x.db.rows
      rows_of (failed e) = []

      on : (o : Option S) → purge_found user v o ≡ ok w → IsValid w.db.rows
      on none e = cc
      on (some s) e = subst IsValid (ap rows_of e) kept

  IsValid-step : (v w : Vault S) → Steps v w → IsValid v.db.rows → IsValid w.db.rows
  unfolding touch_used
  IsValid-step _ _ (creates r v fresh) h = IsValid-create_key stores verify_key r v fresh h
  IsValid-step _ _ (updates r v) h = IsValid-update_key stores verify_key r v h
  IsValid-step _ _ (deletes user n v) h = IsValid-delete_key stores verify_key user n v h
  IsValid-step _ _ (verifies user n now why v) h = IsValid-verify_stored_key user n now why v h
  IsValid-step _ _ (rejects n detail v) h = IsValid-mark_rejected n detail v h
  IsValid-step _ _ (touches n now v) h = IsValid-touch n now v.db.rows h
  IsValid-step _ _ (purges user v w e) h = IsValid-purge user v w e h

  IsValid-Reaches : (v : Vault S) → Reaches v → IsValid v.db.rows
  IsValid-Reaches _ (starts v none_yet) = subst IsValid (sym none_yet) IsValid-empty
  IsValid-Reaches _ (goes_on v w run step) = IsValid-step v w step (IsValid-Reaches v run)

  -- In every table that operations of the vault reach from an empty one, a user has at most one default
  -- key for a provider, whatever the secret stores and the provider answer and whichever operations
  -- fail: creations (with an id that no row has), updates, deletions, checks, rejections, uses and
  -- purges.
  pub default-once :
      (v : Vault S)
      → Reaches v
      → (user : ℕ) (p : Provider) → count (is_default_of user p) v.db.rows ≤ 1
  default-once v run user p = (IsValid-Reaches v run).default_once user p
