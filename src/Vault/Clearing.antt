-- ===== src/Vault/Clearing.antt =====
-- _clear_defaults of app/services/vault_service.py, and the choice of a default after it.
use intelli_study_planner_br.Base.{
  ℕ, ◌≤◌, ◌≡◌, refl, ◌∙◌, Bool, false, not, ◌&&◌, Option, some, List, [], ◌∷◌, arith, if◌then◌else◌,
  Bool-cases, inl, inr, nat_eq,
}
use intelli_study_planner_br.Vault.Rows.{
  Provider, Credential, has_id, is_of, is_default_of, count, row_of, change_row, clear_defaults,
  set_default, is_kept,
}
use intelli_study_planner_br.Vault.Counts.{
  one_if, row_of-first, change_row-here, change_row-there, count-cons,
}

pub one_if-le : (b : Bool) → one_if b ≤ 1
one_if-le b = ground arith

count-nil : (p : Credential → Bool) (m : ℕ) → count p [] ≤ m
unfolding count
count-nil p m = omega arith

module _ (user : ℕ) (p : Provider) (kept : Option ℕ) where
  cleared : Credential → Credential
  cleared c =
      if is_default_of user p c && not (is_kept kept c) then record c { is_default = false } else c

  clear-cons :
      (x : Credential) (xs : List Credential)
      → clear_defaults user p kept (x ∷ xs) ≡ cleared x ∷ clear_defaults user p kept xs
  unfolding clear_defaults cleared
  clear-cons x xs = refl

  cleared-default :
      (c : Credential) → is_kept kept c ≡ false → is_default_of user p (cleared c) ≡ false
  unfolding cleared
  cleared-default c free = elim (Bool-cases (is_default_of user p c)) [
    | inl d ↦ rw d (rw free refl)
    | inr d ↦ rw d (rw d refl)
  ]

  cleared-id : (n : ℕ) (c : Credential) → has_id n (cleared c) ≡ has_id n c
  unfolding cleared
  cleared-id n c = elim (Bool-cases (is_default_of user p c && not (is_kept kept c))) [
    | inl d ↦ rw d refl
    | inr d ↦ rw d refl
  ]

  cleared-of : (u : ℕ) (q : Provider) (c : Credential) → is_of u q (cleared c) ≡ is_of u q c
  unfolding cleared
  cleared-of u q c = elim (Bool-cases (is_default_of user p c && not (is_kept kept c))) [
    | inl d ↦ rw d refl
    | inr d ↦ rw d refl
  ]

  -- Nobody gets a default by it.
  cleared-le :
      (u : ℕ) (q : Provider) (c : Credential)
      → one_if (is_default_of u q (cleared c)) ≤ one_if (is_default_of u q c)
  unfolding cleared
  cleared-le u q c = elim (Bool-cases (is_default_of user p c && not (is_kept kept c))) [
    | inl d ↦ rw d (omega arith)
    | inr d ↦ rw d (omega arith)
  ]

  pub count-id-clear :
      (n : ℕ) (rows : List Credential)
      → count (has_id n) (clear_defaults user p kept rows) ≡ count (has_id n) rows
  unfolding clear_defaults
  count-id-clear n [] = refl
  count-id-clear n (x ∷ xs) = rw (clear-cons x xs) (
      rw (count-cons (has_id n) (cleared x) (clear_defaults user p kept xs))
        (rw (count-cons (has_id n) x xs) (rw (cleared-id n x) (rw (count-id-clear n xs) refl))))

  pub count-clear-le :
      (u : ℕ) (q : Provider) (rows : List Credential)
      → count (is_default_of u q) (clear_defaults user p kept rows) ≤ count (is_default_of u q) rows
  unfolding clear_defaults
  count-clear-le u q [] = omega arith
  count-clear-le u q (x ∷ xs) = rw (clear-cons x xs) (
      rw (count-cons (is_default_of u q) (cleared x) (clear_defaults user p kept xs)) (
        rw (count-cons (is_default_of u q) x xs)
          (omega (arith, cleared-le u q x, count-clear-le u q xs))))

  -- What is kept has the id `n`.
  module _ (n : ℕ) (only : (c : Credential) → has_id n c ≡ false → is_kept kept c ≡ false) where
    count-clear :
        (rows : List Credential)
        → count (is_default_of user p) (clear_defaults user p kept rows) ≤ count (has_id n) rows
    unfolding clear_defaults
    count-clear [] = count-nil (is_default_of user p) (count (has_id n) [])
    count-clear (x ∷ xs) = rw (clear-cons x xs) (
        rw (count-cons (is_default_of user p) (cleared x) (clear_defaults user p kept xs)) (
          rw (count-cons (has_id n) x xs) (elim (Bool-cases (has_id n x)) [
            | inl is ↦
                rw is (omega (arith, count-clear xs, one_if-le (is_default_of user p (cleared x))))
            | inr other ↦
                rw other (rw (cleared-default x (only x other)) (omega (arith, count-clear xs)))
          ])))

    chosen-nil :
        count (is_default_of user p) (change_row n set_default (clear_defaults user p kept []))
        ≤ count (has_id n) []
    unfolding clear_defaults change_row count
    chosen-nil = omega arith

    -- The row of the id is the only one that can be the default afterwards.
    pub count-chosen :
        (rows : List Credential)
        → count (is_default_of user p) (change_row n set_default (clear_defaults user p kept rows))
          ≤ count (has_id n) rows
    unfolding clear_defaults
    count-chosen [] = chosen-nil
    count-chosen (x ∷ xs) = rw (clear-cons x xs) (elim (Bool-cases (has_id n x)) [
      | inl is ↦
          rw
            (change_row-here n set_default (cleared x) (clear_defaults user p kept xs)
              (cleared-id n x ∙ is))
            (rw
              (count-cons (is_default_of user p) (set_default (cleared x))
                (clear_defaults user p kept xs))
              (rw (count-cons (has_id n) x xs)
                (rw is (omega (arith, count-clear xs, one_if-le (is_of user p (cleared x)))))))
      | inr other ↦
          rw
            (change_row-there n set_default (cleared x) (clear_defaults user p kept xs)
              (cleared-id n x ∙ other))
            (rw
              (count-cons (is_default_of user p) (cleared x)
                (change_row n set_default (clear_defaults user p kept xs)))
              (rw (count-cons (has_id n) x xs) (
                rw other (rw (cleared-default x (only x other)) (omega (arith, count-chosen xs))))))
    ])

  -- Another user or provider than that of the row of the id gets no default.
  pub count-chosen-other :
      (n u : ℕ) (q : Provider) (rows : List Credential) (c : Credential)
      → row_of n rows ≡ some c
      → is_of u q c ≡ false
      → count (is_default_of u q) (change_row n set_default (clear_defaults user p kept rows))
        ≤ count (is_default_of u q) rows
  unfolding clear_defaults row_of
  count-chosen-other n u q [] c h foreign = cc
  count-chosen-other n u q (x ∷ xs) c h foreign =
      rw (clear-cons x xs) (elim (row_of-first n x xs c h) [
        | inl (is, same) ↦
            rw
              (change_row-here n set_default (cleared x) (clear_defaults user p kept xs)
                (cleared-id n x ∙ is))
              (rw
                (count-cons (is_default_of u q) (set_default (cleared x))
                  (clear_defaults user p kept xs))
                (rw (count-cons (is_default_of u q) x xs) (
                  rw (cleared-of u q x)
                    (rw same (rw foreign (omega (arith, count-clear-le u q xs)))))))
        | inr (other, there) ↦
            rw
              (change_row-there n set_default (cleared x) (clear_defaults user p kept xs)
                (cleared-id n x ∙ other))
              (rw
                (count-cons (is_default_of u q) (cleared x)
                  (change_row n set_default (clear_defaults user p kept xs)))
                (rw (count-cons (is_default_of u q) x xs)
                  (omega (arith, cleared-le u q x, count-chosen-other n u q xs c there foreign))))
      ])
