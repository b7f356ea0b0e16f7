-- ===== src/Vault/Counts.antt =====
-- How the statements on the rows change the number of rows that pass a test.
use intelli_study_planner_br.Base.{
  ℕ, ◌+◌, ◌≡◌, sym, ◌∙◌, Bool, true, false, some, List, [], ◌∷◌, ◌++◌, arith, if◌then◌else◌,
  Bool-cases, inl, inr, ◌⊎◌, nat_eq,
}
use intelli_study_planner_br.Vault.Rows.{Credential, has_id, count, row_of, change_row, delete_row}

-- 1 for true.
abbrev pub one_if : Bool → ℕ
one_if b = if b then 1 else 0

module _ (n : ℕ) (f : Credential → Credential) (x : Credential) (xs : List Credential) where
  pub change_row-here : has_id n x ≡ true → change_row n f (x ∷ xs) ≡ f x ∷ xs
  unfolding change_row
  change_row-here is = rw is

  pub change_row-there : has_id n x ≡ false → change_row n f (x ∷ xs) ≡ x ∷ change_row n f xs
  unfolding change_row
  change_row-there other = rw other

module _ (n : ℕ) (x : Credential) (xs : List Credential) where
  pub row_of-here : has_id n x ≡ true → row_of n (x ∷ xs) ≡ some x
  unfolding row_of
  row_of-here is = rw is

  pub row_of-there : has_id n x ≡ false → row_of n (x ∷ xs) ≡ row_of n xs
  unfolding row_of
  row_of-there other = rw other

  pub delete_row-here : has_id n x ≡ true → delete_row n (x ∷ xs) ≡ xs
  unfolding delete_row
  delete_row-here is = rw is

  pub delete_row-there : has_id n x ≡ false → delete_row n (x ∷ xs) ≡ x ∷ delete_row n xs
  unfolding delete_row
  delete_row-there other = rw other

-- The row of an id is the first one that has it.
pub row_of-first :
    (n : ℕ) (x : Credential) (xs : List Credential) (c : Credential)
    → row_of n (x ∷ xs) ≡ some c
    → ((has_id n x ≡ true) × (x ≡ c)) ⊎ ((has_id n x ≡ false) × (row_of n xs ≡ some c))
row_of-first n x xs c h = elim (Bool-cases (has_id n x)) [
  | inl is ↦ inl (is, grind (arith, row_of-here n x xs is))
  | inr other ↦ inr (other, sym (row_of-there n x xs other) ∙ h)
]

pub count-cons :
    (p : Credential → Bool) (x : Credential) (xs : List Credential)
    → count p (x ∷ xs) ≡ one_if (p x) + count p xs
unfolding count
count-cons p x xs = ground arith

module _ (p : Credential → Bool) where
  pub count-change_row :
      (n : ℕ) (f : Credential → Credential) (rows : List Credential) (c : Credential)
      → row_of n rows ≡ some c
      → count p (change_row n f rows) + one_if (p c) ≡ count p rows + one_if (p (f c))
  unfolding row_of
  count-change_row n f [] c h = cc
  count-change_row n f (x ∷ xs) c h = elim (row_of-first n x xs c h) [
    | inl (is, same) ↦
        rw (change_row-here n f x xs is)
          (grind (arith, same, count-cons p x xs, count-cons p (f x) xs))
    | inr (other, there) ↦ rw (change_row-there n f x xs other) (
        grind (
          arith,
          count-cons p x xs,
          count-cons p x (change_row n f xs),
          count-change_row n f xs c there,
        ))
  ]

  pub count-delete_row :
      (n : ℕ) (rows : List Credential) (c : Credential)
      → row_of n rows ≡ some c
      → count p (delete_row n rows) + one_if (p c) ≡ count p rows
  unfolding row_of
  count-delete_row n [] c h = cc
  count-delete_row n (x ∷ xs) c h = elim (row_of-first n x xs c h) [
    | inl (is, same) ↦ rw (delete_row-here n x xs is) (grind (arith, same, count-cons p x xs))
    | inr (other, there) ↦ rw (delete_row-there n x xs other) (
        grind (
          arith,
          count-cons p x xs,
          count-cons p x (delete_row n xs),
          count-delete_row n xs c there,
        ))
  ]

  pub count-append :
      (rows : List Credential) (c : Credential)
      → count p (rows ++ c ∷ []) ≡ count p rows + one_if (p c)
  unfolding count
  count-append [] c = ground arith
  count-append (x ∷ xs) c = ground (arith, count-append xs c)
