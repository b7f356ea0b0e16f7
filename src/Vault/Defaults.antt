-- ===== src/Vault/Defaults.antt =====
-- The invariant of the table of app/models/credential.py, and the changes of rows under it.
use intelli_study_planner_br.Base.{
  ℕ, ◌≤◌, ◌<◌, ◌≡◌, refl, sym, ◌∙◌, subst, Bool, true, false, Option, none, some, List, [], ◌∷◌,
  ◌++◌, arith, Bool-cases, Option-cases, inl, inr, nat_eq, nat_beq_iff,
}
use intelli_study_planner_br.Vault.Rows.{
  Provider, provider_beq, Credential, has_id, is_of, is_default_of, count, row_of, change_row,
  clear_defaults, set_default, is_kept,
}
use intelli_study_planner_br.Vault.Counts.{
  one_if, row_of-first, change_row-there, row_of-here, row_of-there, count-change_row,
  count-delete_row, count-append,
}
use intelli_study_planner_br.Vault.Clearing.{count-id-clear, count-chosen, count-chosen-other}

-- The ids are distinct, and no user has two defaults for one provider.
pub record IsValid (rows : List Credential) : Type 0 where
  pub id_once : (n : ℕ) → count (has_id n) rows ≤ 1
  pub default_once : (user : ℕ) (p : Provider) → count (is_default_of user p) rows ≤ 1

pub provider_same : (p q : Provider) → provider_beq p q ≡ true → p ≡ q
provider_same p q h = ground arith

-- A row is of its own user and provider alone.
pub is_of-own :
    (user : ℕ) (p : Provider) (c : Credential)
    → is_of user p c ≡ true
    → (c.user_id ≡ user) × (c.provider ≡ p)
is_of-own user p c h = ground (arith, provider_same c.provider p)

-- A row of an id that passes a test.
pub row_of-count :
    (q : Credential → Bool) (n : ℕ) (rows : List Credential) (c : Credential)
    → row_of n rows ≡ some c
    → q c ≡ true
    → 0 < count q rows
row_of-count q n rows c h holds =
    omega (arith, count-delete_row q n rows c h, subst (λ b. one_if b ≡ 1) (sym holds) refl)

pub row_of-has_id :
    (n : ℕ) (rows : List Credential) (c : Credential) → row_of n rows ≡ some c → has_id n c ≡ true
unfolding row_of
row_of-has_id n [] c h = cc
row_of-has_id n (x ∷ xs) c h = elim (row_of-first n x xs c h) [
  | inl (is, same) ↦ subst (λ d. has_id n d ≡ true) same is
  | inr (other, there) ↦ row_of-has_id n xs c there
]

change_row-absent :
    (n : ℕ) (f : Credential → Credential) (rows : List Credential)
    → row_of n rows ≡ none
    → change_row n f rows ≡ rows
unfolding change_row row_of
change_row-absent n f [] h = refl
change_row-absent n f (x ∷ xs) h = elim (Bool-cases (has_id n x)) [
  | inl is ↦ absurd (grind (arith, row_of-here n x xs is))
  | inr other ↦
      rw (change_row-there n f x xs other)
        (rw (change_row-absent n f xs (sym (row_of-there n x xs other) ∙ h)) refl)
]

-- A change of a row that leaves the test as it was leaves the number of rows.
pub count-change-same :
    (q : Credential → Bool) (n : ℕ) (f : Credential → Credential) (rows : List Credential)
    → ((c : Credential) → row_of n rows ≡ some c → q (f c) ≡ q c)
    → count q (change_row n f rows) ≡ count q rows
count-change-same q n f rows same = elim (Option-cases (row_of n rows)) [
  | inl absent ↦ rw (change_row-absent n f rows absent) refl
  | inr (c, found) ↦ omega (
    arith,
    count-change_row q n f rows c found,
    subst (λ b. one_if b ≡ one_if (q c)) (sym (same c found)) refl,
  )
]

-- A change that leaves id, owner, provider and default.
pub IsValid-change :
    (n : ℕ) (f : Credential → Credential) (rows : List Credential)
    → ((c : Credential) → row_of n rows ≡ some c → (m : ℕ) → has_id m (f c) ≡ has_id m c)
    → ((c : Credential)
        → row_of n rows ≡ some c
        → (u : ℕ) (p : Provider) → is_default_of u p (f c) ≡ is_default_of u p c)
    → IsValid rows
    → IsValid (change_row n f rows)
IsValid-change n f rows ids defaults v = record {
  id_once = λ m. rw (count-change-same (has_id m) n f rows (λ c h. ids c h m)) (v.id_once m);
  default_once = λ u p.
      rw (count-change-same (is_default_of u p) n f rows (λ c h. defaults c h u p))
        (v.default_once u p);
}

abbrev chosen : Option ℕ → ℕ → Credential → List Credential → List Credential
chosen kept n c rows = change_row n set_default (clear_defaults c.user_id c.provider kept rows)

-- A default is chosen for the user and the provider of its row.
pub IsValid-choose :
    (kept : Option ℕ) (n : ℕ) (rows : List Credential) (c : Credential)
    → row_of n rows ≡ some c
    → ((d : Credential) → has_id n d ≡ false → is_kept kept d ≡ false)
    → IsValid rows
    → IsValid (change_row n set_default (clear_defaults c.user_id c.provider kept rows))
IsValid-choose kept n rows c found only v = record {
  id_once = λ m.
      rw
        (count-change-same (has_id m) n set_default (clear_defaults c.user_id c.provider kept rows)
          (λ d h. refl))
        (rw (count-id-clear c.user_id c.provider kept m rows) (v.id_once m));
  default_once = λ u p. elim (Bool-cases (is_of u p c)) [
    | inl own ↦
        let (whose, which) = is_of-own u p c own in
        subst (λ w. count (is_default_of w p) (chosen kept n c rows) ≤ 1) whose
          (subst (λ q. count (is_default_of c.user_id q) (chosen kept n c rows) ≤ 1) which
            (omega (arith, v.id_once n, count-chosen c.user_id c.provider kept n only rows)))
    | inr foreign ↦ omega (
      arith,
      v.default_once u p,
      count-chosen-other c.user_id c.provider kept n u p rows c found foreign,
    )
  ];
}

-- A new row, no default yet, with an id of its own.
pub IsValid-append :
    (c : Credential) (rows : List Credential)
    → count (has_id c.id) rows ≡ 0
    → c.is_default ≡ false
    → IsValid rows
    → IsValid (rows ++ c ∷ [])
IsValid-append c rows fresh plain v = record {
  id_once = λ m. rw (count-append (has_id m) rows c) (elim (Bool-cases (has_id m c)) [
    | inr other ↦ rw other (omega (arith, v.id_once m))
    | inl is ↦ rw is (
        omega (
          arith,
          fresh,
          subst (λ k. count (has_id k) rows ≡ count (has_id c.id) rows) ((nat_beq_iff c.id m).0 is)
              refl,
        ))
  ]);
  default_once = λ u p.
      rw (count-append (is_default_of u p) rows c) (rw plain (omega (arith, v.default_once u p)));
}
