-- ===== src/Vault/Promotion.antt =====
-- _promote_replacement of app/services/vault_service.py under the invariant of the table.
use intelli_study_planner_br.Base.{
  ℕ, ◌≤◌, ◌≡◌, refl, sym, ◌∙◌, subst, Bool, true, false, ◌&&◌, Option, none, some, List, [], ◌∷◌,
  arith, if◌then◌else◌, Bool-cases, Option-cases, inl, inr, ◌⊎◌, ==_refl, nat_eq, leb,
}
use intelli_study_planner_br.Vault.Rows.{
  Provider, provider_beq, Credential, has_id, is_of, is_default_of, count, row_of, change_row,
  delete_row, set_default, oldest, older, promote_replacement, is_active,
}
use intelli_study_planner_br.Vault.Counts.{
  one_if, row_of-here, row_of-there, count-cons, count-change_row, count-delete_row,
}
use intelli_study_planner_br.Vault.Clearing.{one_if-le}
use intelli_study_planner_br.Vault.Requests.{drop_row}
use intelli_study_planner_br.Vault.Defaults.{IsValid, is_of-own, row_of-count, count-change-same}

older-first :
    (rest : Option Credential) (b : Bool) (x c : Credential)
    → (if b then some (older rest x) else rest) ≡ some c
    → ((x ≡ c) × (b ≡ true)) ⊎ (rest ≡ some c)
older-first rest false x c h = inr h
older-first none true x c h = inl (grind (arith, h), refl)
older-first (some d) true x c h = elim (Bool-cases (leb x.created_at d.created_at)) [
  | inl before ↦ inl (grind (arith, h, before), refl)
  | inr after ↦ inr (grind (arith, h, after))
]

row_of-oldest :
    (q : Credential → Bool) (rows : List Credential)
    → ((n : ℕ) → count (has_id n) rows ≤ 1)
    → (c : Credential) → oldest q rows ≡ some c
    → (row_of c.id rows ≡ some c) × (q c ≡ true)
unfolding oldest
row_of-oldest q [] once c h = cc
row_of-oldest q (x ∷ xs) once c h = elim (older-first (oldest q xs) (q x) x c h) [
  | inl (same, pass) ↦ (
    row_of-here c.id x xs (subst (λ d. has_id d.id x ≡ true) same (==_refl x.id))
        ∙ subst (λ d. some x ≡ some d) same refl,
    subst (λ d. q d ≡ true) same pass,
  )
  | inr later ↦
      let (found, pass) =
        row_of-oldest q xs (λ n. omega (arith, once n, count-cons (has_id n) x xs)) c later in
      (row_of-there c.id x xs (apart found) ∙ found, pass)
]
  where
    apart : row_of c.id xs ≡ some c → has_id c.id x ≡ false
    apart found = elim (Bool-cases (has_id c.id x)) [
      | inr other ↦ other
      | inl is ↦ absurd (
          omega (
            arith,
            once c.id,
            count-cons (has_id c.id) x xs,
            row_of-count (has_id c.id) c.id xs c found (==_refl c.id),
            subst (λ b. one_if b ≡ 1) (sym is) refl,
          ))
    ]

and_left : (a b : Bool) → a && b ≡ true → a ≡ true
and_left a b h = ground arith

promoted-once :
    (user : ℕ) (p : Provider) (rows : List Credential) (c : Credential)
    → row_of c.id rows ≡ some c
    → is_of user p c ≡ true
    → count (is_default_of user p) rows ≡ 0
    → IsValid rows
    → (u : ℕ) (q : Provider) → count (is_default_of u q) (change_row c.id set_default rows) ≤ 1
promoted-once user p rows c row own bare v u q = elim (Bool-cases (is_of u q c)) [
  | inr foreign ↦ omega (
    arith,
    v.default_once u q,
    count-change_row (is_default_of u q) c.id set_default rows c row,
    subst (λ b. one_if b ≡ 0) (sym foreign) refl,
  )
  | inl same ↦
      let (whose, which) = is_of-own user p c own in
      let (whose', which') = is_of-own u q c same in
      subst (λ w. count (is_default_of w q) (change_row c.id set_default rows) ≤ 1)
        (sym whose ∙ whose')
        (subst (λ k. count (is_default_of user k) (change_row c.id set_default rows) ≤ 1)
          (sym which ∙ which')
          (omega (
            arith,
            bare,
            count-change_row (is_default_of user p) c.id set_default rows c row,
            one_if-le (is_default_of user p (set_default c)),
          )))
]

-- The oldest active key is made the default where there is none.
pub IsValid-promote :
    (user : ℕ) (p : Provider) (rows : List Credential)
    → count (is_default_of user p) rows ≡ 0
    → IsValid rows
    → IsValid (promote_replacement user p rows)
unfolding promote_replacement
IsValid-promote user p rows bare v =
    elim (Option-cases (oldest (λ c. is_of user p c && is_active c.status) rows)) [
      | inl nobody ↦ rw nobody v
      | inr (c, found) ↦
          let (row, pass) =
            row_of-oldest (λ c. is_of user p c && is_active c.status) rows v.id_once c found in
          rw found (record {
            id_once = λ m.
                rw (count-change-same (has_id m) c.id set_default rows (λ d h. refl)) (v.id_once m);
            default_once = λ u q.
                promoted-once user p rows c row
                  (and_left (is_of user p c) (is_active c.status) pass) bare v u q;
          })
    ]

provider_refl : (p : Provider) → provider_beq p p ≡ true
provider_refl p = ground arith

is_of_self : (c : Credential) → is_of c.user_id c.provider c ≡ true
is_of_self c = rw (==_refl c.user_id) (provider_refl c.provider)

-- The rows without one of them; its default passes on.
pub IsValid-drop :
    (c : Credential) (rows : List Credential)
    → row_of c.id rows ≡ some c
    → IsValid rows
    → IsValid (drop_row c rows)
unfolding drop_row
IsValid-drop c rows found v = elim (Bool-cases c.is_default) [
  | inr plain ↦ rw plain rest
  | inl is ↦ rw is (IsValid-promote c.user_id c.provider (delete_row c.id rows) (bare is) rest)
]
  where
    less : (q : Credential → Bool) → count q (delete_row c.id rows) ≤ count q rows
    less q = omega (arith, count-delete_row q c.id rows c found)

    rest : IsValid (delete_row c.id rows)
    rest = record {
      id_once = λ m. omega (arith, less (has_id m), v.id_once m);
      default_once = λ u q. omega (arith, less (is_default_of u q), v.default_once u q);
    }

    is_default_of_self : c.is_default ≡ true → is_default_of c.user_id c.provider c ≡ true
    is_default_of_self is = rw is (is_of_self c)

    bare :
        c.is_default ≡ true → count (is_default_of c.user_id c.provider) (delete_row c.id rows) ≡ 0
    bare is = omega (
      arith,
      count-delete_row (is_default_of c.user_id c.provider) c.id rows c found,
      v.default_once c.user_id c.provider,
      subst (λ b. one_if b ≡ 1) (sym (is_default_of_self is)) refl,
    )
