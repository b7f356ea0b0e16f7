-- ===== src/Base/Tables.antt =====
-- Searches in a table after its rows were added to, filtered or changed.
use intelli_study_planner_br.Base.{
  ◌≤◌, ◌≡◌, refl, Bool, true, false, not, ◌&&◌, none, some, List, [], ◌∷◌, ◌++◌, arith, any, find,
  keep, length, all, Comparable, ◌==◌,
}

module _ {ℓ} {A : Type ℓ} where
  pub any-keep : (p q : A → Bool) (xs : List A) → any p xs ≡ false → any p (keep q xs) ≡ false
  any-keep p q [] h = refl
  any-keep p q (x ∷ xs) h = grind (arith, any-keep p q xs)

  -- Nothing that the filter drops is left.
  pub any-kept :
      (p q : A → Bool)
      → ((x : A) → p x ≡ true → q x ≡ false)
      → (xs : List A) → any p (keep q xs) ≡ false
  any-kept p q h [] = refl
  any-kept p q h (x ∷ xs) = grind (arith, h x, any-kept p q h xs)

  pub find-any : (p : A → Bool) (xs : List A) → any p xs ≡ false → find p xs ≡ none
  find-any p [] h = refl
  find-any p (x ∷ xs) h = grind (arith, find-any p xs)

  pub find-holds : (p : A → Bool) (xs : List A) {x : A} → find p xs ≡ some x → p x ≡ true
  find-holds p [] h = grind arith
  find-holds p (x ∷ xs) h = grind (arith, find-holds p xs)

  pub any-find : (p : A → Bool) (xs : List A) {x : A} → find p xs ≡ some x → any p xs ≡ true
  any-find p [] h = grind arith
  any-find p (x ∷ xs) h = grind (arith, any-find p xs)

  -- Whatever holds of the found element holds of some element.
  pub find-some :
      (p q : A → Bool) (xs : List A) {x : A} → find p xs ≡ some x → q x ≡ true → any q xs ≡ true
  find-some p q [] h e = grind arith
  find-some p q (x ∷ xs) h e = grind (arith, find-some p q xs)

  pub find-all :
      (p q : A → Bool) (xs : List A) {x : A} → all q xs ≡ true → find p xs ≡ some x → q x ≡ true
  find-all p q [] a h = grind arith
  find-all p q (x ∷ xs) a h = grind (arith, find-all p q xs)

  pub all-snoc :
      (p : A → Bool) (xs : List A) (x : A)
      → all p xs ≡ true
      → p x ≡ true
      → all p (xs ++ x ∷ []) ≡ true
  all-snoc p [] x h e = grind arith
  all-snoc p (y ∷ xs) x h e = grind (arith, all-snoc p xs x)

  pub all-keep : (p q : A → Bool) (xs : List A) → all p xs ≡ true → all p (keep q xs) ≡ true
  all-keep p q [] h = refl
  all-keep p q (x ∷ xs) h = grind (arith, all-keep p q xs)

  pub length-keep-keep :
      (p q : A → Bool) (xs : List A) → length (keep p (keep q xs)) ≤ length (keep p xs)
  length-keep-keep p q [] = omega arith
  length-keep-keep p q (x ∷ xs) = grind (arith, length-keep-keep p q xs)

  -- Nothing that the filter drops is counted.
  pub length-kept :
      (p q : A → Bool)
      → ((x : A) → p x ≡ true → q x ≡ false)
      → (xs : List A) → length (keep p (keep q xs)) ≡ 0
  length-kept p q h [] = refl
  length-kept p q h (x ∷ xs) = grind (arith, h x, length-kept p q h xs)

  pub all_mono :
      (p q : A → Bool)
      → ((x : A) → p x ≡ true → q x ≡ true)
      → (xs : List A) → all p xs ≡ true
      → all q xs ≡ true
  all_mono p q h [] e = refl
  all_mono p q h (x ∷ xs) e = grind (arith, h x, all_mono p q h xs)

-- The keys of a table are distinct: no key is equal to one before it.
module _ {ℓ κ} {A : Type ℓ} {K : Type κ} ⦃c : Comparable K⦄ (key : A → K) where
  abbrev pub distinct : List A → Bool
  distinct [] = true
  distinct (x ∷ xs) = not (any (λ y. key y == key x) xs) && distinct xs

  pub distinct-keep :
      (q : A → Bool) (xs : List A) → distinct xs ≡ true → distinct (keep q xs) ≡ true
  distinct-keep q [] h = refl
  distinct-keep q (x ∷ xs) h =
      grind (arith, distinct-keep q xs, any-keep (λ y. key y == key x) q xs)
