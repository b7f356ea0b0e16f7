-- ===== src/Vault/Candidates.antt =====
-- The rows that app/services/credential_resolver.py chooses from.
use intelli_study_planner_br.Base.{
  ℕ, ◌≡◌, refl, ◌∙◌, subst, Bool, true, false, not, ◌&&◌, Option, none, some, List, [], ◌∷◌, Text,
  arith, keep, is_empty, if◌then◌else◌, Bool-cases, inl, inr, ◌⊎◌,
}
use intelli_study_planner_br.Vault.Rows.{Provider, Credential, row_of}
use intelli_study_planner_br.Vault.Counts.{row_of-first}
use intelli_study_planner_br.Vault.Resolver.{
  ChatSession, insert_sorted, sorted, is_usable, precedes, active_for, pick, choose, switched,
  choose_provider, first_of, or_first, only_other_provider, is_asked, pinned_id,
}

abbrev pub IsRow : Credential → List Credential → Type 0
IsRow c [] = ⊥
IsRow c (x ∷ xs) = (x ≡ c) ⊎ IsRow c xs

-- A row of the list that passes the test.
abbrev pub IsUsableRow : ℕ → Provider → List Credential → Credential → Type 0
IsUsableRow user p rows c = IsRow c rows × (is_usable user p c ≡ true)

IsRow-keep :
    (q : Credential → Bool) (c : Credential) (rows : List Credential)
    → IsRow c (keep q rows)
    → IsRow c rows × (q c ≡ true)
IsRow-keep q c [] h = absurd h
IsRow-keep q c (x ∷ xs) h = on (q x) refl h (IsRow-keep q c xs)
  where
    on :
        (b : Bool)
        → q x ≡ b
        → IsRow c (if b then x ∷ keep q xs else keep q xs)
        → (IsRow c (keep q xs) → IsRow c xs × (q c ≡ true))
        → IsRow c (x ∷ xs) × (q c ≡ true)
    on true e (inl same) rest = (inl same, subst (λ d. q d ≡ true) same e)
    on true e (inr later) rest = let (row, pass) = rest later in (inr row, pass)
    on false e later rest = let (row, pass) = rest later in (inr row, pass)

IsRow-insert_sorted :
    (d c : Credential) (rows : List Credential)
    → IsRow c (insert_sorted d rows)
    → IsRow c (d ∷ rows)
unfolding insert_sorted
IsRow-insert_sorted d c [] h = h
IsRow-insert_sorted d c (x ∷ xs) h = on (precedes d x) h (IsRow-insert_sorted d c xs)
  where
    on :
        (b : Bool)
        → IsRow c (if b then d ∷ x ∷ xs else x ∷ insert_sorted d xs)
        → (IsRow c (insert_sorted d xs) → IsRow c (d ∷ xs))
        → IsRow c (d ∷ x ∷ xs)
    on true h rest = h
    on false (inl same) rest = inr (inl same)
    on false (inr later) rest = elim (rest later) [ inl same ↦ inl same | inr row ↦ inr (inr row) ]

IsRow-sorted : (c : Credential) (rows : List Credential) → IsRow c (sorted rows) → IsRow c rows
unfolding sorted
IsRow-sorted c [] h = h
IsRow-sorted c (x ∷ xs) h = elim (IsRow-insert_sorted x c (sorted xs) h) [
  | inl same ↦ inl same
  | inr later ↦ inr (IsRow-sorted c xs later)
]

IsRow-row_of :
    (n : ℕ) (c : Credential) (rows : List Credential) → row_of n rows ≡ some c → IsRow c rows
unfolding row_of
IsRow-row_of n c [] h = cc
IsRow-row_of n c (x ∷ xs) h = elim (row_of-first n x xs c h) [
  | inl (is, same) ↦ inl same
  | inr (other, there) ↦ inr (IsRow-row_of n c xs there)
]

IsRow-first_of : (c : Credential) (rows : List Credential) → first_of rows ≡ some c → IsRow c rows
IsRow-first_of c [] h = cc
IsRow-first_of c (x ∷ xs) h = inl (grind (arith, h))

IsRow-pick :
    (o : Option ℕ) (c : Credential) (rows : List Credential) → pick o rows ≡ some c → IsRow c rows
IsRow-pick none c rows h = IsRow-first_of c rows h
IsRow-pick (some n) c rows h = on (row_of n rows) refl h
  where
    on : (o : Option Credential) → row_of n rows ≡ o → or_first o rows ≡ some c → IsRow c rows
    on none e h = IsRow-first_of c rows h
    on (some d) e h = IsRow-row_of n c rows (e ∙ h)

pub IsRow-choose :
    (rows : List Credential) (session : Option ChatSession) (c : Credential)
    → choose rows session ≡ some c
    → IsRow c rows
unfolding choose
IsRow-choose rows session c h = IsRow-pick (pinned_id session) c rows h

-- Every candidate is an active key of the user for the chosen provider.
IsUsableRow-active_for :
    (user : ℕ) (p : Provider) (rows : List Credential) (c : Credential)
    → IsRow c (active_for user p rows)
    → IsUsableRow user p rows c
unfolding active_for
IsUsableRow-active_for user p rows c h =
    IsRow-keep (is_usable user p) c rows (IsRow-sorted c (keep (is_usable user p) rows) h)

IsUsableRow-switched :
    (user : ℕ) (p : Provider) (model : Text) (rows : List Credential) (o : Option Provider)
    (c : Credential)
    → IsRow c (switched user p model rows o).candidates
    → IsUsableRow user (switched user p model rows o).provider rows c
IsUsableRow-switched user p model rows none c h = absurd h
IsUsableRow-switched user p model rows (some q) c h = IsUsableRow-active_for user q rows c h

pub IsUsableRow-choose_provider :
    (user : ℕ) (asked : Option Text) (p : Provider) (model : Text) (rows : List Credential)
    (c : Credential)
    → IsRow c (choose_provider user asked p model rows).candidates
    → IsUsableRow user (choose_provider user asked p model rows).provider rows c
unfolding choose_provider
IsUsableRow-choose_provider user asked p model rows c =
    elim (Bool-cases (is_empty (active_for user p rows) && not (is_asked asked))) [
      | inl other ↦
          rw other (IsUsableRow-switched user p model rows (only_other_provider user p rows) c)
      | inr own ↦ rw own (IsUsableRow-active_for user p rows c)
    ]
