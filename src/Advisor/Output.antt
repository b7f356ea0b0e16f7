-- ===== src/Advisor/Output.antt =====
-- The final message of stage 2 (format_output of app/agents/nodes/stage2.py).
use intelli_study_planner_br.Base.{
  ℕ, suc, ◌≡◌, refl, sym, ap, ◌∙◌, if◌then◌else◌, Bool, true, false, ◌||◌, Option, none, some, [],
  ◌∷◌, ◌++◌, Text, codes, arith, elem, length, take, drop, starts_with, to_lower, Bool-cases, inl,
  inr, ◌⊎◌, ◌==◌, nat_eq,
}
use intelli_study_planner_br.Advisor.Stage2.{find_text, lowered, insert_at, insert_feedback}

-- A JSON fence, in any case of letters, at the start of a text.
abbrev is_fence : Text → Bool
is_fence s = starts_with (lowered s) (codes "```json")

-- Whether a fence starts at one of the first characters of a text.
abbrev pub fence_before : ℕ → Text → Bool
fence_before (suc n) (c ∷ s) = is_fence (c ∷ s) || fence_before n s
fence_before _ _ = false

-- Where the feedback is put: before the first fence.
pub record IsInserted (section plan message : Text) : Type 0 where
  pub before : Text
  pub after : Text
  pub splits : plan ≡ before ++ after
  pub fenced : is_fence after ≡ true
  pub first : fence_before (length before) plan ≡ false
  pub joins : message ≡ before ++ section ++ after

-- The first fence of a plan, which has its own place in the lower-case plan.
record Located (plan : Text) : Type 0 where
  before : Text
  after : Text
  splits : plan ≡ before ++ after
  fenced : is_fence after ≡ true
  first : fence_before (length before) plan ≡ false
  found : find_text (lowered plan) (codes "```json") ≡ some (length before)

lowered-cons : (c : ℕ) (s : Text) → (c == 304) ≡ false → lowered (c ∷ s) ≡ to_lower c ∷ lowered s
unfolding lowered
lowered-cons c s e = rw e

abbrev search : Bool → Option ℕ → Option ℕ
search b o = elim b [ true ↦ some 0 | false ↦ elim o [ none ↦ none | some n ↦ some (suc n) ] ]

found_here : (s p : Text) → starts_with s p ≡ true → find_text s p ≡ some 0
unfolding find_text starts_with
found_here [] p e = ap (λ b. if b then some 0 else none) e
found_here (c ∷ s) p e = ap (λ b. search b (find_text s p)) e

found_later :
    (c : ℕ) (s p : Text)
    → starts_with (c ∷ s) p ≡ false
    → find_text (c ∷ s) p ≡ search false (find_text s p)
unfolding find_text starts_with
found_later c s p e = ap (λ b. search b (find_text s p)) e

no_fence_here :
    (c : ℕ) (s : Text)
    → (c == 304) ≡ false
    → is_fence (c ∷ s) ≡ false
    → find_text (lowered (c ∷ s)) (codes "```json")
      ≡ search false (find_text (lowered s) (codes "```json"))
no_fence_here c s e not_here =
    ap (λ t. find_text t (codes "```json")) (lowered-cons c s e)
    ∙ found_later (to_lower c) (lowered s) (codes "```json")
        (ap (λ t. starts_with t (codes "```json")) (sym (lowered-cons c s e)) ∙ not_here)

-- A plan with no fence anywhere, or with a first one.
Search : Text → Type 0
Search plan =
    ((find_text (lowered plan) (codes "```json") ≡ none)
      × (fence_before (length plan) plan ≡ false))
    ⊎ Located plan

Search-later :
    (c : ℕ) (s : Text) → (c == 304) ≡ false → is_fence (c ∷ s) ≡ false → Search s → Search (c ∷ s)
unfolding Search
Search-later c s e not_here (inl (absent, free)) =
    inl (no_fence_here c s e not_here ∙ ap (search false) absent, rw (not_here) free)
Search-later c s e not_here (inr found) = inr (record {
  before = c ∷ found.before;
  after = found.after;
  splits = ap (λ t. c ∷ t) found.splits;
  fenced = found.fenced;
  first = rw not_here found.first;
  found = no_fence_here c s e not_here ∙ ap (search false) found.found;
})

locate : (plan : Text) → elem 304 plan ≡ false → Search plan
unfolding Search lowered find_text
locate [] plain = inl (refl, refl)
locate (c ∷ s) plain = elim (Bool-cases (is_fence (c ∷ s))) [
  | inl here ↦ inr (record {
    before = [];
    after = c ∷ s;
    splits = refl;
    fenced = here;
    first = refl;
    found = found_here (lowered (c ∷ s)) (codes "```json") here;
  })
  | inr not_here ↦
      Search-later c s (grind (arith, plain)) not_here (locate s (grind (arith, plain)))
]

take-append : (s t : Text) → take (length s) (s ++ t) ≡ s
take-append [] t = refl
take-append (c ∷ s) t = ap (λ r. c ∷ r) (take-append s t)

drop-append : (s t : Text) → drop (length s) (s ++ t) ≡ t
drop-append [] t = refl
drop-append (c ∷ s) t = drop-append s t

-- For a plan without the letter İ: where no JSON fence starts in it, whatever the case of its letters, the
-- message is the section followed by the plan; otherwise it is the plan with the section put in right
-- before the first fence.
pub insert_feedback-IsInserted :
    (section plan : Text)
    → elem 304 plan ≡ false
    → ((fence_before (length plan) plan ≡ false) × (insert_feedback section plan ≡ section ++ plan))
      ⊎ IsInserted section plan (insert_feedback section plan)
unfolding insert_feedback Search
insert_feedback-IsInserted section plan plain = elim (locate plan plain) [
  | inl (absent, free) ↦ inl (free, ap (λ o. insert_at o section plan) absent)
  | inr found ↦ inr (record {
    before = found.before;
    after = found.after;
    splits = found.splits;
    fenced = found.fenced;
    first = found.first;
    joins =
        ap (λ o. insert_at o section plan) found.found
        ∙ ap (λ t. take (length found.before) t ++ section ++ drop (length found.before) t)
            found.splits
        ∙ rw (take-append found.before found.after, drop-append found.before found.after) refl;
  })
]
