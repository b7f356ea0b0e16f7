-- ===== src/RateLimit/Exact.antt =====
-- When app/core/ratelimit.py refuses a call: its deque beside the calls that were let through.
use intelli_study_planner_br.Base.{
  ℕ, ◌+◌, ◌≤◌, ◌≡◌, refl, Bool, true, false, not, ◌∙◌, List, [], ◌∷◌, ◌++◌, Text, arith, ltb, leb,
  length, inl, inr, if◌then◌else◌, text_beq, text_beq_iff, Bool-cases,
}
use mathlib.Core.List.{append-nil, append_assoc}
use intelli_study_planner_br.RateLimit.{RateLimiter, create, expire, allow, granted, run}
use intelli_study_planner_br.RateLimit.Window.{
  in_window, in_window-append, expire-eq, Ordered, allow_lem, allow_settings, allow_self,
  allow_other,
}

-- Times that do not go back, from `lo` up to `now`.
abbrev Chain : ℕ → ℕ → List ℕ → Type 0
Chain lo now [] = lo ≤ now
Chain lo now (x ∷ xs) = (lo ≤ x) × Chain x now xs

Chain-later : (lo now next : ℕ) (xs : List ℕ) → now ≤ next → Chain lo now xs → Chain lo next xs
Chain-later lo now next [] h c = omega arith
Chain-later lo now next (x ∷ xs) h c = (c.0, Chain-later x now next xs h c.1)

Chain-lower : (lo lo' now : ℕ) (xs : List ℕ) → lo' ≤ lo → Chain lo now xs → Chain lo' now xs
Chain-lower lo lo' now [] h c = omega arith
Chain-lower lo lo' now (x ∷ xs) h c = (omega arith, c.1)

Chain-snoc : (lo now : ℕ) (xs : List ℕ) → Chain lo now xs → Chain lo now (xs ++ now ∷ [])
Chain-snoc lo now [] c = (c, omega arith)
Chain-snoc lo now (x ∷ xs) c = (c.0, Chain-snoc x now xs c.1)

Chain-expire : (w at lo now : ℕ) (xs : List ℕ) → Chain lo now xs → Chain lo now (expire w at xs)
unfolding expire
Chain-expire w at lo now [] c = c
Chain-expire w at lo now (x ∷ xs) c = elim (Bool-cases (ltb (x + w) at)) [
  | inl h ↦ rw h (Chain-lower x lo now _ c.0 (Chain-expire w at x now xs c.1))
  | inr h ↦ rw h c
]

Chain-le : (lo now : ℕ) (xs : List ℕ) → Chain lo now xs → lo ≤ now
Chain-le lo now [] c = c
Chain-le lo now (x ∷ xs) c = omega (arith, Chain-le x now xs c.1)

in_window-live :
    (w lo now : ℕ) (xs : List ℕ) → now ≤ lo + w → Chain lo now xs → in_window w now xs ≡ length xs
in_window-live w lo now [] h c = refl
in_window-live w lo now (x ∷ xs) h c = ground (arith, in_window-live w x now xs, Chain-le x now xs)

in_window-expire :
    (w lo now : ℕ) (xs : List ℕ)
    → Chain lo now xs
    → in_window w now (expire w now xs) ≡ length (expire w now xs)
unfolding expire
in_window-expire w lo now [] c = refl
in_window-expire w lo now (x ∷ xs) c = elim (Bool-cases (ltb (x + w) now)) [
  | inl h ↦ rw h (in_window-expire w x now xs c.1)
  | inr h ↦ rw h (in_window-live w x now (x ∷ xs) (ground arith) (omega arith, c.1))
]

if_same {ℓ} : {A : Type ℓ} (b : Bool) {x : A} → (if b then x else x) ≡ x
if_same true = refl
if_same false = refl

append-if :
    (b : Bool) (past : List ℕ) (at : ℕ) (later : List ℕ)
    → (if b then past ++ at ∷ [] else past) ++ later ≡ past ++ (if b then at ∷ later else later)
append-if true past at later = append_assoc past (at ∷ []) later
append-if false past at later = refl

module _ (n w : ℕ) (key : Text) where
  -- The deque of the key, against the times `past` at which its calls were let through.
  record Inv (l : RateLimiter) (now : ℕ) (past : List ℕ) : Type 0 where
    cap : l.limit ≡ n
    span : l.window ≡ w
    chain : Chain 0 now (l.hits key)
    same : (t : ℕ) → now ≤ t → in_window w t (l.hits key) ≡ in_window w t past

  module _ (l : RateLimiter) (now at : ℕ) (past : List ℕ) (inv : Inv l now past)
      (le : now ≤ at) where
    abbrev kept : List ℕ
    kept = expire w at (l.hits key)

    Chain-kept : Chain 0 at kept
    Chain-kept =
        Chain-expire w at 0 at (l.hits key) (Chain-later 0 now at (l.hits key) le inv.chain)

    same_kept : (t : ℕ) → at ≤ t → in_window w t kept ≡ in_window w t past
    same_kept t h = omega (arith, expire-eq w at t (l.hits key) h, inv.same t (omega arith))

    -- A call for the key is let through exactly when its window has room.
    allow_exact : (allow key at l).0 ≡ not (leb n (in_window w at past))
    allow_exact = rw (
      allow_lem key at l,
      inv.cap,
      inv.span,
      ← in_window-expire w 0 at (l.hits key) (Chain-later 0 now at (l.hits key) le inv.chain),
      same_kept at (omega arith),
    )

    Inv-other : (k : Text) → text_beq k key ≡ false → Inv (allow k at l).1 at past
    Inv-other k h = record {
      cap = (allow_settings k at l).0 ∙ inv.cap;
      span = (allow_settings k at l).1 ∙ inv.span;
      chain = rw (allow_other k at l key h) (Chain-later 0 now at (l.hits key) le inv.chain);
      same = λ t g. rw (allow_other k at l key h) (inv.same t (omega arith));
    }

    ok_of : (full : Bool) → leb n (length kept) ≡ full → (allow key at l).0 ≡ not full
    ok_of full h = rw (allow_lem key at l, inv.cap, inv.span, h)

    hits_of :
        (full : Bool)
        → leb n (length kept) ≡ full
        → (allow key at l).1.hits key ≡ (if full then kept else kept ++ at ∷ [])
    hits_of full h = rw (allow_self key at l, inv.cap, inv.span, h)

    Inv-next :
        (full : Bool)
        → leb n (length kept) ≡ full
        → Inv (allow key at l).1 at (if full then past else past ++ at ∷ [])
    Inv-next true h = record {
      cap = (allow_settings key at l).0 ∙ inv.cap;
      span = (allow_settings key at l).1 ∙ inv.span;
      chain = rw (hits_of true h) Chain-kept;
      same = λ t g. rw (hits_of true h) (same_kept t g);
    }
    Inv-next false h = record {
      cap = (allow_settings key at l).0 ∙ inv.cap;
      span = (allow_settings key at l).1 ∙ inv.span;
      chain = rw (hits_of false h) (Chain-snoc 0 at kept Chain-kept);
      same = λ t g. rw (hits_of false h) (
          omega (
            arith,
            in_window-append w t kept (at ∷ []),
            in_window-append w t past (at ∷ []),
            same_kept t g,
          ));
    }

    Inv-self : Inv (allow key at l).1 at (if (allow key at l).0 then past ++ at ∷ [] else past)
    Inv-self = elim (Bool-cases (leb n (length kept))) [
      | inl h ↦ rw (ok_of true h) (Inv-next true h)
      | inr h ↦ rw (ok_of false h) (Inv-next false h)
    ]

  exact :
      (calls : List (Text × ℕ)) (l : RateLimiter) (from now : ℕ) (past : List ℕ)
      → Inv l from past
      → Ordered from (calls ++ (key, now) ∷ [])
      → (allow key now (run l calls)).0
        ≡ not (leb n (in_window w now (past ++ granted key l calls)))
  unfolding run granted
  exact [] l from now past inv ord = rw append-nil (allow_exact l from now past inv ord.0)
  exact ((k, at) ∷ calls) l from now past inv ord = elim (Bool-cases (text_beq k key)) [
    | inr other ↦
        rw (other, if_same (allow k at l).0)
          (exact calls (allow k at l).1 at now past (Inv-other l from at past inv ord.0 k other)
            ord.1)
    | inl same ↦
        rw
          (
            (text_beq_iff k key).0 same,
            (text_beq_iff key key).1 refl,
            ← append-if (allow key at l).0 past at (granted key (allow key at l).1 calls),
          )
          (exact calls (allow key at l).1 at now _ (Inv-self l from at past inv ord.0) ord.1)
  ]

-- The calls are for any keys, at times that never go back; then the call for `key` at `now` is let
-- through exactly when fewer than `limit` calls for that key were let through in the window that
-- ends at `now`.
pub allow-exact :
    (limit window : ℕ) (key : Text) (calls : List (Text × ℕ)) (now : ℕ)
    → Ordered 0 (calls ++ (key, now) ∷ [])
    → (allow key now (run (create limit window) calls)).0
      ≡ not (leb limit (in_window window now (granted key (create limit window) calls)))
unfolding create
allow-exact limit window key calls now ord =
    exact limit window key calls (create limit window) 0 now []
      (record { cap = refl; span = refl; chain = omega arith; same = λ t h. refl }) ord
