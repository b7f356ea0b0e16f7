-- ===== src/RateLimit/Window.antt =====
-- The calls that app/core/ratelimit.py lets through, counted in the windows that they fall in.
use intelli_study_planner_br.Base.{
  ℕ, ◌+◌, ◌-◌, ◌≤◌, ◌<◌, ◌≡◌, refl, inl, inr, true, false, not, ◌&&◌, ◌∙◌, List, [], ◌∷◌, ◌++◌,
  Text, arith, leb, length, length-append, if◌then◌else◌, text_beq, text_beq_iff, Bool-cases,
}
use intelli_study_planner_br.RateLimit.{RateLimiter, create, expire, allow, granted}

-- How many of the times lie in the window that ends at `t`.
abbrev pub in_window : ℕ → ℕ → List ℕ → ℕ
in_window window t [] = 0
in_window window t (s ∷ ss) =
    (if leb s t && leb t (s + window) then 1 else 0) + in_window window t ss

-- Calls in the order of the clock, none before `now`.
abbrev pub Ordered : ℕ → List (Text × ℕ) → Type 0
Ordered now [] = Unit {0}
Ordered now ((k, t) ∷ calls) = (now ≤ t) × Ordered t calls

pub in_window-append :
    (w t : ℕ) (xs ys : List ℕ) → in_window w t (xs ++ ys) ≡ in_window w t xs + in_window w t ys
in_window-append w t [] ys = omega arith
in_window-append w t (x ∷ xs) ys = omega (arith, in_window-append w t xs ys)

in_window-le-length : (w t : ℕ) (xs : List ℕ) → in_window w t xs ≤ length xs
in_window-le-length w t [] = omega arith
in_window-le-length w t (x ∷ xs) = ground (arith, in_window-le-length w t xs)

module _ (w now : ℕ) where
  expire-le : (t : ℕ) (xs : List ℕ) → in_window w t (expire w now xs) ≤ in_window w t xs
  unfolding expire
  expire-le t [] = omega arith
  expire-le t (x ∷ xs) = ground (arith, expire-le t xs)

  pub expire-eq :
      (t : ℕ) (xs : List ℕ) → now ≤ t → in_window w t (expire w now xs) ≡ in_window w t xs
  unfolding expire
  expire-eq t [] h = refl
  expire-eq t (x ∷ xs) h = ground (arith, expire-eq t xs h)

  length-expire-le : (xs : List ℕ) → length (expire w now xs) ≤ length xs
  unfolding expire
  length-expire-le [] = omega arith
  length-expire-le (x ∷ xs) = ground (arith, length-expire-le xs)

-- What `allow` leaves of the limiter, field by field.
module _ (k : Text) (now : ℕ) (l : RateLimiter) where
  abbrev pub live : List ℕ
  live = expire l.window now (l.hits k)

  pub allow_lem : (allow k now l).0 ≡ not (leb l.limit (length live))
  unfolding allow
  allow_lem = ground arith

  pub allow_settings : ((allow k now l).1.limit ≡ l.limit) × ((allow k now l).1.window ≡ l.window)
  unfolding allow
  allow_settings = ground arith

  pub allow_self :
      (allow k now l).1.hits k ≡ (if leb l.limit (length live) then live else live ++ now ∷ [])
  unfolding allow
  allow_self = ground (arith, text_beq_iff k k)

  pub allow_other : (key : Text) → text_beq k key ≡ false → (allow k now l).1.hits key ≡ l.hits key
  unfolding allow
  allow_other key h = ground arith

module _ (n w : ℕ) (key : Text) where
  -- What holds of one key's deque: `gone` counts the granted calls that have left it.
  record Inv (l : RateLimiter) (now : ℕ) (gone : ℕ → ℕ) : Type 0 where
    cap : l.limit ≡ n
    span : l.window ≡ w
    old : (t : ℕ) → now ≤ t → gone t ≡ 0
    short : length (l.hits key) ≤ n
    full : (t : ℕ) → gone t + in_window w t (l.hits key) ≤ n

  module _ (l : RateLimiter) (now at : ℕ) (gone : ℕ → ℕ) (inv : Inv l now gone)
      (le : now ≤ at) where
    -- The calls that this one drops leave the deque.
    abbrev gone' : ℕ → ℕ
    gone' t = gone t + (in_window w t (l.hits key) - in_window w t (expire w at (l.hits key)))

    old' : (t : ℕ) → at ≤ t → gone' t ≡ 0
    old' t h = omega (arith, inv.old t (omega arith), expire-eq w at t (l.hits key) h)

    full_kept : (t : ℕ) → gone' t + in_window w t (expire w at (l.hits key)) ≤ n
    full_kept t = omega (arith, inv.full t, expire-le w at t (l.hits key))

    full_more :
        length (expire w at (l.hits key)) < n
        → (t : ℕ) → gone' t + in_window w t (expire w at (l.hits key) ++ at ∷ []) ≤ n
    full_more room t =
        let xs : List ℕ = expire w at (l.hits key) in
        ground (
          arith,
          in_window-append w t xs (at ∷ []),
          full_kept t,
          old' t,
          in_window-le-length w t xs,
        )

    Inv-other : (k : Text) → text_beq k key ≡ false → Inv (allow k at l).1 at gone
    Inv-other k h = record {
      cap = (allow_settings k at l).0 ∙ inv.cap;
      span = (allow_settings k at l).1 ∙ inv.span;
      old = λ t g. inv.old t (omega arith);
      short = rw (allow_other k at l key h) inv.short;
      full = λ t. rw (allow_other k at l key h) (inv.full t);
    }

    Inv-refused : leb n (length (expire w at (l.hits key))) ≡ true → Inv (allow key at l).1 at gone'
    Inv-refused h = record {
      cap = (allow_settings key at l).0 ∙ inv.cap;
      span = (allow_settings key at l).1 ∙ inv.span;
      old = old';
      short =
          rw (allow_self key at l, inv.cap, inv.span, h)
            (omega (arith, length-expire-le w at (l.hits key), inv.short));
      full = λ t. rw (allow_self key at l, inv.cap, inv.span, h) (full_kept t);
    }

    Inv-granted :
        leb n (length (expire w at (l.hits key))) ≡ false → Inv (allow key at l).1 at gone'
    Inv-granted h = record {
      cap = (allow_settings key at l).0 ∙ inv.cap;
      span = (allow_settings key at l).1 ∙ inv.span;
      old = old';
      short =
          rw (allow_self key at l, inv.cap, inv.span, h)
            (ground (arith, length-append {0} (expire w at (l.hits key)) (at ∷ [])));
      full = λ t. rw (allow_self key at l, inv.cap, inv.span, h) (full_more (ground arith) t);
    }

    -- A call of the key itself, before calls that are let through at the times `later`.
    granted_same :
        (later : List ℕ)
        → ((next : ℕ → ℕ)
            → Inv (allow key at l).1 at next
            → (t : ℕ)
            → next t + in_window w t ((allow key at l).1.hits key) + in_window w t later ≤ n)
        → (t : ℕ)
        → gone t
            + in_window w t (l.hits key)
            + in_window w t (if (allow key at l).0 then at ∷ later else later)
          ≤ n
    granted_same later ih t = elim (Bool-cases (leb n (length (expire w at (l.hits key))))) [
      | inl h ↦
          rw (allow_lem key at l, inv.cap, inv.span, h)
            (ground (
              arith,
              ih gone' (Inv-refused h) t,
              expire-le w at t (l.hits key),
              allow_self key at l,
              inv.cap,
              inv.span,
            ))
      | inr h ↦
          rw (allow_lem key at l, inv.cap, inv.span, h)
            (ground (
              arith,
              ih gone' (Inv-granted h) t,
              expire-le w at t (l.hits key),
              allow_self key at l,
              inv.cap,
              inv.span,
              in_window-append w t (expire w at (l.hits key)) (at ∷ []),
            ))
    ]

  -- A call for any key, and the granted calls of `key` with it.
  granted_full :
      (calls : List (Text × ℕ)) (l : RateLimiter) (now : ℕ) (gone : ℕ → ℕ)
      → Inv l now gone
      → Ordered now calls
      → (t : ℕ) → gone t + in_window w t (l.hits key) + in_window w t (granted key l calls) ≤ n
  unfolding granted
  granted_full [] l now gone inv ord t = omega (arith, inv.full t)
  granted_full ((k, at) ∷ calls) l now gone inv ord t = elim (Bool-cases (text_beq k key)) [
    | inr other ↦ rw other (
        ground (
          arith,
          granted_full calls (allow k at l).1 at gone (Inv-other l now at gone inv ord.0 k other)
              ord.1 t,
          allow_other k at l key other,
        ))
    | inl same ↦
        rw ((text_beq_iff k key).0 same, (text_beq_iff key key).1 refl)
          (granted_same l now at gone inv ord.0 (granted key (allow key at l).1 calls)
            (λ next i. granted_full calls (allow key at l).1 at next i ord.1) t)
  ]

-- Of a fresh limiter, whatever the calls for whatever keys at times that never go back: the calls
-- let through for one key in the `window` before any instant `t`, both ends included, are at most
-- `limit`.
pub granted-le_limit :
    (limit window : ℕ) (key : Text) (calls : List (Text × ℕ))
    → Ordered 0 calls
    → (t : ℕ) → in_window window t (granted key (create limit window) calls) ≤ limit
unfolding create
granted-le_limit limit window key calls ord t =
    let start : RateLimiter = create limit window in
    let all : ℕ =
      0 + in_window window t (start.hits key) + in_window window t (granted key start calls) in
    let bound : all ≤ limit =
      granted_full limit window key calls start 0 (λ _. 0)
        (record {
          cap = refl;
          span = refl;
          old = λ _ _. refl;
          short = omega arith;
          full = λ _. omega arith;
        })
        ord t in
    omega arith
