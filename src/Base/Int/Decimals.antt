-- ===== src/Base/Int/Decimals.antt =====
-- What `str` prints of a number, `int` reads.
use Prim.Native.Nat.{ℕ, zero, suc, ◌+◌, ◌-◌, ◌*◌, ◌/◌, ◌%◌, ◌<◌}
use mathlib.Core.Path.{◌≡◌, refl, ap, ◌∙◌}
use mathlib.Core.Logic.{inl, inr}
use mathlib.Core.Bool.{true, false}
use mathlib.Core.Option
use mathlib.Core.Option.{Option, none, some}
use mathlib.Core.List.{[], ◌∷◌, ◌++◌, reverse, reverse-cons, reverse-reverse}
use native.Mathlib.Omega.{arith}
use intelli_study_planner_br.Base.Tests.{Bool-cases, ltb, ltb→lt, ◌==◌, nat_eq}
use intelli_study_planner_br.Base.Lists.{all, is_empty}
use intelli_study_planner_br.Base.Chars.{Text, is_digit, strip, lstrip}
use intelli_study_planner_br.Base.Int.{
  pos, digits_from, digits_of, nat_of_text, signed, int_of_text, text_of_nat,
}

digit_step :
    (n c : ℕ) (s : Text)
    → is_digit c ≡ true
    → digits_from n (c ∷ s) ≡ digits_from (n * 10 + (c - 48)) s
unfolding digits_from
digit_step n c [] d = rw d
digit_step n c (e ∷ s) d = rw d

small_digit : (n : ℕ) → n < 10 → is_digit (48 + n) ≡ true
small_digit n h = ground arith

not_small : (fuel n : ℕ) → n < suc fuel → ltb n 10 ≡ false → n / 10 < fuel
not_small fuel n h large = ground arith

digits_from-digits_of :
    (fuel n : ℕ) (acc : Text) → n < fuel → digits_from 0 (digits_of fuel n acc) ≡ digits_from n acc
unfolding digits_of
digits_from-digits_of zero n acc h = absurd (omega arith)
digits_from-digits_of (suc fuel) n acc h = elim (Bool-cases (ltb n 10)) [
  | inl small ↦ rw small (
      digit_step 0 (48 + n) acc (small_digit n (ltb→lt n 10 small))
      ∙ ap (λ m. digits_from m acc) (omega arith))
  | inr large ↦ rw large (
      digits_from-digits_of fuel (n / 10) ((48 + n % 10) ∷ acc) (not_small fuel n h large)
      ∙ digit_step (n / 10) (48 + n % 10) acc (small_digit (n % 10) (omega arith))
      ∙ ap (λ m. digits_from m acc) (omega arith))
]

all-digits_of :
    (fuel n : ℕ) (acc : Text) → all is_digit acc ≡ true → all is_digit (digits_of fuel n acc) ≡ true
unfolding digits_of
all-digits_of zero n acc h = h
all-digits_of (suc fuel) n acc h = grind (
  arith,
  all-digits_of fuel (n / 10) ((48 + n % 10) ∷ acc),
  small_digit n,
  small_digit (n % 10),
  ltb→lt n 10,
)

filled-digits_of :
    (fuel n : ℕ) (acc : Text) → is_empty acc ≡ false → is_empty (digits_of fuel n acc) ≡ false
unfolding digits_of
filled-digits_of zero n acc h = h
filled-digits_of (suc fuel) n acc h =
    grind (arith, filled-digits_of fuel (n / 10) ((48 + n % 10) ∷ acc))

pub text_of_nat-digits : (n : ℕ) → all is_digit (text_of_nat n) ≡ true
unfolding text_of_nat
text_of_nat-digits n = all-digits_of (suc n) n [] refl

digits_filled : (n : ℕ) → is_empty (text_of_nat n) ≡ false
unfolding text_of_nat digits_of
digits_filled n = grind (arith, filled-digits_of n (n / 10) ((48 + n % 10) ∷ []))

lstrip_digits : (s : Text) → all is_digit s ≡ true → lstrip s ≡ s
unfolding lstrip
lstrip_digits [] h = refl
lstrip_digits (c ∷ s) h = grind arith

all-append :
    (s t : Text) → all is_digit s ≡ true → all is_digit t ≡ true → all is_digit (s ++ t) ≡ true
all-append [] t h k = k
all-append (c ∷ s) t h k = grind (arith, all-append s t)

all-reverse : (s : Text) → all is_digit s ≡ true → all is_digit (reverse s) ≡ true
all-reverse [] h = refl
all-reverse (c ∷ s) h =
    ap (all is_digit) (reverse-cons c s)
    ∙ all-append (reverse s) (c ∷ []) (all-reverse s (grind arith)) (grind arith)

strip_digits : (s : Text) → all is_digit s ≡ true → strip s ≡ s
unfolding strip
strip_digits s h =
    ap (λ t. reverse (lstrip (reverse t))) (lstrip_digits s h)
    ∙ ap reverse (lstrip_digits (reverse s) (all-reverse s h))
    ∙ reverse-reverse s

int_parts : (s : Text) → int_of_text s ≡ signed (strip s)
unfolding int_of_text
int_parts s = refl

nat_of_digits : (c : ℕ) (s : Text) → is_digit c ≡ true → nat_of_text (c ∷ s) ≡ digits_from 0 (c ∷ s)
unfolding nat_of_text
nat_of_digits c s h = rw h

no_sign : (c : ℕ) → is_digit c ≡ true → ((c == b'-') ≡ false) × ((c == b'+') ≡ false)
no_sign c h = ground arith

signed_digits :
    (c : ℕ) (s : Text) → is_digit c ≡ true → signed (c ∷ s) ≡ Option.map pos (nat_of_text (c ∷ s))
unfolding signed
signed_digits c s h = rw ((no_sign c h).0, (no_sign c h).1)

int_of_digits :
    (s : Text)
    → is_empty s ≡ false
    → all is_digit s ≡ true
    → int_of_text s ≡ Option.map pos (digits_from 0 s)
int_of_digits [] f h = absurd (grind arith)
int_of_digits (c ∷ s) f h =
    int_parts (c ∷ s)
    ∙ ap signed (strip_digits (c ∷ s) h)
    ∙ signed_digits c s (grind arith)
    ∙ ap (Option.map pos) (nat_of_digits c s (grind arith))

digits_from-text_of_nat : (n : ℕ) → digits_from 0 (text_of_nat n) ≡ some n
unfolding text_of_nat digits_from
digits_from-text_of_nat n = digits_from-digits_of (suc n) n [] (omega arith)

-- `int` reads what `str` prints of a natural number.
pub int_of_text-text_of_nat : (n : ℕ) → int_of_text (text_of_nat n) ≡ some (pos n)
int_of_text-text_of_nat n =
    int_of_digits (text_of_nat n) (digits_filled n) (text_of_nat-digits n)
    ∙ ap (Option.map pos) (digits_from-text_of_nat n)
