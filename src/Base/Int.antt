-- ===== src/Base/Int.antt =====
-- Python's integers over the native numbers, and `int()` and `str()` on decimal text.
pub mod Decimals
use Prim.Native.Nat.{ℕ, zero, suc, ◌+◌, ◌-◌, ◌*◌, ◌/◌, ◌%◌}
use mathlib.Core.Path.{refl, ◌≡◌}
use mathlib.Core.Logic.{◌↔◌}
use mathlib.Core.Bool.{Bool, true, false, ◌&&◌}
use mathlib.Core.Option
use mathlib.Core.Option.{Option, none, some}
use mathlib.Core.List.{[], ◌∷◌}
use native.Mathlib.Omega.{arith}
use intelli_study_planner_br.Base.Tests.{ltb, leb, nat_beq, if◌then◌else◌, Comparable, ◌==◌, nat_eq}
use intelli_study_planner_br.Base.Chars.{Text, is_digit, strip}

-- `negsuc n` is -(n + 1).
pub data ℤ : Type 0 where
  pos : ℕ → ℤ
  negsuc : ℕ → ℤ

abbrev pub int_beq : ℤ → ℤ → Bool
int_beq (pos a) (pos b) = nat_beq a b
int_beq (negsuc a) (negsuc b) = nat_beq a b
int_beq _ _ = false

pub int_beq_iff : (a b : ℤ) → (int_beq a b ≡ true) ↔ (a ≡ b)
int_beq_iff a b = ground arith

instance abbrev pub int_eq : Comparable ℤ
int_eq = record {
  equals = int_beq;
  accepts = λ x. (int_beq_iff x x).1 refl;
  separates = λ {x} {y} h. (int_beq_iff x y).0 h;
}

-- a <= b
abbrev pub le_int : ℤ → ℤ → Bool
le_int (pos a) (pos b) = leb a b
le_int (pos a) (negsuc b) = false
le_int (negsuc a) (pos b) = true
le_int (negsuc a) (negsuc b) = leb b a

abbrev pub negate : ℕ → ℤ
negate zero = pos 0
negate (suc n) = negsuc n

-- m - n
abbrev pub minus : ℕ → ℕ → ℤ
minus m n = if leb n m then pos (m - n) else negsuc (n - m - 1)

infixl 6 ◌+ℤ◌
abbrev pub ◌+ℤ◌ : ℤ → ℤ → ℤ
pos a +ℤ pos b = pos (a + b)
pos a +ℤ negsuc b = minus a (suc b)
negsuc a +ℤ pos b = minus b (suc a)
negsuc a +ℤ negsuc b = negsuc (suc (a + b))

-- a * n
abbrev pub times : ℤ → ℕ → ℤ
times (pos a) n = pos (a * n)
times (negsuc a) n = negate (suc a * n)

abbrev pub is_negative : ℤ → Bool
is_negative (pos n) = false
is_negative (negsuc n) = true

-- abs(a)
abbrev pub magnitude : ℤ → ℕ
magnitude (pos n) = n
magnitude (negsuc n) = suc n

-- Decimal digits, with single underscores between digits.
digits_from : ℕ → Text → Option ℕ
digits_from n [] = some n
digits_from n (c ∷ []) = if is_digit c then some (n * 10 + (c - 48)) else none
digits_from n (c ∷ d ∷ s) =
    if is_digit c
    then digits_from (n * 10 + (c - 48)) (d ∷ s)
    else if c == b'_' && is_digit d
    then digits_from n (d ∷ s)
    else none

unfoldable pub nat_of_text : Text → Option ℕ
unfolding digits_from
nat_of_text [] = none
nat_of_text (c ∷ s) = if is_digit c then digits_from 0 (c ∷ s) else none

-- A number with its sign.
signed : Text → Option ℤ
unfolding nat_of_text
signed [] = none
signed (c ∷ r) =
    if c == b'-'
    then Option.map negate (nat_of_text r)
    else if c == b'+'
    then Option.map pos (nat_of_text r)
    else Option.map pos (nat_of_text (c ∷ r))

-- int(s): `none` stands for the ValueError.
unfoldable pub int_of_text : Text → Option ℤ
unfolding signed strip
int_of_text s = signed (strip s)

-- Digits of n, least significant last; the fuel is n itself.
digits_of : ℕ → ℕ → Text → Text
digits_of zero n acc = acc
digits_of (suc fuel) n acc =
    let more : Text = digits_of fuel (n / 10) ((48 + n % 10) ∷ acc) in
    if ltb n 10 then (48 + n) ∷ acc else more

-- str(n)
unfoldable pub text_of_nat : ℕ → Text
unfolding digits_of
text_of_nat n = digits_of (suc n) n []

unfoldable pub text_of_int : ℤ → Text
unfolding text_of_nat
text_of_int (pos n) = text_of_nat n
text_of_int (negsuc n) = b'-' ∷ text_of_nat (suc n)
