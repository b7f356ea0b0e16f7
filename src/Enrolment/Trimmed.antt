-- ===== src/Enrolment/Trimmed.antt =====
-- Cells that are written into a line of a table are split off again.
use mathlib.Core.List.{reverse, append_assoc, reverse-append, reverse-reverse}
use intelli_study_planner_br.Base.{
  ℕ, ◌≡◌, refl, sym, ap, ◌∙◌, Bool, true, false, not, ◌&&◌, List, [], ◌∷◌, ◌++◌, Text, arith, map,
  strip, lstrip, is_empty, codes, elem, all, is_space, join, nat_eq, ==_refl,
}
use intelli_study_planner_br.Enrolment.Cells.{split_on, split_row, strip_pipes, drop_pipes}
use intelli_study_planner_br.Enrolment.Render.{table_line}

-- No white space at either end, and no pipe.
abbrev pub spaced : Text → Text
spaced s = 32 ∷ (s ++ 32 ∷ [])

abbrev starts_filled : Text → Bool
starts_filled [] = true
starts_filled (c ∷ s) = not (is_space c)

abbrev pub is_cell : Text → Bool
is_cell s = starts_filled s && starts_filled (reverse s) && not (elem b'|' s)

lstrip-filled :
    (s t : Text) → starts_filled s ≡ true → is_empty s ≡ false → lstrip (s ++ t) ≡ s ++ t
unfolding lstrip
lstrip-filled [] t f e = absurd (grind arith)
lstrip-filled (c ∷ s) t f e = grind arith

lstrip_self : (s : Text) → starts_filled s ≡ true → lstrip s ≡ s
unfolding lstrip
lstrip_self [] f = refl
lstrip_self (c ∷ s) f = grind arith

elem-append : (c : ℕ) (s t : Text) → elem c s ≡ false → elem c t ≡ false → elem c (s ++ t) ≡ false
elem-append c [] t e f = f
elem-append c (d ∷ s) t e f = grind (arith, elem-append c s t)

pub split_on-free : (c : ℕ) (s : Text) → elem c s ≡ false → split_on c s ≡ s ∷ []
unfolding split_on
split_on-free c [] e = refl
split_on-free c (d ∷ s) e = grind (arith, split_on-free c s)

pub split_on-append :
    (c : ℕ) (s t : Text) → elem c s ≡ false → split_on c (s ++ c ∷ t) ≡ s ∷ split_on c t
unfolding split_on
split_on-append c [] t e = grind (arith, ==_refl c)
split_on-append c (d ∷ s) t e = grind (arith, split_on-append c s t)

-- A text between two ends that the strip stops at.
pub strip-filled : (s : Text) → lstrip s ≡ s → lstrip (reverse s) ≡ reverse s → strip s ≡ s
unfolding strip
strip-filled s front back =
    ap (λ t. reverse (lstrip (reverse t))) front ∙ ap reverse back ∙ reverse-reverse s

strip-spaced :
    (s : Text) → starts_filled s ≡ true → starts_filled (reverse s) ≡ true → strip (spaced s) ≡ s
unfolding strip lstrip
strip-spaced [] f b = refl
strip-spaced (c ∷ s) f b =
    ap (λ t. reverse (lstrip (reverse t))) (lstrip-filled (c ∷ s) (32 ∷ []) f refl)
    ∙ ap (λ t. reverse (lstrip t)) (reverse-append (c ∷ s) (32 ∷ []))
    ∙ ap reverse (lstrip_self (reverse (c ∷ s)) b)
    ∙ reverse-reverse (c ∷ s)

line_text : List Text → Text
line_text cells = 32 ∷ (join (codes " | ") cells ++ 32 ∷ [])

-- Of the two lists of conditions on a cell, what each step needs.
cell_parts :
    (s : Text)
    → is_cell s ≡ true
    → (starts_filled s ≡ true) × (starts_filled (reverse s) ≡ true) × (elem b'|' s ≡ false)
cell_parts s h = ground arith

spaced_free : (s : Text) → is_cell s ≡ true → elem b'|' (spaced s) ≡ false
spaced_free s h = elem-append b'|' (32 ∷ s) (32 ∷ []) (grind (arith, (cell_parts s h).2)) refl

line_text-single : (cell : Text) → line_text (cell ∷ []) ≡ spaced cell
unfolding line_text join
line_text-single cell = refl

line_text-cons :
    (cell next : Text) (cells : List Text)
    → line_text (cell ∷ next ∷ cells) ≡ spaced cell ++ b'|' ∷ line_text (next ∷ cells)
unfolding line_text join
line_text-cons cell next cells = rw (append_assoc, append_assoc, append_assoc)

split_on-line :
    (cell : Text) (cells : List Text)
    → all is_cell (cell ∷ cells) ≡ true
    → split_on b'|' (line_text (cell ∷ cells)) ≡ map spaced (cell ∷ cells)
split_on-line cell [] h =
    ap (split_on b'|') (line_text-single cell)
    ∙ split_on-free b'|' (spaced cell) (spaced_free cell (grind arith))
split_on-line cell (next ∷ cells) h =
    ap (split_on b'|') (line_text-cons cell next cells)
    ∙ split_on-append b'|' (spaced cell) (line_text (next ∷ cells)) (spaced_free cell (grind arith))
    ∙ ap (λ (ts : List Text). spaced cell ∷ ts) (split_on-line next cells (grind arith))

stripped_cells :
    (cells : List Text) → all is_cell cells ≡ true → map strip (map spaced cells) ≡ cells
stripped_cells [] h = refl
stripped_cells (cell ∷ cells) h =
    ap (λ (t : Text). t ∷ map strip (map spaced cells))
      (strip-spaced cell (cell_parts cell (grind arith)).0 (cell_parts cell (grind arith)).1)
    ∙ ap (λ (ts : List Text). cell ∷ ts) (stripped_cells cells (grind arith))

-- The two strips of a line, which ends in pipes.
table_line-ends : (cells : List Text) → table_line cells ≡ (b'|' ∷ line_text cells) ++ b'|' ∷ []
unfolding table_line line_text
table_line-ends cells =
    ap (λ (t : Text). b'|' ∷ 32 ∷ t)
      (sym (append_assoc (join (codes " | ") cells) (32 ∷ []) (b'|' ∷ [])))

strip-ends : (s : Text) → strip ((b'|' ∷ s) ++ b'|' ∷ []) ≡ (b'|' ∷ s) ++ b'|' ∷ []
unfolding lstrip
strip-ends s = strip-filled ((b'|' ∷ s) ++ b'|' ∷ []) refl (ap lstrip turned ∙ sym turned)
  where
    turned : reverse ((b'|' ∷ s) ++ b'|' ∷ []) ≡ b'|' ∷ reverse (b'|' ∷ s)
    turned = reverse-append (b'|' ∷ s) (b'|' ∷ [])

strip-line : (cells : List Text) → strip (table_line cells) ≡ table_line cells
strip-line cells =
    ap strip (table_line-ends cells) ∙ strip-ends (line_text cells) ∙ sym (table_line-ends cells)

drop_pipes-line :
    (cells : List Text) → drop_pipes (reverse (line_text cells)) ≡ reverse (line_text cells)
unfolding drop_pipes line_text
drop_pipes-line cells = ap drop_pipes turned ∙ sym turned
  where
    turned : reverse (line_text cells) ≡ 32 ∷ reverse (32 ∷ join (codes " | ") cells)
    turned = reverse-append (32 ∷ join (codes " | ") cells) (32 ∷ [])

strip_pipes-line : (cells : List Text) → strip_pipes (table_line cells) ≡ line_text cells
unfolding line_text strip_pipes drop_pipes
strip_pipes-line cells =
    ap strip_pipes (table_line-ends cells)
    ∙ ap (λ t. reverse (drop_pipes t)) (reverse-append (line_text cells) (b'|' ∷ []))
    ∙ ap reverse (drop_pipes-line cells)
    ∙ reverse-reverse (line_text cells)

-- A line of a table that is written from cells (at least one, with no white space at an end and no
-- pipe inside) is split into these cells.
pub split_row-table_line :
    (cell : Text) (cells : List Text)
    → all is_cell (cell ∷ cells) ≡ true
    → split_row (table_line (cell ∷ cells)) ≡ cell ∷ cells
unfolding split_row
split_row-table_line cell cells h =
    ap (λ t. map strip (split_on b'|' (strip_pipes t))) (strip-line (cell ∷ cells))
    ∙ ap (λ t. map strip (split_on b'|' t)) (strip_pipes-line (cell ∷ cells))
    ∙ ap (map strip) (split_on-line cell cells h)
    ∙ stripped_cells (cell ∷ cells) h
