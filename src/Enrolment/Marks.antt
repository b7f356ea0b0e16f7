-- ===== src/Enrolment/Marks.antt =====
-- A record read with its marks, and without them.
use intelli_study_planner_br.Base.{
  ℕ, ℤ, ◌≡◌, refl, Bool, true, false, Option, List, [], ◌∷◌, Text, arith, map, strip, is_empty,
}
use intelli_study_planner_br.Enrolment.Cells.{
  Kind, enrolment, specified, unspecified, Cells, split_lines,
}
use intelli_study_planner_br.Enrolment.Rows.{
  AnyRow, plain, marked, fields_of, EnrolmentRow, EnrolmentRecord, Reading, read, unreadable,
  Problem, ◌>>=◌, checked, numbered, require_int, read_mark, enrolment_row, credit_row,
}
use intelli_study_planner_br.Enrolment.Table.{
  Loop, first_loop, add_row, read_line, read_lines, table_record, parse_table,
}
use intelli_study_planner_br.Enrolment.Flat.{
  flat_enrolment_row, flat_rows, parse_matches, parse_flat, flat_row, flat_text, parse_enrolment,
}
use intelli_study_planner_br.Regex.{Scan, find_iter}
use mathlib.Core.List.{map-append}

abbrev pub unmarked : AnyRow → AnyRow
unmarked row = plain (fields_of row)

abbrev pub without_marks : EnrolmentRecord → EnrolmentRecord
without_marks r = record r { rows = map unmarked r.rows }

abbrev loop_without_marks : Loop → Loop
loop_without_marks l = record l { rows = map unmarked l.rows }

-- The second parse reads whatever the first one reads, with `f` applied.
abbrev Follows : {A : Type 0} → (A → A) → Reading A → Reading A → Type 0
Follows {A} f m m' = (a : A) → m ≡ read a → m' ≡ read (f a)

-- The second goes on from what the first reads.
step-Follows :
    {A B : Type 0} (m m' : Reading A) (f f' : A → Reading B) (h : A → A) (g : B → B)
    → Follows h m m'
    → ((a : A) → Follows g (f a) (f' (h a)))
    → Follows g (m >>= f) (m' >>= f')
step-Follows (read a) m' f f' h g first second b e = rw (first a refl, second a b e)
step-Follows (unreadable p) m' f f' h g first second b e = absurd (grind arith)

both_numbers :
    (y n : Reading ℤ) (m : Reading (Option ℕ)) (row : ℤ → ℤ → EnrolmentRow)
    → Follows unmarked
        (y >>= λ a. n >>= λ b. m >>= λ c. read (marked (row a b) c))
        (y >>= λ a. n >>= λ b. read (plain (row a b)))
both_numbers (read a) (read b) (read c) row r e = grind arith
both_numbers (read a) (read b) (unreadable p) row r e = absurd (grind arith)
both_numbers (read a) (unreadable p) m row r e = absurd (grind arith)
both_numbers (unreadable p) n m row r e = absurd (grind arith)

numbered-Follows :
    (year nom_cp mark : Text) (row : ℤ → ℤ → EnrolmentRow)
    → Follows unmarked (numbered true year nom_cp mark row) (numbered false year nom_cp mark row)
unfolding numbered
numbered-Follows year nom_cp mark row =
    both_numbers (require_int year) (require_int nom_cp) (read_mark mark) row

checked-Follows :
    {A : Type 0} (p : Problem) (ok : Bool) (m m' : Reading A) (g : A → A)
    → Follows g m m'
    → Follows g (checked p ok m) (checked p ok m')
unfolding checked
checked-Follows p true m m' g h a e = h a e
checked-Follows p false m m' g h a e = absurd (grind arith)

enrolment_row-Follows :
    (cells : Cells) → Follows unmarked (enrolment_row cells true) (enrolment_row cells false)
unfolding enrolment_row
enrolment_row-Follows cells =
    checked-Follows _ _ _ _ unmarked (
      checked-Follows _ _ _ _ unmarked
        (checked-Follows _ _ _ _ unmarked (numbered-Follows _ _ _ _)))

flat_enrolment_row-Follows :
    (m : Scan) → Follows unmarked (flat_enrolment_row true m) (flat_enrolment_row false m)
unfolding flat_enrolment_row
flat_enrolment_row-Follows m =
    checked-Follows _ _ _ _ unmarked (checked-Follows _ _ _ _ unmarked (numbered-Follows _ _ _ _))

flat_rows-Follows :
    (ms : List (Scan × Scan)) → Follows (map unmarked) (flat_rows true ms) (flat_rows false ms)
unfolding flat_rows
flat_rows-Follows [] rows e = grind arith
flat_rows-Follows ((b, s) ∷ ms) rows e =
    step-Follows (flat_enrolment_row true s) (flat_enrolment_row false s) _ _ unmarked
      (map unmarked) (flat_enrolment_row-Follows s)
      (λ row.
        step-Follows (flat_rows true ms) (flat_rows false ms) _ _ (map unmarked) (map unmarked)
          (flat_rows-Follows ms) (λ rows' rs e'. grind arith))
      rows e

add_row-Follows :
    (l : Loop) (cells : Cells) (kind : Kind)
    → Follows loop_without_marks
        (add_row true l cells kind)
        (add_row false (loop_without_marks l) cells kind)
unfolding add_row
add_row-Follows l cells enrolment l' e =
    step-Follows (enrolment_row cells true) (enrolment_row cells false) _ _ unmarked
      loop_without_marks (enrolment_row-Follows cells)
      (λ row l1 e1. grind (arith, map-append unmarked l.rows)) l' e
add_row-Follows l cells specified l' e =
    step-Follows (credit_row cells) (credit_row cells) _ _ (λ row. row) loop_without_marks
      (λ row e1. e1) (λ row l1 e1. grind arith) l' e
add_row-Follows l cells unspecified l' e =
    step-Follows (credit_row cells) (credit_row cells) _ _ (λ row. row) loop_without_marks
      (λ row e1. e1) (λ row l1 e1. grind arith) l' e

read_line-Follows :
    (l : Loop) (line : Text)
    → Follows loop_without_marks
        (read_line true l line)
        (read_line false (loop_without_marks l) line)
unfolding read_line
read_line-Follows l line l' e = grind (arith, add_row-Follows l)

read_lines-Follows :
    (lines : List Text) (l : Loop)
    → Follows loop_without_marks
        (read_lines true l lines)
        (read_lines false (loop_without_marks l) lines)
unfolding read_lines
read_lines-Follows [] l l' e = grind arith
read_lines-Follows (line ∷ lines) l l' e =
    step-Follows (read_line true l (strip line)) _ _ _ loop_without_marks loop_without_marks
      (read_line-Follows l (strip line)) (λ l1. read_lines-Follows lines l1) l' e

empty-map : (rows : List AnyRow) → is_empty (map unmarked rows) ≡ is_empty rows
empty-map [] = refl
empty-map (row ∷ rows) = refl

table_record-Follows :
    (l : Loop) → Follows without_marks (table_record l) (table_record (loop_without_marks l))
table_record-Follows l r e = grind (arith, empty-map l.rows)

parse_matches-Follows :
    (text : Text) (ms : List (Scan × Scan))
    → Follows without_marks (parse_matches text true ms) (parse_matches text false ms)
parse_matches-Follows text ms r e = grind (arith, flat_rows-Follows ms)

parse_table-Follows :
    (raw_sols : Text)
    → Follows without_marks (parse_table raw_sols true) (parse_table raw_sols false)
unfolding parse_table
parse_table-Follows raw_sols =
    step-Follows _ _ table_record table_record loop_without_marks without_marks
      (read_lines-Follows (split_lines raw_sols) first_loop) table_record-Follows

parse_flat-Follows :
    (raw_sols : Text) → Follows without_marks (parse_flat raw_sols true) (parse_flat raw_sols false)
unfolding parse_flat
parse_flat-Follows raw_sols =
    parse_matches-Follows (flat_text raw_sols) (find_iter flat_row (flat_text raw_sols))

-- Whatever record is read with its marks, the parse without marks reads the same record, each row of
-- it an enrolment row without a mark and with the same fields. (The other way round, a mark that is no
-- number or above 100 is refused only when marks are kept.)
pub parse_enrolment-unmarked :
    (raw_sols : Text) (r : EnrolmentRecord)
    → parse_enrolment raw_sols true ≡ read r
    → parse_enrolment raw_sols false ≡ read (without_marks r)
unfolding parse_enrolment
parse_enrolment-unmarked raw_sols r e =
    grind (arith, parse_table-Follows raw_sols r, parse_flat-Follows raw_sols r)
