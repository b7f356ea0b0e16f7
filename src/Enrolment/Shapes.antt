-- ===== src/Enrolment/Shapes.antt =====
-- What is known of a row that was read.
use intelli_study_planner_br.Base.{
  ℕ, ℤ, pos, negsuc, ◌≡◌, refl, sym, ap, subst, ◌∙◌, Bool, true, false, not, ◌&&◌, Option, none,
  some, List, [], ◌∷◌, Text, arith, strip, is_empty, text_eq, all, leb,
}
use intelli_study_planner_br.Base.Tables.{all-snoc}
use intelli_study_planner_br.Enrolment.Cells.{
  Kind, enrolment, specified, unspecified, Cells, split_lines,
}
use intelli_study_planner_br.Enrolment.Rows.{
  AnyRow, plain, marked, fields_of, EnrolmentRow, EnrolmentRecord, Reading, read, unreadable,
  Problem, ◌>>=◌, checked, checked_mark, numbered, require_int, read_mark, with_mark, enrolment_row,
  credit_row, CreditRow, is_code_or_none, is_subject_code, is_known_grade,
}
use intelli_study_planner_br.Enrolment.Table.{
  Loop, first_loop, add_row, read_line, read_lines, table_record, parse_table,
}
use intelli_study_planner_br.Enrolment.Flat.{
  flat_enrolment_row, flat_rows, parse_matches, parse_flat, parse_enrolment, flat_row, flat_text,
}
use intelli_study_planner_br.Regex.{Scan, find_iter}

-- A subject code and a known grade, if any; a mark, if any, of at most 100.
abbrev pub mark_fits : AnyRow → Bool
mark_fits (plain row) = true
mark_fits (marked row none) = true
mark_fits (marked row (some m)) = leb m 100

abbrev pub is_shaped : AnyRow → Bool
is_shaped row =
    is_subject_code (fields_of row).code && is_known_grade (fields_of row).grade && mark_fits row

-- What holds of whatever a parse reads.
abbrev pub Gives : {A : Type 0} → (A → Bool) → Reading A → Type 0
Gives {A} p m = (a : A) → m ≡ read a → p a ≡ true

read_path : {A : Type 0} {a b : A} → read a ≡ read b → a ≡ b
read_path e = grind arith

pub step-Gives :
    {A B : Type 0} (m : Reading A) (f : A → Reading B) (p : A → Bool) (q : B → Bool)
    → Gives p m
    → ((a : A) → p a ≡ true → Gives q (f a))
    → Gives q (m >>= f)
step-Gives (read a) f p q first second b e = second a (first a refl) b e
step-Gives (unreadable x) f p q first second b e = absurd (grind arith)

pub checked-Gives :
    {A : Type 0} (x : Problem) (ok : Bool) (m : Reading A) (q : A → Bool)
    → (ok ≡ true → Gives q m)
    → Gives q (checked x ok m)
unfolding checked
checked-Gives x true m q h a e = h refl a e
checked-Gives x false m q h a e = absurd (grind arith)

abbrev fits : Option ℕ → Bool
fits none = true
fits (some m) = leb m 100

checked_mark-fits : (n : ℤ) → Gives fits (checked_mark n)
checked_mark-fits (pos n) o e = grind arith
checked_mark-fits (negsuc n) o e = absurd (grind arith)

read_mark-fits : (value : Text) → Gives fits (read_mark value)
unfolding read_mark
read_mark-fits [] o e = grind arith
read_mark-fits (c ∷ s) o e =
    step-Gives (require_int (c ∷ s)) checked_mark (λ n. true) fits (λ n e'. refl)
      (λ n _. checked_mark-fits n) o e

with_mark-shaped :
    (keep_marks : Bool) (mark : Text) (row : EnrolmentRow)
    → is_shaped (plain row) ≡ true
    → Gives is_shaped (with_mark keep_marks mark row)
with_mark-shaped false mark row h r e = grind arith
with_mark-shaped true mark row h r e =
    step-Gives (read_mark mark) (λ m. read (marked row m)) fits is_shaped (read_mark-fits mark)
      (λ m f r' e'. marked-shaped m f r' e') r e
  where
    marked-shaped : (m : Option ℕ) → fits m ≡ true → Gives is_shaped (read (marked row m))
    marked-shaped none f r' e' = grind arith
    marked-shaped (some n) f r' e' = grind arith

numbered-shaped :
    (keep_marks : Bool) (year nom_cp mark : Text) (row : ℤ → ℤ → EnrolmentRow)
    → ((y n : ℤ) → is_shaped (plain (row y n)) ≡ true)
    → Gives is_shaped (numbered keep_marks year nom_cp mark row)
unfolding numbered
numbered-shaped keep_marks year nom_cp mark row h =
    step-Gives (require_int year) _ (λ y. true) is_shaped (λ y e. refl)
      (λ y _.
        step-Gives (require_int nom_cp) _ (λ y. true) is_shaped (λ n e. refl)
          (λ n _. with_mark-shaped keep_marks mark (row y n) (h y n)))

enrolment_row-shaped :
    (cells : Cells) (keep_marks : Bool) → Gives is_shaped (enrolment_row cells keep_marks)
unfolding enrolment_row
enrolment_row-shaped cells keep_marks = checked-Gives _ _ _ is_shaped λ c.
    checked-Gives _ _ _ is_shaped
      λ g. checked-Gives _ _ _ is_shaped λ s. numbered-shaped keep_marks _ _ _ _ λ y n. rw (c, g)

flat_enrolment_row-shaped :
    (keep_marks : Bool) (m : Scan) → Gives is_shaped (flat_enrolment_row keep_marks m)
unfolding flat_enrolment_row
flat_enrolment_row-shaped keep_marks m =
    checked-Gives _ _ _ is_shaped
      λ c. checked-Gives _ _ _ is_shaped λ g. numbered-shaped keep_marks _ _ _ _ λ y n. rw (c, g)

flat_rows-shaped :
    (keep_marks : Bool) (ms : List (Scan × Scan)) → Gives (all is_shaped) (flat_rows keep_marks ms)
unfolding flat_rows
flat_rows-shaped keep_marks [] rows e = grind arith
flat_rows-shaped keep_marks ((b, s) ∷ ms) rows e =
    step-Gives (flat_enrolment_row keep_marks s) _ is_shaped (all is_shaped)
      (flat_enrolment_row-shaped keep_marks s)
      (λ row f.
        step-Gives (flat_rows keep_marks ms) _ (all is_shaped) (all is_shaped)
          (flat_rows-shaped keep_marks ms)
          (λ rows' f' rs e'. subst (λ x. all is_shaped x ≡ true) (read_path e') (rw (f, f'))))
      rows e

abbrev pub credit_shaped : CreditRow → Bool
credit_shaped row = is_code_or_none row.code

credit_row-shaped : (cells : Cells) → Gives credit_shaped (credit_row cells)
unfolding credit_row
credit_row-shaped cells = checked-Gives _ _ _ credit_shaped λ c.
    step-Gives (require_int _) _ (λ n. true) credit_shaped (λ n e. refl)
      (λ n _ row e. ap credit_shaped (sym (read_path e)) ∙ c)

abbrev loop_shaped : Loop → Bool
loop_shaped l =
    all is_shaped l.rows
    && all credit_shaped l.specified_credit
    && all credit_shaped l.unspecified_credit

-- A record that has rows, all of the right shape.
abbrev pub record_shaped : EnrolmentRecord → Bool
record_shaped r =
    not (is_empty r.rows)
    && all is_shaped r.rows
    && all credit_shaped r.specified_credit
    && all credit_shaped r.unspecified_credit

add_row-shaped :
    (keep_marks : Bool) (l : Loop) (cells : Cells) (kind : Kind)
    → loop_shaped l ≡ true
    → Gives loop_shaped (add_row keep_marks l cells kind)
unfolding add_row
add_row-shaped keep_marks l cells enrolment h =
    step-Gives (enrolment_row cells keep_marks) _ is_shaped loop_shaped
      (enrolment_row-shaped cells keep_marks)
      (λ row f l' e. grind (arith, all-snoc is_shaped l.rows row))
add_row-shaped keep_marks l cells specified h =
    step-Gives (credit_row cells) _ credit_shaped loop_shaped (credit_row-shaped cells)
      (λ row f l' e. grind (arith, all-snoc credit_shaped l.specified_credit row))
add_row-shaped keep_marks l cells unspecified h =
    step-Gives (credit_row cells) _ credit_shaped loop_shaped (credit_row-shaped cells)
      (λ row f l' e. grind (arith, all-snoc credit_shaped l.unspecified_credit row))

read_line-shaped :
    (keep_marks : Bool) (l : Loop) (line : Text)
    → loop_shaped l ≡ true
    → Gives loop_shaped (read_line keep_marks l line)
unfolding read_line
read_line-shaped keep_marks l line h l' e = grind (arith, add_row-shaped keep_marks l)

read_lines-shaped :
    (keep_marks : Bool) (lines : List Text) (l : Loop)
    → loop_shaped l ≡ true
    → Gives loop_shaped (read_lines keep_marks l lines)
unfolding read_lines
read_lines-shaped keep_marks [] l h l' e = grind arith
read_lines-shaped keep_marks (line ∷ lines) l h l' e =
    step-Gives (read_line keep_marks l (strip line)) _ loop_shaped loop_shaped
      (read_line-shaped keep_marks l (strip line) h) (λ l1. read_lines-shaped keep_marks lines l1)
      l' e

parse_table-shaped :
    (raw_sols : Text) (keep_marks : Bool) → Gives record_shaped (parse_table raw_sols keep_marks)
unfolding parse_table
parse_table-shaped raw_sols keep_marks =
    step-Gives (read_lines keep_marks first_loop (split_lines raw_sols)) table_record loop_shaped
      record_shaped (read_lines-shaped keep_marks (split_lines raw_sols) first_loop refl)
      (λ l h r e. grind arith)

flat_rows-filled :
    (keep_marks : Bool) (ms : List (Scan × Scan))
    → is_empty ms ≡ false
    → Gives (λ rows. not (is_empty rows)) (flat_rows keep_marks ms)
unfolding flat_rows
flat_rows-filled keep_marks [] h rows e = absurd (grind arith)
flat_rows-filled keep_marks ((b, s) ∷ ms) h rows e =
    step-Gives (flat_enrolment_row keep_marks s) _ (λ row. true) (λ rows. not (is_empty rows))
      (λ row e. refl)
      (λ row _.
        step-Gives (flat_rows keep_marks ms) _ (λ rows. true) (λ rows. not (is_empty rows))
          (λ rows e. refl) (λ rows' _ rs e'. grind arith))
      rows e

parse_matches-shaped :
    (text : Text) (keep_marks : Bool) (ms : List (Scan × Scan))
    → Gives record_shaped (parse_matches text keep_marks ms)
parse_matches-shaped text keep_marks ms r e =
    grind (arith, flat_rows-shaped keep_marks ms, flat_rows-filled keep_marks ms)

-- A record that was read from a paste has at least one row; each row has a subject code of the official
-- shape, a known grade or none, and a mark of at most 100 or none, and each credit row a subject code
-- or none.
pub parse_enrolment-shaped :
    (raw_sols : Text) (keep_marks : Bool) (r : EnrolmentRecord)
    → parse_enrolment raw_sols keep_marks ≡ read r
    → record_shaped r ≡ true
unfolding parse_enrolment parse_flat
parse_enrolment-shaped raw_sols keep_marks r e = grind (
  arith,
  parse_table-shaped raw_sols keep_marks r,
  parse_matches-shaped (flat_text raw_sols) keep_marks (find_iter flat_row (flat_text raw_sols)) r,
)
