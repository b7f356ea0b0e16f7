-- ===== src/Wam.antt =====
-- app/services/wam.py: the weighted average mark of a pasted record. The division is exact and cut
-- to hundredths; it is modelled by the number of hundredths, without the 28 digits of Python's Decimal.
pub mod Repeats
pub mod Average
mod Samples
use intelli_study_planner_br.Base.{
  ℕ, zero, suc, ◌+◌, ◌*◌, ◌/◌, ◌%◌, ℤ, pos, negsuc, Bool, true, false, not, ◌&&◌, ◌||◌, Option,
  none, some, List, [], ◌∷◌, ◌++◌, Text, codes, leb, bool_beq, elem, text_eq, int_eq, bool_eq,
  nat_eq, ◌==◌, if◌then◌else◌, text_of_nat, text_of_int, is_empty, ◌+ℤ◌, times, negate, is_negative,
  magnitude,
}
use intelli_study_planner_br.Enrolment.Rows.{
  AnyRow, plain, marked, fields_of, EnrolmentRow, EnrolmentRecord, Reading, read, unreadable, ◌>>=◌,
  checked, bad_weight, no_result, no_mark, mark_mismatch, conflicting_rows,
}
use intelli_study_planner_br.Enrolment.Flat.{parse_enrolment}

-- MarkedEnrolmentRow
pub record MarkedRow : Type 0 where
  pub fields : EnrolmentRow
  pub open fields use *
  pub mark : Option ℕ

-- A record that is read with its marks has marked rows only.
abbrev pub marked_row : AnyRow → MarkedRow
marked_row (plain fields) = record { fields = fields; mark = none }
marked_row (marked fields mark) = record { fields = fields; mark = mark }

abbrev pub counted_statuses : List Text
counted_statuses = codes "Complete" ∷ codes "Failed" ∷ []

abbrev marked_grades : List Text
marked_grades = codes "HD" ∷ codes "D" ∷ codes "C" ∷ codes "P" ∷ codes "F" ∷ []

abbrev not_final_grades : List Text
not_final_grades =
    codes "WH" ∷ codes "WD" ∷ codes "WS" ∷ codes "ND" ∷ codes "IPC" ∷ codes "IPR" ∷ []

abbrev pub is_grade_of : List Text → Option Text → Bool
is_grade_of grades none = false
is_grade_of grades (some g) = elem g grades

-- 0 <= nom_cp <= MAX_SUBJECT_CP
abbrev pub weight_fits : ℤ → Bool
weight_fits (pos n) = leb n 48
weight_fits (negsuc n) = false

abbrev has : {A : Type 0} → Option A → Bool
has none = false
has (some a) = true

-- Whether a mark is on the other side of 50 than its grade.
abbrev mismatched : Option ℕ → Option Text → Bool
mismatched (some m) (some g) =
    elem g marked_grades && not (bool_beq (leb 50 m) (not (g == codes "F")))
mismatched _ _ = false

-- _mark_for, with TECHNICAL_FAIL_MARK
abbrev pub mark_for : MarkedRow → Option ℕ
mark_for row = elim row.mark [
  | some m ↦ some m
  | none ↦ if is_grade_of (codes "TF" ∷ []) row.grade then some 49 else none
]

-- `return None` where the test holds.
unfoldable pub skipped : Bool → Reading (Option ℕ) → Reading (Option ℕ)
skipped true m = read none
skipped false m = m

-- _checked_mark
unfoldable pub checked_mark : MarkedRow → Reading (Option ℕ)
checked_mark row = checked bad_weight (weight_fits row.nom_cp) (
    skipped (is_grade_of not_final_grades row.grade) (
      checked no_result (has row.mark || has row.grade) (
        checked no_mark (has row.mark || not (is_grade_of marked_grades row.grade))
          (checked mark_mismatch (not (mismatched row.mark row.grade)) (read (mark_for row))))))

-- The key of a row: year, session and code.
abbrev pub same_key : MarkedRow → MarkedRow → Bool
same_key a b = (a.year == b.year) && ((a.session == b.session) && (a.code == b.code))

abbrev pub mark_beq : Option ℕ → Option ℕ → Bool
mark_beq none none = true
mark_beq (some a) (some b) = a == b
mark_beq _ _ = false

abbrev pub same_result : MarkedRow → MarkedRow → Bool
same_result a b = mark_beq a.mark b.mark && (a.nom_cp == b.nom_cp)

-- The row of a key in the dictionary, which keeps the first row of each.
unfoldable pub seen_row : MarkedRow → List MarkedRow → Option MarkedRow
seen_row row [] = none
seen_row row (s ∷ seen) = if same_key s row then some s else seen_row row seen

-- What a row makes of the dictionary.
abbrev pub add_seen : MarkedRow → List MarkedRow → Option MarkedRow → Reading (List MarkedRow)
add_seen row seen none = read (seen ++ row ∷ [])
add_seen row seen (some s) = if same_result s row then read seen else unreadable conflicting_rows

unfoldable pub unique_from : List MarkedRow → List MarkedRow → Reading (List MarkedRow)
unfolding seen_row
unique_from seen [] = read seen
unique_from seen (row ∷ rows) =
    add_seen row seen (seen_row row seen) >>= λ seen'. unique_from seen' rows

-- _unique
unfoldable pub unique : List MarkedRow → Reading (List MarkedRow)
unfolding unique_from
unique rows = unique_from [] rows

-- The credit points and the weighted marks so far.
pub record Sums : Type 0 where
  pub total_cp : ℤ
  pub weighted : ℤ

abbrev pub add_mark : MarkedRow → Sums → Option ℕ → Sums
add_mark row s none = s
add_mark row s (some m) = record {
  total_cp = s.total_cp +ℤ row.nom_cp;
  weighted = s.weighted +ℤ times row.nom_cp m;
}

abbrev pub counted_mark : MarkedRow → Reading (Option ℕ)
counted_mark row = if elem row.status counted_statuses then checked_mark row else read none

unfoldable pub sum_rows : List MarkedRow → Sums → Reading Sums
unfolding checked_mark
sum_rows [] s = read s
sum_rows (row ∷ rows) s = counted_mark row >>= λ m. sum_rows rows (add_mark row s m)

-- WamResult; the average is in hundredths.
pub record WamResult : Type 0 where
  pub wam : Option ℤ
  pub total_credit_points : ℤ

-- A quotient with its sign, from the magnitudes.
abbrev with_sign : Bool → ℕ → ℤ
with_sign true n = negate n
with_sign false n = pos n

-- (weighted / total_cp).quantize(0.01, ROUND_DOWN), which cuts towards zero.
abbrev pub quotient : ℤ → ℤ → ℤ
quotient weighted total_cp =
    with_sign (not (bool_beq (is_negative weighted) (is_negative total_cp)))
      (magnitude weighted * 100 / magnitude total_cp)

abbrev pub average : ℤ → ℤ → Option ℤ
average weighted total_cp = if total_cp == pos 0 then none else some (quotient weighted total_cp)

abbrev pub result_of : Sums → WamResult
result_of s = record { wam = average s.weighted s.total_cp; total_credit_points = s.total_cp }

abbrev pub marked_rows : List AnyRow → List MarkedRow
marked_rows [] = []
marked_rows (row ∷ rows) = marked_row row ∷ marked_rows rows

unfoldable pub wam_of_rows : List MarkedRow → Reading WamResult
unfolding unique sum_rows
wam_of_rows rows = unique rows >>= λ kept.
    sum_rows kept (record { total_cp = pos 0; weighted = pos 0 }) >>= λ s. read (result_of s)

-- calculate_wam
unfoldable pub calculate_wam : Text → Reading WamResult
unfolding parse_enrolment wam_of_rows
calculate_wam raw_sols = parse_enrolment raw_sols true >>= λ r. wam_of_rows (marked_rows r.rows)

-- Two digits after the point.
abbrev two_digits : ℕ → Text
two_digits n = if leb n 9 then b'0' ∷ text_of_nat n else text_of_nat n

abbrev sign_of : ℤ → Text
sign_of n = if is_negative n then codes "-" else []

abbrev hundredths : ℤ → Text
hundredths n = sign_of n ++ text_of_nat (magnitude n / 100) ++ b'.' ∷ two_digits (magnitude n % 100)

-- describe_for_prompt
unfoldable pub describe_for_prompt : WamResult → Text
unfolding text_of_nat text_of_int
describe_for_prompt r = elim r.wam [
  | none ↦ codes "WAM: not available yet (no subject in this record has a final mark)."
  | some w ↦
      codes "WAM (calculated by the server from the student's marks): "
      ++ hundredths w
      ++ codes " across "
      ++ text_of_int r.total_credit_points
      ++ codes
          " credit points. WAMs are truncated, not rounded up, and this is a guide only. You do not have the individual marks or grades; do not estimate or recalculate the WAM."
]
