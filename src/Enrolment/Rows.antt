-- ===== src/Enrolment/Rows.antt =====
-- The rows of an enrolment record, and how a row of a table is read.
use intelli_study_planner_br.Base.{
  ℕ, ℤ, pos, negsuc, Bool, true, false, Option, none, some, List, [], ◌∷◌, Text, codes, leb,
  if◌then◌else◌, elem, text_eq, upper, strip, int_of_text, is_empty,
}
use intelli_study_planner_br.Regex.{
  Regex, text_start, text_end, match, ◌>>◌, opt, capital, digit, repeat, Scan,
}
use intelli_study_planner_br.Enrolment.Cells.{split_on, Cells, get, text_of, or_none}

-- Why a record cannot be read: the messages of UnreadableRecord here and in app/services/wam.py.
pub data Problem : Type 0 where
  bad_code bad_grade bad_status bad_number bad_mark column_count no_history unread_codes unread_row
        lost_credit :
      Problem
  bad_weight no_result no_mark mark_mismatch conflicting_rows : Problem

pub data Reading {ℓ} (A : Type ℓ) : Type ℓ where
  read : A → Reading A
  unreadable : Problem → Reading A

infixl 5 ◌>>=◌
abbrev pub ◌>>=◌ {ℓ κ} : {A : Type ℓ} {B : Type κ} → Reading A → (A → Reading B) → Reading B
read a >>= f = f a
unreadable p >>= f = unreadable p

abbrev pub known_grades : List Text
known_grades =
    codes "HD"
    ∷ codes "D"
    ∷ codes "C"
    ∷ codes "P"
    ∷ codes "PS"
    ∷ codes "F"
    ∷ codes "TF"
    ∷ codes "U"
    ∷ codes "CO"
    ∷ codes "S"
    ∷ codes "E"
    ∷ codes "IPC"
    ∷ codes "IPR"
    ∷ codes "WH"
    ∷ codes "WD"
    ∷ codes "WS"
    ∷ codes "ND"
    ∷ []

abbrev pub known_statuses : List Text
known_statuses =
    codes "Complete"
    ∷ codes "Enrolled"
    ∷ codes "Withdrawn"
    ∷ codes "Approved Withdrawal"
    ∷ codes "Withheld"
    ∷ codes "Withheld Deferred"
    ∷ codes "Withheld Supplementary"
    ∷ codes "Failed"
    ∷ codes "Provisional"
    ∷ codes "Leave of Absence"
    ∷ codes "Not Counted (Prior Course)"
    ∷ []

pub record EnrolmentRow : Type 0 where
  pub year : ℤ
  pub session : Text
  pub campus : Text
  pub code : Text
  pub nom_cp : ℤ
  pub grade : Option Text
  pub status : Text

-- EnrolmentRow, or MarkedEnrolmentRow with its mark.
pub data AnyRow : Type 0 where
  plain : EnrolmentRow → AnyRow
  marked : EnrolmentRow → Option ℕ → AnyRow

abbrev pub fields_of : AnyRow → EnrolmentRow
fields_of (plain row) = row
fields_of (marked row mark) = row

pub record CreditRow : Type 0 where
  pub course : Text
  pub code : Option Text
  pub level : Option Text
  pub nom_cp : ℤ

pub record EnrolmentRecord : Type 0 where
  pub course_code : Option Text
  pub campus : Option Text
  pub majors : List Text
  pub rows : List AnyRow
  pub specified_credit : List CreditRow
  pub unspecified_credit : List CreditRow

-- _SUBJECT_CODE
abbrev subject_code : Regex
subject_code = text_start >> repeat 2 4 capital >> repeat 3 3 digit >> opt capital >> text_end

abbrev is_some : Option Scan → Bool
is_some none = false
is_some (some s) = true

unfoldable pub is_subject_code : Text → Bool
unfolding match
is_subject_code code = is_some (match subject_code code)

unfoldable pub checked : {A : Type 0} → Problem → Bool → Reading A → Reading A
checked p ok r = if ok then r else unreadable p

abbrev number_or : Option ℤ → Reading ℤ
number_or none = unreadable bad_number
number_or (some n) = read n

-- _require_int
unfoldable pub require_int : Text → Reading ℤ
unfolding int_of_text
require_int value = number_or (int_of_text value)

abbrev pub checked_mark : ℤ → Reading (Option ℕ)
checked_mark (pos n) = if leb n 100 then read (some n) else unreadable bad_mark
checked_mark (negsuc n) = unreadable bad_mark

-- _read_mark
unfoldable pub read_mark : Text → Reading (Option ℕ)
unfolding require_int
read_mark [] = read none
read_mark (c ∷ s) = require_int (c ∷ s) >>= checked_mark

abbrev pub is_known_grade : Option Text → Bool
is_known_grade none = true
is_known_grade (some g) = elem g known_grades

abbrev first_of : List Text → Text
first_of [] = []
first_of (s ∷ ss) = s

-- campus.split("/")[0].strip()
unfoldable pub campus_half : Text → Text
unfolding split_on strip
campus_half s = strip (first_of (split_on b'/' s))

-- The row with its mark, where marks are kept.
abbrev pub with_mark : Bool → Text → EnrolmentRow → Reading AnyRow
with_mark true mark row = read_mark mark >>= λ m. read (marked row m)
with_mark false mark row = read (plain row)

-- The row with its two numbers and its mark, from their texts.
unfoldable pub numbered : Bool → Text → Text → Text → (ℤ → ℤ → EnrolmentRow) → Reading AnyRow
unfolding require_int read_mark
numbered keep_marks year nom_cp mark row =
    require_int year >>= λ y. require_int nom_cp >>= λ n. with_mark keep_marks mark (row y n)

-- `cells.get("campus/delivery") or cells.get("campus", "")`
abbrev pub campus_cell : Cells → Text
campus_cell cells =
    let delivery = text_of (get (codes "campus/delivery") cells) in
    if is_empty delivery then text_of (get (codes "campus") cells) else delivery

-- _enrolment_row
unfoldable pub enrolment_row : Cells → Bool → Reading AnyRow
unfolding get upper is_subject_code campus_half
enrolment_row cells keep_marks = checked bad_code (is_subject_code code) (
    checked bad_grade (is_known_grade grade) (
      checked bad_status (elem status known_statuses) (
        numbered keep_marks (text_of (get (codes "year") cells))
          (text_of (get (codes "nom cp") cells)) (text_of (get (codes "mark") cells))
          (λ year nom_cp. record {
            year = year;
            session = text_of (get (codes "session") cells);
            campus = campus_half (campus_cell cells);
            code = code;
            nom_cp = nom_cp;
            grade = grade;
            status = status;
          }))))
  where
    code : Text
    code = upper (text_of (get (codes "subject code") cells))

    grade : Option Text
    grade = or_none (upper (text_of (get (codes "grade") cells)))

    status : Text
    status = text_of (get (codes "status") cells)

abbrev pub is_code_or_none : Option Text → Bool
is_code_or_none none = true
is_code_or_none (some code) = is_subject_code code

-- _credit_row
unfoldable pub credit_row : Cells → Reading CreditRow
unfolding get upper is_subject_code
credit_row cells = checked bad_code (is_code_or_none code) (
    require_int (text_of (get (codes "nom cp") cells)) >>= λ nom_cp. read (record {
      course = text_of (get (codes "course") cells);
      code = code;
      level = or_none (text_of (get (codes "level") cells));
      nom_cp = nom_cp;
    }))
  where
    code : Option Text
    code = or_none (upper (text_of (get (codes "subject code") cells)))
