-- ===== src/Enrolment/Flat.antt =====
-- A paste whose table markup did not survive the copy, and the choice between the two parsers.
use intelli_study_planner_br.Base.{
  Bool, true, false, not, Option, none, some, List, [], ◌∷◌, Text, codes, ltb, length,
  if◌then◌else◌, ◌==◌, nat_eq, text_eq, strip, lstrip, squeeze, starts_with, is_empty, is_digit,
  any, keep, replace_char, upper,
}
use intelli_study_planner_br.Regex.{
  Regex, Scan, text_end, word_boundary, group, search, is_found, find_iter, matched, ahead,
  not_ahead, ◌>>◌, ◌or◌, opt, plus, star, lazy, lit, ilit, any_of, any_ilit, space, digit, capital,
  letter, char_where, one_of, lazy_upto, repeat, group_of,
}
use intelli_study_planner_br.Enrolment.Cells.{split_lines}
use intelli_study_planner_br.Enrolment.Rows.{
  AnyRow, EnrolmentRecord, Reading, read, unreadable, ◌>>=◌, unread_codes, unread_row, lost_credit,
  no_history, bad_code, bad_grade, checked, is_subject_code, is_known_grade, numbered, campus_half,
}
use intelli_study_planner_br.Enrolment.Header.{Header, no_header, add_major, captured}
use intelli_study_planner_br.Enrolment.Table.{parse_table}

-- KNOWN_SESSIONS
abbrev known_sessions : List Text
known_sessions =
    codes "Annual" ∷ codes "Autumn" ∷ codes "Spring" ∷ codes "Summer" ∷ codes "Winter" ∷ []

-- The known grades and statuses, the longest first.
abbrev grade_words : List Text
grade_words =
    codes "IPC"
    ∷ codes "IPR"
    ∷ codes "HD"
    ∷ codes "PS"
    ∷ codes "TF"
    ∷ codes "CO"
    ∷ codes "WH"
    ∷ codes "WD"
    ∷ codes "WS"
    ∷ codes "ND"
    ∷ codes "D"
    ∷ codes "C"
    ∷ codes "P"
    ∷ codes "F"
    ∷ codes "U"
    ∷ codes "S"
    ∷ codes "E"
    ∷ []

abbrev status_words : List Text
status_words =
    codes "Not Counted (Prior Course)"
    ∷ codes "Withheld Supplementary"
    ∷ codes "Approved Withdrawal"
    ∷ codes "Withheld Deferred"
    ∷ codes "Leave of Absence"
    ∷ codes "Provisional"
    ∷ codes "Withdrawn"
    ∷ codes "Complete"
    ∷ codes "Enrolled"
    ∷ codes "Withheld"
    ∷ codes "Failed"
    ∷ []

abbrev century : Regex
century = (lit (codes "19") or lit (codes "20")) >> digit >> digit

abbrev code_word : Regex
code_word = repeat 2 4 capital >> repeat 3 3 digit >> opt capital

-- _FLAT_ROW: its groups are year 1, session 2, campus 3, code 4, nom_cp 5, mark 6, grade 7, status 8.
abbrev pub flat_row : Regex
flat_row =
    group 1 century
    >> plus space
    >> group 2 (any_of known_sessions)
    >> plus space
    >> group 3 (letter >> lazy (letter or one_of (codes "/ ")))
    >> plus space
    >> group 4 code_word
    >> plus space
    >> group 5 (repeat 1 2 digit)
    >> opt (plus space >> group 6 (repeat 1 3 digit))
    >> opt (plus space >> group 7 (any_of grade_words))
    >> plus space
    >> group 8 (any_of status_words)
    >> not_ahead letter

-- _FLAT_CREDIT, its body in group 1.
abbrev flat_credit : Regex
flat_credit =
    word_boundary
    >> (ilit (codes "Unspecified") or ilit (codes "Specified"))
    >> plus space
    >> ilit (codes "Credit")
    >> word_boundary
    >> group 1 (star (char_where (λ c. not (c == b'#'))))

-- _FLAT_LABELS, the longest first.
abbrev flat_labels : List Text
flat_labels =
    codes "Effective Date"
    ∷ codes "Second Major"
    ∷ codes "Honours GPA"
    ∷ codes "Supervisor"
    ∷ codes "Instance"
    ∷ codes "Delivery"
    ∷ codes "Student"
    ∷ codes "Course"
    ∷ codes "Campus"
    ∷ codes "Status"
    ∷ codes "Notes"
    ∷ codes "Note"
    ∷ codes "GPA"
    ∷ codes "WAM"
    ∷ []

-- _FLAT_END
abbrev flat_end : Regex
flat_end = ahead (
    (plus space
      >> (((any_ilit flat_labels
              or (ilit (codes "Major") >> opt (plus space >> plus digit))
              or (ilit (codes "Second") >> plus space >> ilit (codes "Major")))
            >> star space
            >> lit (codes ":"))
          or (ilit (codes "Year") >> plus space >> ilit (codes "Session") >> word_boundary)
          or (century >> space)))
    or (star space >> text_end))

abbrev flat_course : Regex
flat_course =
    word_boundary
    >> ilit (codes "Course")
    >> star space
    >> lit (codes ":")
    >> star space
    >> group 1 (repeat 3 4 digit)
    >> word_boundary

abbrev flat_campus : Regex
flat_campus =
    word_boundary
    >> ilit (codes "Campus")
    >> star space
    >> lit (codes ":")
    >> star space
    >> group 1 (letter >> lazy_upto 40 (letter or lit (codes " ")))
    >> flat_end

-- The dash of the third class is an em dash.
abbrev flat_major : Regex
flat_major =
    word_boundary
    >> opt (ilit (codes "Second") >> plus space)
    >> ilit (codes "Major")
    >> opt (plus space >> plus digit)
    >> star space
    >> lit (codes ":")
    >> star space
    >> group 1 (letter >> lazy_upto 60 (letter or digit or one_of (8212 ∷ codes " &-")))
    >> flat_end

-- " ".join(raw_sols.replace("|", " ").replace("*", " ").split())
unfoldable pub flat_text : Text → Text
unfolding strip squeeze
flat_text raw_sols = strip (squeeze (replace_char b'*' 32 (replace_char b'|' 32 raw_sols)))

-- Whether text stands between two rows.
unfoldable pub has_leftover : List (Scan × Scan) → Bool
unfolding strip matched
has_leftover [] = false
has_leftover (row ∷ []) = false
has_leftover ((b, e) ∷ (b', e') ∷ rows) =
    let later = has_leftover ((b', e') ∷ rows) in
    if is_empty (strip (matched (e, b'))) then later else true

-- text[matches[-1].end():]
unfoldable pub tail_of : List (Scan × Scan) → Text
tail_of [] = []
tail_of ((b, e) ∷ []) = e.rest
tail_of (row ∷ row' ∷ rows) = tail_of (row' ∷ rows)

unfoldable pub has_credit : Text → Bool
unfolding find_iter group_of
has_credit tail =
    any (λ (m : Scan × Scan). any is_digit (captured 1 m.1)) (find_iter flat_credit tail)

abbrev first_capture : Option (Scan × Scan) → Option Text
first_capture none = none
first_capture (some (b, e)) = some (captured 1 e)

abbrev stripped : Option Text → Option Text
stripped none = none
stripped (some v) = some (strip v)

unfoldable pub add_majors : List (Scan × Scan) → Header → Header
unfolding add_major strip group_of
add_majors [] h = h
add_majors ((b, e) ∷ ms) h = add_majors ms (add_major (strip (captured 1 e)) h)

unfoldable pub flat_header : Text → Header
unfolding search find_iter group_of strip add_majors
flat_header preamble = add_majors (find_iter flat_major preamble) (record no_header {
  course_code = first_capture (search flat_course preamble);
  campus = stripped (first_capture (search flat_campus preamble));
})

abbrev upper_of : Option Text → Option Text
upper_of none = none
upper_of (some g) = some (upper g)

-- The row of a match; the two numbers are digits.
unfoldable pub flat_enrolment_row : Bool → Scan → Reading AnyRow
unfolding group_of upper is_subject_code campus_half
flat_enrolment_row keep_marks m = checked bad_code (is_subject_code code) (
    checked bad_grade (is_known_grade grade) (
      numbered keep_marks (captured 1 m) (captured 5 m) (captured 6 m) (λ year nom_cp. record {
        year = year;
        session = captured 2 m;
        campus = campus_half (captured 3 m);
        code = code;
        nom_cp = nom_cp;
        grade = grade;
        status = captured 8 m;
      })))
  where
    code : Text
    code = upper (captured 4 m)

    grade : Option Text
    grade = upper_of (group_of 7 m.groups)

unfoldable pub flat_rows : Bool → List (Scan × Scan) → Reading (List AnyRow)
unfolding flat_enrolment_row
flat_rows keep_marks [] = read []
flat_rows keep_marks ((b, e) ∷ ms) =
    flat_enrolment_row keep_marks e >>= λ row. flat_rows keep_marks ms >>= λ rows. read (row ∷ rows)

abbrev pub flat_record : Header → List AnyRow → Reading EnrolmentRecord
flat_record h rows = read (record {
  course_code = h.course_code;
  campus = h.campus;
  majors = h.majors;
  rows = rows;
  specified_credit = [];
  unspecified_credit = [];
})

abbrev pub parse_matches : Text → Bool → List (Scan × Scan) → Reading EnrolmentRecord
parse_matches text keep_marks matches =
    if is_empty matches
    then unreadable (
        if is_found (word_boundary >> code_word >> word_boundary) text
        then unread_codes
        else no_history)
    else if has_leftover matches
    then unreadable unread_row
    else if has_credit (tail_of matches)
    then unreadable lost_credit
    else flat_rows keep_marks matches >>= flat_record (flat_header text)

-- _parse_flat
unfoldable pub parse_flat : Text → Bool → Reading EnrolmentRecord
unfolding flat_text find_iter is_found has_leftover tail_of has_credit flat_rows flat_header
parse_flat raw_sols keep_marks = parse_matches text keep_marks (find_iter flat_row text)
  where
    text : Text
    text = flat_text raw_sols

abbrev is_table : Text → Bool
is_table raw_sols =
    ltb 1 (length (keep (λ line. starts_with (lstrip line) (codes "|")) (split_lines raw_sols)))

-- parse_enrolment
unfoldable pub parse_enrolment : Text → Bool → Reading EnrolmentRecord
unfolding lstrip starts_with split_lines parse_table parse_flat
parse_enrolment raw_sols keep_marks =
    if is_table raw_sols then parse_table raw_sols keep_marks else parse_flat raw_sols keep_marks
