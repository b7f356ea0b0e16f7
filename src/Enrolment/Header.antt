-- ===== src/Enrolment/Header.antt =====
-- The header of a record: course, campus and majors.
use intelli_study_planner_br.Base.{
  ℕ, Bool, true, false, not, ◌&&◌, ◌||◌, Option, none, some, List, [], ◌∷◌, ◌++◌, Text, codes, ltb,
  length, if◌then◌else◌, strip, is_empty, keep, ◌==◌, nat_eq,
}
use mathlib.Core.List.{reverse}
use intelli_study_planner_br.Regex.{
  Regex, Scan, text_start, text_end, word_boundary, group, group_of, match, search, ◌>>◌, ◌or◌, opt,
  plus, star, lazy, lit, ilit, any_ilit, space, digit, capital, letter, dot, upto, repeat,
}

pub record Header : Type 0 where
  pub course_code : Option Text
  pub campus : Option Text
  pub majors : List Text
  pub pending_major : Bool

abbrev pub no_header : Header
no_header = record { course_code = none; campus = none; majors = []; pending_major = false }

abbrev stars : Regex
stars = upto 2 (lit (codes "*"))

-- _COURSE
abbrev pub course_line : Regex
course_line =
    text_start
    >> stars
    >> ilit (codes "Course")
    >> opt (lit (codes ":"))
    >> stars
    >> star space
    >> group 1 (repeat 3 4 digit)
    >> word_boundary

-- _CAMPUS
abbrev pub campus_line : Regex
campus_line =
    text_start
    >> stars
    >> ilit (codes "Campus")
    >> opt (lit (codes ":"))
    >> stars
    >> star space
    >> group 1 (letter >> lazy (letter or lit (codes " ")))
    >> star space
    >> (lit (codes "|") or text_end)

-- _MAJOR
abbrev pub major_line : Regex
major_line =
    text_start
    >> stars
    >> opt (ilit (codes "Second") >> plus space)
    >> ilit (codes "Major")
    >> opt (plus space >> plus digit)
    >> star space
    >> opt (lit (codes ":"))
    >> stars
    >> star space
    >> group 1 (lazy dot)
    >> star space
    >> text_end

-- _MAJOR_CODE
abbrev major_code : Regex
major_code = text_start >> group 1 (repeat 2 6 capital) >> word_boundary

-- _MAJOR_TITLE
abbrev major_title : Regex
major_title =
    text_start
    >> capital
    >> star letter
    >> repeat 1 7 (lit (codes " ") >> plus (letter or lit (codes "&") or lit (codes "-")))
    >> text_end

-- _UNDECLARED
abbrev undeclared : Regex
undeclared =
    text_start
    >> (any_ilit (
        codes "not yet declared"
        ∷ codes "undeclared"
        ∷ codes "none"
        ∷ codes "na"
        ∷ codes "n/a"
        ∷ codes "tbd"
        ∷ []))
    >> text_end

abbrev honours : Regex
honours = plus space >> ilit (codes "Honour") >> opt (ilit (codes "s")) >> text_end

abbrev pub is_some : Option Scan → Bool
is_some none = false
is_some (some s) = true

-- The value of a group that took part in the match.
abbrev pub captured : ℕ → Scan → Text
captured n s = elim (group_of n s.groups) [ none ↦ [] | some v ↦ v ]

abbrev cut : Text → Option (Scan × Scan) → Text
cut value none = value
cut value (some (s, t)) = reverse s.before ++ t.rest

-- re.sub(r"\s+Honours?$", "", value).strip()
unfoldable pub drop_honours : Text → Text
unfolding search strip
drop_honours value = strip (cut value (search honours value))

abbrev pub with_major : Text → Header → Header
with_major value h = record h { majors = h.majors ++ value ∷ [] }

abbrev pub add_unless_code : Text → Header → Option Scan → Header
add_unless_code value h none =
    if is_some (match major_title value) && not (is_some (match undeclared value))
    then with_major (drop_honours value) h
    else h
add_unless_code value h (some s) = with_major (captured 1 s) h

-- _add_major
unfoldable pub add_major : Text → Header → Header
unfolding match group_of drop_honours
add_major value h = add_unless_code value h (match major_code value)

abbrev major_found : Header → Option Scan → Header
major_found h none = h
major_found h (some s) =
    let value = strip (captured 1 s) in
    if is_empty value then record h { pending_major = true } else add_major value h

abbrev campus_found : Text → Header → Option Scan → Header
campus_found line h none = major_found h (match major_line line)
campus_found line h (some s) = elim h.campus [
  | none ↦ record h { campus = some (strip (captured 1 s)) }
  | some c ↦ major_found h (match major_line line)
]

abbrev course_found : Text → Header → Option Scan → Header
course_found line h none = campus_found line h (match campus_line line)
course_found line h (some s) = elim h.course_code [
  | none ↦ record h { course_code = some (captured 1 s) }
  | some c ↦ campus_found line h (match campus_line line)
]

-- A line that is not the value of an earlier label.
unfoldable pub read_label : Text → Header → Header
unfolding match group_of strip add_major
read_label line h = course_found line h (match course_line line)

abbrev is_label : Text → Bool
is_label line =
    is_some (match course_line line)
    || is_some (match campus_line line)
    || is_some (match major_line line)

abbrev after_pending : Text → Header → Header → Header
after_pending line h added =
    let closed = record added { pending_major = false } in
    if ltb (length h.majors) (length added.majors) then closed else read_label line closed

-- _read_header_line
unfoldable pub read_header_line : Text → Header → Header
unfolding match strip add_major read_label
read_header_line line h =
    if h.pending_major
    then if not (is_empty value) && not (is_label line)
      then after_pending line h (add_major value h)
      else read_label line (record h { pending_major = false })
    else read_label line h
  where
    value : Text
    value = strip (keep (λ c. not (c == b'*')) line)
