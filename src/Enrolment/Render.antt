-- ===== src/Enrolment/Render.antt =====
-- The record that the advisor reads.
use intelli_study_planner_br.Base.{
  ℕ, zero, suc, false, Option, none, some, List, [], ◌∷◌, ◌++◌, Text, codes, map, join, text_of_int,
  text_of_nat,
}
use intelli_study_planner_br.Enrolment.Cells.{text_of}
use intelli_study_planner_br.Enrolment.Rows.{
  EnrolmentRow, CreditRow, EnrolmentRecord, Reading, read, ◌>>=◌, fields_of,
}
use intelli_study_planner_br.Enrolment.Flat.{parse_enrolment}

-- A line of a table.
unfoldable pub table_line : List Text → Text
unfolding join
table_line cells = codes "| " ++ join (codes " | ") cells ++ codes " |"

-- _table
unfoldable pub table : List Text → List (List Text) → List Text
unfolding table_line join
table headings rows =
    table_line headings
    ∷ (codes "|" ++ join (codes "|") (map (λ heading. codes "---") headings) ++ codes "|")
    ∷ map table_line rows

-- The cells of a row, by the columns of the rendered table.
unfoldable pub row_cells : EnrolmentRow → List Text
unfolding text_of_int
row_cells row =
    text_of_int row.year
    ∷ row.session
    ∷ row.campus
    ∷ row.code
    ∷ text_of_int row.nom_cp
    ∷ text_of row.grade
    ∷ row.status
    ∷ []

abbrev pub headings : List Text
headings =
    codes "Year"
    ∷ codes "Session"
    ∷ codes "Campus"
    ∷ codes "Subject Code"
    ∷ codes "Nom CP"
    ∷ codes "Grade"
    ∷ codes "Status"
    ∷ []

abbrev field_line : Text → Option Text → List Text
field_line label none = []
field_line label (some []) = []
field_line label (some (c ∷ s)) = (codes "**" ++ label ++ codes ":** " ++ c ∷ s) ∷ []

-- `enumerate(record.majors)`: the label of all but the first has a number.
abbrev number_after : ℕ → Text
number_after zero = []
number_after (suc n) = 32 ∷ text_of_nat (suc (suc n))

unfoldable pub major_lines : ℕ → List Text → List Text
unfolding text_of_nat
major_lines index [] = []
major_lines index (major ∷ majors) =
    (codes "**Major" ++ number_after index ++ codes ":** " ++ major)
    ∷ major_lines (suc index) majors

abbrev credit_lines : Text → List Text → (CreditRow → List Text) → List CreditRow → List Text
credit_lines title columns cells [] = []
credit_lines title columns cells (row ∷ rows) =
    [] ∷ (codes "## " ++ title) ∷ [] ∷ table columns (map cells (row ∷ rows))

abbrev specified_cells : CreditRow → List Text
specified_cells row = row.course ∷ text_of row.code ∷ text_of_int row.nom_cp ∷ []

abbrev unspecified_cells : CreditRow → List Text
unspecified_cells row = row.course ∷ text_of row.level ∷ text_of_int row.nom_cp ∷ []

-- render_for_llm
unfoldable pub render_for_llm : EnrolmentRecord → Text
unfolding join table text_of_int major_lines row_cells
render_for_llm r = join (10 ∷ []) (
    (codes "# Enrolment Record" ∷ [] ∷ [])
    ++ field_line (codes "Course") r.course_code
    ++ field_line (codes "Campus") r.campus
    ++ major_lines 0 r.majors
    ++ ([] ∷ codes "## Enrolment History" ∷ [] ∷ [])
    ++ table headings (map (λ row. row_cells (fields_of row)) r.rows)
    ++ credit_lines (codes "Specified Credit")
        (codes "Course" ∷ codes "Subject Code" ∷ codes "Nom CP" ∷ []) specified_cells
        r.specified_credit
    ++ credit_lines (codes "Unspecified Credit")
        (codes "Course" ∷ codes "Level" ∷ codes "Nom CP" ∷ []) unspecified_cells
        r.unspecified_credit)

-- project
unfoldable pub project : Text → Reading Text
unfolding parse_enrolment render_for_llm
project raw_sols = parse_enrolment raw_sols false >>= λ r. read (render_for_llm r)
