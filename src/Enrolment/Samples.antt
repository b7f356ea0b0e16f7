-- ===== src/Enrolment/Samples.antt =====
-- Tests and witnesses of the enrolment records.
use intelli_study_planner_br.Base.{
  pos, ◌≡◌, refl, true, false, none, some, List, [], ◌∷◌, Text, codes, join,
}
use intelli_study_planner_br.Enrolment.Rows.{
  AnyRow, plain, marked, EnrolmentRow, EnrolmentRecord, read, checked, numbered,
}
use intelli_study_planner_br.Enrolment.Flat.{parse_enrolment}
use intelli_study_planner_br.Enrolment.Cells.{split_row}
use intelli_study_planner_br.Enrolment.Render.{table_line}
use intelli_study_planner_br.Enrolment.Marks.{parse_enrolment-unmarked}
use intelli_study_planner_br.Enrolment.Shapes.{record_shaped, parse_enrolment-shaped}
use intelli_study_planner_br.Enrolment.Trimmed.{split_row-table_line}

abbrev pasted : Text
pasted = join (10 ∷ []) (
    codes "**Course:** 766"
    ∷ codes "Major: CYSEC — Cyber"
    ∷ codes "| Year | Session | Campus/Delivery | Subject Code | Nom CP | Mark | Grade | Status |"
    ∷ codes "|---|---|---|---|---|---|---|---|"
    ∷ codes "| 2024 | Autumn | Wollongong/On Campus | csit110 | 6 | 81 | D | Complete |"
    ∷ [])

abbrev row : EnrolmentRow
row = record {
  year = pos 2024;
  session = codes "Autumn";
  campus = codes "Wollongong";
  code = codes "CSIT110";
  nom_cp = pos 6;
  grade = some (codes "D");
  status = codes "Complete";
}

abbrev with_rows : List AnyRow → EnrolmentRecord
with_rows rows = record {
  course_code = some (codes "766");
  campus = none;
  majors = codes "CYSEC" ∷ [];
  rows = rows;
  specified_credit = [];
  unspecified_credit = [];
}

reads_table : parse_enrolment pasted true ≡ read (with_rows (marked row (some 81) ∷ []))
unfolding parse_enrolment join checked numbered
reads_table = refl

abbrev pasted_flat : Text
pasted_flat =
    codes
      "Course: 766 Campus: Wollongong Major: Network Design Honours GPA: 3.8 Year Session 2024 Autumn Wollongong CSIT110 6 81 D Complete 2025 Spring Wollongong CSIT214 6 Enrolled"

abbrev later : EnrolmentRow
later = record {
  year = pos 2025;
  session = codes "Spring";
  campus = codes "Wollongong";
  code = codes "CSIT214";
  nom_cp = pos 6;
  grade = none;
  status = codes "Enrolled";
}

reads_flat :
    parse_enrolment pasted_flat true
    ≡ read (record {
      course_code = some (codes "766");
      campus = some (codes "Wollongong");
      majors = codes "Network Design" ∷ [];
      rows = marked row (some 81) ∷ marked later none ∷ [];
      specified_credit = [];
      unspecified_credit = [];
    })
unfolding parse_enrolment checked numbered
reads_flat = refl

parse_enrolment-unmarked_example : parse_enrolment pasted false ≡ read (with_rows (plain row ∷ []))
parse_enrolment-unmarked_example =
    parse_enrolment-unmarked pasted (with_rows (marked row (some 81) ∷ [])) reads_table

parse_enrolment-shaped_example : record_shaped (with_rows (marked row (some 81) ∷ [])) ≡ true
parse_enrolment-shaped_example =
    parse_enrolment-shaped pasted true (with_rows (marked row (some 81) ∷ [])) reads_table

split_row-table_line_example :
    split_row (table_line (codes "2024" ∷ [] ∷ codes "On Campus" ∷ []))
    ≡ codes "2024" ∷ [] ∷ codes "On Campus" ∷ []
split_row-table_line_example =
    split_row-table_line (codes "2024") ([] ∷ codes "On Campus" ∷ []) refl
