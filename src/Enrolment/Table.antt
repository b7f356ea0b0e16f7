-- ===== src/Enrolment/Table.antt =====
-- A paste that still has its markdown tables.
use intelli_study_planner_br.Base.{
  Bool, Option, none, some, List, [], ◌∷◌, ◌++◌, Text, codes, length, if◌then◌else◌, ◌==◌, nat_eq,
  strip, starts_with, map, is_empty,
}
use intelli_study_planner_br.Enrolment.Cells.{
  Kind, enrolment, specified, unspecified, Cells, split_row, norm, is_separator, classify, zip,
  split_lines,
}
use intelli_study_planner_br.Enrolment.Rows.{
  AnyRow, CreditRow, EnrolmentRecord, Reading, read, unreadable, ◌>>=◌, column_count, no_history,
  enrolment_row, credit_row,
}
use intelli_study_planner_br.Enrolment.Header.{Header, no_header, read_header_line}

-- The local variables of the loop.
pub record Loop : Type 0 where
  pub header : Header
  pub rows : List AnyRow
  pub specified_credit : List CreditRow
  pub unspecified_credit : List CreditRow
  pub table : Option Kind
  pub columns : List Text

abbrev pub first_loop : Loop
first_loop = record {
  header = no_header;
  rows = [];
  specified_credit = [];
  unspecified_credit = [];
  table = none;
  columns = [];
}

unfoldable pub add_row : Bool → Loop → Cells → Kind → Reading Loop
unfolding enrolment_row credit_row
add_row keep_marks l cells enrolment =
    enrolment_row cells keep_marks >>= λ row. read (record l { rows = l.rows ++ row ∷ [] })
add_row keep_marks l cells specified = credit_row cells >>= λ row.
    read (record l { specified_credit = l.specified_credit ++ row ∷ [] })
add_row keep_marks l cells unspecified = credit_row cells >>= λ row.
    read (record l { unspecified_credit = l.unspecified_credit ++ row ∷ [] })

abbrev pub table_row : Bool → Loop → List Text → Option Kind → Reading Loop
table_row keep_marks l cells none = read l
table_row keep_marks l cells (some kind) =
    if length cells == length l.columns
    then add_row keep_marks l (zip l.columns cells) kind
    else unreadable column_count

abbrev pub heading_or_row : Bool → Loop → List Text → Option Kind → Reading Loop
heading_or_row keep_marks l cells none = table_row keep_marks l cells l.table
heading_or_row keep_marks l cells (some kind) =
    read (record l { table = some kind; columns = map norm cells })

-- One round, on the stripped line.
unfoldable pub read_line : Bool → Loop → Text → Reading Loop
unfolding starts_with read_header_line split_row is_separator classify norm add_row zip
read_line keep_marks l line =
    if starts_with line (codes "|")
    then if is_separator (split_row line)
      then read l
      else heading_or_row keep_marks l (split_row line) (classify (map norm (split_row line)))
    else read (record l { table = none; columns = []; header = read_header_line line l.header })

unfoldable pub read_lines : Bool → Loop → List Text → Reading Loop
unfolding read_line strip
read_lines keep_marks l [] = read l
read_lines keep_marks l (line ∷ lines) =
    read_line keep_marks l (strip line) >>= λ l'. read_lines keep_marks l' lines

abbrev pub table_record : Loop → Reading EnrolmentRecord
table_record l =
    if is_empty l.rows
    then unreadable no_history
    else read (record {
      course_code = l.header.course_code;
      campus = l.header.campus;
      majors = l.header.majors;
      rows = l.rows;
      specified_credit = l.specified_credit;
      unspecified_credit = l.unspecified_credit;
    })

-- _parse_table
unfoldable pub parse_table : Text → Bool → Reading EnrolmentRecord
unfolding read_lines split_lines
parse_table raw_sols keep_marks =
    read_lines keep_marks first_loop (split_lines raw_sols) >>= table_record
