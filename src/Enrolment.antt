-- ===== src/Enrolment.antt =====
-- app/services/enrolment.py: a pasted SOLS record, read into the fields that the advisor may see. A
-- message of UnreadableRecord is a constructor of `Problem`; `\d` and case mapping are those of ASCII.
pub mod Cells
pub mod Rows
pub mod Header
pub mod Table
pub mod Flat
pub mod Render
pub mod Shapes
pub mod Marks
pub mod Trimmed
mod Samples
