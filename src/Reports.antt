-- ===== src/Reports.antt =====
-- The reports (app/services/export.py, app/api/reports.py): the CSV of attendance records, the rows of
-- the HTML that is made a PDF, and the summary.
pub mod Csv
pub mod Html
pub mod Printed
mod Tests
use frass_f.Base.{
  ℕ, ◌+◌, ◌*◌, Bool, Option, none, some, List, [], ◌∷◌, map, Text, text, text_eq, count_if, length,
  is_empty, ◌==◌, if◌then◌else◌,
}
use frass_f.Liveness.Vision.{round_div}
use frass_f.Reports.Csv.{write_rows}

-- The keys of a record that the reports read, as `str` of their values; `none` is a missing key or,
-- in the CSV, None.
pub record Record : Type 0 where
  pub sid : Option Text
  pub name : Option Text
  pub department : Option Text
  pub date : Option Text
  pub time_in : Option Text
  pub time_out : Option Text
  pub status : Option Text
  pub confidence : Option Text
  pub method : Option Text
  pub liveness_score : Option Text

-- `r.get(key, '')`
abbrev pub or_empty : Option Text → Text
or_empty none = []
or_empty (some t) = t

abbrev pub header_row : List Text
header_row =
    text "Student ID"
    ∷ text "Name"
    ∷ text "Department"
    ∷ text "Date"
    ∷ text "Time In"
    ∷ text "Time Out"
    ∷ text "Status"
    ∷ text "Confidence"
    ∷ text "Method"
    ∷ text "Liveness Score"
    ∷ []

abbrev pub csv_row : Record → List Text
csv_row r =
    or_empty r.sid
    ∷ or_empty r.name
    ∷ or_empty r.department
    ∷ or_empty r.date
    ∷ or_empty r.time_in
    ∷ or_empty r.time_out
    ∷ or_empty r.status
    ∷ or_empty r.confidence
    ∷ or_empty r.method
    ∷ or_empty r.liveness_score
    ∷ []

-- `generate_csv`
unfoldable pub generate_csv : List Record → Text
unfolding write_rows
generate_csv records = write_rows (header_row ∷ map csv_row records)

pub record Summary : Type 0 where
  pub total : ℕ
  pub present : ℕ
  pub late : ℕ
  pub rate : ℕ

abbrev pub has_status : Text → Record → Bool
has_status t r = text_eq (or_empty r.status) t

-- The summary of `export_pdf`; the rate is in tenths of a percent.
unfoldable pub summary_of : List Record → Summary
unfolding text_eq round_div
summary_of records =
    let present = count_if (has_status (text "present")) records in
    let late = count_if (has_status (text "late")) records in
    record {
      total = length records;
      present = present;
      late = late;
      rate = if is_empty records then 0 else round_div ((present + late) * 1000) (length records);
    }
