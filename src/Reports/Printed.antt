-- ===== src/Reports/Printed.antt =====
-- What the CSV shows of the records (app/services/export.py).
use frass_f.Base.{
  ◌≡◌, refl, Option, none, some, List, [], ◌∷◌, map, All, Text, text, text_eq, length,
  if◌then◌else◌,
}
use frass_f.Reports.{Record, or_empty, csv_row, header_row, generate_csv}
use frass_f.Reports.Csv.{read_rows}
use frass_f.Reports.Csv.RoundTrip.{HasField, read-write_rows}

csv_rows-HasField : (rs : List Record) → All HasField (map csv_row rs)
csv_rows-HasField [] = tt
csv_rows-HasField (r ∷ rs) = (refl, csv_rows-HasField rs)

-- The cell of a row below a title.
unfoldable pub under : Text → List Text → List Text → Option Text
under t [] row = none
under t (u ∷ titles) [] = none
under t (u ∷ titles) (c ∷ row) = if text_eq u t then some c else under t titles row

-- A row shows a record: each value stands below its own title, or nothing where it is missing.
pub record Shows (titles row : List Text) (r : Record) : Type 0 where
  pub student_id : under (text "Student ID") titles row ≡ some (or_empty r.sid)
  pub name : under (text "Name") titles row ≡ some (or_empty r.name)
  pub department : under (text "Department") titles row ≡ some (or_empty r.department)
  pub date : under (text "Date") titles row ≡ some (or_empty r.date)
  pub time_in : under (text "Time In") titles row ≡ some (or_empty r.time_in)
  pub time_out : under (text "Time Out") titles row ≡ some (or_empty r.time_out)
  pub status : under (text "Status") titles row ≡ some (or_empty r.status)
  pub confidence : under (text "Confidence") titles row ≡ some (or_empty r.confidence)
  pub method : under (text "Method") titles row ≡ some (or_empty r.method)
  pub liveness_score : under (text "Liveness Score") titles row ≡ some (or_empty r.liveness_score)
  pub no_more : (length titles ≡ 10) × (length row ≡ 10)

-- The rows show the records, one for each, in their order.
abbrev pub ShowAll : List Text → List (List Text) → List Record → Type 0
ShowAll titles [] [] = Unit
ShowAll titles (row ∷ rows) (r ∷ rs) = Shows titles row r × ShowAll titles rows rs
ShowAll titles _ _ = ⊥

csv_row-Shows : (r : Record) → Shows header_row (csv_row r) r
unfolding under text_eq
csv_row-Shows r = record {
  student_id = refl;
  name = refl;
  department = refl;
  date = refl;
  time_in = refl;
  time_out = refl;
  status = refl;
  confidence = refl;
  method = refl;
  liveness_score = refl;
  no_more = (refl, refl);
}

csv_rows-ShowAll : (rs : List Record) → ShowAll header_row (map csv_row rs) rs
csv_rows-ShowAll [] = tt
csv_rows-ShowAll (r ∷ rs) = (csv_row-Shows r, csv_rows-ShowAll rs)

-- The CSV of any records, read by the rules of the format, has a row of ten titles and then one row of
-- ten cells for each record, in which the record's value of every key stands below the title of that
-- key, whatever the values hold: commas, quotes and ends of lines too.
pub read-generate_csv :
    (records : List Record)
    → (titles : List Text) × (rows : List (List Text)) × (read_rows (generate_csv records)
        ≡ titles ∷ rows)
      × ShowAll titles rows records
unfolding generate_csv
read-generate_csv records = (
  header_row,
  map csv_row records,
  read-write_rows (header_row ∷ map csv_row records) (refl, csv_rows-HasField records),
  csv_rows-ShowAll records,
)
