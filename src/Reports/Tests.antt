-- ===== src/Reports/Tests.antt =====
-- Runs of the reports (app/services/export.py).
use frass_f.Base.{Text, List, ◌*◌, ◌≡◌, refl, none, some, [], ◌∷◌, ◌++◌, text}
use frass_f.Reports.{Record, generate_csv, summary_of}
use frass_f.Reports.Csv.{read_rows, write_rows}
use frass_f.Reports.Printed.{ShowAll, read-generate_csv}
use frass_f.Reports.Html.{escape, rows_html, count_code, rows_html-tags}

abbrev ada : Record
ada = record {
  sid = some (text "s7");
  name = some (text "Lovelace, \"Ada\"");
  department = none;
  date = some (text "2024-05-06");
  time_in = some (text "09:50");
  time_out = none;
  status = some (text "late");
  confidence = some (text "97.5");
  method = some (text "face");
  liveness_score = none;
}

doubles_quotes :
    write_rows ((text "a" ∷ text "b\"c" ∷ []) ∷ []) ≡ text "a,\"b\"\"c\"" ++ (13 ∷ 10 ∷ [])
unfolding write_rows
doubles_quotes = refl

escapes : escape (text "<b>") ≡ text "&lt;b&gt;"
unfolding escape
escapes = refl

sums_up : summary_of (ada ∷ []) ≡ record { total = 1; present = 0; late = 1; rate = 1000 }
unfolding summary_of
sums_up = refl

read-generate_csv_example :
    (titles : List Text) × (rows : List (List Text)) × (read_rows (generate_csv (ada ∷ []))
      ≡ titles ∷ rows)
    × ShowAll titles rows (ada ∷ [])
read-generate_csv_example = read-generate_csv (ada ∷ [])

abbrev markup : Record
markup = record ada { name = some (text "<script>") }

rows_html-tags_example : count_code b'<' (rows_html (markup ∷ ada ∷ [])) ≡ 18 * 2
rows_html-tags_example = rows_html-tags (markup ∷ ada ∷ [])
