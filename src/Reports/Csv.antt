-- ===== src/Reports/Csv.antt =====
-- Python's `csv.writer` in its default dialect, as app/services/export.py uses it, and a reader of
-- what it writes.
pub mod RoundTrip
use mathlib.Core.List.{foldl, foldl-append, append_assoc}
use frass_f.Base.{
  ℕ, ◌≡◌, refl, sym, ap, ◌∙◌, Bool, true, false, not, ◌&&◌, ◌||◌, List, [], ◌∷◌, ◌++◌, Text, any,
  is_empty, ◌==◌, if◌then◌else◌, arith, Bool-cases, inl, inr, All,
}

abbrev quote : ℕ
quote = 34

-- What makes a field be quoted: the comma, the quote and the ends of a line.
abbrev pub is_special : ℕ → Bool
is_special c = c == b',' || c == quote || c == 10 || c == 13

-- The field with its quotes doubled.
unfoldable pub doubled : Text → Text
doubled [] = []
doubled (c ∷ t) = if c == quote then quote ∷ quote ∷ doubled t else c ∷ doubled t

unfoldable pub write_field : Text → Text
unfolding doubled
write_field t = if any is_special t then quote ∷ (doubled t ++ (quote ∷ [])) else t

-- A row of one field and more, up to the end of its line.
unfoldable pub write_fields : Text → List Text → Text
unfolding write_field
write_fields t [] = write_field t ++ (13 ∷ 10 ∷ [])
write_fields t (u ∷ us) = write_field t ++ (b',' ∷ write_fields u us)

-- `writer.writerow`; of rows that are not empty
abbrev pub write_row : List Text → Text
write_row [] = 13 ∷ 10 ∷ []
write_row (t ∷ ts) = write_fields t ts

unfoldable pub write_rows : List (List Text) → Text
unfolding write_fields
write_rows [] = []
write_rows (r ∷ rs) = write_row r ++ write_rows rs

-- A reader of such texts, character by character.
pub data Mode : Type 0 where
  at_start plain quoted closing after_row : Mode

pub record Reader : Type 0 where
  pub mode : Mode
  pub field : Text
  pub row : List Text
  pub rows : List (List Text)

abbrev end_field : Reader → Reader
end_field r = record r { mode = at_start; field = []; row = r.row ++ (r.field ∷ []) }

abbrev end_row : Reader → Reader
end_row r = record r {
  mode = after_row;
  field = [];
  row = [];
  rows = r.rows ++ ((r.row ++ (r.field ∷ [])) ∷ []);
}

abbrev add : Mode → ℕ → Reader → Reader
add m c r = record r { mode = m; field = r.field ++ (c ∷ []) }

-- A character outside quotes.
abbrev unquoted : ℕ → Reader → Reader
unquoted c r =
    if c == b',' then end_field r else if c == 13 || c == 10 then end_row r else add plain c r

abbrev step_in : Mode → ℕ → Reader → Reader
step_in at_start c r = if c == quote then record r { mode = quoted } else unquoted c r
step_in after_row c r =
    if c == 10 then r else if c == quote then record r { mode = quoted } else unquoted c r
step_in plain c r = unquoted c r
step_in quoted c r = if c == quote then record r { mode = closing } else add quoted c r
step_in closing c r = if c == quote then add quoted c r else unquoted c r

unfoldable pub step : Reader → ℕ → Reader
step r c = step_in r.mode c r

unfoldable pub read_rows : Text → List (List Text)
unfolding step
read_rows t = (foldl step (record { mode = after_row; field = []; row = []; rows = [] }) t).rows
