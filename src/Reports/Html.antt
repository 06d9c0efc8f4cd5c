-- ===== src/Reports/Html.antt =====
-- The rows of the table in `generate_pdf` (app/services/export.py), and `html.escape`.
use frass_f.Reports.{Record, or_empty}
use frass_f.Base.{
  ℕ, ◌+◌, ◌*◌, ◌≡◌, refl, Option, none, some, List, [], ◌∷◌, ◌++◌, Text, text, count_if,
  count_if-append, length, ◌==◌, if◌then◌else◌, arith,
}

-- `html.escape(s)`, of one character
unfoldable pub escape_code : ℕ → Text
escape_code c =
    if c == b'&'
    then text "&amp;"
    else if c == b'<'
    then text "&lt;"
    else if c == b'>'
    then text "&gt;"
    else if c == 34
    then text "&quot;"
    else if c == 39
    then text "&#x27;"
    else c ∷ []

unfoldable pub escape : Text → Text
unfolding escape_code
escape [] = []
escape (c ∷ t) = escape_code c ++ escape t

-- The dash that stands for a missing department or confidence.
abbrev pub dash : Text
dash = 8212 ∷ []

abbrev or_dash : Option Text → Text
or_dash none = dash
or_dash (some t) = t

unfoldable pub cell : Text → Text
unfolding escape
cell t = text "\n            <td>" ++ (escape t ++ text "</td>")

-- The eight cells of a row, as texts.
unfoldable pub cells : List Text → Text
unfolding cell
cells [] = []
cells (t ∷ ts) = cell t ++ cells ts

unfoldable pub row_html : List Text → Text
unfolding cells
row_html ts = text "\n        <tr>" ++ (cells ts ++ text "\n        </tr>")

-- The cells of a record; a value None is the text "None" here.
abbrev pub record_cells : Record → List Text
record_cells r =
    or_empty r.sid
    ∷ or_empty r.name
    ∷ or_dash r.department
    ∷ or_empty r.date
    ∷ or_empty r.time_in
    ∷ or_empty r.status
    ∷ or_dash r.confidence
    ∷ or_empty r.method
    ∷ []

-- `rows_html` in `generate_pdf`
unfoldable pub rows_html : List Record → Text
unfolding row_html
rows_html [] = []
rows_html (r ∷ rs) = row_html (record_cells r) ++ rows_html rs

-- How often a character stands in a text.
abbrev pub count_code : ℕ → Text → ℕ
count_code c = count_if (λ d. d == c)

escape_code_no_tag : (c : ℕ) → count_code b'<' (escape_code c) ≡ 0
unfolding escape_code
escape_code_no_tag c = ground arith

-- An escaped text opens no tag.
pub escape_no_tag : (t : Text) → count_code b'<' (escape t) ≡ 0
unfolding escape
escape_no_tag [] = refl
escape_no_tag (c ∷ t) = omega (
  arith,
  count_if-append (λ d. d == b'<') (escape_code c) (escape t),
  escape_code_no_tag c,
  escape_no_tag t,
)

cell-tags : (t : Text) → count_code b'<' (cell t) ≡ 2
unfolding cell
cell-tags t =
    omega (arith, count_if-append (λ d. d == b'<') (escape t) (text "</td>"), escape_no_tag t)

cells-tags : (ts : List Text) → count_code b'<' (cells ts) ≡ 2 * length ts
unfolding cells
cells-tags [] = refl
cells-tags (t ∷ ts) =
    omega (arith, count_if-append (λ d. d == b'<') (cell t) (cells ts), cell-tags t, cells-tags ts)

row_html-tags : (ts : List Text) → count_code b'<' (row_html ts) ≡ 2 * length ts + 2
unfolding row_html
row_html-tags ts =
    omega
      (arith, count_if-append (λ d. d == b'<') (cells ts) (text "\n        </tr>"), cells-tags ts)

-- The rows open 18 tags for each record, those of a row and its eight cells, and no other, whatever
-- the records hold.
pub rows_html-tags : (rs : List Record) → count_code b'<' (rows_html rs) ≡ 18 * length rs
unfolding rows_html
rows_html-tags [] = refl
rows_html-tags (r ∷ rs) = omega (
  arith,
  count_if-append (λ d. d == b'<') (row_html (record_cells r)) (rows_html rs),
  row_html-tags (record_cells r),
  rows_html-tags rs,
)
