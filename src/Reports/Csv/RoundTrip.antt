-- ===== src/Reports/Csv/RoundTrip.antt =====
-- What is read back from a CSV is what was written (app/services/export.py).
use mathlib.Core.List.{foldl, foldl-append, append_assoc, append-nil}
use frass_f.Base.{
  ℕ, ◌≡◌, refl, sym, ap, ◌∙◌, Bool, true, false, List, [], ◌∷◌, ◌++◌, Text, any, is_empty, ◌==◌,
  if◌then◌else◌, arith, Bool-cases, inl, inr, All,
}
use frass_f.Reports.Csv.{
  quote, is_special, doubled, write_field, write_fields, write_rows, Mode, at_start, plain, quoted,
  closing, after_row, Reader, step, read_rows,
}

abbrev state : Mode → Text → List Text → List (List Text) → Reader
state m f row rows = record { mode = m; field = f; row = row; rows = rows }

-- The reader after a text.
abbrev run : Reader → Text → Reader
run = foldl step

run-append : (r : Reader) (s t : Text) → run r (s ++ t) ≡ run (run r s) t
run-append r s t = foldl-append step r s t

-- The modes in which a field begins.
abbrev is_start : Mode → Bool
is_start at_start = true
is_start after_row = true
is_start _ = false

-- The modes in which a comma or the end of a line ends a field.
abbrev is_end : Mode → Bool
is_end quoted = false
is_end _ = true

newline :
    (rows : List (List Text))
    → run (state after_row [] [] rows) (10 ∷ []) ≡ state after_row [] [] rows
unfolding step
newline rows = refl

module _ (row : List Text) (rows : List (List Text)) where
  step-quoted :
      (c : ℕ) (f : Text)
      → (c == quote) ≡ false
      → step (state quoted f row rows) c ≡ state quoted (f ++ (c ∷ [])) row rows
  unfolding step
  step-quoted c f h = rw h

  step-plain :
      (c : ℕ) (f : Text)
      → is_special c ≡ false
      → step (state plain f row rows) c ≡ state plain (f ++ (c ∷ [])) row rows
  unfolding step
  step-plain c f h = ground arith

  step-start :
      (m : Mode) (c : ℕ)
      → is_start m ≡ true
      → is_special c ≡ false
      → step (state m [] row rows) c ≡ state plain (c ∷ []) row rows
  unfolding step
  step-start at_start c s h = ground arith
  step-start after_row c s h = ground arith
  step-start plain c s h = absurd (ground arith)
  step-start quoted c s h = absurd (ground arith)
  step-start closing c s h = absurd (ground arith)

  step-open :
      (m : Mode) → is_start m ≡ true → step (state m [] row rows) quote ≡ state quoted [] row rows
  unfolding step
  step-open at_start s = refl
  step-open after_row s = refl
  step-open plain s = absurd (ground arith)
  step-open quoted s = absurd (ground arith)
  step-open closing s = absurd (ground arith)

  step-comma :
      (m : Mode) (f : Text)
      → is_end m ≡ true
      → step (state m f row rows) b',' ≡ state at_start [] (row ++ (f ∷ [])) rows
  unfolding step
  step-comma at_start f s = refl
  step-comma after_row f s = refl
  step-comma plain f s = refl
  step-comma quoted f s = absurd (ground arith)
  step-comma closing f s = refl

  step-return :
      (m : Mode) (f : Text)
      → is_end m ≡ true
      → step (state m f row rows) 13 ≡ state after_row [] [] (rows ++ ((row ++ (f ∷ [])) ∷ []))
  unfolding step
  step-return at_start f s = refl
  step-return after_row f s = refl
  step-return plain f s = refl
  step-return quoted f s = absurd (ground arith)
  step-return closing f s = refl

  step-doubled :
      (f : Text)
      → step (step (state quoted f row rows) quote) quote
        ≡ state quoted (f ++ (quote ∷ [])) row rows
  unfolding step
  step-doubled f = refl

  step-close : (f : Text) → step (state quoted f row rows) quote ≡ state closing f row rows
  unfolding step
  step-close f = refl

  quoted_text :
      (t f : Text) → run (state quoted f row rows) (doubled t) ≡ state quoted (f ++ t) row rows
  unfolding doubled
  quoted_text [] f = ap (λ (g : Text). state quoted g row rows) (sym (append-nil f))
  quoted_text (c ∷ t) f = elim (Bool-cases (c == quote)) [
    | inl e ↦
        let same : c ≡ quote = ground arith in
        ap
          (λ (b : Bool).
            run (state quoted f row rows) (if b then quote ∷ quote ∷ doubled t else c ∷ doubled t))
          e
        ∙ ap (λ (r : Reader). run r (doubled t)) (step-doubled f)
        ∙ quoted_text t (f ++ (quote ∷ []))
        ∙ ap (λ (g : Text). state quoted g row rows) (append_assoc f (quote ∷ []) t)
        ∙ ap (λ (d : ℕ). state quoted (f ++ (d ∷ t)) row rows) (sym same)
    | inr e ↦
        ap
          (λ (b : Bool).
            run (state quoted f row rows) (if b then quote ∷ quote ∷ doubled t else c ∷ doubled t))
          e
        ∙ ap (λ (r : Reader). run r (doubled t)) (step-quoted c f e)
        ∙ quoted_text t (f ++ (c ∷ []))
        ∙ ap (λ (g : Text). state quoted g row rows) (append_assoc f (c ∷ []) t)
  ]

  plain_text :
      (t f : Text)
      → any is_special t ≡ false
      → run (state plain f row rows) t ≡ state plain (f ++ t) row rows
  plain_text [] f h = ap (λ (g : Text). state plain g row rows) (sym (append-nil f))
  plain_text (c ∷ t) f h =
      ap (λ (r : Reader). run r t) (step-plain c f (ground arith))
      ∙ plain_text t (f ++ (c ∷ [])) (ground arith)
      ∙ ap (λ (g : Text). state plain g row rows) (append_assoc f (c ∷ []) t)

  -- The mode after a field.
  abbrev after : Mode → Text → Mode
  after m [] = m
  after m (c ∷ t) = if any is_special (c ∷ t) then closing else plain

  after-is_end : (m : Mode) (t : Text) → is_start m ≡ true → is_end (after m t) ≡ true
  after-is_end at_start [] h = refl
  after-is_end after_row [] h = refl
  after-is_end plain [] h = refl
  after-is_end quoted [] h = absurd (ground arith)
  after-is_end closing [] h = refl
  after-is_end m (c ∷ t) h = elim (Bool-cases (any is_special (c ∷ t))) [
    | inl e ↦ rw e refl
    | inr e ↦ rw e refl
  ]

  field_read :
      (m : Mode) (t : Text)
      → is_start m ≡ true
      → run (state m [] row rows) (write_field t) ≡ state (after m t) t row rows
  unfolding write_field
  field_read m [] h = refl
  field_read m (c ∷ t) h = elim (Bool-cases (any is_special (c ∷ t))) [
    | inl e ↦
        ap
          (λ (b : Bool).
            run (state m [] row rows)
              (if b then quote ∷ (doubled (c ∷ t) ++ (quote ∷ [])) else c ∷ t))
          e
        ∙ ap (λ (r : Reader). run r (doubled (c ∷ t) ++ (quote ∷ []))) (step-open m h)
        ∙ run-append (state quoted [] row rows) (doubled (c ∷ t)) (quote ∷ [])
        ∙ ap (λ (r : Reader). run r (quote ∷ [])) (quoted_text (c ∷ t) [])
        ∙ step-close (c ∷ t)
        ∙ ap (λ (b : Bool). state (if b then closing else plain) (c ∷ t) row rows) (sym e)
    | inr e ↦
        ap
          (λ (b : Bool).
            run (state m [] row rows)
              (if b then quote ∷ (doubled (c ∷ t) ++ (quote ∷ [])) else c ∷ t))
          e
        ∙ ap (λ (r : Reader). run r t) (step-start m c h (ground arith))
        ∙ plain_text t (c ∷ []) (ground arith)
        ∙ ap (λ (b : Bool). state (if b then closing else plain) (c ∷ t) row rows) (sym e)
  ]

  -- A field before a comma, and one at the end of its row.
  field_comma :
      (m : Mode) (t rest : Text)
      → is_start m ≡ true
      → run (state m [] row rows) (write_field t ++ (b',' ∷ rest))
        ≡ run (state at_start [] (row ++ (t ∷ [])) rows) rest
  field_comma m t rest h =
      run-append (state m [] row rows) (write_field t) (b',' ∷ rest)
      ∙ ap (λ (r : Reader). run r (b',' ∷ rest)) (field_read m t h)
      ∙ ap (λ (r : Reader). run r rest) (step-comma (after m t) t (after-is_end m t h))

  field_return :
      (m : Mode) (t : Text)
      → is_start m ≡ true
      → run (state m [] row rows) (write_field t ++ (13 ∷ 10 ∷ []))
        ≡ state after_row [] [] (rows ++ ((row ++ (t ∷ [])) ∷ []))
  field_return m t h =
      run-append (state m [] row rows) (write_field t) (13 ∷ 10 ∷ [])
      ∙ ap (λ (r : Reader). run r (13 ∷ 10 ∷ [])) (field_read m t h)
      ∙ ap (λ (r : Reader). run r (10 ∷ [])) (step-return (after m t) t (after-is_end m t h))
      ∙ newline (rows ++ ((row ++ (t ∷ [])) ∷ []))

fields_read :
    (m : Mode) (t : Text) (ts row : List Text) (rows : List (List Text))
    → is_start m ≡ true
    → run (state m [] row rows) (write_fields t ts)
      ≡ state after_row [] [] (rows ++ ((row ++ (t ∷ ts)) ∷ []))
unfolding write_fields
fields_read m t [] row rows h = field_return row rows m t h
fields_read m t (u ∷ us) row rows h =
    field_comma row rows m t (write_fields u us) h
    ∙ fields_read at_start u us (row ++ (t ∷ [])) rows refl
    ∙ ap (λ (r : List Text). state after_row [] [] (rows ++ (r ∷ [])))
        (append_assoc row (t ∷ []) (u ∷ us))

-- A row with a field.
abbrev pub HasField : List Text → Type 0
HasField row = is_empty row ≡ false

rows_read :
    (rs rows : List (List Text))
    → All HasField rs
    → run (state after_row [] [] rows) (write_rows rs) ≡ state after_row [] [] (rows ++ rs)
unfolding write_rows
rows_read [] rows h = ap (state after_row [] []) (sym (append-nil rows))
rows_read ([] ∷ rs) rows h = absurd (ground arith)
rows_read ((t ∷ ts) ∷ rs) rows h =
    run-append (state after_row [] [] rows) (write_fields t ts) (write_rows rs)
    ∙ ap (λ (r : Reader). run r (write_rows rs)) (fields_read after_row t ts [] rows refl)
    ∙ rows_read rs (rows ++ ((t ∷ ts) ∷ [])) h.1
    ∙ ap (state after_row [] []) (append_assoc rows ((t ∷ ts) ∷ []) rs)

-- Rows of one field and more are read back as they were written, whatever is in their fields.
pub read-write_rows : (rs : List (List Text)) → All HasField rs → read_rows (write_rows rs) ≡ rs
unfolding read_rows
read-write_rows rs h = ap (λ (r : Reader). r.rows) (rows_read rs [] h)
