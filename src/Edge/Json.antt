-- ===== src/Edge/Json.antt =====
-- Python's `json` as the edge device uses it: one value to a line of a file.
use frass_f.Base.{
  ℕ, ◌≡◌, Bool, true, false, not, Option, some, Text, strip, is_empty, all, ◌==◌, ◌||◌,
}

-- Iterating over a file in text mode ends a line at either character.
abbrev pub is_newline : ℕ → Bool
is_newline c = c == 10 || c == 13

-- A value that was dumped is one line with no blanks at its ends, and loads back.
pub record Json : Type 1 where
  pub Value : Type 0
  pub dumps : Value → Text
  pub loads : Text → Option Value
  pub loads-dumps : (v : Value) → loads (dumps v) ≡ some v
  pub strip-dumps : (v : Value) → strip (dumps v) ≡ dumps v
  pub dumps_not_empty : (v : Value) → is_empty (dumps v) ≡ false
  pub dumps_one_line : (v : Value) → all (λ c. not (is_newline c)) (dumps v) ≡ true
