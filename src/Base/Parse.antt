-- ===== src/Base/Parse.antt =====
-- `str.split` at one character, and `int` of a text. Of the digits only the ASCII ones are modelled.
use Prim.Native.Nat.{ℕ, zero, suc, ◌+◌, ◌-◌, ◌*◌}
use mathlib.Core.Bool.{Bool, false, ◌&&◌, ◌||◌}
use mathlib.Core.Option.{Option, none, some}
use mathlib.Core.List.{List, [], ◌∷◌}
use frass_f.Base.Tests.{◌==◌, if◌then◌else◌}
use frass_f.Base.Strings.{Text, strip, is_digit}
use frass_f.Base.Int.{ℤ, pos, negsuc}

-- A character in front of the first part.
abbrev pub onto_first : ℕ → List Text → List Text
onto_first c [] = (c ∷ []) ∷ []
onto_first c (p ∷ ps) = (c ∷ p) ∷ ps

-- `s.split(c)`
unfoldable pub split_on : ℕ → Text → List Text
split_on sep [] = [] ∷ []
split_on sep (c ∷ s) =
    let rest = split_on sep s in if c == sep then [] ∷ rest else onto_first c rest

-- The digits of a number, with single underscores between them; `last` says whether a digit stands
-- in front.
unfoldable pub parse_digits : Bool → ℕ → Text → Option ℕ
parse_digits last n [] = if last then some n else none
parse_digits last n (c ∷ s) =
    let rest = parse_digits (is_digit c) (if is_digit c then n * 10 + (c - 48) else n) s in
    if is_digit c || (c == b'_' && last) then rest else none

abbrev pub negated : Option ℕ → Option ℤ
negated none = none
negated (some zero) = some (pos 0)
negated (some (suc n)) = some (negsuc n)

abbrev pub as_ℤ : Option ℕ → Option ℤ
as_ℤ none = none
as_ℤ (some n) = some (pos n)

abbrev pub signed : Text → Option ℤ
signed [] = none
signed (c ∷ s) =
    if c == b'-'
    then negated (parse_digits false 0 s)
    else if c == b'+'
    then as_ℤ (parse_digits false 0 s)
    else as_ℤ (parse_digits false 0 (c ∷ s))

-- `int(s)`; `none`: it raises `ValueError`.
unfoldable pub parse_int : Text → Option ℤ
unfolding parse_digits
parse_int s = signed (strip s)
