-- ===== src/Base/Decimal.antt =====
-- `str(n)` of a number: its decimal digits.
use frass_f.Base.Strings.{Text, is_digit}
use frass_f.Base.Lists.{all, all-append}
use Prim.Native.Nat.{ℕ, zero, suc, ◌+◌, ◌-◌, ◌*◌, ◌/◌, ◌%◌, ◌<◌}
use mathlib.Core.Path.{◌≡◌, refl, sym, ap, ◌∙◌}
use mathlib.Core.Bool.{true}
use mathlib.Core.List.{[], ◌∷◌, ◌++◌, foldl, foldl-append}
use native.Mathlib.Omega.{arith}
use frass_f.Base.Tests.{ltb, Bool-cases, if◌then◌else◌}
use mathlib.Core.Logic.{inl, inr}

-- The digits with fuel: one more than the number is enough.
unfoldable pub digits : ℕ → ℕ → Text
digits zero n = []
digits (suc f) n =
    let rest = digits f (n / 10) in if ltb n 10 then (48 + n) ∷ [] else rest ++ ((48 + n % 10) ∷ [])

unfoldable pub decimal : ℕ → Text
unfolding digits
decimal n = digits (suc n) n

abbrev push_digit : ℕ → ℕ → ℕ
push_digit n c = n * 10 + (c - 48)

-- `int(s)` of a text of digits.
unfoldable pub value : Text → ℕ
value = foldl push_digit 0

value-digits : (f n : ℕ) → n < f → value (digits f n) ≡ n
unfolding value digits
value-digits zero n h = elim h [ ]
value-digits (suc f) n h = elim (Bool-cases (ltb n 10)) [
  | inl one ↦ rw one (omega arith)
  | inr more ↦ rw more (
      foldl-append push_digit 0 (digits f (n / 10)) ((48 + n % 10) ∷ [])
      ∙ ap (λ (k : ℕ). push_digit k (48 + n % 10)) (value-digits f (n / 10) (ground arith))
      ∙ omega arith)
]

-- Reading back a printed number gives the number.
pub value-decimal : (n : ℕ) → value (decimal n) ≡ n
unfolding decimal
value-decimal n = value-digits (suc n) n (omega arith)

digits_are_digits : (f n : ℕ) → all is_digit (digits f n) ≡ true
unfolding digits
digits_are_digits zero n = refl
digits_are_digits (suc f) n = ground (
  arith,
  digits_are_digits f (n / 10),
  all-append is_digit (digits f (n / 10)) ((48 + n % 10) ∷ []),
)

pub decimal_is_digits : (n : ℕ) → all is_digit (decimal n) ≡ true
unfolding decimal
decimal_is_digits n = digits_are_digits (suc n) n

pub decimal_injective : (m n : ℕ) → decimal m ≡ decimal n → m ≡ n
decimal_injective m n e = sym (value-decimal m) ∙ ap value e ∙ value-decimal n
