-- ===== src/Schedules/Days.antt =====
-- The days of a schedule, written and read (app/models/schedule.py).
use frass_f.Base.{
  ℕ, ◌+◌, ◌<◌, ◌≡◌, refl, ap, false, some, List, [], ◌∷◌, map, Text, strip, is_empty, arith,
  keep_if, All,
}
use frass_f.Base.Int.{pos}
use frass_f.Base.Decimal.{decimal, digits}
use frass_f.Base.Parse.{split_on, parse_int, parse_digits}
use frass_f.Schedules.{str, join, days_text, read_parts, is_weekday, days_list}

digit_text : (n : ℕ) → n < 7 → decimal n ≡ (48 + n) ∷ []
unfolding decimal digits
digit_text n h = ground arith

digit_read : (n : ℕ) → n < 7 → parse_int ((48 + n) ∷ []) ≡ some (pos n)
unfolding parse_int parse_digits strip
digit_read n h = ground arith

digit_kept : (n : ℕ) → n < 7 → is_empty (strip ((48 + n) ∷ [])) ≡ false
unfolding strip
digit_kept n h = ground arith

Weekdays : List ℕ → Type 0
Weekdays = All (λ n. n < 7)

texts_of : List ℕ → List Text
texts_of [] = []
texts_of (n ∷ ns) = ((48 + n) ∷ []) ∷ texts_of ns

texts : (ns : List ℕ) → Weekdays ns → map str (map pos ns) ≡ texts_of ns
unfolding Weekdays texts_of
texts [] a = refl
texts (n ∷ ns) a = rw (digit_text n a.0, texts ns a.1)

split_join :
    (n : ℕ) (ns : List ℕ)
    → Weekdays (n ∷ ns)
    → split_on b',' (join (texts_of (n ∷ ns))) ≡ texts_of (n ∷ ns)
unfolding split_on join Weekdays texts_of
split_join n [] a = ground arith
split_join n (m ∷ ns) a = let rest = split_join m ns a.1 in ground arith

read_texts : (ns : List ℕ) → Weekdays ns → read_parts (texts_of ns) ≡ some (map pos ns)
unfolding read_parts Weekdays texts_of
read_texts [] a = refl
read_texts (n ∷ ns) a = rw (digit_kept n a.0, digit_read n a.0, read_texts ns a.1)

weekday_days_kept : (ns : List ℕ) → Weekdays ns → keep_if is_weekday (map pos ns) ≡ map pos ns
unfolding Weekdays
weekday_days_kept [] a = refl
weekday_days_kept (n ∷ ns) a = let rest = weekday_days_kept ns a.1 in let day = a.0 in ground arith

joined_some : (n : ℕ) (ns : List ℕ) → is_empty (join (texts_of (n ∷ ns))) ≡ false
unfolding join texts_of
joined_some n [] = refl
joined_some n (m ∷ ns) = refl

days_joined : (ns : List ℕ) → Weekdays ns → days_text (map pos ns) ≡ join (texts_of ns)
unfolding days_text
days_joined ns a = ap join (texts ns a)

-- Days from 0 to 6 that are set are the days that are read, in order.
pub days_list-days_text :
    (ns : List ℕ) → All (λ n. n < 7) ns → days_list (days_text (map pos ns)) ≡ map pos ns
unfolding days_list Weekdays
days_list-days_text [] a = unfold days_text join in refl
days_list-days_text (n ∷ ns) a =
    rw (days_joined (n ∷ ns) a, joined_some n ns, split_join n ns a, read_texts (n ∷ ns) a)
      (weekday_days_kept (n ∷ ns) a)
