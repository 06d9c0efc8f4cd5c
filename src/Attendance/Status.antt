-- ===== src/Attendance/Status.antt =====
-- When a mark is present, late or absent: `_compute_status` (app/services/attendance.py) and the
-- format of a schedule's times, `_validate_time` (app/api/schedules.py).
use frass_f.Base.{
  ℕ, ◌+◌, ◌-◌, ◌*◌, ◌/◌, ◌<◌, ◌≤◌, ◌≡◌, refl, Bool, true, false, ◌&&◌, ◌||◌, Option, none, some,
  List, [], ◌∷◌, Text, ◌⊎◌, inl, inr, is_digit, strip, leb, ltb, ◌==◌, if◌then◌else◌, arith,
}
use mathlib.Core.Path.{subst}
use frass_f.Base.Int.{ℤ, pos}
use frass_f.Base.Parse.{split_on, parse_digits, parse_int}
use frass_f.Attendance.State.{Schedule, Status, present, late, absent, minutes, day}

-- What `_TIME_RE` allows behind the five characters: its `$` also stands before a last newline.
abbrev ends : Text → Bool
ends [] = true
ends (c ∷ []) = c == 10
ends (c ∷ d ∷ s) = false

-- `^([01]\d|2[0-3]):[0-5]\d$`
unfoldable pub validate_time : Text → Bool
validate_time (a ∷ b ∷ c ∷ d ∷ e ∷ rest) =
    ((leb b'0' a && leb a b'1' && is_digit b) || (a == b'2' && leb b'0' b && leb b b'3'))
    && c == b':'
    && (leb b'0' d && leb d b'5')
    && is_digit e
    && ends rest
validate_time _ = false

-- `time(hour, minute)`, as the minute of the day; `none`: it raises `ValueError`.
abbrev pub time_of : Option ℤ → Option ℤ → Option ℕ
time_of (some (pos h)) (some (pos m)) = if ltb h 24 && ltb m 60 then some (h * 60 + m) else none
time_of _ _ = none

abbrev time_of_parts : List Text → Option ℕ
time_of_parts (h ∷ m ∷ rest) = time_of (parse_int h) (parse_int m)
time_of_parts _ = none

-- `parts = s.split(':'); time(int(parts[0]), int(parts[1]))`
unfoldable pub parse_time : Text → Option ℕ
parse_time s = time_of_parts (split_on b':' s)

-- The moment `late_dt`: the start on the day of the mark, and the threshold.
abbrev pub late_moment : Schedule → ℕ → ℕ → ℕ
late_moment schedule start now = now / day * day + minutes start + minutes schedule.late_threshold

abbrev status_at : Schedule → ℕ → Option ℕ → Status
status_at schedule now none = present
status_at schedule now (some start) =
    if leb now (late_moment schedule start now)
    then present
    else if leb now (late_moment schedule start now + minutes schedule.grace_period)
    then late
    else absent

-- `_compute_status`
unfoldable pub compute_status : Schedule → ℕ → Status
compute_status schedule now = status_at schedule now (parse_time schedule.start_time)

two_digits :
    (a b : ℕ)
    → is_digit a ≡ true
    → is_digit b ≡ true
    → parse_int (a ∷ b ∷ []) ≡ some (pos ((a - 48) * 10 + (b - 48)))
unfolding parse_int parse_digits strip
two_digits a b ha hb = ground arith

two_digits_newline :
    (a b : ℕ)
    → is_digit a ≡ true
    → is_digit b ≡ true
    → parse_int (a ∷ b ∷ 10 ∷ []) ≡ some (pos ((a - 48) * 10 + (b - 48)))
unfolding parse_int parse_digits strip
two_digits_newline a b ha hb = ground arith

split_clock :
    (a b d e : ℕ)
    → is_digit a ≡ true
    → is_digit b ≡ true
    → is_digit d ≡ true
    → is_digit e ≡ true
    → split_on b':' (a ∷ b ∷ b':' ∷ d ∷ e ∷ []) ≡ (a ∷ b ∷ []) ∷ (d ∷ e ∷ []) ∷ []
unfolding split_on
split_clock a b d e ha hb hd he = ground arith

split_clock_newline :
    (a b d e : ℕ)
    → is_digit a ≡ true
    → is_digit b ≡ true
    → is_digit d ≡ true
    → is_digit e ≡ true
    → split_on b':' (a ∷ b ∷ b':' ∷ d ∷ e ∷ 10 ∷ []) ≡ (a ∷ b ∷ []) ∷ (d ∷ e ∷ 10 ∷ []) ∷ []
unfolding split_on
split_clock_newline a b d e ha hb hd he = ground arith

-- What the pattern says of the five characters.
abbrev Clock : ℕ → ℕ → ℕ → ℕ → ℕ → Type 0
Clock a b c d e =
    (is_digit a ≡ true)
    × (is_digit b ≡ true)
    × (is_digit d ≡ true)
    × (is_digit e ≡ true)
    × (c ≡ b':')
    × ((a - 48) * 10 + (b - 48) < 24)
    × ((d - 48) * 10 + (e - 48) < 60)

pattern_Clock :
    (a b c d e : ℕ) (rest : Text)
    → validate_time (a ∷ b ∷ c ∷ d ∷ e ∷ rest) ≡ true
    → Clock a b c d e
unfolding validate_time
pattern_Clock a b c d e rest h = (
  ground arith,
  ground arith,
  ground arith,
  ground arith,
  ground arith,
  ground arith,
  ground arith,
)

ends_cases : (s : Text) → ends s ≡ true → (s ≡ []) ⊎ (s ≡ 10 ∷ [])
ends_cases [] h = inl refl
ends_cases (c ∷ []) h = ground arith
ends_cases (c ∷ d ∷ s) h = absurd (ground arith)

pattern_ends :
    (a b c d e : ℕ) (rest : Text)
    → validate_time (a ∷ b ∷ c ∷ d ∷ e ∷ rest) ≡ true
    → ends rest ≡ true
unfolding validate_time
pattern_ends a b c d e rest h = ground arith

clock_parses :
    (a b d e : ℕ) (rest : Text)
    → Clock a b b':' d e
    → (rest ≡ []) ⊎ (rest ≡ 10 ∷ [])
    → parse_time (a ∷ b ∷ b':' ∷ d ∷ e ∷ rest)
      ≡ some (((a - 48) * 10 + (b - 48)) * 60 + ((d - 48) * 10 + (e - 48)))
unfolding parse_time
clock_parses a b d e rest (ha, hb, hd, he, _, h, m) (inl r) =
    rw (r, split_clock a b d e ha hb hd he, two_digits a b ha hb, two_digits d e hd he)
      (ground arith)
clock_parses a b d e rest (ha, hb, hd, he, _, h, m) (inr r) =
    rw
      (
        r,
        split_clock_newline a b d e ha hb hd he,
        two_digits a b ha hb,
        two_digits_newline d e hd he,
      )
      (ground arith)

-- A start time that passes `_validate_time` is read by `_compute_status`, as the minute of the day
-- that its digits say.
pub validated_time_parses :
    (a b c d e : ℕ) (rest : Text)
    → validate_time (a ∷ b ∷ c ∷ d ∷ e ∷ rest) ≡ true
    → (parse_time (a ∷ b ∷ c ∷ d ∷ e ∷ rest)
        ≡ some (((a - 48) * 10 + (b - 48)) * 60 + ((d - 48) * 10 + (e - 48))))
      × (((a - 48) * 10 + (b - 48)) * 60 + ((d - 48) * 10 + (e - 48)) < 1440)
validated_time_parses a b c d e rest h =
    let clock = pattern_Clock a b c d e rest h in
    let colon : c ≡ b':' = clock.4 in
    (
      rw colon (
          clock_parses a b d e rest (subst (λ x. Clock a b x d e) colon clock)
            (ends_cases rest (pattern_ends a b c d e rest h))),
      omega arith,
    )

abbrev pub rank : Status → ℕ
rank present = 0
rank late = 1
rank absent = 2

same_day :
    (s t : ℕ)
    → s / day ≡ t / day
    → (start : Option ℕ) (schedule : Schedule) → s ≤ t
    → rank (status_at schedule s start) ≤ rank (status_at schedule t start)
same_day s t e none schedule h = omega arith
same_day s t e (some start) schedule h = rw e (ground arith)

-- On one day, a later mark has no better status, whatever the schedule says.
pub compute_status-monotone :
    (schedule : Schedule) (s t : ℕ)
    → s ≤ t
    → s / day ≡ t / day
    → rank (compute_status schedule s) ≤ rank (compute_status schedule t)
unfolding compute_status
compute_status-monotone schedule s t h e =
    same_day s t e (parse_time schedule.start_time) schedule h
