-- ===== src/Schedules.antt =====
-- The schedules: their days (app/models/schedule.py) and the requests that change them
-- (app/api/schedules.py).
pub mod Days
pub mod Timely
mod Tests
use frass_f.Base.{
  ℕ, suc, ◌<◌, min, Bool, true, false, not, ◌&&◌, ◌||◌, Option, none, some, List, [], ◌∷◌, ◌++◌,
  map, Text, strip, is_empty, ◌==◌, ltb, if◌then◌else◌, keep_if, Table, lookup, insert, erase,
  next_id, update_where,
}
use frass_f.Base.Int.{ℤ, pos, negsuc}
use frass_f.Base.Decimal.{decimal}
use frass_f.Base.Parse.{split_on, parse_int}
use frass_f.Attendance.State.{Schedule, AttendanceSession, School}
use frass_f.Attendance.Status.{validate_time}

-- `str(d)`
abbrev pub str : ℤ → Text
str (pos n) = decimal n
str (negsuc n) = b'-' ∷ decimal (suc n)

-- `','.join(parts)`
unfoldable pub join : List Text → Text
join [] = []
join (p ∷ []) = p
join (p ∷ q ∷ ps) = p ++ (b',' ∷ join (q ∷ ps))

-- The setter of `days_list`
unfoldable pub days_text : List ℤ → Text
unfolding join
days_text ds = join (map str ds)

abbrev onto : ℤ → Option (List ℤ) → Option (List ℤ)
onto d none = none
onto d (some ds) = some (d ∷ ds)

abbrev read_onto : Option ℤ → Option (List ℤ) → Option (List ℤ)
read_onto none ds = none
read_onto (some d) ds = onto d ds

-- `[int(d) for d in parts if d.strip()]`; `none`: `int` raises.
unfoldable pub read_parts : List Text → Option (List ℤ)
unfolding strip parse_int
read_parts [] = some []
read_parts (p ∷ ps) =
    let rest = read_parts ps in if is_empty (strip p) then rest else read_onto (parse_int p) rest

abbrev pub is_weekday : ℤ → Bool
is_weekday (pos n) = ltb n 7
is_weekday (negsuc n) = false

abbrev pub weekdays : Option (List ℤ) → List ℤ
weekdays none = []
weekdays (some ds) = keep_if is_weekday ds

-- The getter of `days_list`
unfoldable pub days_list : Text → List ℤ
unfolding split_on read_parts
days_list s = if is_empty s then [] else weekdays (read_parts (split_on b',' s))

-- What `int` makes of a value: `none` where it raises.
unfoldable pub clamp_threshold : Option ℤ → ℕ
clamp_threshold none = 10
clamp_threshold (some (pos n)) = min n 480
clamp_threshold (some (negsuc n)) = 0

-- The body of a creation, with the default of each key that is missing.
pub record NewSchedule : Type 0 where
  pub name : Text
  pub department : Option Text
  pub start_time : Text
  pub end_time : Text
  pub days_of_week : List ℤ
  pub late_threshold : Option ℤ
  pub grace_period : Option ℤ

-- The body of an update: `none` for each key that is missing.
pub record Changes : Type 0 where
  pub name : Option Text
  pub department : Option (Option Text)
  pub start_time : Option Text
  pub end_time : Option Text
  pub late_threshold : Option (Option ℤ)
  pub grace_period : Option (Option ℤ)
  pub days_of_week : Option (List ℤ)
  pub is_active : Option Bool

pub data Answer : Type 0 where
  missing_data fields_required start_time_invalid end_time_invalid not_found deleted updated :
      Answer
  created : ℕ → Answer

abbrev or_weekdays : List ℤ → List ℤ
or_weekdays ds = if is_empty ds then pos 0 ∷ pos 1 ∷ pos 2 ∷ pos 3 ∷ [] else ds

unfoldable pub new_schedule : NewSchedule → Schedule
unfolding or_weekdays days_text clamp_threshold strip
new_schedule n = record {
  name = strip n.name;
  department = n.department;
  days_of_week = days_text (or_weekdays n.days_of_week);
  start_time = n.start_time;
  end_time = n.end_time;
  late_threshold = clamp_threshold n.late_threshold;
  grace_period = clamp_threshold n.grace_period;
  is_active = true;
}

-- `create_schedule`
unfoldable pub create_schedule : Option NewSchedule → School → Answer × School
unfolding validate_time new_schedule insert next_id strip
create_schedule none s = (missing_data, s)
create_schedule (some n) s =
    if is_empty (strip n.name) || is_empty n.start_time || is_empty n.end_time
    then (fields_required, s)
    else if not (validate_time n.start_time)
    then (start_time_invalid, s)
    else if not (validate_time n.end_time)
    then (end_time_invalid, s)
    else (
      created (next_id s.schedules),
      record s { schedules = insert (next_id s.schedules) (new_schedule n) s.schedules },
    )

-- `if key in data: …`
abbrev pub or_keep : {A : Type 0} → Option A → A → A
or_keep none a = a
or_keep (some b) a = b

abbrev pub threshold_or : Option (Option ℤ) → ℕ → ℕ
unfolding clamp_threshold
threshold_or none n = n
threshold_or (some v) n = clamp_threshold v

abbrev pub name_or : Option Text → Text → Text
unfolding strip
name_or none n = n
name_or (some v) n = strip v

abbrev pub days_or : Option (List ℤ) → Text → Text
unfolding days_text
days_or none t = t
days_or (some ds) t = days_text ds

unfoldable pub changed : Changes → Schedule → Schedule
unfolding days_or name_or threshold_or
changed c x = record {
  name = name_or c.name x.name;
  department = or_keep c.department x.department;
  days_of_week = days_or c.days_of_week x.days_of_week;
  start_time = or_keep c.start_time x.start_time;
  end_time = or_keep c.end_time x.end_time;
  late_threshold = threshold_or c.late_threshold x.late_threshold;
  grace_period = threshold_or c.grace_period x.grace_period;
  is_active = or_keep c.is_active x.is_active;
}

abbrev pub bad_time : Option Text → Bool
unfolding validate_time
bad_time none = false
bad_time (some t) = not (validate_time t)

abbrev pub update_found : Option Schedule → ℕ → Option Changes → School → Answer × School
unfolding bad_time changed insert
update_found none sid changes s = (not_found, s)
update_found (some x) sid none s = (missing_data, s)
update_found (some x) sid (some c) s =
    if bad_time c.start_time
    then (start_time_invalid, s)
    else if bad_time c.end_time
    then (end_time_invalid, s)
    else (updated, record s { schedules = insert sid (changed c x) s.schedules })

-- `update_schedule`; what an early return leaves in the session is not committed.
unfoldable pub update_schedule : ℕ → Option Changes → School → Answer × School
unfolding lookup update_found
update_schedule sid changes s = update_found (lookup sid s.schedules) sid changes s

abbrev of_schedule : ℕ → AttendanceSession → Bool
of_schedule sid x = elim x.schedule_id [ none ↦ false | some i ↦ i == sid ]

abbrev pub delete_found : Option Schedule → ℕ → School → Answer × School
unfolding erase update_where of_schedule
delete_found none sid s = (not_found, s)
delete_found (some x) sid s = (
  deleted,
  record s {
    sessions = update_where (of_schedule sid) (λ y. record y { schedule_id = none }) s.sessions;
    schedules = erase sid s.schedules;
  },
)

-- `delete_schedule`; the relationship takes the schedule off its sessions.
unfoldable pub delete_schedule : ℕ → School → Answer × School
unfolding lookup delete_found
delete_schedule sid s = delete_found (lookup sid s.schedules) sid s
