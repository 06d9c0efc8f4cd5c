-- ===== src/Attendance/Marks.antt =====
-- Marks of attendance: `mark_attendance`, `mark_manual` (app/services/attendance.py) and what they
-- broadcast (app/realtime/events.py).
pub mod Unique
pub mod Again
pub mod Midnight
use frass_f.Base.{
  ℕ, Bool, true, false, not, ◌&&◌, Option, none, some, List, [], ◌∷◌, Text, text, ◌==◌,
  if◌then◌else◌, lookup, insert, next_id, first_where, any, Table, values,
}
use frass_f.Base.Int.{ℤ}
use frass_f.Attendance.State.{
  AttendanceRecord, AttendanceSession, Student, Schedule, Status, present, Method, manual, School,
  Clock,
}
use frass_f.Attendance.Status.{compute_status}
use frass_f.Attendance.Sessions.{is_active, get_active_session}
use frass_f.Attendance.Stats.{Stats, get_today_stats}

pub data Room : Type 0 where
  session_room : ℕ → Room
  dashboard : Room

-- What is emitted: of a mark, the room, the record, and the student's name and number.
pub data Event : Type 0 where
  student_marked : Room → ℕ → Text → Text → Event
  stats_update : Stats → Event

pub data Mark : Type 0 where
  no_active_session : Mark
  already_marked : ℕ → Mark
  marked : ℕ → Mark

abbrev same_session : ℕ → Option ℕ → Bool
same_session i none = false
same_session i (some j) = j == i

-- `filter_by(student_id=student_db_id, session_id=session_id)`
abbrev pub is_pair : ℕ → ℕ → AttendanceRecord → Bool
is_pair student session r = r.student_id == student && same_session session r.session_id

-- The unique constraint `uq_student_session`, which a session of NULL never violates.
abbrev pub violates : AttendanceRecord → List AttendanceRecord → Bool
violates r rs = elim r.session_id [ none ↦ false | some i ↦ any (is_pair r.student_id i) rs ]

-- The insertion of a record and the commit, with the new id; `none`: the commit raises, and nothing
-- is stored.
unfoldable pub add_record : AttendanceRecord → School → Option ℕ × School
unfolding insert next_id
add_record r s =
    if violates r (values s.records)
    then (none, s)
    else (some (next_id s.records), record s { records = insert (next_id s.records) r s.records })

-- The status of a mark under a schedule, if there is one.
abbrev pub status_under : Option Schedule → ℕ → Status
status_under none now = present
status_under (some schedule) now = compute_status schedule now

-- `session.schedule if session.schedule_id else None`
abbrev pub schedule_of : AttendanceSession → Table Schedule → Option Schedule
schedule_of x t = elim x.schedule_id [
  | none ↦ none
  | some i ↦ (if i == 0 then none else lookup i t)
]

abbrev name_of : Option Student → Text
name_of none = text "Unknown"
name_of (some x) = x.name

abbrev sid_of : Option Student → Text
sid_of none = text "Unknown"
sid_of (some x) = x.student_id

-- `broadcast_student_marked` and `broadcast_stats_update`
abbrev pub broadcasts : ℕ → ℕ → ℕ → ℕ → School → List Event
broadcasts student session_id record_id today s =
    let name = name_of (lookup student s.students) in
    let sid = sid_of (lookup student s.students) in
    student_marked (session_room session_id) record_id name sid
    ∷ student_marked dashboard record_id name sid
    ∷ stats_update (get_today_stats today s)
    ∷ []

-- What a mark comes with.
pub record Sighting : Type 0 where
  pub confidence : ℤ
  pub method : Method
  pub liveness_score : Option ℤ

abbrev pub new_record : ℕ → ℕ → Status → Sighting → Clock → AttendanceRecord
new_record student session_id status sighting clock = record {
  student_id = student;
  session_id = some session_id;
  date = clock.today;
  time_in = clock.now;
  status = status;
  confidence = some sighting.confidence;
  method = sighting.method;
  liveness_score = sighting.liveness_score;
  notes = none;
}

abbrev pub answer : ℕ → ℕ → Clock → Option ℕ × School → Option (Mark × List Event) × School
answer student session_id clock (none, s) = (none, s)
answer student session_id clock (some i, s) =
    (some (marked i, broadcasts student session_id i clock.today s), s)

abbrev pub mark_unless :
    Option (ℕ × AttendanceRecord)
    → ℕ
    → ℕ
    → Status
    → Sighting
    → Clock
    → School
    → Option (Mark × List Event) × School
mark_unless (some (i, r)) student session_id status sighting clock s =
    (some (already_marked i, []), s)
mark_unless none student session_id status sighting clock s =
    answer student session_id clock
      (add_record (new_record student session_id status sighting clock) s)

abbrev pub mark_in :
    Option AttendanceSession
    → ℕ
    → ℕ
    → Sighting
    → Clock
    → School
    → Option (Mark × List Event) × School
mark_in none student session_id sighting clock s = (some (no_active_session, []), s)
mark_in (some x) student session_id sighting clock s =
    if not (is_active x)
    then (some (no_active_session, []), s)
    else mark_unless (first_where (is_pair student session_id) s.records) student session_id
        (status_under (schedule_of x s.schedules) clock.now) sighting clock s

-- `mark_attendance`; `none`: it raises.
unfoldable pub mark_attendance :
    ℕ → ℕ → Sighting → Clock → School → Option (Mark × List Event) × School
unfolding add_record first_where lookup
mark_attendance student session_id sighting clock s =
    mark_in (lookup session_id s.sessions) student session_id sighting clock s

abbrev found_id : {A : Type 0} → Option (ℕ × A) → Option ℕ
found_id none = none
found_id (some (i, x)) = some i

abbrev found : {A : Type 0} → Option (ℕ × A) → Option A
found none = none
found (some (i, x)) = some x

abbrev pub manual_record : ℕ → Option ℕ → Status → Option Text → Clock → AttendanceRecord
manual_record student session_id status notes clock = record {
  student_id = student;
  session_id = session_id;
  date = clock.today;
  time_in = clock.now;
  status = status;
  confidence = none;
  method = manual;
  liveness_score = none;
  notes = notes;
}

-- The record that `mark_manual` adds.
unfoldable pub manual_of : ℕ → Option Text → Clock → School → AttendanceRecord
unfolding first_where get_active_session
manual_of student notes clock s =
    manual_record student (found_id (get_active_session s))
      (status_under (found (first_where (λ x. x.is_active) s.schedules)) clock.now) notes clock

abbrev pub manual_answer : Option ℕ × School → Option Mark × School
manual_answer (none, s) = (none, s)
manual_answer (some i, s) = (some (marked i), s)

abbrev pub manual_unless :
    Option (ℕ × AttendanceRecord) → ℕ → Option Text → Clock → School → Option Mark × School
manual_unless (some (i, r)) student notes clock s = (some (already_marked i), s)
manual_unless none student notes clock s =
    manual_answer (add_record (manual_of student notes clock s) s)

abbrev pub is_marked_on : ℕ → ℕ → AttendanceRecord → Bool
is_marked_on student today r = r.student_id == student && r.date == today

-- `mark_manual`; `none`: it raises.
unfoldable pub mark_manual : ℕ → Option Text → Clock → School → Option Mark × School
unfolding add_record first_where
mark_manual student notes clock s =
    manual_unless (first_where (is_marked_on student clock.today) s.records) student notes clock s
