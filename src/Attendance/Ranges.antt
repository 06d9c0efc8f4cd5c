-- ===== src/Attendance/Ranges.antt =====
-- Records with their students, by day and by a range of days (app/services/attendance.py,
-- app/models/attendance.py, app/api/attendance.py).
pub mod Answers
use frass_f.Base.{
  ℕ, Bool, true, ◌&&◌, ◌||◌, Option, none, some, List, [], ◌∷◌, keep_if, ltb, leb, ◌==◌, Table,
  lookup,
}
use frass_f.Base.Sorted.{sort}
use frass_f.Attendance.State.{AttendanceRecord, Student, School}
use frass_f.Attendance.Stats.{in_range}

-- `to_dict_with_student`, of a record with its id.
pub record Row : Type 0 where
  pub id : ℕ
  pub of_record : AttendanceRecord
  pub of_student : Student

abbrev pub with_student : Option Student → ℕ → AttendanceRecord → List Row → List Row
with_student none i r rows = rows
with_student (some x) i r rows = record { id = i; of_record = r; of_student = x } ∷ rows

-- `AttendanceRecord.query.join(Student)`
unfoldable pub joined : Table AttendanceRecord → Table Student → List Row
unfolding lookup
joined [] t = []
joined ((i, r) ∷ rs) t = with_student (lookup r.student_id t) i r (joined rs t)

-- `order_by(AttendanceRecord.date.desc(), AttendanceRecord.time_in)`
abbrev pub by_day : Row → Row → Bool
by_day a b =
    ltb b.of_record.date a.of_record.date
    || (a.of_record.date == b.of_record.date && leb a.of_record.time_in b.of_record.time_in)

-- `get_attendance_range`
unfoldable pub get_attendance_range : ℕ → ℕ → Option ℕ → School → List Row
unfolding sort joined in_range
get_attendance_range start end student_db_id s =
    sort by_day
      (keep_if (λ w. in_range start end student_db_id w.of_record) (joined s.records s.students))

-- `order_by(AttendanceRecord.time_in)`
abbrev pub by_time : Row → Row → Bool
by_time a b = leb a.of_record.time_in b.of_record.time_in

-- `get_today_attendance`
unfoldable pub get_today_attendance : ℕ → School → List Row
unfolding sort joined
get_today_attendance today s =
    sort by_time (keep_if (λ w. w.of_record.date == today) (joined s.records s.students))

pub data Answer : Type 0 where
  invalid_date : Answer
  rows : List Row → Answer

-- `range_query`, with what `date.fromisoformat` makes of the texts
unfoldable pub range_query : Option ℕ → Option ℕ → Option ℕ → School → Answer
unfolding get_attendance_range
range_query none end student_id s = invalid_date
range_query (some a) none student_id s = invalid_date
range_query (some a) (some b) student_id s = rows (get_attendance_range a b student_id s)
