-- ===== src/Attendance/Tests.antt =====
-- Runs of the attendance service (app/services/attendance.py) on a small school.
use frass_f.Attendance.Ranges.{Row, get_attendance_range}
use frass_f.Attendance.Ranges.Answers.{InOrder, HasStudent, belongs, get_attendance_range-Answers}
use frass_f.Attendance.Stats.{in_range}
use frass_f.Base.{
  ℕ, All, lookup, count_if, Bool, refl, ◌≡◌, ◌&&◌, ◌+◌, ◌*◌, none, some, [], ◌∷◌, text, true, arith,
}
use frass_f.Base.Int.{pos}
use frass_f.Attendance.State.{
  AttendanceRecord, Student, Schedule, School, Clock, face, present, day, minutes,
}
use frass_f.Attendance.Sessions.{new_session}
use frass_f.Attendance.Marks.{Sighting, new_record}
use frass_f.Attendance.Runs.{Orderly, start, stop, mark, manual, handle_all, handle_all-Orderly}

abbrev math : Schedule
math = record {
  name = text "Math";
  department = none;
  days_of_week = text "0,1";
  start_time = text "09:45";
  end_time = text "10:45";
  late_threshold = 10;
  grace_period = 5;
  is_active = true;
}

abbrev ada : Student
ada = record {
  student_id = text "s7";
  name = text "Ada";
  email = none;
  department = some (text "CS");
  semester = none;
  photo_count = 1;
  is_active = true;
}

-- User 1 has an open session.
abbrev school : School
school = record {
  sessions = (1, new_session 1 (some 1) (pos 650000) (day * 3)) ∷ [];
  records = [];
  students = (7, ada) ∷ [];
  schedules = (1, math) ∷ [];
}

abbrev morning : Clock
morning = record { now = day * 3 + minutes 590; today = 3 }

abbrev tomorrow : Clock
tomorrow = record { now = day * 4 + minutes 10; today = 4 }

abbrev seen : Sighting
seen = record { confidence = pos 900000; method = face; liveness_score = none }

abbrev empty : School
empty = record { sessions = []; records = []; students = []; schedules = [] }

handle_all-Orderly_example : Orderly (
    handle_all
      ((start 1 none (pos 500000), morning)
        ∷ (mark 7 1 seen, morning)
        ∷ (start 1 none (pos 500000), morning)
        ∷ (manual 7 none, tomorrow)
        ∷ (stop, tomorrow)
        ∷ [])
      empty)
handle_all-Orderly_example =
    handle_all-Orderly
      ((start 1 none (pos 500000), morning)
        ∷ (mark 7 1 seen, morning)
        ∷ (start 1 none (pos 500000), morning)
        ∷ (manual 7 none, tomorrow)
        ∷ (stop, tomorrow)
        ∷ [])
      empty (λ u. omega arith, λ st i. omega arith)

abbrev overnight : School
overnight = record school { records = (1, new_record 7 1 present seen morning) ∷ [] }

get_attendance_range-Answers_example :
    InOrder (get_attendance_range 2 4 none overnight)
    × All (HasStudent overnight.students) (get_attendance_range 2 4 none overnight)
    × ((p : ℕ × AttendanceRecord → Bool)
        → count_if (λ w. p (w.id, w.of_record)) (get_attendance_range 2 4 none overnight)
          ≡ count_if (λ k. belongs 2 4 none overnight k.1 && p k) overnight.records)
get_attendance_range-Answers_example = get_attendance_range-Answers 2 4 none overnight

abbrev record_at : ℕ → ℕ → AttendanceRecord
record_at d t = record (new_record 7 1 present seen morning) { date = d; time_in = t }

abbrev row : ℕ → ℕ → ℕ → Row
row i d t = record { id = i; of_record = record_at d t; of_student = ada }

abbrev two_marks : School
two_marks = record school {
  records = (1, record_at 3 7) ∷ (2, record_at 4 5) ∷ (3, record_at 3 9) ∷ (4, record_at 5 1) ∷ [];
}

-- On one day the earlier record is first, after those of the day before it.
two_days : get_attendance_range 3 4 none two_marks ≡ row 2 4 5 ∷ row 1 3 7 ∷ row 3 3 9 ∷ []
unfolding get_attendance_range in_range lookup
two_days = refl
