-- ===== src/Attendance/Stats.antt =====
-- What is counted: `get_today_stats`, `get_attendance_range` and `get_dashboard_data`
-- (app/services/attendance.py). The rounded percentages, which are floats, are left out.
pub mod Counts
use frass_f.Base.{
  ℕ, suc, ◌+◌, ◌-◌, Bool, true, false, ◌&&◌, ◌||◌, Option, none, some, List, [], ◌∷◌, Text, text,
  length, count_if, keep_if, leb, ◌==◌, if◌then◌else◌, is_empty, Table, values, lookup, Dict, get,
  put,
}
use frass_f.Base.Int.{ℤ, sub_ℕ}
use frass_f.Attendance.State.{Status, present, late, absent, AttendanceRecord, Student, School}

pub record Stats : Type 0 where
  pub total_students : ℕ
  pub present : ℕ
  pub late : ℕ
  pub absent : ℤ
  pub total_marked : ℕ

abbrev pub is_present : AttendanceRecord → Bool
is_present r = elim r.status [ Status.present ↦ true | Status.late ↦ false | Status.absent ↦ false ]

abbrev pub is_late : AttendanceRecord → Bool
is_late r = elim r.status [ Status.present ↦ false | Status.late ↦ true | Status.absent ↦ false ]

-- `filter_by(date=d).all()`
abbrev pub records_of : ℕ → School → List AttendanceRecord
records_of d s = keep_if (λ r. r.date == d) (values s.records)

-- `Student.query.filter_by(is_active=True).count()`
abbrev pub active_students : School → ℕ
active_students s = count_if (λ x. x.is_active) (values s.students)

abbrev pub stats_of : ℕ → ℕ → ℕ → Stats
stats_of total p l = record {
  total_students = total;
  present = p;
  late = l;
  absent = sub_ℕ total (p + l);
  total_marked = p + l;
}

-- `get_today_stats`
unfoldable pub get_today_stats : ℕ → School → Stats
get_today_stats today s =
    let records = records_of today s in
    stats_of (active_students s) (count_if is_present records) (count_if is_late records)

-- The filter of `get_attendance_range`; an id of a student that is missing or 0 asks for everyone.
abbrev asked_student : Option ℕ → AttendanceRecord → Bool
asked_student none r = true
asked_student (some i) r = i == 0 || r.student_id == i

unfoldable pub in_range : ℕ → ℕ → Option ℕ → AttendanceRecord → Bool
in_range start end student_db_id r =
    leb start r.date && leb r.date end && asked_student student_db_id r

-- The counters of a department.
pub record Dept : Type 0 where
  pub total : ℕ
  pub present : ℕ

abbrev pub no_one : Option Dept → Dept
no_one none = record { total = 0; present = 0 }
no_one (some d) = d

-- `student.department or 'Unassigned'`
abbrev pub department_of : Option Text → Text
department_of none = text "Unassigned"
department_of (some d) = if is_empty d then text "Unassigned" else d

abbrev pub mark_dept : Dept → Dept
mark_dept d = record d { present = suc d.present }

abbrev pub count_student : Dept → Dept
count_student d = record d { total = suc d.total }

-- `for r in records: …; dept_stats[dept]['present'] += 1`, with the departments of the records.
unfoldable pub add_marks : List Text → Dict Dept → Dict Dept
add_marks [] d = d
add_marks (dept ∷ ds) d = add_marks ds (put dept (mark_dept (no_one (get dept d))) d)

-- `for s in all_students: …; dept_stats[dept]['total'] += 1`
unfoldable pub add_totals : List Text → Dict Dept → Dict Dept
add_totals [] d = d
add_totals (dept ∷ ds) d = add_totals ds (put dept (count_student (no_one (get dept d))) d)

abbrev pub student_department : Option Student → Text
student_department none = text "Unassigned"
student_department (some x) = department_of x.department

abbrev pub departments_of : List AttendanceRecord → Table Student → List Text
departments_of [] t = []
departments_of (r ∷ rs) t = student_department (lookup r.student_id t) ∷ departments_of rs t

abbrev pub departments_all : List Student → List Text
departments_all [] = []
departments_all (x ∷ xs) =
    let rest = departments_all xs in if x.is_active then department_of x.department ∷ rest else rest

-- `dept_stats` of `get_dashboard_data`; every record has its student, by the foreign key.
unfoldable pub dept_stats : ℕ → School → Dict Dept
unfolding add_totals add_marks lookup
dept_stats today s =
    add_totals (departments_all (values s.students))
      (add_marks (departments_of (records_of today s) s.students) [])

pub record Day : Type 0 where
  pub date : ℕ
  pub present : ℕ
  pub count : ℕ

abbrev day_of : ℕ → School → Day
day_of d s = record {
  date = d;
  present = count_if (λ r. is_present r || is_late r) (records_of d s);
  count = length (records_of d s);
}

-- `week_trend`: the six days before and today.
unfoldable pub week_trend : ℕ → School → List Day
week_trend today s =
    day_of (today - 6) s
    ∷ day_of (today - 5) s
    ∷ day_of (today - 4) s
    ∷ day_of (today - 3) s
    ∷ day_of (today - 2) s
    ∷ day_of (today - 1) s
    ∷ day_of today s
    ∷ []
