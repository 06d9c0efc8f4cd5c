-- ===== src/Attendance/Stats/Counts.antt =====
-- What the counters of the dashboard count (app/services/attendance.py).
use frass_f.Base.{
  ℕ, ◌+◌, ◌≡◌, refl, none, some, List, [], ◌∷◌, if◌then◌else◌, Text, Dict, get, put, get-put,
  text_eq, text_eq_iff, count_if, values, arith,
}
use frass_f.Attendance.State.{School}
use frass_f.Attendance.Stats.{
  Dept, no_one, mark_dept, count_student, add_marks, add_totals, dept_stats, departments_of,
  departments_all, records_of,
}

abbrev pub present_in : Text → Dict Dept → ℕ
present_in k d = elim (get k d) [ none ↦ 0 | some x ↦ x.present ]

abbrev pub total_in : Text → Dict Dept → ℕ
total_in k d = elim (get k d) [ none ↦ 0 | some x ↦ x.total ]

-- How often the text is in the list.
abbrev pub occurrences : Text → List Text → ℕ
occurrences k = count_if (λ x. text_eq x k)

mark_one :
    (k x : Text) (d : Dict Dept)
    → present_in k (put x (mark_dept (no_one (get x d))) d)
      ≡ present_in k d + (if text_eq x k then 1 else 0)
mark_one k x d =
    rw (present_in, get-put x k (mark_dept (no_one (get x d))) d) (ground (arith, text_eq_iff x k))

mark_total :
    (k x : Text) (d : Dict Dept)
    → total_in k (put x (mark_dept (no_one (get x d))) d) ≡ total_in k d
mark_total k x d =
    rw (total_in, get-put x k (mark_dept (no_one (get x d))) d) (ground (arith, text_eq_iff x k))

count_one :
    (k x : Text) (d : Dict Dept)
    → total_in k (put x (count_student (no_one (get x d))) d)
      ≡ total_in k d + (if text_eq x k then 1 else 0)
count_one k x d =
    rw (total_in, get-put x k (count_student (no_one (get x d))) d)
      (ground (arith, text_eq_iff x k))

count_present :
    (k x : Text) (d : Dict Dept)
    → present_in k (put x (count_student (no_one (get x d))) d) ≡ present_in k d
count_present k x d =
    rw (present_in, get-put x k (count_student (no_one (get x d))) d)
      (ground (arith, text_eq_iff x k))

add_marks-counts :
    (k : Text) (ds : List Text) (d : Dict Dept)
    → (present_in k (add_marks ds d) ≡ present_in k d + occurrences k ds)
      × (total_in k (add_marks ds d) ≡ total_in k d)
unfolding add_marks
add_marks-counts k [] d = (omega arith, refl)
add_marks-counts k (x ∷ ds) d =
    let d' : Dict Dept = put x (mark_dept (no_one (get x d))) d in
    let (p, t) = add_marks-counts k ds d' in
    let p' = mark_one k x d in let t' = mark_total k x d in (ground arith, cc)

add_totals-counts :
    (k : Text) (ds : List Text) (d : Dict Dept)
    → (total_in k (add_totals ds d) ≡ total_in k d + occurrences k ds)
      × (present_in k (add_totals ds d) ≡ present_in k d)
unfolding add_totals
add_totals-counts k [] d = (omega arith, refl)
add_totals-counts k (x ∷ ds) d =
    let d' : Dict Dept = put x (count_student (no_one (get x d))) d in
    let (p, t) = add_totals-counts k ds d' in
    let p' = count_one k x d in let t' = count_present k x d in (ground arith, cc)

-- Of each department the dashboard shows as present the number of today's records of its students,
-- whatever their status, and as total the number of its active students.
pub dept_stats-counts :
    (k : Text) (today : ℕ) (s : School)
    → (present_in k (dept_stats today s)
        ≡ occurrences k (departments_of (records_of today s) s.students))
      × (total_in k (dept_stats today s) ≡ occurrences k (departments_all (values s.students)))
unfolding dept_stats get
dept_stats-counts k today s =
    let marks : Dict Dept = add_marks (departments_of (records_of today s) s.students) [] in
    let (p, t) = add_marks-counts k (departments_of (records_of today s) s.students) [] in
    let (t', p') = add_totals-counts k (departments_all (values s.students)) marks in
    (ground arith, ground arith)
