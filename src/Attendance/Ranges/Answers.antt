-- ===== src/Attendance/Ranges/Answers.antt =====
-- What the records of a range and of a day are (app/services/attendance.py).
use frass_f.Base.{
  if◌then◌else◌, suc, ◌<◌, ◌≤◌, ◌⊎◌, ltb, leb, ◌||◌, count_if, ℕ, ◌≡◌, refl, ap, ◌∙◌, Bool, true,
  ◌&&◌, Option, none, some, List, [], ◌∷◌, keep_if, count_if, length, All, leb, ◌==◌, Table, lookup,
  values, is_some, arith, Bool-cases, inl, inr,
}
use frass_f.Base.Sorted.{sort, Ordered, sort-Ordered, sort-All, count-sort, count-keep, length-sort}
use frass_f.Attendance.State.{AttendanceRecord, Student, School}
use frass_f.Attendance.Stats.{in_range, records_of}
use frass_f.Attendance.Ranges.{
  Row, with_student, joined, by_day, by_time, get_attendance_range, get_today_attendance,
}

by_day-Ordered : (ws : List Row) → Ordered by_day (sort by_day ws)
by_day-Ordered ws =
    sort-Ordered by_day (λ (a b c : Row) h k. ground arith) (λ (a b : Row) h. ground arith) ws

-- A row of a later day, or of the same day and no later, comes first.
abbrev pub Precedes : Row → Row → Type 0
Precedes a b =
    (b.of_record.date < a.of_record.date)
    ⊎ ((a.of_record.date ≡ b.of_record.date) × (a.of_record.time_in ≤ b.of_record.time_in))

abbrev pub InOrder : List Row → Type 0
InOrder [] = Unit
InOrder (w ∷ ws) = All (Precedes w) ws × InOrder ws

-- Whether a record is of a student that is asked for; no id, and the id 0, ask for all.
abbrev pub is_asked : Option ℕ → AttendanceRecord → Bool
is_asked none r = true
is_asked (some j) r = j == 0 || r.student_id == j

-- Whether a record is of the days and the student that are asked for, and its student exists.
abbrev pub belongs : ℕ → ℕ → Option ℕ → School → AttendanceRecord → Bool
belongs start end student_db_id s r =
    leb start r.date
    && leb r.date end
    && is_asked student_db_id r
    && is_some (lookup r.student_id s.students)

All-weaken : (P Q : Row → Type 0) (ws : List Row) → ((w : Row) → P w → Q w) → All P ws → All Q ws
All-weaken P Q [] f h = tt
All-weaken P Q (w ∷ ws) f h = (f w h.0, All-weaken P Q ws f h.1)

by_day-Precedes : (a b : Row) → by_day a b ≡ true → Precedes a b
by_day-Precedes a b h = elim (Bool-cases (ltb b.of_record.date a.of_record.date)) [
  | inl e ↦ inl (ground arith)
  | inr e ↦ inr (ground arith, ground arith)
]

Ordered-InOrder : (ws : List Row) → Ordered by_day ws → InOrder ws
Ordered-InOrder [] h = tt
Ordered-InOrder (w ∷ ws) h = (
  All-weaken (λ x. by_day w x ≡ true) (Precedes w) ws (by_day-Precedes w) h.0,
  Ordered-InOrder ws h.1,
)

-- Each row of the join has the student of its record.
abbrev pub HasStudent : Table Student → Row → Type 0
HasStudent t w = lookup w.of_record.student_id t ≡ some w.of_student

joined-HasStudent :
    (rs : Table AttendanceRecord) (t : Table Student) → All (HasStudent t) (joined rs t)
unfolding joined
joined-HasStudent [] t = tt
joined-HasStudent ((i, r) ∷ rs) t = go (lookup r.student_id t) refl (joined-HasStudent rs t)
  where
    go :
        (o : Option Student)
        → lookup r.student_id t ≡ o
        → All (HasStudent t) (joined rs t)
        → All (HasStudent t) (with_student o i r (joined rs t))
    go none e h = h
    go (some x) e h = (e, h)

keep-kept : (P : Row → Type 0) (q : Row → Bool) (ws : List Row) → All P ws → All P (keep_if q ws)
keep-kept P q [] h = tt
keep-kept P q (w ∷ ws) h = elim (Bool-cases (q w)) [
  | inl e ↦ rw e (h.0, keep-kept P q ws h.1)
  | inr e ↦ rw e (keep-kept P q ws h.1)
]

count-joined :
    (q : AttendanceRecord → Bool) (p : ℕ × AttendanceRecord → Bool) (rs : Table AttendanceRecord)
    (t : Table Student)
    → count_if (λ w. q w.of_record && p (w.id, w.of_record)) (joined rs t)
      ≡ count_if (λ k. (q k.1 && is_some (lookup k.1.student_id t)) && p k) rs
unfolding joined
count-joined q p [] t = refl
count-joined q p ((i, r) ∷ rs) t = go (lookup r.student_id t) (count-joined q p rs t)
  where
    go :
        (o : Option Student)
        → count_if (λ w. q w.of_record && p (w.id, w.of_record)) (joined rs t)
          ≡ count_if (λ k. (q k.1 && is_some (lookup k.1.student_id t)) && p k) rs
        → count_if (λ w. q w.of_record && p (w.id, w.of_record)) (with_student o i r (joined rs t))
          ≡ (if (q r && is_some o) && p (i, r)
              then suc (count_if (λ k. (q k.1 && is_some (lookup k.1.student_id t)) && p k) rs)
              else count_if (λ k. (q k.1 && is_some (lookup k.1.student_id t)) && p k) rs)
    go none e = ground arith
    go (some x) e = ground arith

count-same :
    (p q : ℕ × AttendanceRecord → Bool) (rs : Table AttendanceRecord)
    → ((k : ℕ × AttendanceRecord) → p k ≡ q k)
    → count_if p rs ≡ count_if q rs
count-same p q [] h = refl
count-same p q (k ∷ rs) h = let e = h k in ground (arith, count-same p q rs h)

in_range-belongs :
    (start end : ℕ) (o : Option ℕ) (s : School) (p : ℕ × AttendanceRecord → Bool)
    (k : ℕ × AttendanceRecord)
    → ((in_range start end o k.1 && is_some (lookup k.1.student_id s.students)) && p k)
      ≡ (belongs start end o s k.1 && p k)
unfolding in_range
in_range-belongs start end none s p k = ground arith
in_range-belongs start end (some j) s p k = ground arith

-- In a range the rows stand by day, the newest first, and within a day by time, the earliest first;
-- each has the student of its record; and each record of the table is there as often as in the table,
-- with its id, if its day is one of the range, its student exists and is asked for, and else not.
pub get_attendance_range-Answers :
    (start end : ℕ) (student_db_id : Option ℕ) (s : School)
    → InOrder (get_attendance_range start end student_db_id s)
      × All (HasStudent s.students) (get_attendance_range start end student_db_id s)
      × ((p : ℕ × AttendanceRecord → Bool)
          → count_if (λ w. p (w.id, w.of_record)) (get_attendance_range start end student_db_id s)
            ≡ count_if (λ k. belongs start end student_db_id s k.1 && p k) s.records)
unfolding get_attendance_range
get_attendance_range-Answers start end student_db_id s =
    let asked : Row → Bool = λ w. in_range start end student_db_id w.of_record in
    let all = joined s.records s.students in
    (
      Ordered-InOrder (sort by_day (keep_if asked all)) (by_day-Ordered (keep_if asked all)),
      sort-All by_day (HasStudent s.students) (keep_if asked all)
          (keep-kept (HasStudent s.students) asked all (joined-HasStudent s.records s.students)),
      λ p.
          count-sort by_day (λ w. p (w.id, w.of_record)) (keep_if asked all)
          ∙ count-keep by_day asked (λ w. p (w.id, w.of_record)) all
          ∙ count-joined (in_range start end student_db_id) p s.records s.students
          ∙ count-same _ _ s.records (in_range-belongs start end student_db_id s p),
    )

-- Every record has its student, by the foreign key.
abbrev pub AllOfStudents : School → Type 0
AllOfStudents s = All (λ r. is_some (lookup r.student_id s.students) ≡ true) (values s.records)

length-joined :
    (p : AttendanceRecord → Bool) (rs : Table AttendanceRecord) (t : Table Student)
    → All (λ r. is_some (lookup r.student_id t) ≡ true) (values rs)
    → length (keep_if (λ w. p w.of_record) (joined rs t)) ≡ length (keep_if p (values rs))
unfolding joined
length-joined p [] t h = refl
length-joined p ((i, r) ∷ rs) t h = go (lookup r.student_id t) h.0 (length-joined p rs t h.1)
  where
    go :
        (o : Option Student)
        → is_some o ≡ true
        → length (keep_if (λ w. p w.of_record) (joined rs t)) ≡ length (keep_if p (values rs))
        → length (keep_if (λ w. p w.of_record) (with_student o i r (joined rs t)))
          ≡ length (keep_if p (r ∷ values rs))
    go none k e = absurd (ground arith)
    go (some x) k e = elim (Bool-cases (p r)) [ inl f ↦ rw f (omega (arith, e)) | inr f ↦ rw f e ]

keep-one_day :
    (d : ℕ) (rs : List AttendanceRecord)
    → keep_if (in_range d d none) rs ≡ keep_if (λ r. r.date == d) rs
unfolding in_range
keep-one_day d [] = refl
keep-one_day d (r ∷ rs) =
    let e : (leb d r.date && leb r.date d && true) ≡ (r.date == d) = ground arith in
    rw e (elim (Bool-cases (r.date == d)) [
      | inl t ↦ rw t (ap (λ (x : List AttendanceRecord). r ∷ x) (keep-one_day d rs))
      | inr f ↦ rw f (keep-one_day d rs)
    ])

-- Where every record has its student, the list of a day has as many rows as there are records of the
-- day, which the dashboard counts, and so has the report of that day alone.
pub length-one_day :
    (d : ℕ) (s : School)
    → AllOfStudents s
    → (length (get_today_attendance d s) ≡ length (records_of d s))
      × (length (get_attendance_range d d none s) ≡ length (records_of d s))
unfolding get_today_attendance get_attendance_range
length-one_day d s h =
    let all = joined s.records s.students in
    (
      length-sort by_time (keep_if (λ w. w.of_record.date == d) all)
          ∙ length-joined (λ r. r.date == d) s.records s.students h,
      length-sort by_day (keep_if (λ w. in_range d d none w.of_record) all)
          ∙ length-joined (in_range d d none) s.records s.students h
          ∙ ap (length {A = AttendanceRecord}) (keep-one_day d (values s.records)),
    )
