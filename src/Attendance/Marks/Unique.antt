-- ===== src/Attendance/Marks/Unique.antt =====
-- No student has two records in a session (app/services/attendance.py), and what a second mark
-- answers.
use frass_f.Base.{
  count_if-none, ℕ, ◌≤◌, ◌≡◌, refl, Bool, true, false, Option, none, some, List, [], ◌∷◌, ◌++◌,
  Text, arith, count_if, count_if-append, any, Table, values, values-insert, lookup, insert,
  next_id, first_where, Bool-cases, inl, inr, sym,
}
use frass_f.Attendance.State.{AttendanceRecord, AttendanceSession, School, Clock, Status}
use frass_f.Attendance.Sessions.{is_active}
use frass_f.Attendance.Marks.{
  is_pair, violates, add_record, Sighting, mark_attendance, mark_manual, is_marked_on, answer,
  mark_unless, mark_in, manual_answer, manual_unless, manual_of, status_under, schedule_of,
  new_record,
}

-- No student has two records in one session.
abbrev pub Unique : School → Type 0
Unique s = (student session : ℕ) → count_if (is_pair student session) (values s.records) ≤ 1

pair_free :
    (r : AttendanceRecord) (o : Option ℕ) (rs : List AttendanceRecord) (student session : ℕ)
    → r.session_id ≡ o
    → is_pair student session r ≡ true
    → violates r rs ≡ false
    → any (is_pair student session) rs ≡ false
pair_free r none rs student session e p v = absurd (ground arith)
pair_free r (some i) rs student session e p v =
    let w : any (is_pair r.student_id i) rs ≡ false = ground arith in
    let a : r.student_id ≡ student = ground arith in
    let b : i ≡ session = ground arith in rw (sym a, sym b) w

-- A record that violates nothing is of no pair that is there.
allowed :
    (r : AttendanceRecord) (rs : List AttendanceRecord) (student session : ℕ)
    → violates r rs ≡ false
    → count_if (is_pair student session) rs ≤ 1
    → count_if (is_pair student session) (rs ++ (r ∷ [])) ≤ 1
allowed r rs student session h u =
    rw (count_if-append (is_pair student session) rs (r ∷ []))
      (elim (Bool-cases (is_pair student session r)) [
        | inl e ↦
            let free =
              count_if-none (is_pair student session) rs
                (pair_free r r.session_id rs student session refl e h) in
            ground arith
        | inr e ↦ ground arith
      ])

add_record-Unique : (r : AttendanceRecord) (s : School) → Unique s → Unique (add_record r s).1
unfolding add_record
add_record-Unique r s u student session = elim (Bool-cases (violates r (values s.records))) [
  | inl e ↦ rw e (u student session)
  | inr e ↦
      rw (e, values-insert (next_id s.records) r s.records (omega arith))
        (allowed r (values s.records) student session e (u student session))
]

answer-Unique :
    (student session_id : ℕ) (clock : Clock) (a : Option ℕ × School)
    → Unique a.1
    → Unique (answer student session_id clock a).1
answer-Unique student session_id clock (none, s) u = u
answer-Unique student session_id clock (some i, s) u = u

mark_in-Unique :
    (x : Option AttendanceSession) (student session_id : ℕ) (sighting : Sighting) (clock : Clock)
    (s : School)
    → Unique s
    → Unique (mark_in x student session_id sighting clock s).1
unfolding mark_in mark_unless
mark_in-Unique none student session_id sighting clock s u = u
mark_in-Unique (some x) student session_id sighting clock s u = elim (Bool-cases (is_active x)) [
  | inl e ↦ rw e (unless (first_where (is_pair student session_id) s.records))
  | inr e ↦ rw e u
]
  where
    status : Status
    status = status_under (schedule_of x s.schedules) clock.now

    unless :
        (o : Option (ℕ × AttendanceRecord))
        → Unique (mark_unless o student session_id status sighting clock s).1
    unless (some (i, r)) = u
    unless none =
        answer-Unique student session_id clock
          (add_record (new_record student session_id status sighting clock) s)
          (add_record-Unique (new_record student session_id status sighting clock) s u)

pub mark_attendance-Unique :
    (student session_id : ℕ) (sighting : Sighting) (clock : Clock) (s : School)
    → Unique s
    → Unique (mark_attendance student session_id sighting clock s).1
unfolding mark_attendance
mark_attendance-Unique student session_id sighting clock s u =
    mark_in-Unique (lookup session_id s.sessions) student session_id sighting clock s u

manual_answer-Unique : (a : Option ℕ × School) → Unique a.1 → Unique (manual_answer a).1
manual_answer-Unique (none, s) u = u
manual_answer-Unique (some i, s) u = u

pub mark_manual-Unique :
    (student : ℕ) (notes : Option Text) (clock : Clock) (s : School)
    → Unique s
    → Unique (mark_manual student notes clock s).1
unfolding mark_manual
mark_manual-Unique student notes clock s u =
    unless (first_where (is_marked_on student clock.today) s.records)
  where
    unless : (o : Option (ℕ × AttendanceRecord)) → Unique (manual_unless o student notes clock s).1
    unless (some (i, r)) = u
    unless none =
        manual_answer-Unique (add_record (manual_of student notes clock s) s)
          (add_record-Unique (manual_of student notes clock s) s u)

pub first_new :
    (p : AttendanceRecord → Bool) (k : ℕ) (r : AttendanceRecord) (t : Table AttendanceRecord)
    → first_where p t ≡ none
    → p r ≡ true
    → next_id t ≤ k
    → first_where p (insert k r t) ≡ some (k, r)
unfolding first_where insert next_id
first_new p k r [] h q n = ground arith
first_new p k r ((j, w) ∷ t) h q n = ground (arith, first_new p k r t)
