-- ===== src/Attendance/Runs.antt =====
-- Any sequence of requests to the attendance service (app/services/attendance.py,
-- app/api/attendance.py), and what it keeps.
use frass_f.Base.{
  ℕ, ◌≤◌, ◌≡◌, refl, Option, none, some, List, [], ◌∷◌, Text, arith, values, insert, lookup,
  count_if, Table, first_where, Bool-cases, inl, inr, ◌∙◌,
}
use frass_f.Base.Int.{ℤ}
use frass_f.Attendance.State.{AttendanceSession, School, Clock, AttendanceRecord, Status}
use frass_f.Attendance.Sessions.{
  is_active, is_active_of, end_at, start_session, stop_session, get_active_session, stop_attendance,
  stopped, stop_found,
}
use frass_f.Attendance.Sessions.Single.{open_of, start_session-one}
use frass_f.Attendance.Marks.{
  Sighting, mark_attendance, mark_manual, add_record, violates, answer, mark_in, mark_unless,
  is_pair, status_under, schedule_of, new_record, manual_answer, manual_unless, manual_of,
  is_marked_on,
}
use frass_f.Attendance.Marks.Unique.{Unique, mark_attendance-Unique, mark_manual-Unique}

pub data Request : Type 0 where
  start : ℕ → Option ℕ → ℤ → Request
  stop : Request
  mark : ℕ → ℕ → Sighting → Request
  manual : ℕ → Option Text → Request

unfoldable pub handle : Request → Clock → School → School
unfolding start_session stop_attendance mark_attendance mark_manual
handle (start user_id schedule_id tolerance) clock s =
    (start_session user_id schedule_id tolerance clock.now s).1
handle stop clock s = stop_attendance clock.now s
handle (mark student session_id sighting) clock s =
    (mark_attendance student session_id sighting clock s).1
handle (manual student notes) clock s = (mark_manual student notes clock s).1

unfoldable pub handle_all : List (Request × Clock) → School → School
unfolding handle
handle_all [] s = s
handle_all ((r, clock) ∷ rs) s = handle_all rs (handle r clock s)

-- Every user has at most one open session, and every student at most one record in a session.
abbrev pub Orderly : School → Type 0
Orderly s = ((u : ℕ) → open_of u s ≤ 1) × Unique s

end_fewer :
    (u now i : ℕ) (x : AttendanceSession) (t : Table AttendanceSession)
    → lookup i t ≡ some x
    → count_if (is_active_of u) (values (insert i (end_at now x) t))
      ≤ count_if (is_active_of u) (values t)
unfolding lookup insert
end_fewer u now i x [] h = ground arith
end_fewer u now i x ((j, y) ∷ t) h = ground (arith, end_fewer u now i x t)

add_record_sessions : (r : AttendanceRecord) (s : School) → (add_record r s).1.sessions ≡ s.sessions
unfolding add_record
add_record_sessions r s = elim (Bool-cases (violates r (values s.records))) [
  | inl e ↦ rw e
  | inr e ↦ rw e
]

answer_sessions :
    (student session_id : ℕ) (clock : Clock) (a : Option ℕ × School)
    → (answer student session_id clock a).1.sessions ≡ a.1.sessions
answer_sessions student session_id clock (none, s) = refl
answer_sessions student session_id clock (some i, s) = refl

mark_sessions :
    (x : Option AttendanceSession) (student session_id : ℕ) (sighting : Sighting) (clock : Clock)
    (s : School)
    → (mark_in x student session_id sighting clock s).1.sessions ≡ s.sessions
mark_sessions none student session_id sighting clock s = refl
mark_sessions (some x) student session_id sighting clock s = elim (Bool-cases (is_active x)) [
  | inl e ↦ rw e (unless (first_where (is_pair student session_id) s.records))
  | inr e ↦ rw e
]
  where
    status : Status
    status = status_under (schedule_of x s.schedules) clock.now

    unless :
        (o : Option (ℕ × AttendanceRecord))
        → (mark_unless o student session_id status sighting clock s).1.sessions ≡ s.sessions
    unless (some (i, r)) = refl
    unless none =
        let r : AttendanceRecord = new_record student session_id status sighting clock in
        answer_sessions student session_id clock (add_record r s) ∙ add_record_sessions r s

manual_answer_sessions : (a : Option ℕ × School) → (manual_answer a).1.sessions ≡ a.1.sessions
manual_answer_sessions (none, s) = refl
manual_answer_sessions (some i, s) = refl

manual_sessions :
    (o : Option (ℕ × AttendanceRecord)) (student : ℕ) (notes : Option Text) (clock : Clock)
    (s : School)
    → (manual_unless o student notes clock s).1.sessions ≡ s.sessions
manual_sessions (some (i, r)) student notes clock s = refl
manual_sessions none student notes clock s =
    manual_answer_sessions (add_record (manual_of student notes clock s) s)
    ∙ add_record_sessions (manual_of student notes clock s) s

stopped_fewer :
    (u now i : ℕ) (s : School) (o : Option AttendanceSession)
    → lookup i s.sessions ≡ o
    → (open_of u (stopped o i now s) ≤ open_of u s) × ((stopped o i now s).records ≡ s.records)
stopped_fewer u now i s none e = (omega arith, refl)
stopped_fewer u now i s (some x) e = (end_fewer u now i x s.sessions e, refl)

stop_fewer :
    (u now : ℕ) (s : School) (o : Option (ℕ × AttendanceSession))
    → (open_of u (stop_found o now s) ≤ open_of u s) × ((stop_found o now s).records ≡ s.records)
unfolding stop_session
stop_fewer u now s none = (omega arith, refl)
stop_fewer u now s (some (i, x)) = stopped_fewer u now i s (lookup i s.sessions) refl

-- One request, with any clock, keeps the tables orderly.
pub handle-Orderly :
    (r : Request) (clock : Clock) (s : School) → Orderly s → Orderly (handle r clock s)
unfolding handle mark_attendance mark_manual stop_attendance
handle-Orderly (start user_id schedule_id tolerance) clock s (one, u) = (
  λ v.
      let counted = start_session-one user_id v clock.now schedule_id tolerance s in
      let before = one v in ground arith,
  unfold start_session in u,
)
handle-Orderly stop clock s (one, u) = (
  λ v.
      let fewer = (stop_fewer v clock.now s (get_active_session s)).0 in
      let before = one v in omega arith,
  λ st i. rw ((stop_fewer 0 clock.now s (get_active_session s)).1) (u st i),
)
handle-Orderly (mark student session_id sighting) clock s (one, u) = (
  λ v.
      rw (mark_sessions (lookup session_id s.sessions) student session_id sighting clock s) (one v),
  mark_attendance-Unique student session_id sighting clock s u,
)
handle-Orderly (manual student notes) clock s (one, u) = (
  λ v.
      rw
        (manual_sessions (first_where (is_marked_on student clock.today) s.records) student notes
          clock s)
        (one v),
  mark_manual-Unique student notes clock s u,
)

-- After any requests, at any times and in any order, of any users, no user has two open sessions and
-- no student two records in a session, where that held before.
pub handle_all-Orderly :
    (rs : List (Request × Clock)) (s : School) → Orderly s → Orderly (handle_all rs s)
unfolding handle_all
handle_all-Orderly [] s o = o
handle_all-Orderly ((r, clock) ∷ rs) s o =
    handle_all-Orderly rs (handle r clock s) (handle-Orderly r clock s o)
