-- ===== src/Attendance/Sessions/Single.antt =====
-- How many sessions are open (app/services/attendance.py), and which one a stop ends.
use frass_f.Base.{
  ℕ, ◌≤◌, ◌≡◌, ◌≢◌, Option, none, some, [], ◌∷◌, ◌==◌, if◌then◌else◌, arith, count_if,
  count_if-append, Table, lookup, insert, next_id, first_where, update_where, values, values-insert,
  lookup-insert, lookup-update_where, lookup-next_id,
}
use frass_f.Base.Int.{ℤ}
use frass_f.Attendance.State.{AttendanceSession, School}
use frass_f.Attendance.Sessions.{
  is_active, is_active_of, end_at, new_session, start_session, stop_session, get_active_session,
  stop_attendance,
}

-- The number of sessions of the user that are open.
abbrev pub open_of : ℕ → School → ℕ
open_of u s = count_if (is_active_of u) (values s.sessions)

after_end :
    (user_id u now : ℕ) (t : Table AttendanceSession)
    → count_if (is_active_of u) (values (update_where (is_active_of user_id) (end_at now) t))
      ≡ (if u == user_id then 0 else count_if (is_active_of u) (values t))
unfolding update_where
after_end user_id u now [] = ground arith
after_end user_id u now ((j, x) ∷ t) = ground (arith, after_end user_id u now t)

-- Starting a session leaves its user exactly one open session, and everyone else as many as before.
pub start_session-one :
    (user_id u now : ℕ) (schedule_id : Option ℕ) (tolerance : ℤ) (s : School)
    → open_of u (start_session user_id schedule_id tolerance now s).1
      ≡ (if u == user_id then 1 else open_of u s)
unfolding start_session
start_session-one user_id u now schedule_id tolerance s =
    let others : Table AttendanceSession =
      update_where (is_active_of user_id) (end_at now) s.sessions in
    let x : AttendanceSession = new_session user_id schedule_id tolerance now in
    rw
      (
        values-insert (next_id others) x others (omega arith),
        count_if-append (is_active_of u) (values others) (x ∷ []),
        after_end user_id u now s.sessions,
      )
      (ground arith)

first_after_end :
    (user_id now i : ℕ) (x : AttendanceSession) (t : Table AttendanceSession)
    → first_where is_active t ≡ some (i, x)
    → x.started_by ≢ user_id
    → first_where is_active (update_where (is_active_of user_id) (end_at now) t) ≡ some (i, x)
unfolding first_where update_where
first_after_end user_id now i x [] h other = ground arith
first_after_end user_id now i x ((j, y) ∷ t) h other =
    ground (arith, first_after_end user_id now i x t)

first_after_insert :
    (k i : ℕ) (v x : AttendanceSession) (t : Table AttendanceSession)
    → next_id t ≤ k
    → first_where is_active t ≡ some (i, x)
    → first_where is_active (insert k v t) ≡ some (i, x)
unfolding first_where insert next_id
first_after_insert k i v x [] le h = ground arith
first_after_insert k i v x ((j, y) ∷ t) le h = ground (arith, first_after_insert k i v x t)

-- Where the first open session `i` is of someone else, a user who starts a session and stops ends
-- that session `i`, and the own one stays open.
pub stop_attendance-other :
    (user_id now later i : ℕ) (schedule_id : Option ℕ) (tolerance : ℤ) (x : AttendanceSession)
    (s : School)
    → get_active_session s ≡ some (i, x)
    → lookup i s.sessions ≡ some x
    → x.started_by ≢ user_id
    → (lookup
          (start_session user_id schedule_id tolerance now s).0
          (stop_attendance later (start_session user_id schedule_id tolerance now s).1).sessions
        ≡ some (new_session user_id schedule_id tolerance now))
      × (lookup i
            (stop_attendance later (start_session user_id schedule_id tolerance now s).1).sessions
          ≡ some (end_at later x))
unfolding start_session stop_attendance stop_session get_active_session
stop_attendance-other user_id now later i schedule_id tolerance x s found row other =
    let others : Table AttendanceSession =
      update_where (is_active_of user_id) (end_at now) s.sessions in
    let n : ℕ = next_id others in
    let y : AttendanceSession = new_session user_id schedule_id tolerance now in
    let fresh : lookup n others ≡ none = lookup-next_id n others (omega arith) in
    let kept : lookup i others ≡ some x =
      ground (arith, lookup-update_where (is_active_of user_id) (end_at now) i x s.sessions) in
    let row' : lookup i (insert n y others) ≡ some x = ground (arith, lookup-insert n i y others) in
    let first : first_where is_active (insert n y others) ≡ some (i, x) =
      first_after_insert n i y x others (omega arith)
        (first_after_end user_id now i x s.sessions found other) in
    rw
      (
        first,
        row',
        lookup-insert i n (end_at later x) (insert n y others),
        lookup-insert i i (end_at later x) (insert n y others),
        lookup-insert n n y others,
      )
      (ground arith)
