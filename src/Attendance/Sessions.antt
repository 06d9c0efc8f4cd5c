-- ===== src/Attendance/Sessions.antt =====
-- Sessions of taking attendance: `start_session`, `stop_session`, `get_active_session`
-- (app/services/attendance.py) and `stop_attendance` (app/api/attendance.py).
pub mod Single
use frass_f.Base.{
  ℕ, ◌+◌, Bool, true, false, ◌&&◌, Option, none, some, ◌==◌, if◌then◌else◌, lookup, insert, next_id,
  first_where, update_where,
}
use frass_f.Base.Int.{ℤ}
use frass_f.Attendance.State.{AttendanceSession, SessionStatus, active, ended, School}

abbrev pub is_active : AttendanceSession → Bool
is_active x = elim x.status [ active ↦ true | ended ↦ false ]

-- `filter_by(started_by=user_id, status='active')`
abbrev pub is_active_of : ℕ → AttendanceSession → Bool
is_active_of user_id x = x.started_by == user_id && is_active x

abbrev pub end_at : ℕ → AttendanceSession → AttendanceSession
end_at now x = record x { status = ended; ended_at = some now }

abbrev pub new_session : ℕ → Option ℕ → ℤ → ℕ → AttendanceSession
new_session user_id schedule_id tolerance now = record {
  started_by = user_id;
  schedule_id = schedule_id;
  tolerance = tolerance;
  status = active;
  started_at = now;
  ended_at = none;
}

-- `start_session`, with the id of the new session; the reload of the face engine is left out.
unfoldable pub start_session : ℕ → Option ℕ → ℤ → ℕ → School → ℕ × School
unfolding update_where insert next_id
start_session user_id schedule_id tolerance now s =
    let others = update_where (is_active_of user_id) (end_at now) s.sessions in
    (
      next_id others,
      record s {
        sessions = insert (next_id others) (new_session user_id schedule_id tolerance now) others;
      },
    )

abbrev pub stopped : Option AttendanceSession → ℕ → ℕ → School → School
stopped none session_id now s = s
stopped (some x) session_id now s = record s {
  sessions = insert session_id (end_at now x) s.sessions;
}

-- `stop_session`
unfoldable pub stop_session : ℕ → ℕ → School → School
stop_session session_id now s = stopped (lookup session_id s.sessions) session_id now s

-- `get_active_session`, whoever has started it.
unfoldable pub get_active_session : School → Option (ℕ × AttendanceSession)
unfolding first_where
get_active_session s = first_where is_active s.sessions

abbrev pub stop_found : Option (ℕ × AttendanceSession) → ℕ → School → School
stop_found none now s = s
stop_found (some (i, x)) now s = stop_session i now s

-- `stop_attendance`
unfoldable pub stop_attendance : ℕ → School → School
unfolding stop_session
stop_attendance now s = stop_found (get_active_session s) now s
