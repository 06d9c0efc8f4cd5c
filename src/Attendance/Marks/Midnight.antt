-- ===== src/Attendance/Marks/Midnight.antt =====
-- A manual mark within a session that is still open from an earlier day (`mark_manual`,
-- app/services/attendance.py).
use frass_f.Base.{ℕ, ◌≡◌, true, Option, none, some, Text, any, values, first_where}
use frass_f.Attendance.State.{AttendanceSession, School, Clock}
use frass_f.Attendance.Sessions.{get_active_session}
use frass_f.Attendance.Marks.{is_pair, is_marked_on, mark_manual, manual_of, add_record}

-- Where the student has no record of today, but one in the session that is open, as after midnight,
-- a manual mark violates the unique constraint: it raises, and nothing is stored.
pub mark_manual_raises :
    (student i : ℕ) (notes : Option Text) (clock : Clock) (x : AttendanceSession) (s : School)
    → first_where (is_marked_on student clock.today) s.records ≡ none
    → get_active_session s ≡ some (i, x)
    → any (is_pair student i) (values s.records) ≡ true
    → mark_manual student notes clock s ≡ (none, s)
unfolding mark_manual add_record manual_of
mark_manual_raises student i notes clock x s h active p = rw (h, active, p)
