-- ===== src/Attendance/Marks/Again.antt =====
-- What a second mark answers, and when a manual mark raises (app/services/attendance.py).
use frass_f.Base.{
  ℕ, ◌≡◌, refl, true, Option, none, some, List, [], arith, values, lookup, insert, next_id,
  first_where, Bool-cases, inl, inr,
}
use frass_f.Attendance.State.{AttendanceRecord, AttendanceSession, School, Clock, Status}
use frass_f.Attendance.Sessions.{is_active}
use frass_f.Attendance.Marks.{
  Event, marked, already_marked, is_pair, violates, add_record, Sighting, mark_attendance,
  new_record, answer, mark_unless, mark_in, status_under, schedule_of,
}
use frass_f.Attendance.Marks.Unique.{first_new}

module _ (student session_id : ℕ) (sighting : Sighting) (clock : Clock) (s s' : School) (i : ℕ)
    (events : List Event) where
  -- The session was open, and the record is new.
  abbrev Added : Option AttendanceSession → Type 0
  Added o =
      (x : AttendanceSession) × (o ≡ some x)
      × (is_active x ≡ true)
      × (first_where (is_pair student session_id) s.records ≡ none)
      × (i ≡ next_id s.records)
      × (r : AttendanceRecord) × (is_pair student session_id r ≡ true)
      × (s' ≡ record s { records = insert i r s.records })

  added_record :
      (status : Status)
      → answer student session_id clock
          (add_record (new_record student session_id status sighting clock) s)
        ≡ (some (marked i, events), s')
      → (i ≡ next_id s.records)
        × (s' ≡ record s {
          records = insert i (new_record student session_id status sighting clock) s.records;
        })
  unfolding add_record
  added_record status h =
      elim (Bool-cases
        (violates (new_record student session_id status sighting clock) (values s.records))) [
          | inl e ↦ absurd (ground arith)
          | inr e ↦ (ground arith, ground arith)
        ]

  added_unless :
      (status : Status) (o : Option (ℕ × AttendanceRecord))
      → mark_unless o student session_id status sighting clock s ≡ (some (marked i, events), s')
      → (o ≡ none)
        × (i ≡ next_id s.records)
        × (s' ≡ record s {
          records = insert i (new_record student session_id status sighting clock) s.records;
        })
  added_unless status none h = let (k, e) = added_record status h in (refl, k, e)
  added_unless status (some (j, r)) h = absurd (ground arith)

  added :
      (o : Option AttendanceSession)
      → mark_in o student session_id sighting clock s ≡ (some (marked i, events), s')
      → Added o
  added none h = absurd (ground arith)
  added (some x) h = elim (Bool-cases (is_active x)) [
    | inl e ↦
        let status : Status = status_under (schedule_of x s.schedules) clock.now in
        let (none_before, k, e') =
          added_unless status (first_where (is_pair student session_id) s.records) (ground arith) in
        (
          x,
          refl,
          e,
          none_before,
          k,
          new_record student session_id status sighting clock,
          ground arith,
          e',
        )
    | inr e ↦ absurd (ground arith)
  ]

-- Once a student is marked in a session, every other mark of the student in that session is answered
-- `already_marked` with the record of the first, whenever it comes, and changes and broadcasts
-- nothing.
pub mark_attendance-again :
    (student session_id i : ℕ) (sighting sighting' : Sighting) (clock clock' : Clock)
    (s s' : School) (events : List Event)
    → mark_attendance student session_id sighting clock s ≡ (some (marked i, events), s')
    → mark_attendance student session_id sighting' clock' s' ≡ (some (already_marked i, []), s')
unfolding mark_attendance
mark_attendance-again student session_id i sighting sighting' clock clock' s s' events h =
    let (x, o, e, before, k, r, q, e') =
      added student session_id sighting clock s s' i events (lookup session_id s.sessions) h in
    let again = first_new (is_pair student session_id) i r s.records before q (omega arith) in
    rw (e', o, e, again)
