-- ===== src/Schedules/Tests.antt =====
-- Requests on schedules (app/api/schedules.py), run.
use frass_f.Base.{none, some, [], ◌∷◌, text}
use frass_f.Base.Int.{pos, negsuc}
use frass_f.Attendance.State.{School}
use frass_f.Schedules.{NewSchedule, Changes}
use frass_f.Schedules.Timely.{create, update, delete, AllTimely, handle_all, handle_all-AllTimely}

abbrev math : NewSchedule
math = record {
  name = text " Math";
  department = none;
  start_time = text "09:45";
  end_time = text "10:45";
  days_of_week = pos 0 ∷ pos 4 ∷ [];
  late_threshold = some (pos 900);
  grace_period = none;
}

abbrev no_changes : Changes
no_changes = record {
  name = none;
  department = none;
  start_time = none;
  end_time = none;
  late_threshold = none;
  grace_period = none;
  days_of_week = none;
  is_active = none;
}

abbrev empty : School
empty = record { sessions = []; records = []; students = []; schedules = [] }

handle_all-AllTimely_example : AllTimely (
    handle_all
      (create (some math)
        ∷ update 1 (some (record no_changes { start_time = some (text "9:45") }))
        ∷ update 1 (some (record no_changes { grace_period = some (some (negsuc 4)) }))
        ∷ create (some math)
        ∷ delete 1
        ∷ [])
      empty)
handle_all-AllTimely_example =
    handle_all-AllTimely
      (create (some math)
        ∷ update 1 (some (record no_changes { start_time = some (text "9:45") }))
        ∷ update 1 (some (record no_changes { grace_period = some (some (negsuc 4)) }))
        ∷ create (some math)
        ∷ delete 1
        ∷ [])
      empty tt
