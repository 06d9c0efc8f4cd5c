-- ===== src/Realtime/Tests.antt =====
-- Runs of the rooms (app/realtime/events.py) on a list of clients and rooms.
use frass_f.Base.{
  ℕ, ◌≡◌, refl, Bool, true, false, not, ◌&&◌, ◌||◌, List, [], ◌∷◌, Text, text_eq, ◌==◌,
  if◌then◌else◌, take,
}
use frass_f.Base.Int.{pos}
use frass_f.Attendance.State.{School}
use frass_f.Attendance.Marks.{broadcasts}
use frass_f.Realtime.{
  Payload, of_dict, an_int, Sockets, Message, connect, join_session, leave_session, handle_all,
  delivered,
}
use frass_f.Realtime.Delivery.{listens, delivered-broadcasts}

-- Rooms as a test of a client and a name.
abbrev rooms : Sockets
rooms = record {
  World = ℕ → Text → Bool;
  is_in = λ w c r. w c r;
  join_room = λ c r w d q. (c == d && text_eq r q) || w d q;
  leave_room = λ c r w d q. not (c == d && text_eq r q) && w d q;
  close = λ c w d q. not (c == d) && w d q;
  in-join_room = λ c d r q w. refl;
  in-leave_room = λ c d r q w. refl;
  in-close = λ c d q w. refl;
}

abbrev nobody : ℕ → Text → Bool
nobody c r = false

abbrev in_session : ℕ → Payload
in_session n = of_dict (an_int (pos n))

abbrev messages : List Message
messages =
    connect 1
    ∷ join_session 1 (in_session 12)
    ∷ join_session 2 (in_session 1)
    ∷ join_session 2 (in_session 12)
    ∷ leave_session 2 (in_session 12)
    ∷ []

abbrev school : School
school = record { sessions = []; records = []; students = []; schedules = [] }

delivered-broadcasts_example :
    delivered rooms 1 (broadcasts 7 12 1 3 school) (handle_all rooms messages nobody)
    ≡ (if listens 1 12 messages then take 1 (broadcasts 7 12 1 3 school) else [])
delivered-broadcasts_example =
    delivered-broadcasts rooms messages nobody 1 7 12 1 3 school (λ d r. refl)

the_first_listens : listens 1 12 messages ≡ true
the_first_listens = refl

the_second_left : listens 2 12 messages ≡ false
the_second_left = refl
