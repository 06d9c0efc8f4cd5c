-- ===== src/Realtime.antt =====
-- Rooms of the live updates (app/realtime/events.py): who joins and leaves them, and whom a broadcast
-- reaches. Flask-SocketIO is a parameter with what its documentation promises of rooms.
pub mod Delivery
mod Tests
use frass_f.Base.{
  ℕ, ◌≡◌, Bool, true, false, not, ◌&&◌, ◌||◌, Option, none, some, List, [], ◌∷◌, ◌++◌, Text, text,
  text_eq, ◌==◌, if◌then◌else◌, keep_if,
}
use frass_f.Base.Int.{ℤ, pos, negsuc}
use frass_f.Base.Decimal.{decimal}
use frass_f.Attendance.Marks.{Room, session_room, dashboard, Event, student_marked, stats_update}

-- `session_id` in the data of a message: a number, True or False, or something else or missing.
pub data SessionId : Type 0 where
  an_int : ℤ → SessionId
  a_bool : Bool → SessionId
  other : SessionId

pub data Payload : Type 0 where
  not_dict : Payload
  of_dict : SessionId → Payload

-- `f'session_{session_id}'`
abbrev pub session_name : Text → Text
session_name t = text "session_" ++ t

-- The room that a message names: `isinstance(session_id, int) and session_id > 0`, where True is 1.
abbrev pub room_of : Payload → Option Text
room_of not_dict = none
room_of (of_dict (an_int (pos n))) = if n == 0 then none else some (session_name (decimal n))
room_of (of_dict (an_int (negsuc n))) = none
room_of (of_dict (a_bool b)) = if b then some (session_name (text "True")) else none
room_of (of_dict other) = none

-- Flask-SocketIO: which clients are in which rooms.
pub record Sockets : Type 1 where
  pub World : Type 0
  pub is_in : World → ℕ → Text → Bool
  pub join_room : ℕ → Text → World → World
  pub leave_room : ℕ → Text → World → World
  pub close : ℕ → World → World
  pub in-join_room :
      (c d : ℕ) (r q : Text) (w : World)
      → is_in (join_room c r w) d q ≡ ((c == d && text_eq r q) || is_in w d q)
  pub in-leave_room :
      (c d : ℕ) (r q : Text) (w : World)
      → is_in (leave_room c r w) d q ≡ (not (c == d && text_eq r q) && is_in w d q)
  pub in-close :
      (c d : ℕ) (q : Text) (w : World) → is_in (close c w) d q ≡ (not (c == d) && is_in w d q)

-- What the client of the number does.
pub data Message : Type 0 where
  connect disconnect : ℕ → Message
  join_session leave_session : ℕ → Payload → Message

-- The name of the room of a broadcast.
abbrev pub room_name : Room → Text
room_name (session_room i) = session_name (decimal i)
room_name dashboard = text "dashboard"

abbrev pub target : Event → Text
target (student_marked r i name sid) = room_name r
target (stats_update s) = text "dashboard"

module _ (S : Sockets) where
  open S use {World, is_in, join_room, leave_room, close}

  abbrev pub join_if : Option Text → ℕ → World → World
  join_if none c w = w
  join_if (some r) c w = join_room c r w

  abbrev pub leave_if : Option Text → ℕ → World → World
  leave_if none c w = w
  leave_if (some r) c w = leave_room c r w

  -- The handlers `handle_connect`, `handle_disconnect`, `handle_join_session` and
  -- `handle_leave_session`; a client that disconnects is taken from its rooms.
  unfoldable pub handle : Message → World → World
  handle (connect c) w = w
  handle (disconnect c) w = close c w
  handle (join_session c p) w = join_if (room_of p) c w
  handle (leave_session c p) w = leave_if (room_of p) c w

  unfoldable pub handle_all : List Message → World → World
  unfolding handle
  handle_all [] w = w
  handle_all (m ∷ ms) w = handle_all ms (handle m w)

  -- What a client gets of the broadcasts.
  unfoldable pub delivered : ℕ → List Event → World → List Event
  delivered c es w = keep_if (λ e. is_in w c (target e)) es
