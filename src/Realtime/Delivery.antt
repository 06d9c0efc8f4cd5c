-- ===== src/Realtime/Delivery.antt =====
-- Whom the broadcasts of a mark reach (app/realtime/events.py, app/services/attendance.py).
use frass_f.Base.{
  ℕ, ◌≡◌, refl, sym, ap, ◌∙◌, Bool, true, false, not, ◌&&◌, ◌||◌, Option, none, some, List, [], ◌∷◌,
  Text, text, text_eq, text_eq_refl, text_eq_sound, ◌==◌, if◌then◌else◌, take, arith, Bool-cases,
  inl, inr, all, is_digit,
}
use frass_f.Base.Int.{pos, negsuc}
use frass_f.Base.Decimal.{decimal, decimal_injective, decimal_is_digits}
use frass_f.Attendance.State.{School}
use frass_f.Attendance.Marks.{broadcasts}
use frass_f.Realtime.{
  an_int, a_bool, other, Payload, not_dict, of_dict, session_name, room_of, Sockets, Message,
  connect, disconnect, join_session, leave_session, handle, handle_all, delivered, join_if,
  leave_if,
}

-- Whether a message names the session, of a positive number.
abbrev pub names : ℕ → Payload → Bool
names s (of_dict (an_int (pos n))) = not (n == 0) && n == s
names s p = false

-- What a message says of the client and the session: that it listens, that it does not, or nothing.
abbrev pub said : ℕ → ℕ → Message → Option Bool
said c s (connect d) = none
said c s (disconnect d) = if d == c then some false else none
said c s (join_session d p) = if d == c && names s p then some true else none
said c s (leave_session d p) = if d == c && names s p then some false else none

abbrev or_else : Option Bool → Option Bool → Option Bool
or_else none b = b
or_else (some a) b = some a

-- The last word of the client on the session.
abbrev pub last_said : ℕ → ℕ → List Message → Option Bool
last_said c s [] = none
last_said c s (m ∷ ms) = or_else (last_said c s ms) (said c s m)

abbrev pub or_before : Option Bool → Bool → Bool
or_before none b = b
or_before (some a) b = a

-- Whether the client listens to the session in the end.
abbrev pub listens : ℕ → ℕ → List Message → Bool
listens c s ms = or_before (last_said c s ms) false

same_name : (s t : Text) → text_eq (session_name s) (session_name t) ≡ text_eq s t
unfolding text_eq
same_name s t = refl

decimal_eq : (m n : ℕ) → text_eq (decimal m) (decimal n) ≡ (m == n)
decimal_eq m n = elim (Bool-cases (m == n)) [
  | inl e ↦
      let same : m ≡ n = ground arith in
      ap (λ (k : ℕ). text_eq (decimal m) (decimal k)) (sym same) ∙ text_eq_refl (decimal m) ∙ sym e
  | inr e ↦ elim (Bool-cases (text_eq (decimal m) (decimal n))) [
    | inl t ↦
        let same : m ≡ n = decimal_injective m n (text_eq_sound (decimal m) (decimal n) t) in
        absurd (ground arith)
    | inr f ↦ f ∙ sym e
  ]
]

true_is_no_number : (t : Text) → all is_digit t ≡ true → text_eq (text "True") t ≡ false
unfolding text_eq
true_is_no_number [] h = refl
true_is_no_number (c ∷ t) h = ground arith

-- The room that a message names is the session's, exactly if it names the session; no message names
-- the dashboard.
abbrev is_room : Option Text → Text → Bool
is_room none q = false
is_room (some r) q = text_eq r q

is_room-names : (s : ℕ) (p : Payload) → is_room (room_of p) (session_name (decimal s)) ≡ names s p
is_room-names s not_dict = refl
is_room-names s (of_dict (an_int (pos n))) = elim (Bool-cases (n == 0)) [
  | inl e ↦ rw e refl
  | inr e ↦ rw e (same_name (decimal n) (decimal s) ∙ decimal_eq n s)
]
is_room-names s (of_dict (an_int (negsuc n))) = refl
is_room-names s (of_dict (a_bool true)) =
    same_name (text "True") (decimal s) ∙ true_is_no_number (decimal s) (decimal_is_digits s)
is_room-names s (of_dict (a_bool false)) = refl
is_room-names s (of_dict other) = refl

is_room-dashboard : (p : Payload) → is_room (room_of p) (text "dashboard") ≡ false
unfolding text_eq
is_room-dashboard not_dict = refl
is_room-dashboard (of_dict (an_int (pos n))) = elim (Bool-cases (n == 0)) [
  | inl e ↦ rw e refl
  | inr e ↦ rw e refl
]
is_room-dashboard (of_dict (an_int (negsuc n))) = refl
is_room-dashboard (of_dict (a_bool true)) = refl
is_room-dashboard (of_dict (a_bool false)) = refl
is_room-dashboard (of_dict other) = refl

module _ (S : Sockets) where
  open S use {World, is_in, in-join_room, in-leave_room, in-close}

  in-join_if :
      (o : Option Text) (c d : ℕ) (q : Text) (w : World)
      → is_in (join_if S o c w) d q ≡ ((c == d && is_room o q) || is_in w d q)
  in-join_if none c d q w = ground arith
  in-join_if (some r) c d q w = in-join_room c d r q w

  in-leave_if :
      (o : Option Text) (c d : ℕ) (q : Text) (w : World)
      → is_in (leave_if S o c w) d q ≡ (not (c == d && is_room o q) && is_in w d q)
  in-leave_if none c d q w = ground arith
  in-leave_if (some r) c d q w = in-leave_room c d r q w

  -- One message changes whether a client is in a session's room as it says.
  handle-said :
      (m : Message) (c s : ℕ) (w : World)
      → is_in (handle S m w) c (session_name (decimal s))
        ≡ or_before (said c s m) (is_in w c (session_name (decimal s)))
  unfolding handle
  handle-said (connect d) c s w = refl
  handle-said (disconnect d) c s w =
      in-close d c (session_name (decimal s)) w
      ∙ says (d == c) (is_in w c (session_name (decimal s)))
    where
      says : (a b : Bool) → (not a && b) ≡ or_before (if a then some false else none) b
      says true b = refl
      says false b = refl
  handle-said (join_session d p) c s w =
      in-join_if (room_of p) d c (session_name (decimal s)) w
      ∙ ap (λ (x : Bool). (d == c && x) || is_in w c (session_name (decimal s))) (is_room-names s p)
      ∙ says (d == c && names s p) (is_in w c (session_name (decimal s)))
    where
      says : (a b : Bool) → (a || b) ≡ or_before (if a then some true else none) b
      says true b = refl
      says false b = refl
  handle-said (leave_session d p) c s w =
      in-leave_if (room_of p) d c (session_name (decimal s)) w
      ∙ ap (λ (x : Bool). not (d == c && x) && is_in w c (session_name (decimal s)))
          (is_room-names s p)
      ∙ says (d == c && names s p) (is_in w c (session_name (decimal s)))
    where
      says : (a b : Bool) → (not a && b) ≡ or_before (if a then some false else none) b
      says true b = refl
      says false b = refl

  handle_all-said :
      (ms : List Message) (c s : ℕ) (w : World)
      → is_in (handle_all S ms w) c (session_name (decimal s))
        ≡ or_before (last_said c s ms) (is_in w c (session_name (decimal s)))
  unfolding handle_all
  handle_all-said [] c s w = refl
  handle_all-said (m ∷ ms) c s w =
      handle_all-said ms c s (handle S m w)
      ∙ ap (or_before (last_said c s ms)) (handle-said m c s w)
      ∙ both (last_said c s ms) (said c s m) (is_in w c (session_name (decimal s)))
    where
      both :
          (x y : Option Bool) (b : Bool) → or_before x (or_before y b) ≡ or_before (or_else x y) b
      both none y b = refl
      both (some a) y b = refl

  handle-dashboard :
      (m : Message) (c : ℕ) (w : World)
      → is_in w c (text "dashboard") ≡ false
      → is_in (handle S m w) c (text "dashboard") ≡ false
  unfolding handle
  handle-dashboard (connect d) c w h = h
  handle-dashboard (disconnect d) c w h =
      in-close d c (text "dashboard") w ∙ rw h (stays (not (d == c)))
    where
      stays : (a : Bool) → (a && false) ≡ false
      stays true = refl
      stays false = refl
  handle-dashboard (join_session d p) c w h =
      in-join_if (room_of p) d c (text "dashboard") w ∙ rw (h, is_room-dashboard p) (stays (d == c))
    where
      stays : (a : Bool) → ((a && false) || false) ≡ false
      stays true = refl
      stays false = refl
  handle-dashboard (leave_session d p) c w h =
      in-leave_if (room_of p) d c (text "dashboard") w
      ∙ rw (h, is_room-dashboard p) (stays (d == c))
    where
      stays : (a : Bool) → (not (a && false) && false) ≡ false
      stays true = refl
      stays false = refl

  handle_all-dashboard :
      (ms : List Message) (c : ℕ) (w : World)
      → is_in w c (text "dashboard") ≡ false
      → is_in (handle_all S ms w) c (text "dashboard") ≡ false
  unfolding handle_all
  handle_all-dashboard [] c w h = h
  handle_all-dashboard (m ∷ ms) c w h =
      handle_all-dashboard ms c (handle S m w) (handle-dashboard m c w h)

  -- From a server whose rooms are empty, whatever the clients sent before, a client gets of the three
  -- broadcasts of a mark only the first, that to the room of the session, and gets it exactly if its
  -- last word on the session was to join it, and it has not disconnected since. What is broadcast to
  -- the dashboard, the statistics too, reaches nobody.
  pub delivered-broadcasts :
      (ms : List Message) (w : World) (c student session_id record_id today : ℕ) (school : School)
      → ((d : ℕ) (r : Text) → is_in w d r ≡ false)
      → delivered S c (broadcasts student session_id record_id today school) (handle_all S ms w) ≡ (
          if listens c session_id ms
          then take 1 (broadcasts student session_id record_id today school)
          else [])
  unfolding delivered
  delivered-broadcasts ms w c student session_id record_id today school empty =
      rw
        (
          handle_all-said ms c session_id w,
          handle_all-dashboard ms c w (empty c (text "dashboard")),
          empty c (session_name (decimal session_id)),
        )
        (ground arith)
