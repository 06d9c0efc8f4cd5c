-- ===== src/EventQueue/Drain.antt =====
-- While nothing raises, the consumer comes to the end of the stream (app/services/event_queue.py).
use mathlib.Core.List.{append_assoc, append-nil}
use mathlib.Core.Path.{subst}
use frass_f.Base.{
  ℕ, zero, suc, ◌*◌, ◌≤◌, ◌≡◌, refl, sym, ap, ◌∙◌, Bool, true, false, Option, none, some, List, [],
  ◌∷◌, ◌++◌, min, length, length-append, is_some, All, arith, Text,
}
use frass_f.EventQueue.{
  Message, Streams, Writer, Round, acknowledged, after_write, write_event, process_message,
  process_messages, given, consume, consume_all,
}

abbrev pub ids : List Message → List ℕ
ids [] = []
ids (m ∷ ms) = m.0 ∷ ids ms

ids-append : (ms ns : List Message) → ids (ms ++ ns) ≡ ids ms ++ ids ns
ids-append [] ns = refl
ids-append (m ∷ ms) ns = ap (λ (ks : List ℕ). m.0 ∷ ks) (ids-append ms ns)

All-parts : (P : Message → Type 0) (ms ns : List Message) → All P (ms ++ ns) → All P ms × All P ns
All-parts P [] ns h = (tt, h)
All-parts P (m ∷ ms) ns h = let (a, b) = All-parts P ms ns h.1 in ((h.0, a), b)

no_message : (ms : List Message) → length ms ≤ 0 → ms ≡ []
no_message [] h = refl
no_message (m ∷ ms) h = absurd (omega arith)

module _ (S : Streams) {Event : Type 0} (W : Writer Event) where
  open S use {World, waiting, pending, xreadgroup, xack, read_waiting, read_ten, ack_waiting}
  open W use {Database, loads, write}

  -- The database after the event of a text.
  abbrev pub write_one : Option Event → Database → Database
  write_one none db = db
  write_one (some e) db = (write e db).1

  -- The database after the events of messages, in their order.
  abbrev pub write_all : List Message → Database → Database
  write_all [] db = db
  write_all (m ∷ ms) db = write_all ms (write_one (loads m.1) db)

  write_all-append :
      (ms ns : List Message) (db : Database)
      → write_all (ms ++ ns) db ≡ write_all ns (write_all ms db)
  write_all-append [] ns db = refl
  write_all-append (m ∷ ms) ns db = write_all-append ms ns (write_one (loads m.1) db)

  -- The text of a message is that of an event.
  abbrev pub IsEvent : Message → Type 0
  IsEvent m = is_some (loads m.1) ≡ true

  -- Redis answers every call and the database takes every event.
  pub record Works : Type 0 where
    pub reads : (w : World) → is_some (xreadgroup w).0 ≡ true
    pub acknowledges : (k : ℕ) (w : World) → (xack k w).0 ≡ true
    pub writes : (e : Event) (db : Database) → (write e db).0 ≡ false

  -- `r'` comes from `r` by settling these messages.
  abbrev Settles : List Message → Round S W → Round S W → Type 0
  Settles ms r r' = (r'.settled ≡ r.settled ++ ids ms) × (r'.database ≡ write_all ms r.database)

  write_event-Settles :
      (k : ℕ) (t : Text) (o : Option Event) (r : Round S W)
      → Works
      → loads t ≡ o
      → is_some o ≡ true
      → ((write_event S W k o r).settled ≡ r.settled ++ (k ∷ []))
        × ((write_event S W k o r).database ≡ write_one o r.database)
        × (waiting (write_event S W k o r).world ≡ waiting r.world)
  write_event-Settles k t none r works e h = absurd (ground arith)
  write_event-Settles k t (some e) r works _ h =
      written (write e r.database) refl (works.writes e r.database)
    where
      acked :
          (db : Database) (b : Bool)
          → (xack k r.world).0 ≡ b
          → b ≡ true
          → ((acknowledged S W k db (b, (xack k r.world).1) r).settled ≡ r.settled ++ (k ∷ []))
            × ((acknowledged S W k db (b, (xack k r.world).1) r).database ≡ db)
            × (waiting (acknowledged S W k db (b, (xack k r.world).1) r).world ≡ waiting r.world)
      acked db true f g = (refl, refl, ack_waiting k r.world)
      acked db false f g = absurd (ground arith)

      written :
          (b : Bool × Database)
          → write e r.database ≡ b
          → b.0 ≡ false
          → ((after_write S W k b r).settled ≡ r.settled ++ (k ∷ []))
            × ((after_write S W k b r).database ≡ b.1)
            × (waiting (after_write S W k b r).world ≡ waiting r.world)
      written (true, db) f g = absurd (ground arith)
      written (false, db) f g = acked db (xack k r.world).0 refl (works.acknowledges k r.world)

  process_messages-Settles :
      (ms : List Message) (r : Round S W)
      → Works
      → All IsEvent ms
      → ((process_messages S W ms r).settled ≡ r.settled ++ ids ms)
        × ((process_messages S W ms r).database ≡ write_all ms r.database)
        × (waiting (process_messages S W ms r).world ≡ waiting r.world)
  unfolding process_messages
  process_messages-Settles [] r works h = (sym (append-nil r.settled), refl, refl)
  process_messages-Settles (m ∷ ms) r works h =
      let (a, b, c) = write_event-Settles m.0 m.1 (loads m.1) r works refl h.0 in
      let (d, e, f) = process_messages-Settles ms (process_message S W m r) works h.1 in
      (
        d ∙ ap (λ (x : List ℕ). x ++ ids ms) a ∙ append_assoc r.settled (m.0 ∷ []) (ids ms),
        e ∙ ap (write_all ms) b,
        f ∙ c,
      )

  consume-Settles :
      (r : Round S W)
      → Works
      → All IsEvent (waiting r.world)
      → (ms : List Message) × (waiting r.world ≡ ms ++ waiting (consume S W r).world)
        × (length ms ≡ min 10 (length (waiting r.world)))
        × Settles ms r (consume S W r)
  unfolding consume
  consume-Settles r works h = go (xreadgroup r.world).0 refl (works.reads r.world)
    where
      w' : World
      w' = (xreadgroup r.world).1

      go :
          (o : Option (List Message))
          → (xreadgroup r.world).0 ≡ o
          → is_some o ≡ true
          → (ms : List Message) × (waiting r.world ≡ ms ++ waiting (given S W (o, w') r).world)
            × (length ms ≡ min 10 (length (waiting r.world)))
            × Settles ms r (given S W (o, w') r)
      go none e g = absurd (ground arith)
      go (some ms) e g =
          let a = read_waiting r.world ms e in
          let h' : All IsEvent (ms ++ waiting w') = subst (All IsEvent) (a) h in
          let (s, d, k) =
            process_messages-Settles ms (record r { world = w' }) works
              (All-parts IsEvent ms (waiting w') h').0 in
          (ms, a ∙ ap (λ (x : List Message). ms ++ x) (sym k), read_ten r.world ms e, (s, d))

  -- While Redis answers and the database takes every event, and every message that waits is an event,
  -- n turns with no new event bring a stream of at most 10 n messages to its end: none waits, all were
  -- acknowledged, and the database has all their events, in the order of the stream.
  pub consume_all-Settles :
      (n : ℕ) (r : Round S W)
      → Works
      → All IsEvent (waiting r.world)
      → length (waiting r.world) ≤ 10 * n
      → (waiting (consume_all S W n r).world ≡ [])
        × ((consume_all S W n r).settled ≡ r.settled ++ ids (waiting r.world))
        × ((consume_all S W n r).database ≡ write_all (waiting r.world) r.database)
  unfolding consume_all
  consume_all-Settles zero r works h l =
      let e : waiting r.world ≡ [] = no_message (waiting r.world) (omega arith) in
      (e, rw e (sym (append-nil r.settled)), rw e refl)
  consume_all-Settles (suc n) r works h l =
      let (ms, a, t, (s, d)) = consume-Settles r works h in
      let rest = waiting (consume S W r).world in
      let h' : All IsEvent (ms ++ rest) = subst (All IsEvent) (a) h in
      let short : length rest ≤ 10 * n =
        omega (arith, t, ap (length {A = Message}) a, length-append ms rest) in
      let (x, y, z) =
        consume_all-Settles n (consume S W r) works (All-parts IsEvent ms rest h').1 short in
      (
        x,
        y
            ∙ ap (λ (k : List ℕ). k ++ ids rest) s
            ∙ append_assoc r.settled (ids ms) (ids rest)
            ∙ ap (λ (k : List ℕ). r.settled ++ k) (sym (ids-append ms rest))
            ∙ ap (λ (m : List Message). r.settled ++ ids m) (sym a),
        z
            ∙ ap (write_all rest) d
            ∙ sym (write_all-append ms rest r.database)
            ∙ ap (λ (m : List Message). write_all m r.database) (sym a),
      )
