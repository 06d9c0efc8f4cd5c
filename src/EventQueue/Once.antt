-- ===== src/EventQueue/Once.antt =====
-- An event leaves the stream only after it was written (app/services/event_queue.py), and one that
-- failed stays pending.
use frass_f.Base.{
  ℕ, zero, suc, ◌+◌, ◌<◌, ◌⊎◌, ◌≡◌, refl, ap, ◌∙◌, Bool, true, false, Option, none, some, List, [],
  ◌∷◌, ◌++◌, count_if, count_if-append, ◌==◌, arith, Bool-cases, inl, inr,
}
use frass_f.EventQueue.{
  Message, without, Streams, Writer, Round, acknowledged, after_write, write_event, process_message,
  process_messages, given, consume, consume_all,
}

-- How often an id stands among messages and among ids.
abbrev pub count_message : ℕ → List Message → ℕ
count_message k = count_if (λ m. m.0 == k)

abbrev pub count_id : ℕ → List ℕ → ℕ
count_id k = count_if (λ j. j == k)

count-without-other :
    (k j : ℕ) (ms : List Message)
    → (j == k) ≡ false
    → count_message k (without j ms) ≡ count_message k ms
unfolding without
count-without-other k j [] h = refl
count-without-other k j (m ∷ ms) h = ground (arith, count-without-other k j ms)

module _ (S : Streams) {Event : Type 0} (W : Writer Event) where
  open S use {
    World, waiting, pending, xreadgroup, xack, read_waiting, read_pending, read_raised, ack_waiting,
    ack_pending,
  }
  open W use {Database, loads, write}

  -- What of an id is still in the stream, unread or unacknowledged.
  abbrev pub unfinished : ℕ → World → ℕ
  unfinished k w = count_message k (waiting w) + count_message k (pending w)

  -- From `r` to `r'` an id is as often unfinished and as often settled, or it was settled.
  abbrev Kept : ℕ → Round S W → Round S W → Type 0
  Kept k r r' =
      ((unfinished k r'.world ≡ unfinished k r.world)
        × (count_id k r'.settled ≡ count_id k r.settled))
      ⊎ (count_id k r.settled < count_id k r'.settled)

  ack-pending_other :
      (k j : ℕ) (w : World)
      → (j == k) ≡ false
      → count_message k (pending (xack j w).1) ≡ count_message k (pending w)
  ack-pending_other k j w h =
      ap (count_message k) (ack_pending j w) ∙ elim (Bool-cases (xack j w).0) [
        | inl t ↦ rw t (count-without-other k j (pending w) h)
        | inr f ↦ rw f
      ]

  write_event-pending :
      (k j : ℕ) (o : Option Event) (r : Round S W)
      → (j == k) ≡ false
      → (count_message k (pending (write_event S W j o r).world)
          ≡ count_message k (pending r.world))
        × (waiting (write_event S W j o r).world ≡ waiting r.world)
  write_event-pending k j none r h = (refl, refl)
  write_event-pending k j (some e) r h = written (write e r.database)
    where
      acked :
          (b : Bool) (db : Database)
          → (count_message k (pending (acknowledged S W j db (b, (xack j r.world).1) r).world)
              ≡ count_message k (pending r.world))
            × (waiting (acknowledged S W j db (b, (xack j r.world).1) r).world ≡ waiting r.world)
      acked true db = (ack-pending_other k j r.world h, ack_waiting j r.world)
      acked false db = (ack-pending_other k j r.world h, ack_waiting j r.world)

      written :
          (b : Bool × Database)
          → (count_message k (pending (after_write S W j b r).world)
              ≡ count_message k (pending r.world))
            × (waiting (after_write S W j b r).world ≡ waiting r.world)
      written (true, db) = (refl, refl)
      written (false, db) = acked (xack j r.world).0 db

  process_messages-pending :
      (k : ℕ) (ms : List Message) (r : Round S W)
      → count_message k ms ≡ 0
      → (count_message k (pending (process_messages S W ms r).world)
          ≡ count_message k (pending r.world))
        × (waiting (process_messages S W ms r).world ≡ waiting r.world)
  unfolding process_messages
  process_messages-pending k [] r h = (refl, refl)
  process_messages-pending k (m ∷ ms) r h =
      let first = write_event-pending k m.0 (loads m.1) r (ground arith) in
      let rest = process_messages-pending k ms (process_message S W m r) (ground arith) in
      (rest.0 ∙ first.0, rest.1 ∙ first.1)

  consume-pending :
      (k : ℕ) (r : Round S W)
      → count_message k (waiting r.world) ≡ 0
      → (count_message k (pending (consume S W r).world) ≡ count_message k (pending r.world))
        × (count_message k (waiting (consume S W r).world) ≡ 0)
  unfolding consume
  consume-pending k r h = go (xreadgroup r.world).0 refl
    where
      w' : World
      w' = (xreadgroup r.world).1

      none_read :
          (ms : List Message)
          → waiting r.world ≡ ms ++ waiting w'
          → (count_message k ms ≡ 0) × (count_message k (waiting w') ≡ 0)
      none_read ms a =
          let e = ap (count_message k) a in
          let f = count_if-append (λ m. m.0 == k) ms (waiting w') in (omega arith, omega arith)

      go :
          (o : Option (List Message))
          → (xreadgroup r.world).0 ≡ o
          → (count_message k (pending (given S W (o, w') r).world)
              ≡ count_message k (pending r.world))
            × (count_message k (waiting (given S W (o, w') r).world) ≡ 0)
      go none e =
          let (ms, a, b) = read_raised r.world e in
          let (c, d) = none_read ms a in
          (
            omega (
              arith,
              ap (count_message k) b,
              count_if-append (λ m. m.0 == k) (pending r.world) ms,
              c,
            ),
            d,
          )
      go (some ms) e =
          let (c, d) = none_read ms (read_waiting r.world ms e) in
          let (p, q) = process_messages-pending k ms (record r { world = w' }) c in
          (
            omega (
              arith,
              p,
              ap (count_message k) (read_pending r.world ms e),
              count_if-append (λ m. m.0 == k) (pending r.world) ms,
              c,
            ),
            ap (count_message k) q ∙ d,
          )

  -- An event that is pending and not waiting, such as one whose write raised, is never read again: it
  -- is as often pending after any number of turns.
  pub consume_all-pending :
      (n k : ℕ) (r : Round S W)
      → count_message k (waiting r.world) ≡ 0
      → count_message k (pending (consume_all S W n r).world) ≡ count_message k (pending r.world)
  unfolding consume_all
  consume_all-pending zero k r h = refl
  consume_all-pending (suc n) k r h =
      let (p, q) = consume-pending k r h in consume_all-pending n k (consume S W r) q ∙ p
