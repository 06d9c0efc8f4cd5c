-- ===== src/EventQueue.antt =====
-- The queue of attendance events on a Redis stream (app/services/event_queue.py). Redis is a
-- parameter with what its documentation promises of a stream and a group of consumers.
pub mod Once
pub mod Drain
mod Tests
use frass_f.Base.{
  ℕ, zero, suc, ◌+◌, ◌≤◌, ◌≡◌, Bool, true, false, Option, none, some, List, [], ◌∷◌, ◌++◌, min,
  length, ◌==◌, if◌then◌else◌, Text,
}

-- A message: its id, and the text of its field `data`.
abbrev pub Message : Type 0
Message = ℕ × Text

-- `xack`: the messages without the one of the id.
unfoldable pub without : ℕ → List Message → List Message
without k [] = []
without k (m ∷ ms) = if m.0 == k then without k ms else m ∷ without k ms

-- The calls of Redis; `none` and `false` are exceptions. Of the stream `waiting` shows what the group
-- was not given yet, and `pending` what it was given and has not acknowledged.
pub record Streams : Type 1 where
  pub World : Type 0
  pub waiting : World → List Message
  pub pending : World → List Message
  pub xadd : Text → World → Option ℕ × World
  pub xgroup_create : World → World
  pub xreadgroup : World → Option (List Message) × World
  pub xack : ℕ → World → Bool × World
  pub xpending : World → Option ℕ
  -- A read gives the first ten that wait, and these are pending then.
  pub read_waiting :
      (w : World) (ms : List Message)
      → (xreadgroup w).0 ≡ some ms
      → waiting w ≡ ms ++ waiting (xreadgroup w).1
  pub read_pending :
      (w : World) (ms : List Message)
      → (xreadgroup w).0 ≡ some ms
      → pending (xreadgroup w).1 ≡ pending w ++ ms
  pub read_ten :
      (w : World) (ms : List Message)
      → (xreadgroup w).0 ≡ some ms
      → length ms ≡ min 10 (length (waiting w))
  -- A read that raises may still have given messages out.
  pub read_raised :
      (w : World)
      → (xreadgroup w).0 ≡ none
      → (ms : List Message) × (waiting w ≡ ms ++ waiting (xreadgroup w).1)
        × (pending (xreadgroup w).1 ≡ pending w ++ ms)
  -- An acknowledgement takes the message from what is pending, or raises and changes nothing.
  pub ack_waiting : (k : ℕ) (w : World) → waiting (xack k w).1 ≡ waiting w
  pub ack_pending :
      (k : ℕ) (w : World)
      → pending (xack k w).1 ≡ (if (xack k w).0 then without k (pending w) else pending w)

-- `json` of events, and what `write_fn` does to the database: whether it raised, and the database.
pub record Writer (Event : Type 0) : Type 1 where
  pub Database : Type 0
  pub dumps : Event → Text
  pub loads : Text → Option Event
  pub write : Event → Database → Bool × Database

module _ (S : Streams) {Event : Type 0} (W : Writer Event) where
  open S use {World, waiting, pending, xadd, xgroup_create, xreadgroup, xack, xpending}
  open W use {Database, dumps, loads, write}

  abbrev added : Option ℕ × World → Bool × World
  added (none, w) = (false, w)
  added (some k, w) = (true, w)

  -- `enqueue`; whether there is a client
  unfoldable pub enqueue : Bool → Event → World → Bool × World
  enqueue false e w = (false, w)
  enqueue true e w = added (xadd (dumps e) w)

  -- What a round works on: Redis and the database, and the ids of the events that were written and
  -- acknowledged, which the code does not keep.
  pub record Round : Type 0 where
    pub world : World
    pub database : Database
    pub settled : List ℕ

  abbrev pub acknowledged : ℕ → Database → Bool × World → Round → Round
  acknowledged k db (false, w) r = record { world = w; database = db; settled = r.settled }
  acknowledged k db (true, w) r = record {
    world = w;
    database = db;
    settled = r.settled ++ (k ∷ []);
  }

  abbrev pub after_write : ℕ → Bool × Database → Round → Round
  after_write k (true, db) r = record r { database = db }
  after_write k (false, db) r = acknowledged k db (xack k r.world) r

  abbrev pub write_event : ℕ → Option Event → Round → Round
  write_event k none r = r
  write_event k (some e) r = after_write k (write e r.database) r

  -- The body of the inner loop, which goes on after every exception.
  unfoldable pub process_message : Message → Round → Round
  process_message m r = write_event m.0 (loads m.1) r

  unfoldable pub process_messages : List Message → Round → Round
  unfolding process_message
  process_messages [] r = r
  process_messages (m ∷ ms) r = process_messages ms (process_message m r)

  abbrev pub given : Option (List Message) × World → Round → Round
  given (none, w) r = record r { world = w }
  given (some ms, w) r = process_messages ms (record r { world = w })

  -- One turn of the loop of `_consume`
  unfoldable pub consume : Round → Round
  unfolding process_messages
  consume r = given (xreadgroup r.world) r

  -- The turns of the consumer, while nothing is added.
  unfoldable pub consume_all : ℕ → Round → Round
  unfolding consume
  consume_all zero r = r
  consume_all (suc n) r = consume_all n (consume r)

  -- `start_consumer`: whether a consumer is there already, and whether there is a client; whether it
  -- is started now
  unfoldable pub start_consumer : Bool → Bool → World → Bool × World
  start_consumer started client w = elim started [
    | true ↦ (false, w)
    | false ↦ (if client then (true, xgroup_create w) else (false, w))
  ]

  abbrev or_zero : Option ℕ → ℕ
  or_zero none = 0
  or_zero (some n) = n

  -- `pending_count`
  unfoldable pub pending_count : Bool → World → ℕ
  pending_count client w = if client then or_zero (xpending w) else 0
