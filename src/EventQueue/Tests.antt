-- ===== src/EventQueue/Tests.antt =====
-- Runs of the event queue (app/services/event_queue.py) on a stream in memory: what waits and what is
-- pending. An event is a number, and the database a list; the event 9 raises.
use frass_f.Base.{
  ℕ, ◌≡◌, refl, sym, ap, ◌∙◌, true, false, Option, none, some, List, [], ◌∷◌, ◌++◌, Text, arith,
  take, drop, length, length-take, take-append-drop, ◌==◌, if◌then◌else◌,
}
use frass_f.EventQueue.{
  Message, without, Streams, Writer, Round, consume, consume_all, pending_count,
}
use frass_f.EventQueue.Once.{count_message, consume_all-pending}
use frass_f.EventQueue.Drain.{ids, write_all, consume_all-Settles}

abbrev Memory : Type 0
Memory = List Message × List Message

taken :
    (w : List Message) (ms : List Message)
    → ◌≡◌ {A = Option (List Message)} (some (take 10 w)) (some ms)
    → take 10 w ≡ ms
taken w ms h = cc

taken_waiting :
    (w : List Message) (ms : List Message)
    → ◌≡◌ {A = Option (List Message)} (some (take 10 w)) (some ms)
    → w ≡ ms ++ drop 10 w
taken_waiting w ms h =
    sym (take-append-drop 10 w) ∙ ap (λ (x : List Message). x ++ drop 10 w) (taken w ms h)

read_never_raises : (w : List Message) → ◌≡◌ {A = Option (List Message)} (some (take 10 w)) none → ⊥
read_never_raises w h = ground arith

abbrev memory : Streams
memory = record {
  World = Memory;
  waiting = λ w. w.0;
  pending = λ w. w.1;
  xadd = λ t w. (some (length w.0), (w.0 ++ ((length w.0, t) ∷ []), w.1));
  xgroup_create = λ w. w;
  xreadgroup = λ w. (some (take 10 w.0), (drop 10 w.0, w.1 ++ take 10 w.0));
  xack = λ k w. (true, (w.0, without k w.1));
  xpending = λ w. some (length w.1);
  read_waiting = λ w ms h. taken_waiting w.0 ms h;
  read_pending = λ w ms h. ap (λ (x : List Message). w.1 ++ x) (taken w.0 ms h);
  read_ten = λ w ms h. ap (length {A = Message}) (sym (taken w.0 ms h)) ∙ length-take 10 w.0;
  read_raised = λ w h. absurd (read_never_raises w.0 h);
  ack_waiting = λ k w. refl;
  ack_pending = λ k w. refl;
}

-- An event is the first code of its text.
abbrev first_code : Text → ℕ
first_code [] = 0
first_code (c ∷ t) = c

abbrev numbers : Writer ℕ
numbers = record {
  Database = List ℕ;
  dumps = λ e. e ∷ [];
  loads = λ t. some (first_code t);
  write = λ e db. if e == 9 then (true, db) else (false, db ++ (e ∷ []));
}

abbrev all_taken : Writer ℕ
all_taken = record numbers { write = λ e db. (false, db ++ (e ∷ [])) }

abbrev three : List Message
three = (1, 5 ∷ []) ∷ (2, 9 ∷ []) ∷ (3, 7 ∷ []) ∷ []

abbrev at_start : Round memory numbers
at_start = record { world = (three, []); database = []; settled = [] }

one_fails : (consume memory numbers at_start).world ≡ ([], (2, 9 ∷ []) ∷ [])
unfolding consume without
one_fails = refl

counts_pending : pending_count memory numbers true (consume memory numbers at_start).world ≡ 1
unfolding pending_count consume without
counts_pending = refl

abbrev failed : Round memory numbers
failed = record { world = ([], (2, 9 ∷ []) ∷ []); database = 5 ∷ 7 ∷ []; settled = [] }

consume_all-pending_example :
    count_message 2 (memory.pending (consume_all memory numbers 4 failed).world)
    ≡ count_message 2 (memory.pending failed.world)
consume_all-pending_example = consume_all-pending memory numbers 4 2 failed refl

abbrev taking : Round memory all_taken
taking = record { world = (three, []); database = []; settled = [] }

consume_all-Settles_example :
    (memory.waiting (consume_all memory all_taken 1 taking).world ≡ [])
    × ((consume_all memory all_taken 1 taking).settled ≡ [] ++ ids three)
    × ((consume_all memory all_taken 1 taking).database ≡ write_all memory all_taken three [])
consume_all-Settles_example =
    consume_all-Settles memory all_taken 1 taking
      (record { reads = λ w. refl; acknowledges = λ k w. refl; writes = λ e db. refl })
      (refl, (refl, (refl, tt))) (omega arith)
