-- ===== src/FaceEngine.antt =====
-- The encodings that a worker keeps, and the copy in Redis by which workers share them
-- (app/services/face_engine.py, app/services/engine.py).
pub mod Sharing
mod Tests
use frass_f.Base.{
  ℕ, Bool, true, false, not, Option, none, some, List, [], ◌∷◌, ◌++◌, is_empty, ◌==◌, if◌then◌else◌,
  Table, values, lookup, insert, erase, erase_where,
}
use frass_f.Serialization.{
  Vectors, deserialize_embedding, serialize_encodings, deserialize_encodings,
}
use frass_f.Students.{FaceEncoding, is_encoding_of, known_of}

-- The calls of Redis on the two keys, of the encodings (a text of latin-1 characters) and of their
-- version; a call that raises gives `none` or `false`. A version that is missing is 0.
pub record Redis : Type 1 where
  pub World : Type 0
  pub is_connected : Bool
  pub get_encodings : World → Option (Option (List ℕ)) × World
  pub set_encodings : List ℕ → World → Bool × World
  pub delete_encodings : World → Bool × World
  pub get_version : World → Option ℕ × World
  pub incr_version : World → Bool × World

module _ (N : Vectors) (R : Redis) where
  open N use {Vector}
  open R use {
    World, is_connected, get_encodings, set_encodings, delete_encodings, get_version, incr_version,
  }

  abbrev Known : Type 0
  Known = Table (List Vector)

  -- `known[student_id].append(e)`, of a list that may be missing
  unfoldable pub append_encoding : ℕ → Vector → Known → Known
  unfolding lookup insert
  append_encoding i e known = insert i (known_of (lookup i known) ++ (e ∷ [])) known

  abbrev then_incr : Bool × World → World
  then_incr (false, w) = w
  then_incr (true, w) = (incr_version w).1

  abbrev store : Option (List ℕ) → World → World
  store none w = w
  store (some s) w = then_incr (set_encodings s w)

  -- `_sync_to_redis`
  unfoldable pub sync_to_redis : Known → World → World
  unfolding store
  sync_to_redis known w = if not is_connected then w else store (serialize_encodings N known) w

  -- `save_encoding`
  unfoldable pub save_encoding : ℕ → Vector → Known → World → Known × World
  unfolding append_encoding sync_to_redis
  save_encoding i e known w =
      (append_encoding i e known, sync_to_redis (append_encoding i e known) w)

  -- `invalidate_cache`
  unfoldable pub invalidate_cache : World → Known × World
  unfolding then_incr
  invalidate_cache w = ([], (if is_connected then then_incr (delete_encodings w) else w))

  -- `delete_student_encodings`, with the rows of the table
  unfoldable pub delete_student_encodings :
      ℕ
      → Table (FaceEncoding (List ℕ))
      → Known
      → World
      → Table (FaceEncoding (List ℕ)) × (Known × World)
  unfolding erase erase_where sync_to_redis
  delete_student_encodings i rows known w =
      (erase_where (is_encoding_of i) rows, (erase i known, sync_to_redis (erase i known) w))

  abbrev add_row : Option Vector → ℕ → Known → Known
  unfolding append_encoding
  add_row none i known = known
  add_row (some e) i known = append_encoding i e known

  -- The loop of `_load_from_db`, which passes over a row that does not decode.
  unfoldable pub load_rows : List (FaceEncoding (List ℕ)) → Known → Known
  unfolding add_row
  load_rows [] known = known
  load_rows (r ∷ rs) known =
      load_rows rs (add_row (deserialize_embedding N r.encoding_blob) r.student_id known)

  abbrev pub parsed : Option (List ℕ) → Option Known
  parsed none = none
  parsed (some s) = if is_empty s then none else deserialize_encodings N s

  abbrev pub cached : Option (Option (List ℕ)) × World → Option Known × World
  unfolding parsed
  cached (none, w) = (none, w)
  cached (some o, w) = (parsed o, w)

  -- `_load_from_redis`: the encodings, where it returns `True`
  unfoldable pub load_from_redis : World → Option Known × World
  unfolding cached
  load_from_redis w = if not is_connected then (none, w) else cached (get_encodings w)

  -- The rows of the table, or `none` where the query raises.
  abbrev rows_or_none : Option (Table (FaceEncoding (List ℕ))) → Known
  unfolding load_rows
  rows_or_none none = []
  rows_or_none (some t) = load_rows (values t) []

  abbrev pub or_from_db :
      Option (Table (FaceEncoding (List ℕ))) → Option Known × World → Known × World
  unfolding rows_or_none sync_to_redis
  or_from_db rows (some known, w) = (known, w)
  or_from_db rows (none, w) = (rows_or_none rows, sync_to_redis (rows_or_none rows) w)

  -- `load_all_encodings`
  unfoldable pub load_all_encodings : Option (Table (FaceEncoding (List ℕ))) → World → Known × World
  unfolding or_from_db load_from_redis
  load_all_encodings rows w = or_from_db rows (load_from_redis w)

  -- A worker: its engine's encodings, and the version that it has seen.
  pub record Worker : Type 0 where
    pub known : Known
    pub local_version : ℕ

  abbrev reloaded : ℕ → Known × World → Worker × World
  reloaded version (known, w) = (record { known = known; local_version = version }, w)

  abbrev pub polled :
      Option (Table (FaceEncoding (List ℕ))) → Option ℕ × World → Worker → Worker × World
  unfolding load_all_encodings
  polled rows (none, w) worker = (worker, w)
  polled rows (some version, w) worker =
      if version == worker.local_version
      then (worker, w)
      else reloaded version (load_all_encodings rows w)

  -- One turn of `_poll_loop`
  unfoldable pub poll : Option (Table (FaceEncoding (List ℕ))) → Worker → World → Worker × World
  unfolding polled
  poll rows worker w = polled rows (get_version w) worker
