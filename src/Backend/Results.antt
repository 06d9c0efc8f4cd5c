-- ===== src/Backend/Results.antt =====
-- `_process_result`, `receive_result` and `sync_batch` (backend/app.py): a device's recognitions
-- become attendance logs.
pub mod Marks
pub mod Resend
pub mod NoVectors
use frass_f.Base.{
  ℕ, suc, ◌+◌, ◌-◌, Bool, true, false, not, ◌||◌, ◌&&◌, Option, none, some, List, [], ◌∷◌, ◌++◌,
  Text, text, text_eq, Dict, get, put, lookup, is_empty, any, length, ltb, ◌==◌, if◌then◌else◌,
}
use frass_f.Base.Int.{ℤ, ltb_ℤ}
use frass_f.Backend.State.{
  Backend, Device, User, AttendanceLog, Env, Config, seconds, load_embeddings,
}
use frass_f.Backend.Replay.{check_replay}
use frass_f.Backend.Match.{Engine, match_embedding, embedding_quality}

-- A result as JSON, with the default of each key that is missing; `embedding` is `none` where it is
-- missing or empty.
pub record Result (E : Type 0) : Type 0 where
  pub embedding : Option E
  pub liveness_score : ℤ
  pub timestamp : Option ℕ
  pub is_live : Bool
  pub nonce : Text

pub data Reply : Type 0 where
  liveness_failed : Reply
  low_quality : ℤ → Reply
  unknown : ℤ → Reply
  duplicate : ℕ → ℤ → Reply
  marked : ℕ → Text → ℤ → Reply

abbrev pub name_of : Option User → Text
name_of none = text "Unknown"
name_of (some u) = u.name

abbrev pub nonce_is : Text → Option Text → Bool
nonce_is n none = false
nonce_is n (some m) = text_eq m n

-- The unique index on `attendance_logs.nonce`, which NULL never violates.
unfoldable pub nonce_logged : Text → List AttendanceLog → Bool
nonce_logged n = any (λ l. nonce_is n l.nonce)

-- A log of the user that is later than `now` less the cooldown.
unfoldable pub recent : ℕ → ℕ → ℕ → List AttendanceLog → Bool
recent user_id cooldown now = any (λ l. l.user_id == user_id && ltb now (l.timestamp + cooldown))

abbrev pub new_log : {E : Type 0} → Result E → Text → ℕ → ℕ → ℤ → AttendanceLog
new_log result device_id dt user_id confidence = record {
  user_id = user_id;
  device_id = device_id;
  timestamp = dt;
  confidence = confidence;
  liveness_score = result.liveness_score;
  status = text "present";
  nonce = some result.nonce;
}

-- `data.get('timestamp', time.time())`
abbrev pub dt_of : Option ℕ → ℕ → ℕ
dt_of none now = now
dt_of (some t) now = t

pub data Response : Type 0 where
  device_id_required unknown_device replay_detected server_error : Response
  ok : Reply → Response

abbrev pub tally : ℕ → Bool → ℕ
tally n true = suc n
tally n false = n

-- A branch on what a call of the program returned beside the new state; a raise ends the request.
abbrev pub or_raise : {S A B : Type 0} → Option A × S → (A → S → Option B × S) → Option B × S
or_raise (none, s) k = (none, s)
or_raise (some a, s) k = k a s

-- `device.last_seen = dt`, where there is such a device.
abbrev pub seen_at : {C : Type 0} → ℕ → Option (Device C) → Text → Dict (Device C) → Dict (Device C)
seen_at dt none device_id devices = devices
seen_at dt (some d) device_id devices = put device_id (record d { last_seen = some dt }) devices

module _ {C E : Type 0} where
  -- The log is added and the device is seen. The commit raises (`none`), and the transaction is
  -- rolled back, where the nonce is in the table already.
  unfoldable pub add_log : Result E → Text → ℕ → ℕ → ℤ → Backend C E → Option Reply × Backend C E
  unfolding nonce_logged
  add_log result device_id dt user_id confidence b =
      if nonce_logged result.nonce b.logs then (none, b) else (
        some (marked user_id (name_of (lookup user_id b.users)) confidence),
        record b {
          logs = b.logs ++ (new_log result device_id dt user_id confidence ∷ []);
          devices = seen_at dt (get device_id b.devices) device_id b.devices;
        },
      )

  abbrev pub respond : Option Reply × Backend C E → Response × Backend C E
  respond (none, b) = (server_error, b)
  respond (some r, b) = (ok r, b)

module _ {C E : Type 0} (K : Engine E) (cfg : Config) where
  -- From the answer of the matching on.
  unfoldable pub after_match :
      Result E → Text → Env → Option (Option ℕ × ℤ) × Backend C E → Option Reply × Backend C E
  unfolding add_log recent
  after_match result device_id env (none, b) = (none, b)
  after_match result device_id env (some (none, confidence), b) = (some (unknown confidence), b)
  after_match result device_id env (some (some user_id, confidence), b) =
      if recent user_id cfg.dedup_cooldown env.now b.logs
      then (some (duplicate user_id confidence), b)
      else add_log result device_id (dt_of result.timestamp env.now) user_id confidence b

  abbrev pub process_embedding :
      Result E → Option E → Text → Env → Backend C E → Option Reply × Backend C E
  process_embedding result none device_id env b = (some liveness_failed, b)
  process_embedding result (some query) device_id env b =
      if not result.is_live
      then (some liveness_failed, b)
      else if ltb_ℤ (embedding_quality K query) cfg.min_embedding_quality
      then (some (low_quality (embedding_quality K query)), b)
      else after_match result device_id env
          (match_embedding K env.load_fails cfg.recognition_threshold query b)

  -- `_process_result`; `none`: it raises, and the request ends with status 500.
  unfoldable pub process_result : Result E → Text → Env → Backend C E → Option Reply × Backend C E
  unfolding after_match
  process_result result device_id env b = process_embedding result result.embedding device_id env b

  abbrev pub checked : Result E → Text → Env → Bool × Backend C E → Response × Backend C E
  checked result device_id env (false, b) = (replay_detected, b)
  checked result device_id env (true, b) = respond (process_result result device_id env b)

  abbrev pub from_device :
      Option (Device C) → Result E → Text → Env → Backend C E → Response × Backend C E
  from_device none result device_id env b = (unknown_device, b)
  from_device (some d) result device_id env b =
      if is_empty result.nonce
      then respond (process_result result device_id env b)
      else checked result device_id env (check_replay result.nonce device_id env b)

  -- `receive_result`; a `device_id` that is missing is the empty text.
  unfoldable pub receive_result : Result E → Text → Env → Backend C E → Response × Backend C E
  receive_result result device_id env b =
      if is_empty device_id
      then (device_id_required, b)
      else from_device (get device_id b.devices) result device_id env b

  abbrev pub admitted : Result E → Text → Env → Bool × Backend C E → Option Bool × Backend C E
  admitted result device_id env (false, b) = (some false, b)
  admitted result device_id env (true, b) =
      or_raise (process_result result device_id env b) (λ reply b'. (some true, b'))

  -- The body of the loop of `sync_batch`: whether the result counts as processed.
  unfoldable pub sync_one : Result E → Text → Env → Backend C E → Option Bool × Backend C E
  sync_one result device_id env b =
      if is_empty result.nonce
      then or_raise (process_result result device_id env b) (λ reply b'. (some true, b'))
      else admitted result device_id env (check_replay result.nonce device_id env b)

  -- The loop of `sync_batch`, with the environment of each turn: the number processed, or `none`
  -- where a turn raises and the request ends.
  unfoldable pub sync_loop : List (Result E × Env) → Text → ℕ → Backend C E → Option ℕ × Backend C E
  sync_loop [] device_id n b = (some n, b)
  sync_loop ((r, env) ∷ rs) device_id n b =
      or_raise (sync_one r device_id env b) (λ c b'. sync_loop rs device_id (tally n c) b')

  -- `sync_batch`: the numbers `processed` and `total`.
  unfoldable pub sync_batch :
      List (Result E × Env) → Text → Backend C E → Option (ℕ × ℕ) × Backend C E
  unfolding sync_loop
  sync_batch rs device_id b =
      or_raise (sync_loop rs device_id 0 b) (λ n b'. (some (n, length rs), b'))
