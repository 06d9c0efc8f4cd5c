-- ===== src/Backend/Users.antt =====
-- Users, their embeddings and the logs of attendance (backend/app.py): `register_user`, `verify_face`,
-- `log_attendance`, `get_attendance`. The lookup of a user without an id answers as for no user.
pub mod Registered
pub mod Queries
mod Tests
use frass_f.Base.{
  ℕ, ◌+◌, ◌≡◌, Bool, true, false, not, ◌&&◌, ◌||◌, Option, none, some, List, [], ◌∷◌, ◌++◌, Text,
  text, text_eq, is_empty, is_some, lookup, insert, next_id, first_where, ltb, leb, ◌==◌,
  if◌then◌else◌, take, keep_if, length,
}
use frass_f.Base.Sorted.{sort, newer}
use frass_f.Base.Int.{ℤ, pos, ltb_ℤ}
use frass_f.Backend.State.{
  Backend, User, FaceEmbedding, AttendanceLog, Env, Config, load_embeddings,
}
use frass_f.Backend.Match.{Engine, match_embedding, embedding_quality}
use frass_f.Backend.Results.{name_of}

-- The body of a registration; what is missing or empty is empty or `none`.
pub record Registration (E : Type 0) : Type 0 where
  pub external_id : Text
  pub name : Text
  pub embedding : Option E

pub data Answer : Type 0 where
  fields_required : Answer
  quality_too_low : ℤ → Answer
  registered : ℕ → ℤ → Answer
  embedding_required : Answer
  matched : ℕ → Text → ℤ → Answer
  not_matched : ℤ → Answer
  user_not_found : Answer
  logged : ℕ → Answer
  raised : Answer

abbrev pub is_external : Text → User → Bool
is_external t u = text_eq u.external_id t

-- The user of the external id, who is added if there is none, with the id.
abbrev pub user_for :
    {C E : Type 0} → Option (ℕ × User) → Text → Text → Backend C E → ℕ × Backend C E
user_for (some (i, u)) external_id name b = (i, b)
user_for none external_id name b = (
  next_id b.users,
  record b {
    users = insert (next_id b.users) (record { external_id = external_id; name = name }) b.users;
  },
)

-- `if user_id`
abbrev pub truthy : Option ℕ → Bool
truthy none = false
truthy (some i) = not (i == 0)

abbrev pub or_zero : Option ℕ → ℕ
or_zero none = 0
or_zero (some i) = i

abbrev pub or_threshold : Config → Option ℤ → ℤ
or_threshold cfg none = cfg.recognition_threshold
or_threshold cfg (some t) = t

module _ {C E : Type 0} (K : Engine E) (cfg : Config) where
  abbrev pub with_embedding : E → Bool → ℕ × Backend C E → Answer × Backend C E
  with_embedding e load_fails (i, b) = (
    registered i (embedding_quality K e),
    load_embeddings load_fails (record b {
      embeddings =
          b.embeddings
          ++ (record { user_id = i; embedding = e; quality_score = embedding_quality K e } ∷ []);
    }),
  )

  abbrev pub register_with : Text → Text → Option E → Bool → Backend C E → Answer × Backend C E
  register_with external_id name none load_fails b = (fields_required, b)
  register_with external_id name (some e) load_fails b =
      if ltb_ℤ (embedding_quality K e) cfg.min_embedding_quality
      then (quality_too_low (embedding_quality K e), b)
      else with_embedding e load_fails
          (user_for (first_where (is_external external_id) b.users) external_id name b)

  -- `register_user`
  unfoldable pub register_user : Registration E → Env → Backend C E → Answer × Backend C E
  unfolding first_where insert next_id load_embeddings embedding_quality
  register_user r env b =
      if is_empty r.external_id || is_empty r.name
      then (fields_required, b)
      else register_with r.external_id r.name r.embedding env.load_fails b

  abbrev pub verified : Option (Option ℕ × ℤ) × Backend C E → Answer × Backend C E
  verified (none, b) = (raised, b)
  verified (some (id, confidence), b) =
      if truthy id
      then (matched (or_zero id) (name_of (lookup (or_zero id) b.users)) confidence, b)
      else (not_matched confidence, b)

  abbrev pub verify_with : Option E → ℤ → Bool → Backend C E → Answer × Backend C E
  verify_with none threshold load_fails b = (embedding_required, b)
  verify_with (some e) threshold load_fails b =
      verified (match_embedding K load_fails threshold e b)

  -- `verify_face`, with the threshold of the request, if it has one
  unfoldable pub verify_face : Option E → Option ℤ → Env → Backend C E → Answer × Backend C E
  unfolding match_embedding lookup
  verify_face e threshold env b = verify_with e (or_threshold cfg threshold) env.load_fails b

-- The body of `log_attendance`: the device is 'manual' and the status 'present' where they are
-- missing.
pub record Entry : Type 0 where
  pub user_id : ℕ
  pub device_id : Option Text
  pub status : Option Text

abbrev or_text : Text → Option Text → Text
or_text t none = t
or_text t (some s) = s

abbrev pub manual_log : Entry → ℕ → AttendanceLog
manual_log e now = record {
  user_id = e.user_id;
  device_id = or_text (text "manual") e.device_id;
  timestamp = now;
  confidence = pos 1000;
  liveness_score = pos 1000000;
  status = or_text (text "present") e.status;
  nonce = none;
}

abbrev pub log_for : {C E : Type 0} → Option User → Entry → ℕ → Backend C E → Answer × Backend C E
log_for none e now b = (user_not_found, b)
log_for (some u) e now b =
    (logged (length b.logs + 1), record b { logs = b.logs ++ (manual_log e now ∷ []) })

-- `log_attendance`; the id of a log is its number in the table, of which no row is deleted
unfoldable pub log_attendance : {C E : Type 0} → Entry → Env → Backend C E → Answer × Backend C E
unfolding lookup
log_attendance e env b = log_for (lookup e.user_id b.users) e env.now b

-- The arguments of `get_attendance`: the first and the last second of the range, and the filters
-- where they are given and neither empty nor zero.
pub record Query : Type 0 where
  pub start_dt : ℕ
  pub end_dt : ℕ
  pub device_id : Text
  pub user_id : ℕ

abbrev pub selects : Query → AttendanceLog → Bool
selects q l =
    leb q.start_dt l.timestamp
    && leb l.timestamp q.end_dt
    && (is_empty q.device_id || text_eq l.device_id q.device_id)
    && (q.user_id == 0 || l.user_id == q.user_id)

abbrev pub time_of : AttendanceLog → ℕ
time_of l = l.timestamp

-- `get_attendance`
unfoldable pub get_attendance : Query → List AttendanceLog → List AttendanceLog
unfolding sort
get_attendance q logs = take 500 (sort (newer time_of) (keep_if (selects q) logs))
