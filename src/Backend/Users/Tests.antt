-- ===== src/Backend/Users/Tests.antt =====
-- Runs of the users, logs and keys of backend/app.py with embeddings of one number.
use frass_f.Base.{
  arith, ℕ, ◌≡◌, ◌↔◌, refl, true, false, Option, none, some, List, [], ◌∷◌, ◌*◌, Text, text,
  text_eq, get, is_empty, if◌then◌else◌, Dict,
}
use frass_f.Base.Int.{pos}
use frass_f.Matching.Tests.{product}
use frass_f.Backend.State.{Backend, Env, Config, AttendanceLog}
use frass_f.Backend.Match.{Engine, raised}
use frass_f.Backend.Runs.{Request, register, verify, log, batch, handle_all}
use frass_f.Backend.Runs.Users.{OfUsers}
use frass_f.Backend.Runs.Requests.{handle_all-OfUsers}
use frass_f.Backend.Keys.{
  Keys, by_device, granted, invalid_key, require_api_key, parse_api_keys, HasKey, granted_iff,
}
use frass_f.Backend.Users.{
  Registration, registered, matched, logged, Query, register_user, verify_face, log_attendance,
  get_attendance,
}
use frass_f.Backend.Users.Registered.{Registers, register_user-Registers}

abbrev engine : Engine ℕ
engine = record { dot = product; norm = λ e. e * 1000; postgresql = false; nearest = λ e. raised }

abbrev config : Config
config = record {
  recognition_threshold = pos 650000;
  min_embedding_quality = pos 850000;
  dedup_cooldown = 0;
}

abbrev empty : Backend ℕ ℕ
empty = record {
  devices = [];
  users = [];
  embeddings = [];
  logs = [];
  replay_guard = [];
  last_replay_cleanup = 0;
  embedding_cache = [];
  cache_loaded = true;
}

abbrev env : Env
env = record { now = 5; cleanup_fails = false; load_fails = false }

abbrev ada : Registration ℕ
ada = record { external_id = text "s7"; name = text "Ada"; embedding = some 990 }

abbrev after_ada : Backend ℕ ℕ
unfolding register_user
after_ada = (register_user engine config ada env empty).1

is_registered : (register_user engine config ada env empty).0 ≡ registered 1 (pos 990000)
unfolding register_user
is_registered = refl

is_verified :
    (verify_face engine config (some 1000) none env after_ada).0 ≡ matched 1 (text "Ada") (pos 990)
unfolding verify_face after_ada
is_verified = refl

is_logged :
    (log_attendance (record { user_id = 1; device_id = none; status = none }) env after_ada).0
    ≡ logged 1
unfolding log_attendance after_ada
is_logged = refl

register_user-Registers_example :
    Registers engine config ada empty (register_user engine config ada env empty)
register_user-Registers_example = register_user-Registers engine config ada env empty refl

abbrev log_at : ℕ → AttendanceLog
log_at t = record {
  user_id = 1;
  device_id = text "d1";
  timestamp = t;
  confidence = pos 900;
  liveness_score = pos 900000;
  status = text "present";
  nonce = none;
}

abbrev today : Query
today = record { start_dt = 10; end_dt = 20; device_id = []; user_id = 1 }

newest_are_first :
    get_attendance today (log_at 11 ∷ log_at 30 ∷ log_at 19 ∷ log_at 10 ∷ [])
    ≡ log_at 19 ∷ log_at 11 ∷ log_at 10 ∷ []
unfolding get_attendance
newest_are_first = refl

abbrev keys : Dict Text
keys = (text "d1", text "k1") ∷ (text "d2", text "k2") ∷ []

abbrev no_json : Text → Option Keys
no_json t = none

broken_keys : parse_api_keys no_json (some (text "{")) ≡ by_device []
unfolding parse_api_keys
broken_keys = refl

other_key : require_api_key (by_device keys) (text "k2") (text "d1") [] ≡ invalid_key
unfolding require_api_key get text_eq
other_key = refl

-- The header's device decides, though the body is about another one.
body_is_not_asked : require_api_key (by_device keys) (text "k1") (text "d1") (text "d2") ≡ granted
unfolding require_api_key get text_eq
body_is_not_asked = refl

granted_iff_example :
    (require_api_key (by_device keys) (text "k1") (text "d1") (text "d2") ≡ granted) ↔ (
      (is_empty (text "k1") ≡ false)
      × HasKey keys (text "k1") (if is_empty (text "d1") then text "d2" else text "d1"))
granted_iff_example = granted_iff keys (text "k1") (text "d1") (text "d2")

abbrev requests : List (Request ℕ)
requests =
    register ada env
    ∷ register ada env
    ∷ verify (some 1000) none env
    ∷ log (record { user_id = 1; device_id = none; status = none }) env
    ∷ batch [] (text "d1")
    ∷ []

handle_all-OfUsers_example : OfUsers (handle_all engine config requests empty)
handle_all-OfUsers_example =
    handle_all-OfUsers engine config requests empty (λ t. omega arith, tt, tt)
