-- ===== src/Backend/Tests.antt =====
-- Runs of backend/app.py with embeddings of one number.
use frass_f.Base.{
  ℕ, ◌≡◌, refl, true, false, none, some, List, [], ◌∷◌, ◌*◌, Text, text, text_eq, arith, get, put,
  filter_values, lookup,
}
use frass_f.Base.Int.{pos}
use frass_f.Matching.Tests.{product}
use frass_f.Backend.State.{Backend, Device, Env, Config, seconds}
use frass_f.Backend.Replay.{check_replay}
use frass_f.Backend.Replay.Once.{check_all, nonce_taken_once}
use frass_f.Backend.Match.{Engine, raised, no_row, match_embedding, embedding_quality}
use frass_f.Backend.Results.{
  Result, marked, new_log, nonce_logged, process_result, receive_result, replay_detected, sync_one,
  sync_batch,
}
use frass_f.Backend.Results.Resend.{resend_changes_nothing, raised_is_lost}

abbrev engine : Engine ℕ
engine = record { dot = product; norm = λ e. e * 1000; postgresql = false; nearest = λ e. raised }

abbrev config : Config
config = record {
  recognition_threshold = pos 650000;
  min_embedding_quality = pos 850000;
  dedup_cooldown = seconds 300;
}

abbrev device : Device ℕ
device = record {
  name = text "Gate";
  location = text "North";
  status = text "active";
  last_seen = none;
  config = none;
  api_key = text "k";
  uptime_seconds = 0;
  memory_mb = 0;
  queue_size = 0;
  fps_actual = 0;
  health_reported_at = none;
}

abbrev backend : Backend ℕ ℕ
backend = record {
  devices = (text "d1", device) ∷ [];
  users =
      (7, record { external_id = text "s7"; name = text "Ada" })
      ∷ (9, record { external_id = text "s9"; name = text "Bo" })
      ∷ [];
  embeddings = [];
  logs = [];
  replay_guard = [];
  last_replay_cleanup = 0;
  embedding_cache = (7, 980 ∷ []) ∷ (9, 990 ∷ []) ∷ [];
  cache_loaded = true;
}

abbrev at : ℕ → Env
at t = record { now = seconds t; cleanup_fails = false; load_fails = false }

abbrev result : Text → ℕ → Result ℕ
result nonce t = record {
  embedding = some 1000;
  liveness_score = pos 900000;
  timestamp = some (seconds t);
  is_live = true;
  nonce = nonce;
}

abbrev d1 : Text
d1 = text "d1"

-- The backend after a result without and with a nonce was marked.
abbrev marked_backend : Text → Backend ℕ ℕ
marked_backend nonce = record backend {
  devices = (d1, record device { last_seen = some (seconds 7190) }) ∷ [];
  logs = new_log (result nonce 7190) d1 (seconds 7190) 9 (pos 990) ∷ [];
}

marks_nine :
    (nonce : Text)
    → process_result engine config (result nonce 7190) d1 (at 7200) backend
      ≡ (some (marked 9 (text "Bo") (pos 990)), marked_backend nonce)
unfolding process_result match_embedding embedding_quality nonce_logged lookup get put text_eq
marks_nine nonce = refl

nonce_taken_once_example :
    check_replay
      (text "n1")
      d1
      (at 10000)
      (check_all ((text "n2", d1, at 9000) ∷ []) (check_replay (text "n1") d1 (at 7200) backend).1)
    ≡ (
      false,
      check_all ((text "n2", d1, at 9000) ∷ []) (check_replay (text "n1") d1 (at 7200) backend).1,
    )
nonce_taken_once_example =
    nonce_taken_once (text "n1") d1 d1 (at 7200) (at 10000) backend ((text "n2", d1, at 9000) ∷ [])
      (unfold check_replay get put text_eq in refl) (omega arith)

abbrev batch : List (Result ℕ × Env)
batch = (result (text "n1") 7190, at 7200) ∷ (result (text "n2") 7191, at 7201) ∷ []

abbrev later : List (Result ℕ × Env)
later = (result (text "n1") 7190, at 7300) ∷ (result (text "n2") 7191, at 7300) ∷ []

batch_processed :
    sync_batch engine config batch d1 backend
    ≡ (some (2, 2), (sync_batch engine config batch d1 backend).1)
unfolding sync_batch sync_one check_replay process_result match_embedding embedding_quality
    nonce_logged lookup get put text_eq filter_values
batch_processed = refl

resend_changes_nothing_example :
    sync_batch engine config later d1 (sync_batch engine config batch d1 backend).1
    ≡ (some (0, 2), (sync_batch engine config batch d1 backend).1)
resend_changes_nothing_example =
    resend_changes_nothing engine config batch later d1 (seconds 7200) backend
      (sync_batch engine config batch d1 backend).1 (refl, (refl, tt)) (omega arith) batch_processed
      refl

-- The result raises, since its nonce is in the log of another user.
abbrev used : Backend ℕ ℕ
used = record backend {
  logs = new_log (result (text "n1") 7190) d1 (seconds 7190) 7 (pos 990) ∷ [];
}

abbrev used_checked : Backend ℕ ℕ
used_checked = (check_replay (text "n1") d1 (at 7200) used).1

abbrev called_on : Backend ℕ ℕ
unfolding check_all
called_on = check_all ((text "n9", d1, at 7250) ∷ []) used_checked

raised_is_lost_example :
    (sync_batch engine config ((result (text "n1") 7190, at 7300) ∷ []) d1 called_on
      ≡ (some (0, 1), called_on))
    × (receive_result engine config (result (text "n1") 7190) d1 (at 7300) called_on
        ≡ (replay_detected, called_on))
unfolding check_replay process_result match_embedding embedding_quality nonce_logged lookup get put
    filter_values text_eq called_on
raised_is_lost_example =
    raised_is_lost engine config (result (text "n1") 7190) d1 (at 7200) (at 7300) used used_checked
      used_checked ((text "n9", d1, at 7250) ∷ []) device refl refl refl refl (omega arith, tt) refl

-- A PostgreSQL server without vectors.
abbrev no_vectors : Engine ℕ
no_vectors = record engine { postgresql = true; nearest = λ e. no_row }
