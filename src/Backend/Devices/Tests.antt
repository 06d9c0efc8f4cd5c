-- ===== src/Backend/Devices/Tests.antt =====
-- Requests of devices (backend/app.py), run.
use frass_f.Base.{ℕ, none, some, [], ◌∷◌, text, Dict, false}
use frass_f.Backend.State.{Backend, Device}
use frass_f.Backend.Devices.{Registration}

abbrev gate : Device ℕ
gate = record {
  name = text "Gate";
  location = text "North";
  status = text "offline";
  last_seen = none;
  config = none;
  api_key = text "k";
  uptime_seconds = 0;
  memory_mb = 0;
  queue_size = 0;
  fps_actual = 0;
  health_reported_at = none;
}

abbrev backend : Backend ℕ ℕ
backend = record {
  devices = (text "d1", gate) ∷ [];
  users = [];
  embeddings = [];
  logs = [];
  replay_guard = [];
  last_replay_cleanup = 0;
  embedding_cache = [];
  cache_loaded = false;
}

abbrev base : Dict ℕ
base = (text "dedup_cooldown", 300) ∷ (text "liveness_threshold", 65) ∷ []

abbrev settings : Dict ℕ
settings = (text "dedup_cooldown", 60) ∷ (text "fps", 5) ∷ []

abbrev again : Registration
again = record { device_id = text "d1"; name = some (text "Door"); location = none }
