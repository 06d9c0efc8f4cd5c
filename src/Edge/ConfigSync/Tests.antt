-- ===== src/Edge/ConfigSync/Tests.antt =====
-- Runs of the configuration from the backend to a device (edge/main.py, backend/app.py).
use frass_f.Base.{ℕ, ◌≡◌, refl, true, false, Option, none, some, [], ◌∷◌, Text, text, text_eq, get}
use frass_f.Base.Int.{pos}
use frass_f.Edge.SyncClient.{SyncClient, Network, fetch_config}
use frass_f.Edge.DeviceConfig.{Value, int, Config, missing, Floats, default_config, load}
use frass_f.Edge.ConfigSync.{written, Local, sync_config}
use frass_f.Edge.ConfigSync.Remote.{get-sync_config}
use frass_f.Backend.State.{Backend, Device}
use frass_f.Backend.Devices.{get_device_config, update_device_config}

abbrev hundredths_only : Floats
hundredths_only = record { Float = ℕ; parse_float = λ t. none; hundredths = λ n. n }

abbrev skip : Text
skip = text "frame_skip"

abbrev faster : Config ℕ
faster = (skip, int (pos 5)) ∷ []

-- The network answers every request with the configuration that was set.
abbrev answers : Network (Config ℕ)
answers = record {
  World = ℕ;
  request = λ h r w. (some (record { status_code = 200; json = some faster }), w);
  publish = λ t v w. (true, w);
}

abbrev client : SyncClient
client = record {
  api_key = [];
  device_id = text "d1";
  topic_prefix = text "fras";
  mqtt_client = false;
  connected = false;
}

abbrev own : Local hundredths_only
own = record { config = (skip, int (pos 2)) ∷ []; file = missing }

abbrev device : Device (Value ℕ)
device = record {
  name = text "door";
  location = [];
  status = text "active";
  last_seen = none;
  config = none;
  api_key = [];
  uptime_seconds = 0;
  memory_mb = 0;
  queue_size = 0;
  fps_actual = 0;
  health_reported_at = none;
}

abbrev backend : Backend (Value ℕ) ℕ
backend = record {
  devices = (text "d1", device) ∷ [];
  users = [];
  embeddings = [];
  logs = [];
  replay_guard = [];
  last_replay_cleanup = 0;
  embedding_cache = [];
  cache_loaded = true;
}

abbrev no_env : Text → Option Text
no_env k = none

abbrev synced : Local hundredths_only
unfolding sync_config
synced = (sync_config hundredths_only answers client written own 0).0

abbrev loaded : Option (Config ℕ) → Config ℕ
loaded none = []
loaded (some c) = c

get-sync_config_example :
    (get skip (sync_config hundredths_only answers client written own 0).0.config
      ≡ some (int (pos 5)))
    × (get skip (loaded (load hundredths_only no_env synced.file)) ≡ some (int (pos 5)))
unfolding load get default_config text_eq get_device_config update_device_config sync_config synced
    fetch_config
get-sync_config_example =
    get-sync_config hundredths_only answers client own 0 0 [] faster faster backend device 3 skip
      (int (pos 5)) (int (pos 2)) no_env (loaded (load hundredths_only no_env synced.file)) refl
      (refl, tt) refl refl (refl, tt) (refl, tt) refl refl refl refl
