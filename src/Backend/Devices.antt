-- ===== src/Backend/Devices.antt =====
-- The devices of the backend: `register_device`, `get_device_config`, `update_device_config` and
-- `device_health` (backend/app.py).
pub mod Overrides
mod Tests
use frass_f.Base.{
  update_all, ℕ, Option, none, some, List, [], ◌∷◌, Text, text, is_empty, if◌then◌else◌, Dict, get,
  put,
}
use frass_f.Backend.State.{Backend, Device}

pub data Answer (C : Type 0) : Type 0 where
  device_id_required device_not_found registered config_updated health_taken : Answer C
  config_is : Dict C → Answer C

-- `data.get(key, default)`
abbrev pub or_default : {A : Type 0} → Option A → A → A
or_default none a = a
or_default (some b) a = b

-- The body of a registration; `name` and `location` may be missing.
pub record Registration : Type 0 where
  pub device_id : Text
  pub name : Option Text
  pub location : Option Text

-- A health report, with 0 for what is missing.
pub record Health : Type 0 where
  pub uptime : ℕ
  pub memory_mb : ℕ
  pub queue_size : ℕ
  pub fps : ℕ

abbrev pub known_or_new : {C : Type 0} → Option (Device C) → Registration → Text → Device C
known_or_new (some d) r key = d
known_or_new none r key = record {
  name = or_default r.name r.device_id;
  location = or_default r.location [];
  status = text "active";
  last_seen = none;
  config = none;
  api_key = key;
  uptime_seconds = 0;
  memory_mb = 0;
  queue_size = 0;
  fps_actual = 0;
  health_reported_at = none;
}

abbrev pub seen : {C : Type 0} → ℕ → Device C → Device C
seen now d = record d { last_seen = some now; status = text "active" }

-- `json.loads(device.config or '{}')`
abbrev pub overrides_of : {C : Type 0} → Option (Dict C) → Dict C
overrides_of none = []
overrides_of (some c) = c

module _ {C E : Type 0} where
  -- `register_device`, with the key of the request's header
  unfoldable pub register_device : Registration → Text → ℕ → Backend C E → Answer C × Backend C E
  unfolding get put known_or_new seen
  register_device r key now b = if is_empty r.device_id then (device_id_required, b) else (
    registered,
    record b {
      devices =
          put r.device_id (seen now (known_or_new (get r.device_id b.devices) r key)) b.devices;
    },
  )

  abbrev pub config_for :
      Option (Device C) → Dict C → Text → ℕ → Backend C E → Answer C × Backend C E
  unfolding put update_all
  config_for none base device_id now b = (device_not_found, b)
  config_for (some d) base device_id now b = (
    config_is (update_all base (overrides_of d.config)),
    record b { devices = put device_id (record d { last_seen = some now }) b.devices },
  )

  -- `get_device_config`, from the base that `app.config` gives
  unfoldable pub get_device_config : Dict C → Text → ℕ → Backend C E → Answer C × Backend C E
  unfolding get config_for
  get_device_config base device_id now b = config_for (get device_id b.devices) base device_id now b

  abbrev pub updated_config :
      Option (Device C) → Text → Dict C → Backend C E → Answer C × Backend C E
  unfolding put
  updated_config none device_id c b = (device_not_found, b)
  updated_config (some d) device_id c b = (
    config_updated,
    record b { devices = put device_id (record d { config = some c }) b.devices },
  )

  -- `update_device_config`
  unfoldable pub update_device_config : Text → Dict C → Backend C E → Answer C × Backend C E
  unfolding get updated_config
  update_device_config device_id c b = updated_config (get device_id b.devices) device_id c b

  abbrev pub with_health :
      Option (Device C) → Text → Health → ℕ → Backend C E → Answer C × Backend C E
  unfolding put
  with_health none device_id h now b = (device_not_found, b)
  with_health (some d) device_id h now b = (
    health_taken,
    record b {
      devices =
          put device_id
            (record d {
              uptime_seconds = h.uptime;
              memory_mb = h.memory_mb;
              queue_size = h.queue_size;
              fps_actual = h.fps;
              last_seen = some now;
              health_reported_at = some now;
              status = text "active";
            })
            b.devices;
    },
  )

  -- `device_health`
  unfoldable pub device_health : Text → Health → ℕ → Backend C E → Answer C × Backend C E
  unfolding get with_health
  device_health device_id h now b = with_health (get device_id b.devices) device_id h now b
