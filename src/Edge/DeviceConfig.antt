-- ===== src/Edge/DeviceConfig.antt =====
-- The configuration of a device (edge/config/device_config.py): the defaults, the file over them, and
-- the environment over both. The file and the environment are parameters.
pub mod Precedence
mod Tests
use frass_f.Base.{
  ℕ, ◌+◌, ◌-◌, ◌≡◌, Bool, true, false, Option, none, some, List, [], ◌∷◌, ◌++◌, map, Text, text,
  text_eq, is_lower, is_upper, is_some, any, Dict, get, put, update_all, if◌then◌else◌,
}
use frass_f.Base.Int.{ℤ, pos}
use frass_f.Base.Parse.{parse_int}

-- A value of the configuration, with floats of type F; a file may have other JSON values, kept
-- as their text.
pub data Value (F : Type 0) : Type 0 where
  str : Text → Value F
  int : ℤ → Value F
  bool : Bool → Value F
  float : F → Value F
  other : Text → Value F

abbrev pub Config : Type 0 → Type 0
Config F = Dict (Value F)

-- What is at the path: nothing, or what reading it gives; `none` is an exception.
pub data File (F : Type 0) : Type 0 where
  missing : File F
  read : Option (Config F) → File F

-- Python's floats: `float` of a text, which may raise, and the literals, in hundredths.
pub record Floats : Type 1 where
  pub Float : Type 0
  pub parse_float : Text → Option Float
  pub hundredths : ℕ → Float

-- `str.upper` and `str.lower`, of the ASCII letters
abbrev pub upper_code : ℕ → ℕ
upper_code c = if is_lower c then c - 32 else c

abbrev pub lower_code : ℕ → ℕ
lower_code c = if is_upper c then c + 32 else c

-- `f'FRAS_{key.upper()}'`
unfoldable pub env_key : Text → Text
env_key key = text "FRAS_" ++ map upper_code key

-- `value.lower() in ('true', '1', 'yes')`
unfoldable pub is_truth : Text → Bool
is_truth v = any (text_eq (map lower_code v)) (text "true" ∷ text "1" ∷ text "yes" ∷ [])

abbrev int_or_raise : {F : Type 0} → Option ℤ → Option (Value F)
int_or_raise none = none
int_or_raise (some n) = some (int n)

abbrev float_or_raise : {F : Type 0} → Option F → Option (Value F)
float_or_raise none = none
float_or_raise (some x) = some (float x)

abbrev pub cons_entry :
    {F : Type 0} → Text → Option (Value F) → Option (Config F) → Option (Config F)
cons_entry k (some v) (some c) = some ((k, v) ∷ c)
cons_entry k _ _ = none

-- `set`
unfoldable pub set : {F : Type 0} → Text → Value F → Config F → Config F
set = put

abbrev or_default : {A : Type 0} → A → Option A → A
or_default a none = a
or_default a (some b) = b

-- `get`
unfoldable pub get_value : {F : Type 0} → Text → Value F → Config F → Value F
unfolding get
get_value key default c = or_default default (get key c)

module _ (X : Floats) where
  open X use {Float, parse_float, hundredths}

  -- `DEFAULT_CONFIG`
  unfoldable pub default_config : Config Float
  default_config =
      (text "device_id", str (text "edge-001"))
      ∷ (text "backend_url", str (text "http://localhost:8000"))
      ∷ (text "mqtt_broker", str (text "localhost"))
      ∷ (text "mqtt_port", int (pos 1883))
      ∷ (text "mqtt_topic_prefix", str (text "fras"))
      ∷ (text "camera_device", int (pos 0))
      ∷ (text "camera_fps", int (pos 15))
      ∷ (text "camera_width", int (pos 640))
      ∷ (text "camera_height", int (pos 480))
      ∷ (text "frame_skip", int (pos 2))
      ∷ (text "model_type", str (text "auto"))
      ∷ (text "face_det_size", int (pos 480))
      ∷ (text "recognition_threshold", float (hundredths 65))
      ∷ (text "liveness_threshold", float (hundredths 65))
      ∷ (text "anti_spoof_model", str [])
      ∷ (text "offline_queue_max", int (pos 1000))
      ∷ (text "sync_interval", int (pos 30))
      ∷ (text "config_poll_interval", int (pos 60))
      ∷ (text "tls_enabled", bool true)
      ∷ (text "api_key", str [])
      ∷ []

  -- `_cast(value, type(current))`; `none`: it raises
  unfoldable pub cast : Text → Value Float → Option (Value Float)
  unfolding is_truth parse_int
  cast v (bool b) = some (bool (is_truth v))
  cast v (int n) = int_or_raise (parse_int v)
  cast v (float x) = float_or_raise (parse_float v)
  cast v (str t) = some (str v)
  cast v (other x) = some (str v)

  -- The value of a key under the environment.
  abbrev pub overridden : Option Text → Value Float → Option (Value Float)
  overridden none v = some v
  overridden (some t) v = cast t v

  -- The loop of the overrides over the keys that are there.
  unfoldable pub override_all : (Text → Option Text) → Config Float → Option (Config Float)
  unfolding cast env_key
  override_all env [] = some []
  override_all env ((k, v) ∷ c) = cons_entry k (overridden (env (env_key k)) v) (override_all env c)

  -- The defaults with the file over them; a file that does not read is passed over.
  unfoldable pub from_file : File Float → Config Float
  unfolding update_all default_config
  from_file missing = default_config
  from_file (read none) = default_config
  from_file (read (some c)) = update_all default_config c

  -- `_load`; `none`: it raises
  unfoldable pub load : (Text → Option Text) → File Float → Option (Config Float)
  unfolding override_all from_file
  load env file = override_all env (from_file file)

  -- `merge`: the updates of keys that the defaults have
  unfoldable pub merge : Config Float → Config Float → Config Float
  unfolding put get
  merge [] c = c
  merge ((k, v) ∷ updates) c =
      merge updates (if is_some (get k default_config) then put k v c else c)
