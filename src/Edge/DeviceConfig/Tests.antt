-- ===== src/Edge/DeviceConfig/Tests.antt =====
-- Runs of the configuration of a device (edge/config/device_config.py).
use frass_f.Base.{
  ℕ, ◌≡◌, refl, true, false, Option, none, some, [], ◌∷◌, Text, text, text_eq, strip, get, first_of,
  if◌then◌else◌,
}
use frass_f.Base.Int.{pos}
use frass_f.Edge.DeviceConfig.{
  Value, int, bool, Config, File, read, Floats, default_config, load, merge, cast,
}
use frass_f.Edge.DeviceConfig.Precedence.{resolved, in_file, get-load}

-- Floats by their hundredths, of which no text is one.
abbrev hundredths_only : Floats
hundredths_only = record { Float = ℕ; parse_float = λ t. none; hundredths = λ n. n }

abbrev port : Text
port = text "mqtt_port"

abbrev own_port : File ℕ
own_port = read (some ((port, int (pos 8883)) ∷ []))

abbrev no_env : Text → Option Text
no_env k = none

abbrev env_port : Text → Option Text
env_port k = if text_eq k (text "FRAS_MQTT_PORT") then some (text " 1_884 ") else none

abbrev bad_port : Text → Option Text
bad_port k = if text_eq k (text "FRAS_MQTT_PORT") then some (text "tcp") else none

abbrev port_of : Option (Config ℕ) → Option (Value ℕ)
unfolding get
port_of none = none
port_of (some c) = get port c

file_over_default : port_of (load hundredths_only no_env own_port) ≡ some (int (pos 8883))
unfolding load get text_eq
file_over_default = refl

env_over_file : port_of (load hundredths_only env_port own_port) ≡ some (int (pos 1884))
unfolding load get text_eq strip
env_over_file = refl

truth_of_text : cast hundredths_only (text "YES") (bool false) ≡ some (bool true)
unfolding cast text_eq
truth_of_text = refl

unknown_key_is_dropped : merge hundredths_only ((text "speed", int (pos 1)) ∷ []) [] ≡ []
unfolding merge default_config text_eq
unknown_key_is_dropped = refl

loaded_port : Option (Config ℕ) → Config ℕ
loaded_port none = []
loaded_port (some c) = c

get-load_example :
    get port (loaded_port (load hundredths_only env_port own_port))
    ≡ resolved hundredths_only env_port port
        (first_of (get port (in_file own_port)) (get port (default_config hundredths_only)))
unfolding load loaded_port get text_eq strip
get-load_example =
    get-load hundredths_only env_port own_port port
      (loaded_port (load hundredths_only env_port own_port)) (refl, tt) refl
