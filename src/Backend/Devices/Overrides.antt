-- ===== src/Backend/Devices/Overrides.antt =====
-- What of a device stays and what a configuration comes to (backend/app.py).
use frass_f.Base.{
  Distinct, first_of, get-update_all, update_all, ℕ, ◌≡◌, false, some, Text, text, text_eq,
  text_eq_refl, is_empty, if◌then◌else◌, Dict, get, put, get-put, arith,
}
use frass_f.Backend.State.{Backend, Device}
use frass_f.Backend.Devices.{
  config_is, Registration, register_device, get_device_config, update_device_config,
}

-- After the configuration of a known device is set, with no key twice, the configuration that the device gets has the values that
-- were set, and the backend's own value for every other key.
pub get_device_config-update_device_config :
    {C E : Type 0} (base c : Dict C) (device_id : Text) (now : ℕ) (d : Device C) (b : Backend C E)
    → get device_id b.devices ≡ some d
    → Distinct c
    → (config : Dict C) × ((get_device_config base device_id now
          (update_device_config device_id c b).1).0
        ≡ config_is config)
      × ((k : Text) → get k config ≡ first_of (get k c) (get k base))
unfolding get_device_config update_device_config
get_device_config-update_device_config base c device_id now d b h distinct =
    let put_back : get device_id (put device_id (record d { config = some c }) b.devices)
        ≡ some (record d { config = some c }) =
      let there = get-put device_id device_id (record d { config = some c }) b.devices in
      let same = text_eq_refl device_id in ground arith in
    (update_all base c, rw (h, put_back), λ k. get-update_all k base c distinct)

-- A device that registers again keeps its name, location, key and configuration, whatever the
-- request says; it is active and was just seen, and no other device has changed.
pub register_device_keeps :
    {C E : Type 0} (r : Registration) (key other : Text) (now : ℕ) (d : Device C) (b : Backend C E)
    → is_empty r.device_id ≡ false
    → get r.device_id b.devices ≡ some d
    → get other (register_device r key now b).1.devices ≡ (
        if text_eq r.device_id other
        then some (record d { last_seen = some now; status = text "active" })
        else get other b.devices)
unfolding register_device
register_device_keeps r key other now d b named h =
    rw (named, h)
      (get-put r.device_id other (record d { last_seen = some now; status = text "active" })
        b.devices)
