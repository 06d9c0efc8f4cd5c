-- ===== src/Edge/ConfigSync/Remote.antt =====
-- From a configuration that is set at the backend (backend/app.py) to the device that has it after its
-- next start (edge/main.py, edge/config/device_config.py).
use frass_f.Base.{
  ℕ, ◌≡◌, refl, sym, ap, ◌∙◌, Option, none, some, [], ◌∷◌, Text, get, put, Distinct, put-Distinct,
  is_some, arith, Bool-cases, inl, inr,
}
use frass_f.Edge.SyncClient.{SyncClient, Network, headers, device_config, fetch_config}
use frass_f.Edge.DeviceConfig.{Value, Config, Floats, read, merge, load, default_config, env_key}
use frass_f.Edge.DeviceConfig.Precedence.{get-merge, get-load}
use frass_f.Edge.ConfigSync.{Save, written, not_opened, broken_off, Local, take_remote, sync_config}
use frass_f.Backend.State.{Backend, Device}
use frass_f.Backend.Devices.{config_is, get_device_config, update_device_config}
use frass_f.Backend.Devices.Overrides.{get_device_config-update_device_config}

module _ (X : Floats) where
  open X use {Float}

  merge-Distinct : (updates c : Config Float) → Distinct c → Distinct (merge X updates c)
  unfolding merge
  merge-Distinct [] c h = h
  merge-Distinct ((k, v) ∷ updates) c h = elim (Bool-cases (is_some (get k (default_config X)))) [
    | inl t ↦ rw t (merge-Distinct updates (put k v c) (put-Distinct k v c h))
    | inr f ↦ rw f (merge-Distinct updates c h)
  ]

  take-merge :
      (s : Save) (c : Config Float) (l : Local X)
      → (take_remote X s (some c) l).config ≡ merge X c l.config
  unfolding merge
  take-merge s [] l = refl
  take-merge written (x ∷ c) l = refl
  take-merge not_opened (x ∷ c) l = refl
  take-merge broken_off (x ∷ c) l = refl

  some_entry :
      (k : Text) (v : Value Float) (s : Save) (c : Config Float) (l : Local X)
      → get k c ≡ some v
      → s ≡ written
      → (take_remote X s (some c) l).file ≡ read (some (merge X c l.config))
  unfolding get merge
  some_entry k v s [] l h e = absurd (ground arith)
  some_entry k v written (x ∷ c) l h e = refl
  some_entry k v not_opened (x ∷ c) l h e = absurd (ground arith)
  some_entry k v broken_off (x ∷ c) l h e = absurd (ground arith)

  -- What the device takes of an answer that has the key.
  taken :
      (k : Text) (v u : Value Float) (c : Config Float) (l : Local X) (env : Text → Option Text)
      (after : Config Float)
      → get k c ≡ some v
      → get k (default_config X) ≡ some u
      → Distinct c
      → Distinct l.config
      → env (env_key k) ≡ none
      → load X env (take_remote X written (some c) l).file ≡ some after
      → (get k (take_remote X written (some c) l).config ≡ some v) × (get k after ≡ some v)
  taken k v u c l env after h known unique own unset start =
      let m = merge X c l.config in
      let value : get k m ≡ some v = get-merge X k c l.config unique ∙ rw (known, h) refl in
      let file = some_entry k v written c l h refl in
      (
        ap (get k) (take-merge written c l) ∙ value,
        get-load X env (read (some m)) k after (merge-Distinct c l.config own)
              (ap (load X env) (sym file) ∙ start)
            ∙ rw value (rw unset refl),
      )

-- Let no configuration have a key twice, let the device be known and the backend's answer reach it, let
-- the save succeed, no variable of the environment be set for a key that the defaults have, and the
-- next start load the file: then a value that is set at the backend for that key is the device's own
-- value once it has synced, and it is so after that start too.
pub get-sync_config :
    (X : Floats) {E : Type 0} (N : Network (Config X.Float)) (client : SyncClient) (l : Local X)
    (w w' : N.World) (base updates c : Config X.Float) (b : Backend (Value X.Float) E)
    (d : Device (Value X.Float)) (now : ℕ) (k : Text) (v u : Value X.Float)
    (env : Text → Option Text) (after : Config X.Float)
    → get client.device_id b.devices ≡ some d
    → Distinct updates
    → (get_device_config base client.device_id now
        (update_device_config client.device_id updates b).1).0
      ≡ config_is c
    → N.request (headers client) (device_config client.device_id) w
      ≡ (some (record { status_code = 200; json = some c }), w')
    → Distinct c
    → Distinct l.config
    → get k updates ≡ some v
    → get k (default_config X) ≡ some u
    → env (env_key k) ≡ none
    → load X env (sync_config X N client written l w).0.file ≡ some after
    → (get k (sync_config X N client written l w).0.config ≡ some v) × (get k after ≡ some v)
unfolding sync_config fetch_config
get-sync_config X {E} N client l w w' base updates c b d now k v u env after known distinct answer
      served unique own set there unset start =
    let (config, e, values) =
      get_device_config-update_device_config base updates client.device_id now d b known distinct in
    let same : config ≡ c = config_same config c (sym e ∙ answer) in
    let value : get k c ≡ some v = ap (get k) (sym same) ∙ values k ∙ rw set refl in
    rw served (taken X k v u c l env after value there unique own unset (rw served at start))
  where
    config_same : (x y : Config X.Float) → config_is x ≡ config_is y → x ≡ y
    config_same x y p = cc
