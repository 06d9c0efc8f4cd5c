-- ===== src/Edge/ConfigSync.antt =====
-- `_sync_config` of a device (edge/main.py), with the `save` of its configuration
-- (edge/config/device_config.py): the step from the backend's configuration to the device's own.
pub mod Remote
mod Tests
use frass_f.Base.{ℕ, Option, none, some, [], ◌∷◌, Text}
use frass_f.Edge.SyncClient.{SyncClient, Network, fetch_config}
use frass_f.Edge.DeviceConfig.{Value, Config, Floats, File, missing, read, merge}

-- How a save goes: written, the file could not be opened, or the write broke off, which leaves a file
-- that does not read.
pub data Save : Type 0 where
  written not_opened broken_off : Save

module _ (X : Floats) where
  open X use {Float}

  -- What a device has: its configuration and the file.
  pub record Local : Type 0 where
    pub config : Config Float
    pub file : File Float

  -- `save`
  abbrev pub save : Save → Local → Local
  save written l = record l { file = read (some l.config) }
  save not_opened l = l
  save broken_off l = record l { file = read none }

  -- `if remote_config`: an answer that is empty is passed over.
  abbrev pub take_remote : Save → Option (Config Float) → Local → Local
  take_remote s none l = l
  take_remote s (some []) l = l
  take_remote s (some (x ∷ c)) l = save s (record l { config = merge X (x ∷ c) l.config })

  -- `_sync_config`
  unfoldable pub sync_config :
      (N : Network (Config Float)) → SyncClient → Save → Local → N.World → Local × N.World
  unfolding merge
  sync_config N client s l w =
      let (remote, w') = fetch_config N client w in (take_remote s remote l, w')
