-- ===== src/Edge.antt =====
-- The edge device (edge/): its queue of unsent results, its link to the backend, and its main loop.
pub mod Json
pub mod OfflineStore
pub mod SyncClient
pub mod EdgeDevice
pub mod DeviceConfig
pub mod ConfigSync
pub mod Pipeline
