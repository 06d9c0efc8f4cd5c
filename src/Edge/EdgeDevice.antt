-- ===== src/Edge/EdgeDevice.antt =====
-- `class EdgeDevice` (edge/main.py): what is done with each frame and each result. The camera's
-- frames, the clock and the inference pipeline are arguments.
pub mod Delivery
pub mod Nonce
mod Tests
use frass_f.Base.{
  ℕ, zero, suc, ◌+◌, ◌%◌, Bool, true, false, Option, none, some, List, [], ◌∷◌, ◌++◌, Text, ◌==◌,
  if◌then◌else◌,
}
use frass_f.Base.Decimal.{decimal}
use frass_f.Edge.Json.{Json}
use frass_f.Edge.OfflineStore.{OfflineStore, Write, enqueue, flush}
use frass_f.Edge.SyncClient.{SyncClient, Network, is_connected, send_result, send_batch}

pub record EdgeDevice (V : Type 0) : Type 0 where
  pub device_id : Text
  pub frame_count : ℕ
  pub frame_skip : ℕ
  pub sync : SyncClient
  pub offline : OfflineStore V

-- `f'{device_id}:{frame_count}:{time_ns}'`
pub nonce : Text → ℕ → ℕ → Text
nonce device_id frame_count time_ns =
    device_id ++ (b':' ∷ (decimal frame_count ++ (b':' ∷ decimal time_ns)))

-- What one turn of the loop finds: the time, the time in ns, and how a save of the queue would go.
pub record Moment : Type 0 where
  pub time : ℕ
  pub time_ns : ℕ
  pub save : Write

module _ (J : Json) (N : Network J.Value) where
  open J use {Value}
  open N use {World}

  abbrev pub Device : Type 0
  Device = EdgeDevice Value

  abbrev flushed : Device → Option (ℕ × OfflineStore Value × World) → Option (Device × World)
  flushed d none = none
  flushed d (some (sent, s, w)) = some (record d { offline = s }, w)

  abbrev queued : Device → World → Option (OfflineStore Value) → Option (Device × World)
  queued d w none = none
  queued d w (some s) = some (record d { offline = s }, w)

  -- `self.sync.is_connected()` and then `self.sync.send_result(result)`
  abbrev pub try_send : Value → Device → Bool × World → Bool × World
  try_send v d (true, w) = send_result N d.sync v w
  try_send v d (false, w) = (false, w)

  -- The result was acknowledged and the queue is flushed, or it goes to the queue.
  abbrev pub settle : Moment → Value → Device → Bool × World → Option (Device × World)
  settle m v d (true, w) = flushed d (flush J (send_batch N d.sync) m.save d.offline w)
  settle m v d (false, w) = queued d w (enqueue J m.save v d.offline)

-- `stamp` sets the keys `device_id`, `timestamp` and `nonce` of a result of the pipeline.
module _ (J : Json) (N : Network J.Value) {P : Type 0} (stamp : Text → ℕ → Text → P → J.Value) where
  open J use {Value}
  open N use {World}

  pub stamped : Moment → Device J N → P → Value
  unfolding nonce
  stamped m d p = stamp d.device_id m.time (nonce d.device_id d.frame_count m.time_ns) p

  -- `_handle_result`; `none`: the queue raised.
  pub handle_result : Moment → P → Device J N → World → Option (Device J N × World)
  unfolding stamped
  handle_result m p d w =
      let v = stamped m d p in settle J N m v d (try_send J N v d (is_connected N d.sync w))

  module _ {F : Type 0} (process : F → Option P) where
    abbrev handle_processed : Moment → Option P → Device J N → World → Option (Device J N × World)
    handle_processed m none d w = some (d, w)
    handle_processed m (some p) d w = handle_result m p d w

    abbrev counted : Device J N → Device J N
    counted d = record d { frame_count = d.frame_count + 1 }

    -- One turn of the loop of `start` on what `camera.read()` returned. `% 0` raises.
    pub on_frame : Moment → Option F → Device J N → World → Option (Device J N × World)
    unfolding handle_result
    on_frame m none d w = some (d, w)
    on_frame m (some frame) d w =
        if d.frame_skip == 0
        then none
        else if (counted d).frame_count % d.frame_skip == 0
        then handle_processed m (process frame) (counted d) w
        else some (counted d, w)
