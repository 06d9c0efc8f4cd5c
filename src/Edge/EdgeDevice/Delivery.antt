-- ===== src/Edge/EdgeDevice/Delivery.antt =====
-- What becomes of a result in `_handle_result` (edge/main.py), and that its nonce names it.
use frass_f.Base.{
  ℕ, ◌≤◌, ◌<◌, ◌≡◌, refl, ◌⊎◌, inl, inr, Bool, true, false, Option, some, List, [], ◌∷◌, ◌++◌,
  length, Text,
}
use frass_f.Edge.Json.{Json}
use frass_f.Edge.OfflineStore.{OfflineStore}
use frass_f.Edge.OfflineStore.Bound.{newest, enqueue-newest}
use frass_f.Edge.OfflineStore.Flush.{Sends, flush-Sends}
use frass_f.Edge.SyncClient.{Network, is_connected, send_result, send_batch}
use frass_f.Edge.EdgeDevice.{EdgeDevice, Moment, stamped, settle, try_send, handle_result}

module _ (J : Json) (N : Network J.Value) where
  open J use {Value}
  open N use {World}

  -- The backend was reached, took the result `v`, and then batches from the front of the queue.
  pub record Delivered (d d' : EdgeDevice Value) (v : Value) (w w' : World) : Type 0 where
    pub reached : World
    pub taken : World
    pub is_reached : is_connected N d.sync w ≡ (true, reached)
    pub is_taken : send_result N d.sync v reached ≡ (true, taken)
    pub from_queue : List Value
    pub rest_kept : d.offline.queue ≡ from_queue ++ d'.offline.queue
    pub batches : Sends (send_batch N d.sync) taken from_queue d'.offline.queue w'

  -- The result is the last of the queue, which keeps the newest within its bound.
  pub record Queued (d d' : EdgeDevice Value) (v : Value) : Type 0 where
    pub appended : d'.offline.queue ≡ newest d.offline.max_size (d.offline.queue ++ (v ∷ []))

  abbrev Outcome : EdgeDevice Value → Value → World → Option (EdgeDevice Value × World) → Type 0
  Outcome d v w r =
      (s : OfflineStore Value) × (w' : World) × (r ≡ some (record d { offline = s }, w'))
      × (Delivered d (record d { offline = s }) v w w' ⊎ Queued d (record d { offline = s }) v)

  module _ (m : Moment) (v : Value) (d : EdgeDevice Value) (room : 0 < d.offline.max_size)
      (fits : length d.offline.queue ≤ d.offline.max_size) where
    settle_queued : (w w₁ : World) → Outcome d v w (settle J N m v d (false, w₁))
    settle_queued w w₁ =
        let (s, e, q, _) = enqueue-newest J m.save v d.offline room fits in
        (s, w₁, rw e, inr (record { appended = q }))

    settle_taken :
        (w reached taken : World)
        → is_connected N d.sync w ≡ (true, reached)
        → send_result N d.sync v reached ≡ (true, taken)
        → Outcome d v w (settle J N m v d (true, taken))
    settle_taken w reached taken r t =
        let (delivered, s, w', e, kept, sends) =
          flush-Sends J (send_batch N d.sync) m.save d.offline taken in
        (
          s,
          w',
          rw e,
          inl (record {
            reached = reached;
            taken = taken;
            is_reached = r;
            is_taken = t;
            from_queue = delivered;
            rest_kept = kept;
            batches = sends;
          }),
        )

    sent_settles :
        (w reached : World) (t : Bool × World)
        → is_connected N d.sync w ≡ (true, reached)
        → send_result N d.sync v reached ≡ t
        → Outcome d v w (settle J N m v d t)
    sent_settles w reached (true, taken) r t = settle_taken w reached taken r t
    sent_settles w reached (false, w₁) r t = settle_queued w w₁

    connected_settles :
        (w : World) (r : Bool × World)
        → is_connected N d.sync w ≡ r
        → Outcome d v w (settle J N m v d (try_send J N v d r))
    connected_settles w (true, reached) e =
        sent_settles w reached (send_result N d.sync v reached) e refl
    connected_settles w (false, w₁) e = settle_queued w w₁

  -- Where the bound of the offline queue is above 0 and the queue is within it, `_handle_result`
  -- succeeds, and either the result was sent, that is the backend acknowledged it or its MQTT publish
  -- returned, and then batches from the front of the queue, whose rest stays in order; or the result
  -- is now the last of the queue, of which the newest within the bound are kept: a full queue loses
  -- its oldest. Nothing but the queue's store changes in the device.
  pub handle_result_keeps :
      {P : Type 0} (stamp : Text → ℕ → Text → P → Value) (m : Moment) (p : P) (d : EdgeDevice Value)
      (w : World)
      → 0 < d.offline.max_size
      → length d.offline.queue ≤ d.offline.max_size
      → (s : OfflineStore Value) × (w' : World) × (handle_result J N stamp m p d w
          ≡ some (record d { offline = s }, w'))
        × (Delivered d (record d { offline = s }) (stamped J N stamp m d p) w w'
            ⊎ Queued d (record d { offline = s }) (stamped J N stamp m d p))
  unfolding handle_result
  handle_result_keeps stamp m p d w room fits =
      connected_settles m (stamped J N stamp m d p) d room fits w (is_connected N d.sync w) refl
