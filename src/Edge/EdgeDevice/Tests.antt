-- ===== src/Edge/EdgeDevice/Tests.antt =====
-- Runs of edge/main.py with a small network.
use frass_f.Base.{ℕ, ◌+◌, ◌≡◌, refl, ◌⊎◌, Bool, true, false, none, some, [], ◌∷◌, Text, text, arith}
use frass_f.Base.Decimal.{decimal}
use frass_f.Edge.OfflineStore.{OfflineStore, written}
use frass_f.Edge.OfflineStore.Tests.{flags}
use frass_f.Edge.SyncClient.{SyncClient, Network}
use frass_f.Edge.EdgeDevice.{EdgeDevice, Moment, nonce, stamped, handle_result}
use frass_f.Edge.EdgeDevice.Delivery.{Delivered, Queued, handle_result_keeps}

-- A network that answers every request with one status, and counts the requests.
abbrev answering : ℕ → Network Bool
answering status = record {
  World = ℕ;
  request = λ h r w. (some (record { status_code = status; json = none }), w + 1);
  publish = λ topic v w. (false, w);
}

abbrev client : SyncClient
client = record {
  api_key = [];
  device_id = text "edge-001";
  topic_prefix = text "fras";
  mqtt_client = true;
  connected = true;
}

abbrev device : EdgeDevice Bool
device = record {
  device_id = text "edge-001";
  frame_count = 4;
  frame_skip = 2;
  sync = client;
  offline = record { max_size = 3; queue = false ∷ []; disk = none };
}

abbrev moment : Moment
moment = record { time = 7; time_ns = 7000; save = written }

abbrev keep : Text → ℕ → Text → Bool → Bool
keep device_id time nonce p = p

nonce_run : nonce (text "edge-001") 4 7000 ≡ text "edge-001:4:7000"
unfolding nonce decimal
nonce_run = refl

handle_result_keeps_example :
    (s : OfflineStore Bool) × (w' : ℕ) × (handle_result flags
        (answering 503)
        keep
        moment
        true
        device
        0
      ≡ some (record device { offline = s }, w'))
    × (Delivered flags
          (answering 503)
          device
          (record device { offline = s })
          (stamped flags (answering 503) keep moment device true)
          0
          w'
        ⊎ Queued flags
            (answering 503)
            device
            (record device { offline = s })
            (stamped flags (answering 503) keep moment device true))
handle_result_keeps_example =
    handle_result_keeps flags (answering 503) keep moment true device 0 (omega arith) (omega arith)
