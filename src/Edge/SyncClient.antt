-- ===== src/Edge/SyncClient.antt =====
-- `class SyncClient` (edge/comms/sync_client.py): MQTT first, REST as the fallback. The two
-- libraries behind it, `requests` and `paho`, and the network are the record `Network`.
use frass_f.Base.{
  ℕ, Bool, true, false, ◌&&◌, ◌||◌, Option, none, some, List, ◌++◌, Text, text, is_empty, ◌==◌,
  if◌then◌else◌,
}

-- The requests of the client, named for their paths below `backend_url`.
pub data Request (V : Type 0) : Type 0 where
  health : Request V
  device_config : Text → Request V
  register : V → Request V
  edge_result : V → Request V
  edge_sync : Text → List V → Request V

pub record Headers : Type 0 where
  pub api_key : Option Text
  pub device_id : Text

pub record Response (V : Type 0) : Type 0 where
  pub status_code : ℕ
  pub json : Option V

-- A request raises (`none`) or is answered; `publish` raises (`false`) or returns.
pub record Network (V : Type 0) : Type 1 where
  pub World : Type 0
  pub request : Headers → Request V → World → Option (Response V) × World
  pub publish : Text → V → World → Bool × World

pub record SyncClient : Type 0 where
  pub api_key : Text
  pub device_id : Text
  pub topic_prefix : Text
  pub mqtt_client : Bool
  pub connected : Bool

-- `_on_connect`, `_on_disconnect`
pub on_connect : ℕ → SyncClient → SyncClient
on_connect rc c = if rc == 0 then record c { connected = true } else c

pub on_disconnect : SyncClient → SyncClient
on_disconnect c = record c { connected = false }

-- `_headers`
pub headers : SyncClient → Headers
headers c = record {
  api_key = if is_empty c.api_key then none else some c.api_key;
  device_id = c.device_id;
}

-- `{prefix}/devices/{device_id}/results`
pub results_topic : SyncClient → Text
results_topic c = c.topic_prefix ++ (text "/devices/" ++ (c.device_id ++ text "/results"))

-- `resp.status_code == 200`, and what a `try` around the request returns where it raises.
abbrev pub ok_or : {V : Type 0} → Bool → Option (Response V) → Bool
ok_or raised none = raised
ok_or raised (some r) = r.status_code == 200

module _ {V : Type 0} (N : Network V) (c : SyncClient) where
  open N use {World, request, publish}

  pub is_connected : World → Bool × World
  unfolding headers
  is_connected w = let (r, w') = request (headers c) health w in (ok_or c.connected r, w')

  pub send_rest : V → World → Bool × World
  unfolding headers
  send_rest v w = let (r, w') = request (headers c) (edge_result v) w in (ok_or false r, w')

  -- What `send_result` does once MQTT was tried.
  abbrev after_publish : V → Bool × World → Bool × World
  after_publish v (true, w) = (true, w)
  after_publish v (false, w) = send_rest v w

  pub send_result : V → World → Bool × World
  unfolding send_rest results_topic
  send_result v w =
      if c.mqtt_client && c.connected
      then after_publish v (publish (results_topic c) v w)
      else send_rest v w

  pub send_batch : List V → World → Bool × World
  unfolding headers
  send_batch vs w =
      let (r, w') = request (headers c) (edge_sync c.device_id vs) w in (ok_or false r, w')

  -- `fetch_config`
  abbrev config_of : Option (Response V) → Option V
  config_of none = none
  config_of (some r) = if r.status_code == 200 then r.json else none

  unfoldable pub fetch_config : World → Option V × World
  unfolding headers
  fetch_config w =
      let (r, w') = request (headers c) (device_config c.device_id) w in (config_of r, w')

  abbrev registered : Option (Response V) → Bool
  registered none = false
  registered (some r) = r.status_code == 200 || r.status_code == 201

  pub register_device : V → World → Bool × World
  unfolding headers
  register_device info w = let (r, w') = request (headers c) (register info) w in (registered r, w')
