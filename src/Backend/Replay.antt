-- ===== src/Backend/Replay.antt =====
-- `check_replay` (backend/app.py): a nonce is taken once, and remembered for an hour.
pub mod Once
use frass_f.Base.{
  ℕ, ◌+◌, ◌-◌, Bool, true, false, Option, none, some, List, [], ◌∷◌, Text, Dict, get, put,
  filter_values, is_empty, ltb, leb, not, if◌then◌else◌,
}
use frass_f.Backend.State.{Backend, ReplayGuard, Env, seconds}

abbrev pub cleanup_interval : ℕ
cleanup_interval = seconds 300

abbrev pub hour : ℕ
hour = seconds 3600

module _ {C E : Type 0} where
  -- The deletion of the nonces older than an hour, at most every `cleanup_interval`.
  unfoldable pub cleanup : Env → Backend C E → Backend C E
  cleanup env b =
      if leb (b.last_replay_cleanup + cleanup_interval) env.now
      then record b {
        last_replay_cleanup = env.now;
        replay_guard =
            if env.cleanup_fails
            then b.replay_guard
            else filter_values (λ g. leb env.now (g.timestamp + hour)) b.replay_guard;
      }
      else b

  abbrev pub remember : Text → Text → Env → Backend C E → Backend C E
  remember nonce device_id env b = record b {
    replay_guard = put nonce (record { device_id = device_id; timestamp = env.now }) b.replay_guard;
  }

  abbrev pub admit : Option ReplayGuard → Text → Text → Env → Backend C E → Bool × Backend C E
  admit none nonce device_id env b = (true, cleanup env (remember nonce device_id env b))
  admit (some g) nonce device_id env b = (false, b)

  unfoldable pub check_replay : Text → Text → Env → Backend C E → Bool × Backend C E
  unfolding cleanup
  check_replay nonce device_id env b =
      if is_empty nonce then (false, b) else admit (get nonce b.replay_guard) nonce device_id env b
