-- ===== src/Backend/Runs/Requests.antt =====
-- After results, batches and any requests every embedding is of a user still (backend/app.py).
use frass_f.Base.{
  ℕ, ◌+◌, Bool, true, false, not, Option, none, some, List, [], ◌∷◌, Text, is_empty, get,
  Bool-cases, leb, length, inl, inr,
}
use frass_f.Base.Int.{ℤ, ltb_ℤ}
use frass_f.Backend.State.{Backend, Device, ReplayGuard, Env, Config}
use frass_f.Backend.Match.{Engine, match_embedding, embedding_quality}
use frass_f.Backend.Replay.{check_replay, cleanup, cleanup_interval, admit, remember}
use frass_f.Backend.Results.{
  Result, Reply, add_log, nonce_logged, recent, dt_of, process_embedding, respond, checked,
  from_device, admitted, tally, after_match, process_result, receive_result, sync_one, sync_loop,
  sync_batch, or_raise,
}
use frass_f.Backend.Runs.{Request, register, verify, log, result, batch, handle, handle_all}
use frass_f.Backend.Runs.Users.{
  OfUsers, match-OfUsers, register-OfUsers, verify-OfUsers, log-OfUsers,
}

module _ {C E : Type 0} (K : Engine E) (cfg : Config) where
  add_log-OfUsers :
      (r : Result E) (device_id : Text) (dt i : ℕ) (confidence : ℤ) (b : Backend C E)
      → OfUsers b
      → OfUsers (add_log r device_id dt i confidence b).1
  unfolding add_log
  add_log-OfUsers r device_id dt i confidence b h =
      elim (Bool-cases (nonce_logged r.nonce b.logs)) [ inl t ↦ rw t h | inr t ↦ rw t h ]

  cleanup-OfUsers : (env : Env) (b : Backend C E) → OfUsers b → OfUsers (cleanup env b)
  unfolding cleanup
  cleanup-OfUsers env b h =
      elim (Bool-cases (leb (b.last_replay_cleanup + cleanup_interval) env.now)) [
        | inl t ↦ rw t h
        | inr t ↦ rw t h
      ]

  check-OfUsers :
      (nonce device_id : Text) (env : Env) (b : Backend C E)
      → OfUsers b
      → OfUsers (check_replay nonce device_id env b).1
  unfolding check_replay
  check-OfUsers nonce device_id env b h = elim (Bool-cases (is_empty nonce)) [
    | inl t ↦ rw t h
    | inr t ↦ rw t (go (get nonce b.replay_guard))
  ]
    where
      go : (o : Option ReplayGuard) → OfUsers (admit o nonce device_id env b).1
      go none = cleanup-OfUsers env (remember nonce device_id env b) h
      go (some g) = h

  after_match-OfUsers :
      (r : Result E) (device_id : Text) (env : Env) (x : Option (Option ℕ × ℤ) × Backend C E)
      → OfUsers x.1
      → OfUsers (after_match K cfg r device_id env x).1
  unfolding after_match
  after_match-OfUsers r device_id env (none, b) h = h
  after_match-OfUsers r device_id env (some (none, confidence), b) h = h
  after_match-OfUsers r device_id env (some (some i, confidence), b) h =
      elim (Bool-cases (recent i cfg.dedup_cooldown env.now b.logs)) [
        | inl t ↦ rw t h
        | inr t ↦ rw t (add_log-OfUsers r device_id (dt_of r.timestamp env.now) i confidence b h)
      ]

  process-OfUsers :
      (r : Result E) (device_id : Text) (env : Env) (b : Backend C E)
      → OfUsers b
      → OfUsers (process_result K cfg r device_id env b).1
  unfolding process_result
  process-OfUsers r device_id env b h = go r.embedding
    where
      go : (o : Option E) → OfUsers (process_embedding K cfg r o device_id env b).1
      go none = h
      go (some e) = elim (Bool-cases (not r.is_live)) [
        | inl t ↦ rw t h
        | inr t ↦
            rw t (elim (Bool-cases (ltb_ℤ (embedding_quality K e) cfg.min_embedding_quality)) [
              | inl l ↦ rw l h
              | inr l ↦ rw l (
                  after_match-OfUsers r device_id env
                    (match_embedding K env.load_fails cfg.recognition_threshold e b)
                    (match-OfUsers K cfg env.load_fails cfg.recognition_threshold e b h))
            ])
      ]

  respond-OfUsers : (x : Option Reply × Backend C E) → OfUsers x.1 → OfUsers (respond x).1
  respond-OfUsers (none, b) h = h
  respond-OfUsers (some r, b) h = h

  receive-OfUsers :
      (r : Result E) (device_id : Text) (env : Env) (b : Backend C E)
      → OfUsers b
      → OfUsers (receive_result K cfg r device_id env b).1
  unfolding receive_result
  receive-OfUsers r device_id env b h = elim (Bool-cases (is_empty device_id)) [
    | inl t ↦ rw t h
    | inr t ↦ rw t (go (get device_id b.devices))
  ]
    where
      after_check :
          (x : Bool × Backend C E) → OfUsers x.1 → OfUsers (checked K cfg r device_id env x).1
      after_check (false, b') k = k
      after_check (true, b') k =
          respond-OfUsers (process_result K cfg r device_id env b')
            (process-OfUsers r device_id env b' k)

      go : (o : Option (Device C)) → OfUsers (from_device K cfg o r device_id env b).1
      go none = h
      go (some d) = elim (Bool-cases (is_empty r.nonce)) [
        | inl t ↦ rw t (
            respond-OfUsers (process_result K cfg r device_id env b)
              (process-OfUsers r device_id env b h))
        | inr t ↦ rw t (
            after_check (check_replay r.nonce device_id env b)
              (check-OfUsers r.nonce device_id env b h))
      ]

  done-OfUsers :
      (x : Option Reply × Backend C E)
      → OfUsers x.1
      → OfUsers (or_raise x (λ reply b'. (some true, b'))).1
  done-OfUsers (none, b) h = h
  done-OfUsers (some r, b) h = h

  sync_one-OfUsers :
      (r : Result E) (device_id : Text) (env : Env) (b : Backend C E)
      → OfUsers b
      → OfUsers (sync_one K cfg r device_id env b).1
  unfolding sync_one
  sync_one-OfUsers r device_id env b h = elim (Bool-cases (is_empty r.nonce)) [
    | inl t ↦ rw t (
        done-OfUsers (process_result K cfg r device_id env b) (process-OfUsers r device_id env b h))
    | inr t ↦ rw t (
        after_check (check_replay r.nonce device_id env b)
          (check-OfUsers r.nonce device_id env b h))
  ]
    where
      after_check :
          (x : Bool × Backend C E) → OfUsers x.1 → OfUsers (admitted K cfg r device_id env x).1
      after_check (false, b') k = k
      after_check (true, b') k =
          done-OfUsers (process_result K cfg r device_id env b')
            (process-OfUsers r device_id env b' k)

  loop-OfUsers :
      (rs : List (Result E × Env)) (device_id : Text) (n : ℕ) (b : Backend C E)
      → OfUsers b
      → OfUsers (sync_loop K cfg rs device_id n b).1
  unfolding sync_loop
  loop-OfUsers [] device_id n b h = h
  loop-OfUsers ((r, env) ∷ rs) device_id n b h =
      go (sync_one K cfg r device_id env b) (sync_one-OfUsers r device_id env b h)
        (λ c b' k. loop-OfUsers rs device_id (tally n c) b' k)
    where
      go :
          (x : Option Bool × Backend C E)
          → OfUsers x.1
          → ((c : Bool) (b' : Backend C E)
              → OfUsers b'
              → OfUsers (sync_loop K cfg rs device_id (tally n c) b').1)
          → OfUsers (or_raise x (λ c b'. sync_loop K cfg rs device_id (tally n c) b')).1
      go (none, b') k rest = k
      go (some c, b') k rest = rest c b' k

  batch-OfUsers :
      (rs : List (Result E × Env)) (device_id : Text) (b : Backend C E)
      → OfUsers b
      → OfUsers (sync_batch K cfg rs device_id b).1
  unfolding sync_batch
  batch-OfUsers rs device_id b h =
      go (sync_loop K cfg rs device_id 0 b) (loop-OfUsers rs device_id 0 b h)
    where
      go :
          (x : Option ℕ × Backend C E)
          → OfUsers x.1
          → OfUsers (or_raise {B = ℕ × ℕ} x (λ n b'. (some (n, length rs), b'))).1
      go (none, b') k = k
      go (some n, b') k = k

  handle-OfUsers : (r : Request E) (b : Backend C E) → OfUsers b → OfUsers (handle K cfg r b)
  unfolding handle
  handle-OfUsers (register r env) b h = register-OfUsers K cfg r env b h
  handle-OfUsers (verify e threshold env) b h = verify-OfUsers K cfg e threshold env b h
  handle-OfUsers (log e env) b h = log-OfUsers K cfg e env b h
  handle-OfUsers (result r device_id env) b h = receive-OfUsers r device_id env b h
  handle-OfUsers (batch rs device_id) b h = batch-OfUsers rs device_id b h

  -- After any registrations, verifications, manual logs, results and batches, whatever raises in them,
  -- no two users have one external id, and every embedding, in the table and in the cache, is of a user
  -- that is there, where that held before.
  pub handle_all-OfUsers :
      (rs : List (Request E)) (b : Backend C E) → OfUsers b → OfUsers (handle_all K cfg rs b)
  unfolding handle_all
  handle_all-OfUsers [] b h = h
  handle_all-OfUsers (r ∷ rs) b h = handle_all-OfUsers rs (handle K cfg r b) (handle-OfUsers r b h)
