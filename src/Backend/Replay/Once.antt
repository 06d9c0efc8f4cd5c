-- ===== src/Backend/Replay/Once.antt =====
-- A nonce that `check_replay` of backend/app.py took is refused for an hour.
use frass_f.Base.{
  ℕ, ◌+◌, ◌≤◌, ◌≡◌, refl, inl, inr, true, false, Option, none, some, Bool-cases, List, [], ◌∷◌,
  Text, text_eq_iff, text_eq_refl, get, get-put, get-filter_values, is_empty, All, leb, arith,
}
use frass_f.Backend.State.{Backend, ReplayGuard, Env}
use frass_f.Backend.Replay.{hour, cleanup, remember, admit, check_replay}

-- A call of `check_replay` at a time no later than `t`.
abbrev pub Before : ℕ → Text × Text × Env → Type 0
Before t (n, d, env) = env.now ≤ t

module _ {C E : Type 0} where
  -- The nonce is in the table, at a time that is no earlier.
  abbrev pub Remembered : Text → ℕ → Backend C E → Type 0
  Remembered n t b = (g : ReplayGuard) × (get n b.replay_guard ≡ some g) × (t ≤ g.timestamp)

  cleanup-Remembered :
      (env : Env) (n : Text) (t : ℕ) (b : Backend C E)
      → env.now ≤ t + hour
      → Remembered n t b
      → Remembered n t (cleanup env b)
  unfolding cleanup
  cleanup-Remembered env n t b h (g, found, since) = (
    g,
    ground
        (arith, get-filter_values (λ r. leb env.now (r.timestamp + hour)) n g b.replay_guard found),
    since,
  )

  remember-Remembered :
      (m d n : Text) (env : Env) (t : ℕ) (b : Backend C E)
      → get m b.replay_guard ≡ none
      → Remembered n t b
      → Remembered n t (remember m d env b)
  remember-Remembered m d n env t b fresh (g, found, since) = (
    g,
    ground (
      arith,
      get-put m n (record { device_id = d; timestamp = env.now }) b.replay_guard,
      text_eq_iff m n,
    ),
    since,
  )

  pub check_replay-Remembered :
      (m d n : Text) (env : Env) (t : ℕ) (b : Backend C E)
      → env.now ≤ t + hour
      → Remembered n t b
      → Remembered n t (check_replay m d env b).1
  unfolding check_replay
  check_replay-Remembered m d n env t b h r = elim (Bool-cases (is_empty m)) [
    | inl empty ↦ rw empty r
    | inr named ↦ rw named (at (get m b.replay_guard) refl)
  ]
    where
      at :
          (o : Option ReplayGuard) → get m b.replay_guard ≡ o → Remembered n t (admit o m d env b).1
      at none fresh =
          cleanup-Remembered env n t (remember m d env b) h
            (remember-Remembered m d n env t b fresh r)
      at (some g) known = r

  -- What a nonce needs to be taken, and what taking it leaves.
  pub taken-Remembered :
      (n d : Text) (env : Env) (b : Backend C E)
      → (check_replay n d env b).0 ≡ true
      → Remembered n env.now (check_replay n d env b).1
  unfolding check_replay
  taken-Remembered n d env b h = elim (Bool-cases (is_empty n)) [
    | inl empty ↦ absurd (ground arith)
    | inr named ↦ rw named (at (get n b.replay_guard) (rw named at h))
  ]
    where
      at :
          (o : Option ReplayGuard)
          → (admit o n d env b).0 ≡ true
          → Remembered n env.now (admit o n d env b).1
      at none h' =
          cleanup-Remembered env n env.now (remember n d env b) (omega arith) (
            record { device_id = d; timestamp = env.now },
            rw (get-put, text_eq_refl n),
            omega arith,
          )
      at (some g) h' = absurd (ground arith)

  pub refused_if-Remembered :
      (n d : Text) (env : Env) (t : ℕ) (b : Backend C E)
      → Remembered n t b
      → check_replay n d env b ≡ (false, b)
  unfolding check_replay
  refused_if-Remembered n d env t b (g, found, since) = rw found (ground arith)

  -- Calls of `check_replay`, each at its time.
  unfoldable pub check_all : List (Text × Text × Env) → Backend C E → Backend C E
  check_all [] b = b
  check_all ((n, d, env) ∷ calls) b = check_all calls (check_replay n d env b).1

  pub check_all-Remembered :
      (calls : List (Text × Text × Env)) (n : Text) (t : ℕ) (b : Backend C E)
      → All (Before (t + hour)) calls
      → Remembered n t b
      → Remembered n t (check_all calls b)
  unfolding check_all
  check_all-Remembered [] n t b h r = r
  check_all-Remembered ((m, d, env) ∷ calls) n t b h r =
      check_all-Remembered calls n t (check_replay m d env b).1 h.1
        (check_replay-Remembered m d n env t b h.0 r)

  -- A nonce that was taken is refused, and nothing changes, after any calls within the hour that
  -- follows, whatever they ask and whenever they clean up.
  pub nonce_taken_once :
      (n d d' : Text) (env env' : Env) (b : Backend C E) (calls : List (Text × Text × Env))
      → (check_replay n d env b).0 ≡ true
      → All (Before (env.now + hour)) calls
      → check_replay n d' env' (check_all calls (check_replay n d env b).1)
        ≡ (false, check_all calls (check_replay n d env b).1)
  nonce_taken_once n d d' env env' b calls h within =
      refused_if-Remembered n d' env' env.now (check_all calls (check_replay n d env b).1) (
        check_all-Remembered calls n env.now (check_replay n d env b).1 within
          (taken-Remembered n d env b h))
