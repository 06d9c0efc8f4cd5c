-- ===== src/Backend/Results/Resend.antt =====
-- Sending a batch again (`sync_batch`, backend/app.py; `flush` of edge/sync/offline_store.py does so
-- when it saw no answer).
use frass_f.Base.{
  get, ℕ, ◌+◌, ◌≤◌, ◌≡◌, refl, ap, inl, inr, Bool, true, false, Option, none, some, Bool-cases,
  List, [], ◌∷◌, Text, is_empty, length, All, arith,
}
use frass_f.Base.Int.{ℤ}
use frass_f.Backend.State.{Backend, Device, Env, Config}
use frass_f.Backend.Replay.{hour, check_replay}
use frass_f.Backend.Replay.Once.{
  Before, check_all, check_all-Remembered, Remembered, check_replay-Remembered, taken-Remembered,
  refused_if-Remembered,
}
use frass_f.Backend.Match.{Engine, match_embedding}
use frass_f.Backend.Results.{
  Result, Reply, replay_detected, from_device, receive_result, after_match, process_embedding,
  process_result, admitted, sync_one, sync_loop, sync_batch, tally, or_raise,
}

module _ {C E : Type 0} (K : Engine E) (cfg : Config) where
  guard-match_embedding :
      (fails : Bool) (t : ℤ) (q : E) (b : Backend C E)
      → (match_embedding K fails t q b).1.replay_guard ≡ b.replay_guard
  unfolding match_embedding
  guard-match_embedding true t q b = ground arith
  guard-match_embedding false t q b = ground arith

  guard-after_match :
      (r : Result E) (d : Text) (env : Env) (p : Option (Option ℕ × ℤ) × Backend C E)
      → (after_match K cfg r d env p).1.replay_guard ≡ p.1.replay_guard
  unfolding after_match
  guard-after_match r d env (none, b) = refl
  guard-after_match r d env (some (none, c), b) = refl
  guard-after_match r d env (some (some u, c), b) = ground arith

  guard-process_embedding :
      (r : Result E) (o : Option E) (d : Text) (env : Env) (b : Backend C E)
      → (process_embedding K cfg r o d env b).1.replay_guard ≡ b.replay_guard
  guard-process_embedding r none d env b = refl
  guard-process_embedding r (some q) d env b = ground (
    arith,
    guard-after_match r d env (match_embedding K env.load_fails cfg.recognition_threshold q b),
    guard-match_embedding env.load_fails cfg.recognition_threshold q b,
  )

  guard-process_result :
      (r : Result E) (d : Text) (env : Env) (b : Backend C E)
      → (process_result K cfg r d env b).1.replay_guard ≡ b.replay_guard
  unfolding process_result
  guard-process_result r d env b = guard-process_embedding r r.embedding d env b

  -- A turn of the loop keeps what is remembered, and remembers its own nonce if it counts.
  state_or_raise :
      (p : Option Reply × Backend C E) → (or_raise p (λ reply b'. (some true, b'))).1 ≡ p.1
  state_or_raise (none, b) = refl
  state_or_raise (some reply, b) = refl

  process-Remembered :
      (r : Result E) (d n : Text) (env : Env) (t : ℕ) (b : Backend C E)
      → Remembered n t b
      → Remembered n t (or_raise (process_result K cfg r d env b) (λ reply b'. (some true, b'))).1
  process-Remembered r d n env t b h =
      rw (state_or_raise (process_result K cfg r d env b)) (rw (guard-process_result r d env b) h)

  admitted-Remembered :
      (r : Result E) (d n : Text) (env : Env) (t : ℕ) (p : Bool × Backend C E)
      → Remembered n t p.1
      → Remembered n t (admitted K cfg r d env p).1
  admitted-Remembered r d n env t (false, b) h = h
  admitted-Remembered r d n env t (true, b) h = process-Remembered r d n env t b h

  sync_one-Remembered :
      (r : Result E) (d n : Text) (env : Env) (t : ℕ) (b : Backend C E)
      → env.now ≤ t + hour
      → Remembered n t b
      → Remembered n t (sync_one K cfg r d env b).1
  unfolding sync_one
  sync_one-Remembered r d n env t b soon h = elim (Bool-cases (is_empty r.nonce)) [
    | inl empty ↦ rw empty (process-Remembered r d n env t b h)
    | inr named ↦ rw named (
        admitted-Remembered r d n env t (check_replay r.nonce d env b)
          (check_replay-Remembered r.nonce d n env t b soon h))
  ]

  admitted-true :
      (r : Result E) (d : Text) (env : Env) (p : Bool × Backend C E)
      → (admitted K cfg r d env p).0 ≡ some true
      → p.0 ≡ true
  admitted-true r d env (false, b) h = cc
  admitted-true r d env (true, b) h = refl

  counts-Remembered :
      (r : Result E) (d : Text) (env : Env) (b : Backend C E)
      → is_empty r.nonce ≡ false
      → (sync_one K cfg r d env b).0 ≡ some true
      → Remembered r.nonce env.now (sync_one K cfg r d env b).1
  unfolding sync_one
  counts-Remembered r d env b named h = rw named (
      admitted-Remembered r d r.nonce env env.now (check_replay r.nonce d env b) (
        taken-Remembered r.nonce d env b
          (admitted-true r d env (check_replay r.nonce d env b) (rw named at h))))

  Remembered-earlier :
      (n : Text) (s t : ℕ) (b : Backend C E) → t ≤ s → Remembered n s b → Remembered n t b
  Remembered-earlier n s t b h (g, found, since) = (g, found, omega arith)

module _ {E : Type 0} where
  abbrev pub results_of : List (Result E × Env) → List (Result E)
  results_of [] = []
  results_of ((r, env) ∷ rs) = r ∷ results_of rs

  -- The turn is no earlier than `t`, and within an hour of it.
  abbrev pub Within : ℕ → Result E × Env → Type 0
  Within t (r, env) = (t ≤ env.now) × (env.now ≤ t + hour)

  abbrev pub Named : Result E × Env → Type 0
  Named (r, env) = is_empty r.nonce ≡ false

module _ {C E : Type 0} where
  abbrev Kept : ℕ → Backend C E → Result E × Env → Type 0
  Kept t b (r, env) = Remembered r.nonce t b

  -- What a run of the loop has done to the nonces.
  record Ran (rs : List (Result E × Env)) (n t : ℕ) (b : Backend C E) (m : ℕ) (b' : Backend C E)
      : Type 0 where
    bound : m ≤ n + length rs
    keeps : (k : Text) → Remembered k t b → Remembered k t b'
    all_kept : m ≡ n + length rs → All Named rs → All (Kept t b') rs

module _ {C E : Type 0} (K : Engine E) (cfg : Config) where
  turn_Ran :
      (r : Result E) (d : Text) (env : Env) (rs : List (Result E × Env)) (c : Bool) (n t m : ℕ)
      (b b₁ b' : Backend C E)
      → Within t (r, env)
      → sync_one K cfg r d env b ≡ (some c, b₁)
      → Ran rs (tally n c) t b₁ m b'
      → Ran ((r, env) ∷ rs) n t b m b'
  turn_Ran r d env rs true n t m b b₁ b' w e ran = record {
    bound = omega (arith, ran.bound);
    keeps = λ k h. ran.keeps k (rw e at (sync_one-Remembered K cfg r d k env t b w.1 h));
    all_kept = λ full named. (
      ran.keeps r.nonce (
          Remembered-earlier K cfg r.nonce env.now t b₁ w.0 (
            rw e at (
              counts-Remembered K cfg r d env b named.0
                (ap (λ (p : Option Bool × Backend C E). p.0) e)))),
      ran.all_kept (omega arith) named.1,
    );
  }
  turn_Ran r d env rs false n t m b b₁ b' w e ran = record {
    bound = omega (arith, ran.bound);
    keeps = λ k h. ran.keeps k (rw e at (sync_one-Remembered K cfg r d k env t b w.1 h));
    all_kept = λ full named. absurd (omega (arith, ran.bound));
  }

  sync_loop-Ran :
      (rs : List (Result E × Env)) (d : Text) (n t m : ℕ) (b b' : Backend C E)
      → All (Within t) rs
      → sync_loop K cfg rs d n b ≡ (some m, b')
      → Ran rs n t b m b'
  unfolding sync_loop
  sync_loop-Ran [] d n t m b b' w h =
      let same_state : b ≡ b' = ap (λ (p : Option ℕ × Backend C E). p.1) h in
      let count : some n ≡ some m = ap (λ (p : Option ℕ × Backend C E). p.0) h in
      let same : n ≡ m = cc in
      record { bound = omega arith; keeps = λ k r. rw same_state at r; all_kept = λ full named. tt }
  sync_loop-Ran ((r, env) ∷ rs) d n t m b b' w h =
      split (sync_one K cfg r d env b) refl h (λ n₁ b₁. sync_loop-Ran rs d n₁ t m b₁ b' w.1)
    where
      split :
          (p : Option Bool × Backend C E)
          → sync_one K cfg r d env b ≡ p
          → or_raise p (λ c b₁. sync_loop K cfg rs d (tally n c) b₁) ≡ (some m, b')
          → ((n₁ : ℕ) (b₁ : Backend C E)
              → sync_loop K cfg rs d n₁ b₁ ≡ (some m, b')
              → Ran rs n₁ t b₁ m b')
          → Ran ((r, env) ∷ rs) n t b m b'
      split (none, b₁) e returns ih =
          let count : none ≡ some m = ap (λ (q : Option ℕ × Backend C E). q.0) returns in cc
      split (some c, b₁) e returns ih =
          turn_Ran r d env rs c n t m b b₁ b' w.0 e (ih (tally n c) b₁ returns)

  skipped_if-Remembered :
      (r : Result E) (d : Text) (env : Env) (t : ℕ) (b : Backend C E)
      → is_empty r.nonce ≡ false
      → Remembered r.nonce t b
      → sync_one K cfg r d env b ≡ (some false, b)
  unfolding sync_one
  skipped_if-Remembered r d env t b named h =
      rw named (rw (refused_if-Remembered r.nonce d env t b h))

  sync_loop_skips :
      (rs again : List (Result E × Env)) (d : Text) (n t : ℕ) (b : Backend C E)
      → results_of again ≡ results_of rs
      → All Named rs
      → All (Kept t b) rs
      → sync_loop K cfg again d n b ≡ (some n, b)
  unfolding sync_loop
  sync_loop_skips rs [] d n t b same named kept = refl
  sync_loop_skips [] ((r, env) ∷ again) d n t b same named kept = cc
  sync_loop_skips ((q, env') ∷ rs) ((r, env) ∷ again) d n t b same named kept =
      let head : r ≡ q = cc in
      let rest : results_of again ≡ results_of rs = cc in
      rw (skipped_if-Remembered r d env t b (rw head named.0) (rw head kept.0))
        (sync_loop_skips rs again d n t b rest named.1 kept.1)

  -- A batch with a nonce on every result, of which every result was processed, can be sent again, at
  -- any later times: nothing is processed, and nothing changes in the backend.
  pub resend_changes_nothing :
      (rs again : List (Result E × Env)) (d : Text) (t : ℕ) (b b' : Backend C E)
      → All Named rs
      → All (Within t) rs
      → sync_batch K cfg rs d b ≡ (some (length rs, length rs), b')
      → results_of again ≡ results_of rs
      → sync_batch K cfg again d b' ≡ (some (0, length again), b')
  unfolding sync_batch
  resend_changes_nothing rs again d t b b' named within h same =
      split (sync_loop K cfg rs d 0 b) refl h
    where
      skip : All (Kept t b') rs → sync_batch K cfg again d b' ≡ (some (0, length again), b')
      skip kept = rw (sync_loop_skips rs again d 0 t b' same named kept)

      split :
          (p : Option ℕ × Backend C E)
          → sync_loop K cfg rs d 0 b ≡ p
          → or_raise {B = ℕ × ℕ} p (λ n b₁. (some (n, length rs), b₁))
            ≡ (some (length rs, length rs), b')
          → sync_batch K cfg again d b' ≡ (some (0, length again), b')
      split (none, b₁) e returns =
          let count : none ≡ some (length rs, length rs) =
            ap (λ (q : Option (ℕ × ℕ) × Backend C E). q.0) returns in
          cc
      split (some n, b₁) e returns =
          let state : b₁ ≡ b' = ap (λ (q : Option (ℕ × ℕ) × Backend C E). q.1) returns in
          let count : some (n, length rs) ≡ some (length rs, length rs) =
            ap (λ (q : Option (ℕ × ℕ) × Backend C E). q.0) returns in
          let full : n ≡ length rs = cc in
          let ran = sync_loop-Ran rs d 0 t n b b₁ within e in
          skip (rw state at (ran.all_kept (omega arith) named))

  from_device-refused :
      (o : Option (Device C)) (x : Device C) (r : Result E) (d : Text) (env : Env) (t : ℕ)
      (b : Backend C E)
      → o ≡ some x
      → is_empty r.nonce ≡ false
      → Remembered r.nonce t b
      → from_device K cfg o r d env b ≡ (replay_detected, b)
  from_device-refused o x r d env t b known named kept =
      rw known (rw named (rw (refused_if-Remembered r.nonce d env t b kept)))

  -- A result with a nonce whose processing raised, in a batch or alone, is lost: after any calls of
  -- `check_replay` within the hour, as it is sent again in a batch it is not processed, and as a known
  -- device sends it again alone it is refused as a replay, and nothing changes in the backend.
  pub raised_is_lost :
      (r : Result E) (d : Text) (env env' : Env) (b b₁ b' : Backend C E)
      (calls : List (Text × Text × Env)) (x : Device C)
      → is_empty r.nonce ≡ false
      → is_empty d ≡ false
      → check_replay r.nonce d env b ≡ (true, b₁)
      → process_result K cfg r d env b₁ ≡ (none, b')
      → All (Before (env.now + hour)) calls
      → get d (check_all calls b').devices ≡ some x
      → (sync_batch K cfg ((r, env') ∷ []) d (check_all calls b')
          ≡ (some (0, 1), check_all calls b'))
        × (receive_result K cfg r d env' (check_all calls b')
            ≡ (replay_detected, check_all calls b'))
  unfolding sync_batch sync_loop sync_one receive_result
  raised_is_lost r d env env' b b₁ b' calls x named device taken raised within known =
      let kept : Remembered r.nonce env.now b₁ =
        rw taken at
          (taken-Remembered r.nonce d env b (ap (λ (p : Bool × Backend C E). p.0) taken)) in
      let kept' : Remembered r.nonce env.now b' =
        rw raised at (rw (← guard-process_result K cfg r d env b₁) at kept) in
      let after : Remembered r.nonce env.now (check_all calls b') =
        check_all-Remembered calls r.nonce env.now b' within kept' in
      (
        rw named (rw (refused_if-Remembered r.nonce d env' env.now (check_all calls b') after)),
        rw device (
            from_device-refused (get d (check_all calls b').devices) x r d env' env.now
              (check_all calls b') known named after),
      )
