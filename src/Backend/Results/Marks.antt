-- ===== src/Backend/Results/Marks.antt =====
-- When a result of a device becomes an attendance log (backend/app.py), and what keeps a second one
-- out.
use frass_f.Base.{
  ℕ, ◌+◌, ◌≤◌, ◌<◌, ◌≡◌, refl, ap, inl, inr, Bool, true, false, Option, none, some, Bool-cases,
  List, [], ◌∷◌, ◌++◌, Text, text_eq_refl, arith,
}
use frass_f.Base.Int.{ℤ, ltb_ℤ}
use frass_f.Backend.State.{Backend, AttendanceLog, Env, Config}
use frass_f.Backend.Match.{Engine, match_embedding, embedding_quality}
use frass_f.Backend.Results.{
  Result, Reply, liveness_failed, low_quality, unknown, duplicate, marked, nonce_logged, recent,
  new_log, dt_of, add_log, after_match, process_result, process_embedding,
}

module _ {C E : Type 0} where
  -- What a request did, by its reply: only the reply `marked` adds a log.
  abbrev pub Effect :
      Config → Result E → Text → Env → Backend C E → Option Reply × Backend C E → Type 0
  Effect cfg r d env b (some (marked u name c), b') =
      (b'.logs ≡ b.logs ++ (new_log r d (dt_of r.timestamp env.now) u c ∷ []))
      × (recent u cfg.dedup_cooldown env.now b.logs ≡ false)
      × (nonce_logged r.nonce b.logs ≡ false)
  Effect cfg r d env b (some liveness_failed, b') = b'.logs ≡ b.logs
  Effect cfg r d env b (some (low_quality q), b') = b'.logs ≡ b.logs
  Effect cfg r d env b (some (unknown c), b') = b'.logs ≡ b.logs
  Effect cfg r d env b (some (duplicate u c), b') = b'.logs ≡ b.logs
  Effect cfg r d env b (none, b') = b'.logs ≡ b.logs

module _ {C E : Type 0} (K : Engine E) (cfg : Config) (r : Result E) (d : Text) (env : Env)
    (b : Backend C E) where
  after_match-Effect :
      (answer : Option (Option ℕ × ℤ)) (b₁ : Backend C E)
      → b₁.logs ≡ b.logs
      → Effect cfg r d env b (after_match K cfg r d env (answer, b₁))
  unfolding after_match
  after_match-Effect none b₁ same = same
  after_match-Effect (some (none, c)) b₁ same = same
  after_match-Effect (some (some u, c)) b₁ same =
      elim (Bool-cases (recent u cfg.dedup_cooldown env.now b₁.logs)) [
        | inl late ↦ rw late same
        | inr early ↦ rw early (elim (Bool-cases (nonce_logged r.nonce b₁.logs)) [
          | inl used ↦ rw (used, add_log) same
          | inr unused ↦
              rw (unused, add_log)
                (
                  ap
                      (λ (logs : List AttendanceLog).
                        logs ++ (new_log r d (dt_of r.timestamp env.now) u c ∷ []))
                      same,
                  rw same at early,
                  rw same at unused,
                )
        ])
      ]

  logs-match_embedding :
      (fails : Bool) (t : ℤ) (q : E) → (match_embedding K fails t q b).1.logs ≡ b.logs
  unfolding match_embedding
  logs-match_embedding true t q = ground arith
  logs-match_embedding false t q = ground arith

  processed : (o : Option E) → Effect cfg r d env b (process_embedding K cfg r o d env b)
  unfolding match_embedding after_match
  processed none = refl
  processed (some q) = elim (Bool-cases r.is_live) [
    | inl live ↦
        rw live (elim (Bool-cases (ltb_ℤ (embedding_quality K q) cfg.min_embedding_quality)) [
          | inl low ↦ rw low refl
          | inr high ↦ rw high (
              after_match-Effect (match_embedding K env.load_fails cfg.recognition_threshold q b).0
                (match_embedding K env.load_fails cfg.recognition_threshold q b).1
                (logs-match_embedding env.load_fails cfg.recognition_threshold q))
        ])
    | inr dead ↦ rw dead refl
  ]

  pub process_result-Effect : Effect cfg r d env b (process_result K cfg r d env b)
  unfolding process_result
  process_result-Effect = processed r.embedding

-- A user whose log is later than the cooldown before now is answered `duplicate`.
recent_last :
    (u cooldown now : ℕ) (l : AttendanceLog) (logs : List AttendanceLog)
    → l.user_id ≡ u
    → now < l.timestamp + cooldown
    → recent u cooldown now (logs ++ (l ∷ [])) ≡ true
unfolding recent
recent_last u cooldown now l [] same late = ground arith
recent_last u cooldown now l (k ∷ logs) same late =
    ground (arith, recent_last u cooldown now l logs same late)

not_recent_last :
    (u cooldown now : ℕ) (l : AttendanceLog) (logs : List AttendanceLog)
    → l.timestamp + cooldown ≤ now
    → recent u cooldown now (logs ++ (l ∷ [])) ≡ recent u cooldown now logs
unfolding recent
not_recent_last u cooldown now l [] old = ground arith
not_recent_last u cooldown now l (k ∷ logs) old =
    ground (arith, not_recent_last u cooldown now l logs old)

module _ {C E : Type 0} (K : Engine E) (cfg : Config) (d d' : Text) (env env' : Env) where
  -- Once a result is marked for a user, every result that is matched to that user before the time of
  -- the first plus the cooldown is answered `duplicate`, and changes nothing.
  pub marked_then_duplicate :
      (r r' : Result E) (b b₁ : Backend C E) (u : ℕ) (name : Text) (c c' : ℤ)
      → process_result K cfg r d env b ≡ (some (marked u name c), b₁)
      → env'.now < dt_of r.timestamp env.now + cfg.dedup_cooldown
      → after_match K cfg r' d' env' (some (some u, c'), b₁) ≡ (some (duplicate u c'), b₁)
  unfolding after_match
  marked_then_duplicate r r' b b₁ u name c c' h soon =
      let effect = rw h at (process_result-Effect K cfg r d env b) in
      rw effect.0 (
        rw (
          recent_last u cfg.dedup_cooldown env'.now (new_log r d (dt_of r.timestamp env.now) u c)
            b.logs refl (omega arith)))

  -- A log whose own time is older than the cooldown keeps no result out: whatever the second result
  -- is, its test for duplicates has the same answer as before the first was marked.
  pub stale_log_keeps_none_out :
      (r : Result E) (b b₁ : Backend C E) (u v : ℕ) (name : Text) (c : ℤ)
      → process_result K cfg r d env b ≡ (some (marked u name c), b₁)
      → dt_of r.timestamp env.now + cfg.dedup_cooldown ≤ env'.now
      → recent v cfg.dedup_cooldown env'.now b₁.logs ≡ recent v cfg.dedup_cooldown env'.now b.logs
  stale_log_keeps_none_out r b b₁ u v name c h old =
      let effect = rw h at (process_result-Effect K cfg r d env b) in
      rw effect.0 (
        not_recent_last v cfg.dedup_cooldown env'.now (new_log r d (dt_of r.timestamp env.now) u c)
          b.logs old)

nonce_logged_last :
    (n : Text) (l : AttendanceLog) (logs : List AttendanceLog)
    → l.nonce ≡ some n
    → nonce_logged n (logs ++ (l ∷ [])) ≡ true
unfolding nonce_logged
nonce_logged_last n l [] e = rw e (ground (arith, text_eq_refl n))
nonce_logged_last n l (k ∷ logs) e = ground (arith, nonce_logged_last n l logs e)

module _ {C E : Type 0} (K : Engine E) (cfg : Config) (d d' : Text) (env env' : Env) where
  -- Once a result with no nonce is marked, the next result with no nonce that is matched to a user
  -- without a recent log raises instead of being marked.
  pub second_without_nonce_raises :
      (r r' : Result E) (b b₁ : Backend C E) (u v : ℕ) (name : Text) (c c' : ℤ)
      → r.nonce ≡ []
      → r'.nonce ≡ []
      → process_result K cfg r d env b ≡ (some (marked u name c), b₁)
      → recent v cfg.dedup_cooldown env'.now b₁.logs ≡ false
      → after_match K cfg r' d' env' (some (some v, c'), b₁) ≡ (none, b₁)
  unfolding after_match
  second_without_nonce_raises r r' b b₁ u v name c c' e e' h early =
      let effect = rw h at (process_result-Effect K cfg r d env b) in
      let l : AttendanceLog = new_log r d (dt_of r.timestamp env.now) u c in
      let used : nonce_logged r'.nonce b₁.logs ≡ true =
        rw (effect.0, e') (nonce_logged_last [] l b.logs (ap (λ (n : Text). some n) e)) in
      rw early (rw (used, add_log) refl)
