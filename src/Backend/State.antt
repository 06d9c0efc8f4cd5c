-- ===== src/Backend/State.antt =====
-- The tables and the process state of backend/app.py. Times are in microseconds; scores, liveness
-- and quality are integers in millionths.
use frass_f.Base.{
  ℕ, Bool, true, false, Option, List, [], ◌∷◌, ◌++◌, ◌*◌, Text, Dict, Table, ◌==◌, if◌then◌else◌,
}
use frass_f.Base.Int.{ℤ}
use frass_f.Matching.{Known}

abbrev pub seconds : ℕ → ℕ
seconds n = n * 1000000

-- `C`: the JSON values of a configuration.
pub record Device (C : Type 0) : Type 0 where
  pub name : Text
  pub location : Text
  pub status : Text
  pub last_seen : Option ℕ
  pub config : Option (Dict C)
  pub api_key : Text
  pub uptime_seconds : ℕ
  pub memory_mb : ℕ
  pub queue_size : ℕ
  pub fps_actual : ℕ
  pub health_reported_at : Option ℕ

pub record User : Type 0 where
  pub external_id : Text
  pub name : Text

pub record FaceEmbedding (E : Type 0) : Type 0 where
  pub user_id : ℕ
  pub embedding : E
  pub quality_score : ℤ

pub record AttendanceLog : Type 0 where
  pub user_id : ℕ
  pub device_id : Text
  pub timestamp : ℕ
  pub confidence : ℤ
  pub liveness_score : ℤ
  pub status : Text
  pub nonce : Option Text

pub record ReplayGuard : Type 0 where
  pub device_id : Text
  pub timestamp : ℕ

-- `replay_guard` is keyed by the nonce, `devices` by the device's id.
pub record Backend (C E : Type 0) : Type 0 where
  pub devices : Dict (Device C)
  pub users : Table User
  pub embeddings : List (FaceEmbedding E)
  pub logs : List AttendanceLog
  pub replay_guard : Dict ReplayGuard
  pub last_replay_cleanup : ℕ
  pub embedding_cache : Known E
  pub cache_loaded : Bool

-- The clock at a request, and whether the deletion of old nonces and the reading of all embeddings
-- raise.
pub record Env : Type 0 where
  pub now : ℕ
  pub cleanup_fails : Bool
  pub load_fails : Bool

-- `app.config`
pub record Config : Type 0 where
  pub recognition_threshold : ℤ
  pub min_embedding_quality : ℤ
  pub dedup_cooldown : ℕ

module _ {E : Type 0} where
  -- `if uid not in cache: cache[uid] = []` and `cache[uid].append(emb)`
  unfoldable pub add_known : ℕ → E → Known E → Known E
  add_known uid e [] = (uid, e ∷ []) ∷ []
  add_known uid e ((j, es) ∷ known) =
      if j == uid then (j, es ++ (e ∷ [])) ∷ known else (j, es) ∷ add_known uid e known

  unfoldable pub group_embeddings : List (FaceEmbedding E) → Known E → Known E
  unfolding add_known
  group_embeddings [] known = known
  group_embeddings (r ∷ rs) known = group_embeddings rs (add_known r.user_id r.embedding known)

-- `load_embeddings`: the cache is emptied first, and stays empty if the query raises.
module _ {C E : Type 0} where
  unfoldable pub load_embeddings : Bool → Backend C E → Backend C E
  unfolding group_embeddings
  load_embeddings true b = record b { embedding_cache = [] }
  load_embeddings false b = record b {
    embedding_cache = group_embeddings b.embeddings [];
    cache_loaded = true;
  }
