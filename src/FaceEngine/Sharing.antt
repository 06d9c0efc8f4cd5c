-- ===== src/FaceEngine/Sharing.antt =====
-- Workers come to the same encodings (app/services/face_engine.py, app/services/engine.py).
use frass_f.Base.{
  ℕ, suc, ◌<◌, ◌≡◌, ◌∙◌, ap, Bool, true, false, Option, some, List, [], ◌∷◌, ◌==◌, length, arith,
  Table,
}
use frass_f.Serialization.{Vectors, serialize_encodings, deserialize_encodings}
use frass_f.Serialization.RoundTrip.{
  Faithful, deserialize_encodings-nil, Small, Distinct, deserialize_encodings-serialize_encodings,
}
use frass_f.Students.{FaceEncoding}
use frass_f.FaceEngine.{
  Redis, append_encoding, then_incr, sync_to_redis, save_encoding, parsed, load_from_redis,
  load_all_encodings, Worker, poll,
}

-- What Redis promises while it can be reached: of the two keys, what was set is read, and a version
-- that was incremented is one more; no call changes the other key.
pub record Works (R : Redis) : Type 0 where
  pub connected : R.is_connected ≡ true
  pub encodings : R.World → Option (List ℕ)
  pub version : R.World → ℕ
  pub reads : (w : R.World) → R.get_encodings w ≡ (some (encodings w), w)
  pub reads_version : (w : R.World) → R.get_version w ≡ (some (version w), w)
  pub sets :
      (s : List ℕ) (w : R.World)
      → ((R.set_encodings s w).0 ≡ true)
        × (encodings (R.set_encodings s w).1 ≡ some s)
        × (version (R.set_encodings s w).1 ≡ version w)
  pub increments :
      (w : R.World)
      → (encodings (R.incr_version w).1 ≡ encodings w)
        × (version (R.incr_version w).1 ≡ suc (version w))

module _ (N : Vectors) (good : Faithful N) (R : Redis) (works : Works R) where
  open N use {Vector}
  open R use {World, set_encodings, incr_version}
  open works use {connected, encodings, version, reads, reads_version, sets, increments}

  incremented :
      (s : List ℕ) (v : ℕ) (r : Bool × World)
      → r.0 ≡ true
      → encodings r.1 ≡ some s
      → version r.1 ≡ v
      → (encodings (then_incr N R r) ≡ some s) × (version (then_incr N R r) ≡ suc v)
  incremented s v (false, w) h e n = absurd (ground arith)
  incremented s v (true, w) h e n = let (kept, more) = increments w in (kept ∙ e, more ∙ ap suc n)

  -- What a sync leaves in Redis.
  synced :
      (d : Table (List Vector)) (s : List ℕ) (w : World)
      → serialize_encodings N d ≡ some s
      → (encodings (sync_to_redis N R d w) ≡ some s)
        × (version (sync_to_redis N R d w) ≡ suc (version w))
  unfolding sync_to_redis
  synced d s w h =
      let (done, kept, same) = sets s w in
      rw (connected, h) (incremented s (version w) (set_encodings s w) done kept same)

  -- The bytes of a dict are read where Redis has them.
  parsed_bytes :
      (d : Table (List Vector)) (s : List ℕ)
      → deserialize_encodings N s ≡ some d
      → parsed N R (some s) ≡ some d
  parsed_bytes d [] h = let nothing = deserialize_encodings-nil N in absurd (ground arith)
  parsed_bytes d (b ∷ s) h = h

  loaded :
      (rows : Option (Table (FaceEncoding (List ℕ)))) (d : Table (List Vector)) (s : List ℕ)
      (w : World)
      → encodings w ≡ some s
      → deserialize_encodings N s ≡ some d
      → load_all_encodings N R rows w ≡ (d, w)
  unfolding load_all_encodings load_from_redis
  loaded rows d s w e h =
      let read : parsed N R (encodings w) ≡ some d = ap (parsed N R) e ∙ parsed_bytes d s h in
      rw (connected, reads w, read)

  -- While Redis works, a worker that has seen every version so far and polls after another worker
  -- saved an encoding comes to that worker's encodings, whatever the table and its own encodings are,
  -- where numpy reads its bytes back and the encodings, with the new one, have no student twice and no
  -- number beyond 32 bits.
  pub poll-save_encoding :
      (i : ℕ) (e : Vector) (known : Table (List Vector)) (w : World) (other : Worker N R)
      (rows : Option (Table (FaceEncoding (List ℕ))))
      → length (append_encoding N R i e known) < 4294967296
      → Small N good (append_encoding N R i e known)
      → Distinct (append_encoding N R i e known)
      → other.local_version ≡ version w
      → (poll N R rows other (save_encoding N R i e known w).1).0
        ≡ record { known = (save_encoding N R i e known w).0; local_version = suc (version w) }
  unfolding poll save_encoding
  poll-save_encoding i e known w other rows few small distinct seen =
      let d : Table (List Vector) = append_encoding N R i e known in
      let (s, written, back) =
        deserialize_encodings-serialize_encodings N good d few small distinct in
      let (kept, more) = synced d s w written in
      let w' : World = sync_to_redis N R d w in
      let stale : (version w' == other.local_version) ≡ false = ground arith in
      rw (reads_version w', stale, loaded rows d s w' kept back, more)
