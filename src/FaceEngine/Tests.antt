-- ===== src/FaceEngine/Tests.antt =====
-- Two workers and a small Redis (app/services/face_engine.py, app/services/engine.py).
use frass_f.Base.{ℕ, suc, ◌≡◌, refl, true, Option, none, some, List, [], ◌∷◌, lookup, insert, arith}
use frass_f.Serialization.Tests.{vectors, faithful}
use frass_f.FaceEngine.{Redis, append_encoding, save_encoding, Worker, poll}
use frass_f.FaceEngine.Sharing.{Works, poll-save_encoding}

abbrev redis : Redis
redis = record {
  World = Option (List ℕ) × ℕ;
  is_connected = true;
  get_encodings = λ w. (some w.0, w);
  set_encodings = λ s w. (true, (some s, w.1));
  delete_encodings = λ w. (true, (none, w.1));
  get_version = λ w. (some w.1, w);
  incr_version = λ w. (true, (w.0, suc w.1));
}

abbrev works : Works redis
works = record {
  connected = refl;
  encodings = λ w. w.0;
  version = λ w. w.1;
  reads = λ w. refl;
  reads_version = λ w. refl;
  sets = λ s w. (refl, refl, refl);
  increments = λ w. (refl, refl);
}

abbrev other : Worker vectors redis
other = record { known = []; local_version = 4 }

poll-save_encoding_example :
    (poll vectors redis none other
      (save_encoding vectors redis 7 12 ((7, 11 ∷ []) ∷ []) (none, 4)).1).0
    ≡ record {
      known = (save_encoding vectors redis 7 12 ((7, 11 ∷ []) ∷ []) (none, 4)).0;
      local_version = 5;
    }
poll-save_encoding_example =
    poll-save_encoding vectors faithful redis works 7 12 ((7, 11 ∷ []) ∷ []) (none, 4) other none
      (unfold append_encoding lookup insert in omega arith)
      (unfold append_encoding lookup insert in (omega arith, omega arith, tt))
      (unfold append_encoding lookup insert in (refl, tt)) refl
