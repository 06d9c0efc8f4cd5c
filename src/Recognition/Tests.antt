-- ===== src/Recognition/Tests.antt =====
-- Runs of the recognition of a frame (app/api/attendance.py, app/services/face_engine.py).
use frass_f.Base.{
  arith, ℕ, ◌≡◌, refl, true, false, none, some, List, [], ◌∷◌, text, length, ◌==◌, if◌then◌else◌,
}
use frass_f.Base.Int.{pos}
use frass_f.Liveness.Tests.{camera, missing}
use frass_f.Attendance.State.{School, Student}
use frass_f.Attendance.Sessions.{new_session, get_active_session}
use frass_f.Recognition.{
  Engine, Request, Answer, raised, answered, recognize_via_pgvector, recognize, recognize_face,
}
use frass_f.Recognition.Matches.{recognize-raises}
use frass_f.Liveness.Vision.{check_face_quality}

-- A face is the tone of its image and has the number of its student for an embedding.
abbrev engine : Engine camera
engine = record {
  Frame = List (ℕ × ℕ);
  Face = ℕ × ℕ;
  Encoding = ℕ;
  detect_faces = λ f. f;
  encode_face = λ f. some f.1;
  face_roi = λ frame f. some (100, 100, f.0);
  landmarks = λ f. some 5;
  known = (7, 7 ∷ []) ∷ [];
  dot = λ a b. some (if a == b then pos 900000 else pos 100000);
}

abbrev ada : Student
ada = record {
  student_id = text "s7";
  name = text "Ada";
  email = none;
  department = none;
  semester = none;
  photo_count = 1;
  is_active = true;
}

abbrev school : School
school = record {
  sessions = (1, new_session 1 none (pos 650000) 5) ∷ [];
  records = [];
  students = (7, ada) ∷ [];
  schedules = [];
}

abbrev request_of : List (ℕ × ℕ) → Request camera missing engine
request_of faces = record {
  image = some (text "data:image/jpeg;base64,xyz");
  decode = λ t. some (some faces);
  busy = false;
  liveness_threshold = 600000;
  anti_spoof_model = [];
}

below_tolerance :
    recognize_via_pgvector (pos 700000) (some (some (7, pos 650000))) ≡ some (none, pos 650)
unfolding recognize_via_pgvector
below_tolerance = refl

abbrev counts : Answer × School → ℕ × ℕ × ℕ
counts (answered r n total seen, s) = (length n, total, seen)
counts (_, s) = (0, 0, 0)

-- A stranger and a dark face.
abbrev strangers : List (ℕ × ℕ)
strangers = (120, 3) ∷ (10, 7) ∷ []

strangers_are_answered :
    counts (recognize camera missing engine (request_of strangers) school) ≡ (0, 0, 2)
unfolding recognize
strangers_are_answered = refl

-- A stranger, Ada, and a dark face.
abbrev with_ada : List (ℕ × ℕ)
with_ada = (120, 3) ∷ (120, 7) ∷ (10, 7) ∷ []

recognize-raises_example : (recognize camera missing engine (request_of with_ada) school).0 ≡ raised
unfolding check_face_quality get_active_session recognize_face
recognize-raises_example =
    recognize-raises camera missing engine (request_of with_ada) school
      (text "data:image/jpeg;base64,xyz") 1 (new_session 1 none (pos 650000) 5) with_ada
      ((120, 3) ∷ []) ((10, 7) ∷ []) (120, 7) refl refl refl refl refl refl
      (record {
        encoding = 7;
        is_encoded = refl;
        quality = record {
          blur_score = 900;
          brightness = 1200;
          resolution_ok = true;
          quality_pass = true;
          reason = [];
        };
        is_checked = refl;
        passes = refl;
        student = 7;
        is_student = λ e. absurd (omega (arith, e));
        confidence = pos 900;
        is_found = refl;
      })
