-- ===== src/Recognition/Answers.antt =====
-- What a request of recognition answers (app/api/attendance.py): it marks nobody.
use frass_f.Base.{ℕ, ◌≡◌, some, [], count_if, length, values}
use frass_f.Liveness.Vision.{Vision}
use frass_f.Liveness.AntiSpoof.{Onnx}
use frass_f.Attendance.State.{AttendanceSession, School}
use frass_f.Attendance.Sessions.{get_active_session}
use frass_f.Recognition.{Engine, Run, Answer, answered, in_session}

module _ (V : Vision) (O : Onnx V.Image) (E : Engine V) where
  open V use {Image, Landmarks}
  open E use {Frame, Face, Encoding, detect_faces, encode_face, face_roi, landmarks}

  -- A run has the tables that it was given, and marked nobody.
  abbrev pub Idle : School → Run V O E → Type 0
  Idle s r = (r.school ≡ s) × (r.newly_marked ≡ [])

  -- What an answer says of the tables before and after it.
  abbrev pub Says : School → Answer × School → Type 0
  Says s (answered recognized newly_marked total faces, s') =
      (i : ℕ) × (x : AttendanceSession) × (get_active_session s ≡ some (i, x))
      × (s' ≡ s)
      × (newly_marked ≡ [])
      × (total ≡ count_if (in_session i) (values s.records))
      × (faces ≡ length recognized)
  Says s (_, s') = s' ≡ s
