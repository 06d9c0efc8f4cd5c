-- ===== src/Recognition/Matches.antt =====
-- What a face that matches a student does to a request (app/api/attendance.py): it raises.
use frass_f.Base.{
  ℕ, ◌≡◌, ◌≢◌, refl, Bool, true, false, Option, none, some, List, [], ◌∷◌, ◌++◌, Text, is_empty,
  ◌==◌, arith,
}
use frass_f.Base.Int.{ℤ}
use frass_f.Liveness.Vision.{Vision, FaceQuality, check_face_quality}
use frass_f.Liveness.AntiSpoof.{Onnx}
use frass_f.Liveness.Detector.{LivenessDetector, LivenessResult, analyze}
use frass_f.Attendance.State.{AttendanceSession, School}
use frass_f.Attendance.Sessions.{get_active_session}
use frass_f.Recognition.{
  Engine, Run, Request, raised, analyzed, process_face, process_faces, then_rest, process_frame,
  reply, recognize, recognize_face, payload,
}

module _ (V : Vision) (O : Onnx V.Image) (E : Engine V) where
  open E use {Frame, Face, Encoding, detect_faces, encode_face, face_roi, landmarks}

  -- The face has an embedding and a good image, and the scan finds a student for it.
  pub record IsMatch (tolerance : ℤ) (frame : Frame) (f : Face) : Type 0 where
    pub encoding : Encoding
    pub is_encoded : encode_face f ≡ some encoding
    pub quality : FaceQuality
    pub is_checked : check_face_quality V (face_roi frame f) ≡ some quality
    pub passes : quality.quality_pass ≡ true
    pub student : ℕ
    pub is_student : student ≢ 0
    pub confidence : ℤ
    pub is_found : recognize_face V O E encoding tolerance none ≡ some (some student, confidence)

  process_face-raises :
      (tolerance : ℤ) (frame : Frame) (f : Face) (r : Run V O E)
      → IsMatch tolerance frame f
      → (process_face V O E tolerance frame f r).0 ≡ true
  unfolding process_face
  process_face-raises tolerance frame f r m = rw m.is_encoded (
      rw m.is_checked
        (rw m.passes (after (analyze V O r.detector (face_roi frame f) (landmarks f)))))
    where
      after :
          (a : Option (LivenessDetector V O × LivenessResult))
          → (analyzed V O E tolerance m.encoding a r).0 ≡ true
      after none = refl
      after (some (d, l)) =
          let known : (m.student == 0) ≡ false = ground (arith, m.is_student) in
          rw m.is_found (rw known refl)

  -- A loop raises where a face of it does, since an exception ends it.
  process_faces-raises :
      (tolerance : ℤ) (frame : Frame) (fs gs : List Face) (f : Face) (r : Run V O E)
      → IsMatch tolerance frame f
      → (process_faces V O E tolerance frame (fs ++ (f ∷ gs)) r).0 ≡ true
  unfolding process_faces
  process_faces-raises tolerance frame [] gs f r m =
      go (process_face V O E tolerance frame f r) (process_face-raises tolerance frame f r m)
    where
      go :
          (x : Bool × Run V O E)
          → x.0 ≡ true
          → (then_rest V O E (process_faces V O E tolerance frame gs) x).0 ≡ true
      go (true, r') h = refl
      go (false, r') h = absurd (ground arith)
  process_faces-raises tolerance frame (g ∷ fs) gs f r m =
      go (process_face V O E tolerance frame g r)
        (λ r'. process_faces-raises tolerance frame fs gs f r' m)
    where
      go :
          (x : Bool × Run V O E)
          → ((r' : Run V O E) → (process_faces V O E tolerance frame (fs ++ (f ∷ gs)) r').0 ≡ true)
          → (then_rest V O E (process_faces V O E tolerance frame (fs ++ (f ∷ gs))) x).0 ≡ true
      go (true, r') rest = refl
      go (false, r') rest = rest r'

  reply-raised : (i : ℕ) (x : Bool × Run V O E) → x.0 ≡ true → (reply V O E i x).0 ≡ raised
  reply-raised i (true, r) h = refl
  reply-raised i (false, r) h = absurd (ground arith)

  -- While a session is active and a slot is free, a frame with a face of good quality that the scan
  -- matches to a student, found live or not and whoever else is in the frame, ends the request with an
  -- exception.
  pub recognize-raises :
      (q : Request V O E) (s : School) (t : Text) (i : ℕ) (x : AttendanceSession) (frame : Frame)
      (fs gs : List Face) (f : Face)
      → q.image ≡ some t
      → is_empty t ≡ false
      → get_active_session s ≡ some (i, x)
      → q.decode (payload t) ≡ some (some frame)
      → q.busy ≡ false
      → detect_faces frame ≡ fs ++ (f ∷ gs)
      → IsMatch x.tolerance frame f
      → (recognize V O E q s).0 ≡ raised
  unfolding recognize process_frame
  recognize-raises q s t i x frame fs gs f image given active decoded free faces m = rw image (
      rw given (
        rw active (
          rw decoded (
            rw free
              (rw faces (reply-raised i _ (process_faces-raises x.tolerance frame fs gs f _ m)))))))
