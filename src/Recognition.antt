-- ===== src/Recognition.antt =====
-- The recognition of the faces in a frame: `_process_frame` and `recognize` (app/api/attendance.py),
-- `recognize_face` and `_recognize_via_pgvector` (app/services/face_engine.py), over the liveness of
-- a face.
pub mod Answers
pub mod Matches
mod Tests
use frass_f.Base.{
  ℕ, ◌+◌, ◌*◌, ◌≡◌, Bool, true, false, not, ◌&&◌, Option, none, some, List, [], ◌∷◌, ◌++◌, Text,
  text, is_empty, any, count_if, length, ◌==◌, if◌then◌else◌, lookup, values, strip,
}
use frass_f.Base.Int.{ℤ, pos, leb_ℤ}
use frass_f.Base.Parse.{split_on}
use frass_f.Matching.{Known, percent, recognize_linear}
use frass_f.Liveness.Vision.{Vision, FaceQuality, QualityReason, check_face_quality}
use frass_f.Liveness.AntiSpoof.{Onnx}
use frass_f.Liveness.Detector.{Layer, LivenessDetector, LivenessResult, new_liveness, analyze}
use frass_f.Attendance.State.{AttendanceRecord, AttendanceSession, School, Student, Clock, face}
use frass_f.Attendance.Sessions.{get_active_session}
use frass_f.Attendance.Marks.{
  Event, Mark, no_active_session, already_marked, marked, Sighting, mark_attendance,
}

-- The first row of the vector search: nothing is there to search (`none`: no PostgreSQL, or it
-- raises), or a row or none.
abbrev pub Row : Type 0
Row = Option (Option (ℕ × ℤ))

-- `_recognize_via_pgvector`, from its row
unfoldable pub recognize_via_pgvector : ℤ → Row → Option (Option ℕ × ℤ)
unfolding percent
recognize_via_pgvector tolerance none = none
recognize_via_pgvector tolerance (some none) = some (none, pos 0)
recognize_via_pgvector tolerance (some (some (i, similarity))) =
    if leb_ℤ tolerance similarity
    then some (some i, percent similarity)
    else some (none, percent similarity)

-- What the engine and the frame give: the faces in a frame, the embedding of a face (`none`: there is
-- none), the slice of the frame in its box, its landmarks, the known embeddings and their product.
pub record Engine (V : Vision) : Type 1 where
  pub Frame : Type 0
  pub Face : Type 0
  pub Encoding : Type 0
  pub detect_faces : Frame → List Face
  pub encode_face : Face → Option Encoding
  pub face_roi : Frame → Face → Option V.Image
  pub landmarks : Face → Option V.Landmarks
  pub known : Known Encoding
  pub dot : Encoding → Encoding → Option ℤ

-- An entry of `recognized`; the reasons stand for their texts, and a score is in thousandths. The
-- entries of a marked face and of a spoof are never made: see `matched`.
pub data Entry : Type 0 where
  poor_quality : List QualityReason → Entry
  unknown : ℤ → ℕ → Entry

-- `if student_db_id`
abbrev pub truthy : Option ℕ → Bool
truthy none = false
truthy (some i) = not (i == 0)

pub data Answer : Type 0 where
  image_is_required : Answer
  no_session : Answer
  invalid_base64 : Answer
  could_not_decode : Answer
  server_busy : Answer
  raised : Answer
  answered : List Entry → List Entry → ℕ → ℕ → Answer

-- `filter_by(session_id=session.id)`
abbrev pub in_session : ℕ → AttendanceRecord → Bool
in_session i r = elim r.session_id [ none ↦ false | some j ↦ j == i ]

abbrev pub second_part : List Text → Text
second_part (a ∷ b ∷ ps) = b
second_part _ = []

-- The part behind the first comma, or the stripped text.
abbrev pub payload : Text → Text
payload t = if any (λ c. c == b',') t then second_part (split_on b',' t) else strip t

module _ (V : Vision) (O : Onnx V.Image) (E : Engine V) where
  open V use {Image, Landmarks}
  open E use {Frame, Face, Encoding, detect_faces, encode_face, face_roi, landmarks, known, dot}

  abbrev pub or_linear : ℤ → Encoding → Option (Option ℕ × ℤ) → Option (Option ℕ × ℤ)
  or_linear tolerance e (some r) = some r
  or_linear tolerance e none = recognize_linear dot e tolerance known

  -- `recognize_face`, from the row of the vector search; `none`: it raises
  unfoldable pub recognize_face : Encoding → ℤ → Row → Option (Option ℕ × ℤ)
  unfolding recognize_via_pgvector recognize_linear
  recognize_face e tolerance row = or_linear tolerance e (recognize_via_pgvector tolerance row)

  -- What `_process_frame` works on: the tables, the detector, and its lists.
  pub record Run : Type 0 where
    pub school : School
    pub detector : LivenessDetector V O
    pub recognized : List Entry
    pub newly_marked : List Entry

  abbrev pub add_entry : Entry → Run → Run
  add_entry e r = record r { recognized = r.recognized ++ (e ∷ []) }

  -- What is done with a match. The frame is processed in a thread of the pool, which has no
  -- application context: for a face that matches a student the first use of `db.session`, of a live
  -- face and of a spoof alike, raises.
  abbrev pub matched : LivenessResult → Option (Option ℕ × ℤ) → Run → Bool × Run
  matched l none r = (true, r)
  matched l (some (id, confidence)) r =
      if truthy id then (true, r) else (false, add_entry (unknown confidence l.score) r)

  -- In the thread the vector search raises and is caught, so that it gives no row.
  abbrev pub analyzed :
      ℤ → Encoding → Option (LivenessDetector V O × LivenessResult) → Run → Bool × Run
  analyzed tolerance e none r = (true, r)
  analyzed tolerance e (some (d, l)) r =
      matched l (recognize_face e tolerance none) (record r { detector = d })

  abbrev pub gate :
      ℤ → Encoding → Option Image → Option Landmarks → Option FaceQuality → Run → Bool × Run
  gate tolerance e roi points none r = (true, r)
  gate tolerance e roi points (some q) r =
      if not q.quality_pass
      then (false, add_entry (poor_quality q.reason) r)
      else analyzed tolerance e (analyze V O r.detector roi points) r

  abbrev pub encoded : ℤ → Frame → Face → Option Encoding → Run → Bool × Run
  encoded tolerance frame f none r = (false, r)
  encoded tolerance frame f (some e) r =
      gate tolerance e (face_roi frame f) (landmarks f) (check_face_quality V (face_roi frame f)) r

  -- One round of the loop: whether it raised, and the run after it.
  unfoldable pub process_face : ℤ → Frame → Face → Run → Bool × Run
  unfolding check_face_quality analyze recognize_face
  process_face tolerance frame f r = encoded tolerance frame f (encode_face f) r

  abbrev pub then_rest : (Run → Bool × Run) → Bool × Run → Bool × Run
  then_rest rest (true, r) = (true, r)
  then_rest rest (false, r) = rest r

  unfoldable pub process_faces : ℤ → Frame → List Face → Run → Bool × Run
  unfolding process_face
  process_faces tolerance frame [] r = (false, r)
  process_faces tolerance frame (f ∷ fs) r =
      then_rest (process_faces tolerance frame fs) (process_face tolerance frame f r)

  abbrev pub fresh : School → LivenessDetector V O → Run
  fresh s d = record { school = s; detector = d; recognized = []; newly_marked = [] }

  -- `_process_frame`: whether it raised, and the run after it
  unfoldable pub process_frame : ℤ → Frame → LivenessDetector V O → School → Bool × Run
  unfolding process_faces
  process_frame tolerance frame d s = process_faces tolerance frame (detect_faces frame) (fresh s d)

  -- The image of the request, a text if there is one; `b64decode` and `imdecode`; whether all slots
  -- are busy; and the two settings.
  pub record Request : Type 0 where
    pub image : Option Text
    pub decode : Text → Option (Option Frame)
    pub busy : Bool
    pub liveness_threshold : ℕ
    pub anti_spoof_model : Text

  abbrev pub reply : ℕ → Bool × Run → Answer × School
  reply session_id (true, r) = (raised, r.school)
  reply session_id (false, r) = (
    answered r.recognized r.newly_marked
        (count_if (in_session session_id) (values r.school.records)) (length r.recognized),
    r.school,
  )

  abbrev pub with_frame :
      Request → ℕ → AttendanceSession → Option (Option Frame) → School → Answer × School
  with_frame q i x none s = (invalid_base64, s)
  with_frame q i x (some none) s = (could_not_decode, s)
  with_frame q i x (some (some frame)) s =
      if q.busy
      then (server_busy, s)
      else reply i (
          process_frame x.tolerance frame
            (new_liveness V O q.liveness_threshold [] q.anti_spoof_model) s)

  abbrev pub with_session :
      Request → Text → Option (ℕ × AttendanceSession) → School → Answer × School
  with_session q t none s = (no_session, s)
  with_session q t (some (i, x)) s = with_frame q i x (q.decode (payload t)) s

  abbrev pub with_image : Request → Option Text → School → Answer × School
  with_image q none s = (image_is_required, s)
  with_image q (some t) s =
      if is_empty t then (image_is_required, s) else with_session q t (get_active_session s) s

  -- `recognize`, without the limit of 30 seconds
  unfoldable pub recognize : Request → School → Answer × School
  unfolding split_on strip get_active_session process_frame new_liveness
  recognize q s = with_image q q.image s
