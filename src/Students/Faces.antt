-- ===== src/Students/Faces.antt =====
-- The registration of a face, `register_face` (app/api/students.py) and `encode_face_from_image`
-- (app/services/face_engine.py).
use frass_f.Base.{
  ℕ, ◌+◌, ◌⊎◌, inl, inr, Option, none, some, List, [], ◌∷◌, ◌++◌, Text, text, is_empty,
  if◌then◌else◌, lookup, insert, next_id,
}
use frass_f.Base.Parse.{split_on}
use frass_f.Base.Decimal.{decimal}
use frass_f.Attendance.State.{Student}
use frass_f.Students.{
  Enrolment, known_of, Answer, missing_data, fields_required, not_found, invalid_image,
  could_not_decode, no_face_detected, multiple_faces, could_not_encode, registered,
}

-- The libraries: base64, the decoding of images, detection, embeddings and numpy's bytes. A call
-- that raises gives `none`, and a detection that raises gives no face.
pub record Vision (B E : Type 0) : Type 1 where
  pub Frame : Type 0
  pub Face : Type 0
  pub b64decode : Text → Option (List ℕ)
  pub imdecode : List ℕ → Option Frame
  pub detect : Frame → List Face
  pub normed_embedding : Face → Option E
  pub tobytes : E → B

-- The part behind the first comma, if there is one.
abbrev second_part : Text → List Text → Text
second_part image (p ∷ q ∷ ps) = q
second_part image _ = image

unfoldable pub image_part : Text → Text
unfolding split_on second_part
image_part image = second_part image (split_on b',' image)

module _ {B E : Type 0} where
  module _ (L : Vision B E) where
    open L use {Frame, Face, b64decode, imdecode, detect, normed_embedding, tobytes}

    abbrev encoding_of : Option E → Answer ⊎ E
    encoding_of none = inl could_not_encode
    encoding_of (some e) = inr e

    abbrev from_faces : List Face → Answer ⊎ E
    from_faces [] = inl no_face_detected
    from_faces (f ∷ []) = encoding_of (normed_embedding f)
    from_faces (f ∷ g ∷ fs) = inl multiple_faces

    abbrev from_frame : Option Frame → Answer ⊎ E
    from_frame none = inl could_not_decode
    from_frame (some frame) = from_faces (detect frame)

    -- `encode_face_from_image`
    unfoldable pub encode_face_from_image : List ℕ → Answer ⊎ E
    unfolding from_frame
    encode_face_from_image bytes = from_frame (imdecode bytes)

    abbrev pub photo_path : Text → Text → ℕ → Text
    photo_path base sid n = base ++ text "/" ++ sid ++ text "/photo_" ++ decimal n ++ text ".jpg"

    -- The photo, the engine's memory and the tables of a face of the student `x` with the id `i`.
    unfoldable pub keep_face : Text → ℕ → Student → E → Enrolment B E → Enrolment B E
    unfolding lookup insert next_id photo_path
    keep_face base i x e s =
        let n = x.photo_count + 1 in
        record s {
          students = insert i (record x { photo_count = n }) s.students;
          encodings =
              insert (next_id s.encodings)
                (record {
                  student_id = i;
                  encoding_blob = tobytes e;
                  photo_path = some (photo_path base x.student_id n);
                })
                s.encodings;
          known = insert i (known_of (lookup i s.known) ++ (e ∷ [])) s.known;
          photos = s.photos ++ ((x.student_id, n) ∷ []);
        }

    unfoldable pub encoded :
        Answer ⊎ E → Text → ℕ → Student → Enrolment B E → Answer × Enrolment B E
    unfolding keep_face
    encoded (inl a) base i x s = (a, s)
    encoded (inr e) base i x s = (registered (x.photo_count + 1), keep_face base i x e s)

    unfoldable pub decoded :
        Option (List ℕ) → Text → ℕ → Student → Enrolment B E → Answer × Enrolment B E
    unfolding encoded encode_face_from_image
    decoded none base i x s = (invalid_image, s)
    decoded (some bytes) base i x s = encoded (encode_face_from_image bytes) base i x s

    unfoldable pub register_found :
        Option Student → Text → ℕ → Text → Enrolment B E → Answer × Enrolment B E
    unfolding decoded image_part
    register_found none base i image s = (not_found, s)
    register_found (some x) base i image s = decoded (b64decode (image_part image)) base i x s

    -- `register_face`, of a student's id and an image
    unfoldable pub register_face :
        Text → Option (Option ℕ × Text) → Enrolment B E → Answer × Enrolment B E
    unfolding lookup register_found
    register_face base none s = (missing_data, s)
    register_face base (some (none, image)) s = (fields_required, s)
    register_face base (some (some i, image)) s =
        if is_empty image
        then (fields_required, s)
        else register_found (lookup i s.students) base i image s
