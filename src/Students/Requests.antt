-- ===== src/Students/Requests.antt =====
-- Any sequence of requests on students (app/api/students.py), and what a deletion leaves.
use frass_f.Base.{
  Bool, ◌||◌, ◌&&◌, ap, ◌∙◌, ℕ, ◌+◌, ◌≡◌, refl, ◌⊎◌, inl, inr, not, Option, none, some, List, [],
  ◌∷◌, Text, text_eq, is_empty, strip, keep_if, arith, count_if, count_if-append, ◌==◌, values,
  values-insert, lookup, lookup-insert, lookup-erase, next_id, count_if-insert,
  count_if-erase_where, Bool-cases,
}
use frass_f.Attendance.State.{Student}
use frass_f.Students.{
  FaceEncoding, Enrolment, Answer, deleted, NewStudent, Changes, has_sid, changed, create_student,
  update_found, update_student, is_encoding_of, is_record_of, delete_found, delete_student,
  sanitize_student_id,
}
use frass_f.Students.Faces.{
  Vision, keep_face, encoded, decoded, register_found, register_face, encode_face_from_image,
  image_part, photo_path,
}
use frass_f.Students.Counted.{Sound, Counted, Numbered, replace-Sound, create-Sound, delete-Sound}

module _ {B E : Type 0} where
  update-Sound :
      (o : Option Student) (i : ℕ) (c : Option Changes) (s : Enrolment B E)
      → lookup i s.students ≡ o
      → Sound s
      → Sound (update_found o i c s).1
  unfolding update_found changed
  update-Sound none i c s e h = h
  update-Sound (some x) i none s e h = h
  update-Sound (some x) i (some c) s e h = replace-Sound i x (changed c x) s e refl refl h

  module _ (L : Vision B E) (base : Text) where
    -- A new encoding is counted once, at its student.
    keep_face-Sound :
        (i : ℕ) (x : Student) (e : E) (s : Enrolment B E)
        → lookup i s.students ≡ some x
        → Sound s
        → Sound (keep_face L base i x e s)
    unfolding Sound keep_face
    keep_face-Sound i x e s l (counted, numbered) =
        let y : Student = record x { photo_count = x.photo_count + 1 } in
        let f : FaceEncoding B = record {
          student_id = i;
          encoding_blob = L.tobytes e;
          photo_path = some (photo_path L base x.student_id (x.photo_count + 1));
        } in
        (
          λ j.
              rw
                (
                  values-insert (next_id s.encodings) f s.encodings (omega arith),
                  count_if-append (is_encoding_of j) (values s.encodings) (f ∷ []),
                  lookup-insert i j y s.students,
                )
                (let before = counted j in
                  elim (Bool-cases (i == j)) [
                    | inl q ↦ let same : i ≡ j = ground arith in ground arith
                    | inr q ↦ ground arith
                  ]),
          λ sid. rw (count_if-insert (has_sid sid) i x y s.students l refl) (numbered sid),
        )

    register-Sound :
        (o : Option Student) (i : ℕ) (image : Text) (s : Enrolment B E)
        → lookup i s.students ≡ o
        → Sound s
        → Sound (register_found L o base i image s).1
    unfolding register_found decoded encoded
    register-Sound none i image s e h = h
    register-Sound (some x) i image s e h = from_bytes (L.b64decode (image_part image))
      where
        from_face : (a : Answer ⊎ E) → Sound (encoded L a base i x s).1
        from_face (inl a) = h
        from_face (inr face) = keep_face-Sound i x face s e h

        from_bytes : (b : Option (List ℕ)) → Sound (decoded L b base i x s).1
        from_bytes none = h
        from_bytes (some bytes) = from_face (encode_face_from_image L bytes)

pub data Request : Type 0 where
  create : Option NewStudent → ℕ → Text → ℕ → Request
  update : ℕ → Option Changes → Request
  delete : (Text × ℕ → Bool) → ℕ → ℕ → Text → ℕ → Request
  register : Option (Option ℕ × Text) → Request

module _ {B E : Type 0} (L : Vision B E) (base : Text) where
  unfoldable pub handle : Request → Enrolment B E → Enrolment B E
  unfolding create_student update_student delete_student register_face
  handle (create n by ip now) s = (create_student n by ip now s).1
  handle (update i c) s = (update_student i c s).1
  handle (delete stuck i by ip now) s = (delete_student stuck i by ip now s).1
  handle (register r) s = (register_face L base r s).1

  unfoldable pub handle_all : List Request → Enrolment B E → Enrolment B E
  unfolding handle
  handle_all [] s = s
  handle_all (r ∷ rs) s = handle_all rs (handle r s)

  handle-Sound : (r : Request) (s : Enrolment B E) → Sound s → Sound (handle r s)
  unfolding handle create_student update_student delete_student register_face
  handle-Sound (create none by ip now) s h = h
  handle-Sound (create (some n) by ip now) s h =
      create-Sound (sanitize_student_id n.student_id) (strip n.name) n by now ip s h
  handle-Sound (update i c) s h = update-Sound (lookup i s.students) i c s refl h
  handle-Sound (delete stuck i by ip now) s h =
      delete-Sound (lookup i s.students) stuck i by now ip s h
  handle-Sound (register none) s h = h
  handle-Sound (register (some (none, image))) s h = h
  handle-Sound (register (some (some i, image))) s h =
      elim (Bool-cases (is_empty image))
        as (λ b. Sound (handle (register (some (some i, image))) s)) [
          | inl e ↦ rw (e, handle) h
          | inr e ↦ rw (e, handle) (register-Sound L base (lookup i s.students) i image s refl h)
        ]

  -- After any requests to create, update and delete students and to register faces, whatever the
  -- images show, every student has as many face encodings as its count of photos says, no encoding
  -- is left without its student, and no two students have one number, where that held before.
  pub handle_all-Counted :
      (rs : List Request) (s : Enrolment B E)
      → Counted s × Numbered s
      → Counted (handle_all rs s) × Numbered (handle_all rs s)
  unfolding handle_all Sound
  handle_all-Counted [] s h = h
  handle_all-Counted (r ∷ rs) s h = handle_all-Counted rs (handle r s) (handle-Sound r s h)

photos_left :
    (stuck : Text × ℕ → Bool) (sid t : Text) (ps : List (Text × ℕ))
    → keep_if (λ p. text_eq p.0 t) (keep_if (λ p. not (text_eq p.0 sid) || stuck p) ps)
      ≡ keep_if (λ p. text_eq p.0 t && (not (text_eq p.0 sid) || stuck p)) ps
photos_left stuck sid t [] = refl
photos_left stuck sid t (p ∷ ps) = elim (Bool-cases (not (text_eq p.0 sid) || stuck p)) [
  | inr e ↦ elim (Bool-cases (text_eq p.0 t)) [
    | inl f ↦ rw (e, f) (photos_left stuck sid t ps)
    | inr f ↦ rw (e, f) (photos_left stuck sid t ps)
  ]
  | inl e ↦ elim (Bool-cases (text_eq p.0 t)) [
    | inl f ↦ rw (e, f) (ap (λ (r : List (Text × ℕ)). p ∷ r) (photos_left stuck sid t ps))
    | inr f ↦ rw (e, f) (photos_left stuck sid t ps)
  ]
]

own_photos :
    (stuck : Text × ℕ → Bool) (sid : Text) (ps : List (Text × ℕ))
    → keep_if (λ p. text_eq p.0 sid && (not (text_eq p.0 sid) || stuck p)) ps
      ≡ keep_if (λ p. text_eq p.0 sid && stuck p) ps
own_photos stuck sid [] = refl
own_photos stuck sid (p ∷ ps) = elim (Bool-cases (text_eq p.0 sid)) [
  | inr f ↦ rw f (own_photos stuck sid ps)
  | inl f ↦ elim (Bool-cases (stuck p)) [
    | inl e ↦ rw (f, e) (ap (λ (r : List (Text × ℕ)). p ∷ r) (own_photos stuck sid ps))
    | inr e ↦ rw (f, e) (own_photos stuck sid ps)
  ]
]

-- A student that is deleted leaves no row, no encoding in the table or in the engine's memory, and no
-- attendance record; of the photos in the directory exactly those are left that could not be removed,
-- though the answer is `deleted`.
pub delete_student_leaves :
    {B E : Type 0} (stuck : Text × ℕ → Bool) (i by now : ℕ) (ip : Text) (x : Student)
    (s : Enrolment B E)
    → lookup i s.students ≡ some x
    → ((delete_student stuck i by ip now s).0 ≡ deleted)
      × (lookup i (delete_student stuck i by ip now s).1.students ≡ none)
      × (count_if (is_encoding_of i) (values (delete_student stuck i by ip now s).1.encodings) ≡ 0)
      × (lookup i (delete_student stuck i by ip now s).1.known ≡ none)
      × (count_if (is_record_of i) (values (delete_student stuck i by ip now s).1.records) ≡ 0)
      × (keep_if (λ p. text_eq p.0 x.student_id) (delete_student stuck i by ip now s).1.photos
          ≡ keep_if (λ p. text_eq p.0 x.student_id && stuck p) s.photos)
unfolding delete_student delete_found
delete_student_leaves stuck i by now ip x s h =
    let gone = lookup-erase i i s.students in
    let forgotten = lookup-erase i i s.known in
    rw h (
      refl,
      ground arith,
      count_if-erase_where (is_encoding_of i) s.encodings,
      ground arith,
      count_if-erase_where (is_record_of i) s.records,
      photos_left stuck x.student_id x.student_id s.photos ∙ own_photos stuck x.student_id s.photos,
    )
