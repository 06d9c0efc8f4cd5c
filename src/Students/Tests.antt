-- ===== src/Students/Tests.antt =====
-- Requests on students (app/api/students.py), run with a small vision library.
use frass_f.Base.{
  ℕ, Bool, ◌&&◌, ◌==◌, keep_if, Text, ℕ, ◌≡◌, refl, true, none, some, List, [], ◌∷◌, text, text_eq,
  arith, lookup, count_if, values,
}
use frass_f.Attendance.State.{Student}
use frass_f.Students.{Enrolment, deleted, NewStudent, is_encoding_of, is_record_of, delete_student}
use frass_f.Students.Faces.{Vision}
use frass_f.Students.Counted.{Counted, Numbered}
use frass_f.Students.Requests.{
  create, delete, register, handle_all, handle_all-Counted, delete_student_leaves,
}

-- The second photo of every student cannot be removed.
abbrev stuck : Text × ℕ → Bool
stuck p = p.1 == 2

-- An image is a text, which shows one face for each character; the embedding is the character.
abbrev vision : Vision ℕ ℕ
vision = record {
  Frame = List ℕ;
  Face = ℕ;
  b64decode = some;
  imdecode = some;
  detect = λ frame. frame;
  normed_embedding = some;
  tobytes = λ e. e;
}

abbrev empty : Enrolment ℕ ℕ
empty = record { students = []; encodings = []; records = []; audit = []; known = []; photos = [] }

abbrev ada : NewStudent
ada = record {
  student_id = text "s-7 ";
  name = text "Ada";
  email = none;
  department = none;
  semester = none;
}

handle_all-Counted_example :
    Counted (
      handle_all vision
        (text "faces")
        (create (some ada) 1 [] 5
          ∷ register (some (some 1, text "data,A"))
          ∷ register (some (some 1, text "AB"))
          ∷ register (some (some 1, text "C"))
          ∷ delete stuck 1 1 [] 6
          ∷ create (some ada) 1 [] 7
          ∷ [])
        empty)
    × Numbered (
        handle_all vision
          (text "faces")
          (create (some ada) 1 [] 5
            ∷ register (some (some 1, text "data,A"))
            ∷ register (some (some 1, text "AB"))
            ∷ register (some (some 1, text "C"))
            ∷ delete stuck 1 1 [] 6
            ∷ create (some ada) 1 [] 7
            ∷ [])
          empty)
handle_all-Counted_example =
    handle_all-Counted vision (text "faces")
      (create (some ada) 1 [] 5
        ∷ register (some (some 1, text "data,A"))
        ∷ register (some (some 1, text "AB"))
        ∷ register (some (some 1, text "C"))
        ∷ delete stuck 1 1 [] 6
        ∷ create (some ada) 1 [] 7
        ∷ [])
      empty (unfold lookup in λ i. refl, λ sid. omega arith)

abbrev row : Student
row = record {
  student_id = text "s-7";
  name = text "Ada";
  email = none;
  department = none;
  semester = none;
  photo_count = 1;
  is_active = true;
}

abbrev enrolled : Enrolment ℕ ℕ
enrolled = record empty {
  students = (1, row) ∷ [];
  encodings = (1, record { student_id = 1; encoding_blob = 65; photo_path = none }) ∷ [];
  known = (1, 65 ∷ []) ∷ [];
  photos = (text "s-7", 1) ∷ [];
}

delete_student_leaves_example :
    ((delete_student stuck 1 2 [] 9 enrolled).0 ≡ deleted)
    × (lookup 1 (delete_student stuck 1 2 [] 9 enrolled).1.students ≡ none)
    × (count_if (is_encoding_of 1) (values (delete_student stuck 1 2 [] 9 enrolled).1.encodings)
        ≡ 0)
    × (lookup 1 (delete_student stuck 1 2 [] 9 enrolled).1.known ≡ none)
    × (count_if (is_record_of 1) (values (delete_student stuck 1 2 [] 9 enrolled).1.records) ≡ 0)
    × (keep_if (λ p. text_eq p.0 (text "s-7")) (delete_student stuck 1 2 [] 9 enrolled).1.photos
        ≡ keep_if (λ p. text_eq p.0 (text "s-7") && stuck p) enrolled.photos)
delete_student_leaves_example =
    delete_student_leaves stuck 1 2 9 [] row enrolled (unfold lookup in refl)
