-- ===== src/Students.antt =====
-- Students and their faces: the requests of app/api/students.py on the tables, with the face
-- engine's memory and the photos on disk. The copy of the memory in Redis is FaceEngine's.
pub mod Faces
pub mod Counted
pub mod Requests
mod Tests
use frass_f.Base.{
  ℕ, suc, ◌+◌, Bool, true, false, not, ◌&&◌, ◌||◌, Option, none, some, List, [], ◌∷◌, ◌++◌, Text,
  text, text_eq, strip, is_empty, is_lower, is_upper, is_digit, all, any, keep_if, ◌==◌,
  if◌then◌else◌, Table, values, lookup, insert, erase, erase_where, next_id, ◌⊎◌, inl, inr,
}
use frass_f.Base.Parse.{split_on}
use frass_f.Base.Decimal.{decimal}
use frass_f.Attendance.State.{Student, AttendanceRecord}
use frass_f.Auth.Account.{AuditLog}

pub record FaceEncoding (B : Type 0) : Type 0 where
  pub student_id : ℕ
  pub encoding_blob : B
  pub photo_path : Option Text

-- The tables, the engine's `_known_encodings`, and the photos on disk: the directory of each, which
-- has the student's number for a name, and its own number.
pub record Enrolment (B E : Type 0) : Type 0 where
  pub students : Table Student
  pub encodings : Table (FaceEncoding B)
  pub records : Table AttendanceRecord
  pub audit : List AuditLog
  pub known : Table (List E)
  pub photos : List (Text × ℕ)

pub data Answer : Type 0 where
  missing_data fields_required id_exists not_found deleted updated invalid_image server_error :
      Answer
  could_not_decode no_face_detected multiple_faces could_not_encode : Answer
  created registered : ℕ → Answer

abbrev pub may_stand : ℕ → Bool
may_stand c = is_lower c || is_upper c || is_digit c || c == b'_' || c == b'-'

abbrev matched : Text → Option Text
matched s = if not (is_empty s) && all may_stand s then some s else none

-- `_sanitize_student_id`
unfoldable pub sanitize_student_id : Text → Option Text
unfolding strip matched
sanitize_student_id sid = if is_empty sid then none else matched (strip sid)

abbrev pub has_sid : Text → Student → Bool
has_sid sid x = text_eq x.student_id sid

abbrev pub log_of : ℕ → Text → ℕ → Option Text → Text → ℕ → AuditLog
log_of by action i details ip now = record {
  user_id = some by;
  action = action;
  entity_type = text "student";
  entity_id = some i;
  details = details;
  ip_address = ip;
  created_at = now;
}

pub record NewStudent : Type 0 where
  pub student_id : Text
  pub name : Text
  pub email : Option Text
  pub department : Option Text
  pub semester : Option ℕ

-- The body of an update: `none` for each key that is missing.
pub record Changes : Type 0 where
  pub name : Text
  pub email : Option (Option Text)
  pub department : Option (Option Text)
  pub semester : Option (Option ℕ)
  pub is_active : Option Bool

abbrev or_keep : {A : Type 0} → Option A → A → A
or_keep none a = a
or_keep (some b) a = b

unfoldable pub changed : Changes → Student → Student
unfolding or_keep strip
changed c x = record x {
  name = if is_empty c.name then x.name else strip c.name;
  email = or_keep c.email x.email;
  department = or_keep c.department x.department;
  semester = or_keep c.semester x.semester;
  is_active = or_keep c.is_active x.is_active;
}

abbrev pub new_student : Text → Text → NewStudent → Student
new_student sid name n = record {
  student_id = sid;
  name = name;
  email = n.email;
  department = n.department;
  semester = n.semester;
  photo_count = 0;
  is_active = true;
}

-- A list in a dict of lists, with one more at the end.
abbrev pub known_of : {E : Type 0} → Option (List E) → List E
known_of none = []
known_of (some es) = es

abbrev pub is_encoding_of : {B : Type 0} → ℕ → FaceEncoding B → Bool
is_encoding_of i e = e.student_id == i

abbrev pub is_record_of : ℕ → AttendanceRecord → Bool
is_record_of i r = r.student_id == i

module _ {B E : Type 0} where
  abbrev pub create_named :
      Option Text → Text → NewStudent → ℕ → Text → ℕ → Enrolment B E → Answer × Enrolment B E
  unfolding insert next_id text_eq
  create_named none name n by ip now s = (fields_required, s)
  create_named (some sid) name n by ip now s =
      if is_empty name
      then (fields_required, s)
      else if any (has_sid sid) (values s.students)
      then (id_exists, s)
      else (
        created (next_id s.students),
        record s {
          students = insert (next_id s.students) (new_student sid name n) s.students;
          audit = s.audit ++ (log_of by (text "create") (next_id s.students) none ip now ∷ []);
        },
      )

  -- `create_student`, by the user `by`
  unfoldable pub create_student :
      Option NewStudent → ℕ → Text → ℕ → Enrolment B E → Answer × Enrolment B E
  unfolding sanitize_student_id create_named strip
  create_student none by ip now s = (missing_data, s)
  create_student (some n) by ip now s =
      create_named (sanitize_student_id n.student_id) (strip n.name) n by ip now s

  abbrev pub update_found :
      Option Student → ℕ → Option Changes → Enrolment B E → Answer × Enrolment B E
  unfolding insert changed
  update_found none i c s = (not_found, s)
  update_found (some x) i none s = (server_error, s)
  update_found (some x) i (some c) s =
      (updated, record s { students = insert i (changed c x) s.students })

  -- `update_student`; without a body it raises.
  unfoldable pub update_student : ℕ → Option Changes → Enrolment B E → Answer × Enrolment B E
  unfolding lookup update_found
  update_student i c s = update_found (lookup i s.students) i c s

  abbrev pub delete_found :
      Option Student → (Text × ℕ → Bool) → ℕ → ℕ → Text → ℕ → Enrolment B E → Answer × Enrolment B E
  unfolding erase erase_where text_eq
  delete_found none stuck i by ip now s = (not_found, s)
  delete_found (some x) stuck i by ip now s = (
    deleted,
    record {
      students = erase i s.students;
      encodings = erase_where (is_encoding_of i) s.encodings;
      records = erase_where (is_record_of i) s.records;
      audit =
          s.audit ++ (log_of by (text "delete") i (some (text "Deleted: " ++ x.name)) ip now ∷ []);
      known = erase i s.known;
      photos = keep_if (λ p. not (text_eq p.0 x.student_id) || stuck p) s.photos;
    },
  )

  -- `delete_student` without the copy of the encodings in Redis, with `delete_student_encodings`,
  -- `delete_student_dir` and the cascades; a photo of which `stuck` says that it cannot be removed
  -- stays, since `rmtree` passes over errors
  unfoldable pub delete_student :
      (Text × ℕ → Bool) → ℕ → ℕ → Text → ℕ → Enrolment B E → Answer × Enrolment B E
  unfolding lookup delete_found
  delete_student stuck i by ip now s = delete_found (lookup i s.students) stuck i by ip now s
