-- ===== src/Serialization.antt =====
-- Face encodings as bytes and as the text that Redis keeps (fras_core/serialization.py). A byte is
-- a number; latin-1 takes each byte to the character of the same number, and back.
pub mod RoundTrip
pub mod Tests
use frass_f.Base.{
  ℕ, zero, suc, ◌+◌, ◌*◌, ◌/◌, ◌%◌, Bool, true, false, Option, none, some, List, [], ◌∷◌, ◌++◌,
  length, take, drop, ltb, leb, if◌then◌else◌, Table, insert, ◌==◌,
}

-- numpy's float32 vectors as bytes, four for each number.
pub record Vectors : Type 1 where
  pub Vector : Type 0
  pub tobytes : Vector → List ℕ
  pub frombuffer : List ℕ → Vector

abbrev pub embedding_dim : ℕ
embedding_dim = 512

-- `struct.pack('I', n)`, on a little-endian machine; `none`: it raises.
unfoldable pub pack : ℕ → Option (List ℕ)
pack n =
    if ltb n 4294967296
    then some ((n % 256) ∷ (n / 256 % 256) ∷ (n / 65536 % 256) ∷ (n / 16777216) ∷ [])
    else none

-- `struct.unpack_from('I', buf, offset)[0]` and the bytes that follow
unfoldable pub unpack : List ℕ → Option (ℕ × List ℕ)
unpack (a ∷ b ∷ c ∷ d ∷ rest) = some (a + b * 256 + c * 65536 + d * 16777216, rest)
unpack _ = none

-- Parts one after the other, where none raises.
abbrev pub then_bytes : Option (List ℕ) → Option (List ℕ) → Option (List ℕ)
then_bytes none t = none
then_bytes (some s) none = none
then_bytes (some s) (some t) = some (s ++ t)

module _ (N : Vectors) where
  open N use {Vector, tobytes, frombuffer}

  -- `serialize_embedding`
  unfoldable pub serialize_embedding : Vector → List ℕ
  serialize_embedding e = tobytes e

  -- `deserialize_embedding`; `none`: it raises.
  unfoldable pub deserialize_embedding : List ℕ → Option Vector
  deserialize_embedding blob =
      if length blob == embedding_dim * 4 then some (frombuffer blob) else none

  unfoldable pub vectors_bytes : List Vector → List ℕ
  vectors_bytes [] = []
  vectors_bytes (e ∷ es) = tobytes e ++ vectors_bytes es

  -- The loop over the students of `serialize_encodings`
  unfoldable pub students_bytes : Table (List Vector) → Option (List ℕ)
  unfolding pack vectors_bytes
  students_bytes [] = some []
  students_bytes ((i, es) ∷ d) =
      then_bytes (pack i)
        (then_bytes (pack (length es)) (then_bytes (some (vectors_bytes es)) (students_bytes d)))

  -- `serialize_encodings`
  unfoldable pub serialize_encodings : Table (List Vector) → Option (List ℕ)
  unfolding pack students_bytes
  serialize_encodings d = then_bytes (pack (length d)) (students_bytes d)

  abbrev pub onto : Vector → Option (List Vector × List ℕ) → Option (List Vector × List ℕ)
  onto e none = none
  onto e (some (es, rest)) = some (e ∷ es, rest)

  -- `enc_count` vectors; `frombuffer` raises where bytes are missing.
  unfoldable pub read_vectors : ℕ → List ℕ → Option (List Vector × List ℕ)
  read_vectors zero buf = some ([], buf)
  read_vectors (suc n) buf =
      let rest = read_vectors n (drop (embedding_dim * 4) buf) in
      if leb (embedding_dim * 4) (length buf)
      then onto (frombuffer (take (embedding_dim * 4) buf)) rest
      else none

  abbrev pub vectors_after : Option (ℕ × List ℕ) → Option (List Vector × List ℕ)
  unfolding read_vectors
  vectors_after none = none
  vectors_after (some (count, buf)) = read_vectors count buf

  abbrev pub student_after : Option (ℕ × List ℕ) → Option (ℕ × (List Vector × List ℕ))
  unfolding unpack vectors_after
  student_after none = none
  student_after (some (i, buf)) = elim (vectors_after (unpack buf)) [
    | none ↦ none
    | some r ↦ some (i, r)
  ]

  abbrev pub next_student :
      Option (ℕ × (List Vector × List ℕ))
      → (ℕ → List Vector → List ℕ → Option (Table (List Vector)))
      → Option (Table (List Vector))
  next_student none k = none
  next_student (some (i, (es, buf))) k = k i es buf

  -- `count` students, into the dict read so far
  unfoldable pub read_students : ℕ → List ℕ → Table (List Vector) → Option (Table (List Vector))
  unfolding unpack student_after insert
  read_students zero buf result = some result
  read_students (suc n) buf result =
      next_student (student_after (unpack buf))
        (λ i es rest. read_students n rest (insert i es result))

  abbrev pub students_after : Option (ℕ × List ℕ) → Option (Table (List Vector))
  unfolding read_students
  students_after none = none
  students_after (some (count, buf)) = read_students count buf []

  -- `deserialize_encodings`; every exception gives `None`.
  unfoldable pub deserialize_encodings : List ℕ → Option (Table (List Vector))
  unfolding unpack students_after
  deserialize_encodings buf = students_after (unpack buf)
