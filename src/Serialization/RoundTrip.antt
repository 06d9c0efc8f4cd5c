-- ===== src/Serialization/RoundTrip.antt =====
-- Reading back what was written (fras_core/serialization.py).
use mathlib.Core.Path.{subst, ap₂}
use mathlib.Core.List.{append_assoc, append-nil}
use frass_f.Base.{
  ℕ, suc, ◌+◌, ◌*◌, ◌/◌, ◌%◌, ◌<◌, ◌≡◌, refl, ap, ◌∙◌, true, false, Option, none, some, List, [],
  ◌∷◌, ◌++◌, length, length-append, take, drop, take-append, drop-append, ltb, leb, ◌==◌, arith,
  Table, lookup, insert, Bool-cases, inl, inr,
}
use frass_f.Serialization.{
  Vectors, embedding_dim, pack, unpack, then_bytes, vectors_bytes, students_bytes,
  serialize_encodings, onto, read_vectors, vectors_after, student_after, read_students,
  students_after, deserialize_encodings,
}

four_bytes :
    (n : ℕ) → n % 256 + n / 256 % 256 * 256 + n / 65536 % 256 * 65536 + n / 16777216 * 16777216 ≡ n
four_bytes n = omega arith

unpack-pack : (n : ℕ) (s rest : List ℕ) → pack n ≡ some s → unpack (s ++ rest) ≡ some (n, rest)
unfolding pack unpack
unpack-pack n s rest h = elim (Bool-cases (ltb n 4294967296)) [
  | inl e ↦
      let bytes : s ≡ (n % 256) ∷ (n / 256 % 256) ∷ (n / 65536 % 256) ∷ (n / 16777216) ∷ [] =
        ground arith in
      rw (bytes, four_bytes n) refl
  | inr e ↦ absurd (ground arith)
]

-- numpy reads the 2048 bytes of an embedding back.
pub record Faithful (N : Vectors) : Type 0 where
  pub sized : (e : N.Vector) → length (N.tobytes e) ≡ embedding_dim * 4
  pub read_back : (e : N.Vector) → N.frombuffer (N.tobytes e) ≡ e

-- The keys of the second are not in the first.
Apart : {V : Type 0} → Table V → Table V → Type 0
Apart t [] = Unit
Apart t ((k, v) ∷ d) = (lookup k t ≡ none) × Apart t d

-- A dict: no key twice.
abbrev pub Distinct : {V : Type 0} → Table V → Type 0
Distinct [] = Unit
Distinct ((k, v) ∷ d) = (lookup k d ≡ none) × Distinct d

insert_new :
    {V : Type 0} (k : ℕ) (v : V) (t : Table V)
    → lookup k t ≡ none
    → insert k v t ≡ t ++ ((k, v) ∷ [])
unfolding lookup insert
insert_new k v [] h = refl
insert_new k v ((j, w) ∷ t) h = ground (arith, insert_new k v t)

lookup-append :
    {V : Type 0} (j k : ℕ) (v : V) (t : Table V)
    → lookup j t ≡ none
    → (k == j) ≡ false
    → lookup j (t ++ ((k, v) ∷ [])) ≡ none
unfolding lookup
lookup-append j k v [] e o = ground arith
lookup-append j k v ((i, u) ∷ t) e o = ground (arith, lookup-append j k v t)

Apart-append :
    {V : Type 0} (k : ℕ) (v : V) (t d : Table V)
    → lookup k d ≡ none
    → Apart t d
    → Apart (t ++ ((k, v) ∷ [])) d
unfolding Apart lookup
Apart-append k v t [] h a = tt
Apart-append k v t ((j, w) ∷ d) h a =
    let other : (k == j) ≡ false = ground arith in
    (lookup-append j k v t a.0 other, Apart-append k v t d (ground arith) a.1)

pub deserialize_encodings-nil : (N : Vectors) → deserialize_encodings N [] ≡ none
unfolding deserialize_encodings unpack students_after
deserialize_encodings-nil N = refl

module _ (N : Vectors) (good : Faithful N) where
  open N use {Vector, tobytes, frombuffer}
  open good use {sized, read_back}

  take_vector :
      (e : Vector) (rest : List ℕ) → take (embedding_dim * 4) (tobytes e ++ rest) ≡ tobytes e
  take_vector e rest =
      subst (λ n. take n (tobytes e ++ rest) ≡ tobytes e) (sized e) (take-append (tobytes e) rest)

  drop_vector : (e : Vector) (rest : List ℕ) → drop (embedding_dim * 4) (tobytes e ++ rest) ≡ rest
  drop_vector e rest =
      subst (λ n. drop n (tobytes e ++ rest) ≡ rest) (sized e) (drop-append (tobytes e) rest)

  enough :
      (e : Vector) (rest : List ℕ) → leb (embedding_dim * 4) (length (tobytes e ++ rest)) ≡ true
  enough e rest = let size = sized e in let both = length-append (tobytes e) rest in ground arith

  read_one :
      (n : ℕ) (e : Vector) (rest : List ℕ)
      → read_vectors N (suc n) (tobytes e ++ rest) ≡ onto N e (read_vectors N n rest)
  unfolding read_vectors
  read_one n e rest =
      let vector : frombuffer (take (embedding_dim * 4) (tobytes e ++ rest)) ≡ e =
        ap frombuffer (take_vector e rest) ∙ read_back e in
      let others : read_vectors N n (drop (embedding_dim * 4) (tobytes e ++ rest))
          ≡ read_vectors N n rest =
        ap (read_vectors N n) (drop_vector e rest) in
      rw (enough e rest) (ap₂ (onto N) vector others)

  read_vectors-vectors_bytes :
      (es : List Vector) (rest : List ℕ)
      → read_vectors N (length es) (vectors_bytes N es ++ rest) ≡ some (es, rest)
  unfolding vectors_bytes
  read_vectors-vectors_bytes [] rest = unfold read_vectors in refl
  read_vectors-vectors_bytes (e ∷ es) rest =
      rw (append_assoc (tobytes e) (vectors_bytes N es) rest) (
        read_one (length es) e (vectors_bytes N es ++ rest)
        ∙ ap (onto N e) (read_vectors-vectors_bytes es rest))

  -- What was written of one student, and what is read of it.
  read_student :
      (i : ℕ) (es : List Vector) (s t rest : List ℕ)
      → pack i ≡ some s
      → pack (length es) ≡ some t
      → student_after N (unpack (s ++ (t ++ (vectors_bytes N es ++ rest)))) ≡ some (i, (es, rest))
  unfolding student_after vectors_after
  read_student i es s t rest hs ht = rw (
    unpack-pack i s (t ++ (vectors_bytes N es ++ rest)) hs,
    student_after,
    unpack-pack (length es) t (vectors_bytes N es ++ rest) ht,
    vectors_after,
    read_vectors-vectors_bytes es rest,
  )

  -- The bytes of a dict that is not empty, in parts.
  Parts : ℕ → List Vector → Table (List Vector) → List ℕ → Type 0
  Parts i es d s =
      (a b c : List ℕ) × (pack i ≡ some a)
      × (pack (length es) ≡ some b)
      × (students_bytes N d ≡ some c)
      × (s ≡ a ++ (b ++ (vectors_bytes N es ++ c)))

  written-Parts :
      (i : ℕ) (es : List Vector) (d : Table (List Vector)) (s : List ℕ) (a b c : Option (List ℕ))
      → pack i ≡ a
      → pack (length es) ≡ b
      → students_bytes N d ≡ c
      → then_bytes a (then_bytes b (then_bytes (some (vectors_bytes N es)) c)) ≡ some s
      → Parts i es d s
  unfolding Parts
  written-Parts i es d s none b c ha hb hc h = absurd (ground arith)
  written-Parts i es d s (some a) none c ha hb hc h = absurd (ground arith)
  written-Parts i es d s (some a) (some b) none ha hb hc h = absurd (ground arith)
  written-Parts i es d s (some a) (some b) (some c) ha hb hc h = (a, b, c, ha, hb, hc, ground arith)

  read_students-students_bytes :
      (d acc : Table (List Vector)) (s : List ℕ)
      → students_bytes N d ≡ some s
      → Distinct d
      → Apart acc d
      → read_students N (length d) s acc ≡ some (acc ++ d)
  unfolding read_students students_bytes Apart Parts
  read_students-students_bytes [] acc s h distinct apart = rw (append-nil acc) refl
  read_students-students_bytes ((i, es) ∷ d) acc s h distinct apart =
      let (a, b, c, ha, hb, hc, whole) =
        written-Parts i es d s (pack i) (pack (length es)) (students_bytes N d) refl refl refl h in
      rw (
        whole,
        read_student i es a b c ha hb,
        insert_new i es acc apart.0,
        read_students-students_bytes d (acc ++ ((i, es) ∷ [])) c hc distinct.1
            (Apart-append i es acc d distinct.0 apart.1),
        append_assoc acc ((i, es) ∷ []) d,
      )

  -- Every id and every number of encodings has at most 32 bits.
  abbrev pub Small : Table (List Vector) → Type 0
  Small [] = Unit
  Small ((i, es) ∷ d) = (i < 4294967296) × (length es < 4294967296) × Small d

  packed : (n : ℕ) → n < 4294967296 → (s : List ℕ) × (pack n ≡ some s)
  unfolding pack
  packed n h =
      let fits : ltb n 4294967296 ≡ true = ground arith in
      ((n % 256) ∷ (n / 256 % 256) ∷ (n / 65536 % 256) ∷ (n / 16777216) ∷ [], rw fits refl)

  students_written :
      (d : Table (List Vector)) → Small d → (s : List ℕ) × (students_bytes N d ≡ some s)
  unfolding students_bytes
  students_written [] small = ([], refl)
  students_written ((i, es) ∷ d) small =
      let (a, ha) = packed i small.0 in
      let (b, hb) = packed (length es) small.1 in
      let (c, hc) = students_written d small.2 in
      (a ++ (b ++ (vectors_bytes N es ++ c)), rw (ha, hb, hc) refl)

  -- Where numpy reads its bytes back, a dict of encodings with no student twice and no number beyond 32 bits can be written, and what
  -- is read back is the same dict, in the same order.
  pub deserialize_encodings-serialize_encodings :
      (d : Table (List Vector))
      → length d < 4294967296
      → Small d
      → Distinct d
      → (s : List ℕ) × (serialize_encodings N d ≡ some s) × (deserialize_encodings N s ≡ some d)
  unfolding serialize_encodings deserialize_encodings students_after Apart
  deserialize_encodings-serialize_encodings d few small distinct =
      let (a, ha) = packed (length d) few in
      let (b, hb) = students_written d small in
      (
        a ++ b,
        rw (ha, hb) refl,
        rw (unpack-pack (length d) a b ha)
            (read_students-students_bytes d [] b hb distinct (apart d)),
      )
    where
      apart : (t : Table (List Vector)) → Apart [] t
      apart [] = tt
      apart ((k, v) ∷ t) = (unfold lookup in refl, apart t)
