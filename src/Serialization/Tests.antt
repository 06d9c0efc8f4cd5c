-- ===== src/Serialization/Tests.antt =====
-- Encodings written and read (fras_core/serialization.py).
use frass_f.Base.{ℕ, zero, suc, ◌≡◌, refl, some, List, [], ◌∷◌, length, lookup, arith, Table}
use frass_f.Serialization.{Vectors, serialize_encodings, deserialize_encodings}
use frass_f.Serialization.RoundTrip.{Faithful, deserialize_encodings-serialize_encodings}

abbrev pub copies : ℕ → ℕ → List ℕ
copies zero b = []
copies (suc n) b = b ∷ copies n b

abbrev pub head_or_zero : List ℕ → ℕ
head_or_zero [] = 0
head_or_zero (b ∷ bs) = b

-- Vectors of one value, 2048 times the same byte.
abbrev pub vectors : Vectors
vectors = record { Vector = ℕ; tobytes = copies 2048; frombuffer = head_or_zero }

length-copies : (n b : ℕ) → length (copies n b) ≡ n
length-copies zero b = refl
length-copies (suc n) b = omega (arith, length-copies n b)

pub faithful : Faithful vectors
faithful = record { sized = λ e. length-copies 2048 e; read_back = λ e. refl }

abbrev encodings : Table (List ℕ)
encodings = (7, 11 ∷ 12 ∷ []) ∷ (70000, 13 ∷ []) ∷ []

deserialize_encodings-serialize_encodings_example :
    (s : List ℕ) × (serialize_encodings vectors encodings ≡ some s)
    × (deserialize_encodings vectors s ≡ some encodings)
deserialize_encodings-serialize_encodings_example =
    deserialize_encodings-serialize_encodings vectors faithful encodings (omega arith)
      (omega arith, omega arith, (omega arith, omega arith, tt))
      (unfold lookup in refl, (unfold lookup in refl, tt))
