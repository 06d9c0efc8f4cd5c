-- ===== src/Matching/Tests.antt =====
-- Runs of the scan of app/services/face_engine.py, with embeddings of one number.
use frass_f.Base.{ℕ, ◌*◌, ◌≡◌, refl, Option, none, some, [], ◌∷◌, arith}
use frass_f.Base.Int.{ℤ, pos}
use frass_f.Matching.{Known, percent, recognize_linear}
use frass_f.Matching.Optimal.{Answers, recognize_linear-Answers}

abbrev pub product : ℕ → ℕ → Option ℤ
product a b = some (pos (a * b))

abbrev pub two_people : Known ℕ
two_people = (7, 300 ∷ 640 ∷ []) ∷ (9, 712 ∷ 100 ∷ []) ∷ []

recognizes_nine : recognize_linear product 1000 (pos 650000) two_people ≡ some (some 9, pos 712)
unfolding recognize_linear
recognizes_nine = refl

nobody_near : recognize_linear product 1000 (pos 713000) two_people ≡ some (none, pos 712)
unfolding recognize_linear
nobody_near = refl

rounding : (percent (pos 712500) ≡ pos 712) × (percent (pos 711500) ≡ pos 712)
unfolding percent
rounding = (refl, refl)

recognize_linear-Answers_example :
    (r : Option ℕ × ℤ) × (recognize_linear product 1000 (pos 650000) two_people ≡ some r)
    × Answers product 1000 (pos 650000) two_people r
recognize_linear-Answers_example =
    recognize_linear-Answers product 1000 (pos 650000) two_people (omega arith) (
      ((pos 300000, refl), ((pos 640000, refl), tt)),
      (((pos 712000, refl), ((pos 100000, refl), tt)), tt),
    )
