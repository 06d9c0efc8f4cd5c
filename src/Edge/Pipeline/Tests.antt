-- ===== src/Edge/Pipeline/Tests.antt =====
-- Runs of the inference pipeline (edge/inference/pipeline.py) with a small runtime: a pixel is a
-- number, a face is its box, and whatever is measured is good.
use frass_f.Base.{
  ℕ, zero, suc, ◌*◌, ◌≡◌, refl, Bool, true, Option, none, some, List, [], ◌∷◌, text, text_eq, arith,
}
use frass_f.Base.Int.{ℤ, pos, negsuc}
use frass_f.Edge.Pipeline.{
  Box, Runtime, InferencePipeline, Result, largest, area, slice, truncate, choose_type, model_name,
  process,
}
use frass_f.Edge.Pipeline.Largest.{FromFace, process-FromFace}
use frass_f.Edge.Pipeline.Crop.{above_gives_none}

abbrev pixels : ℕ → ℤ
pixels n = pos (n * 1000000)

abbrev square : ℕ → Box
square n = record { x0 = pos 0; y0 = pos 0; x1 = pixels n; y1 = pixels n }

abbrev above : Box
above = record { x0 = pos 0; y0 = negsuc 1999999; x1 = pixels 60; y1 = pixels 60 }

abbrev copies : {A : Type 0} → ℕ → A → List A
copies zero a = []
copies (suc n) a = a ∷ copies n a

abbrev frame : List (List ℕ)
frame = copies 64 (copies {A = ℕ} 64 7)

abbrev seeing : List Box → Runtime
seeing boxes = record {
  Pixel = ℕ;
  Face = Box;
  Embedding = Box;
  Points = Unit {0};
  Session = Unit {0};
  Output = Unit {0};
  detect = λ f. some boxes;
  box = λ b. b;
  landmarks = λ b. none;
  embedding = λ b. some b;
  gray = λ i. some [];
  laplacian_var = λ g. 40000000;
  mean = λ g. 100000000;
  mean_variance = λ bs. 0;
  skin_ratio = λ i. some 300000;
  infer = λ s i. none;
  last_dimension = λ o. 1;
  softmax_second = λ o. none;
  scalar = λ o. none;
}

abbrev pipeline : (boxes : List Box) → InferencePipeline (seeing boxes)
pipeline boxes = record { antispoof = none; liveness_threshold = 650000 }

chooses_full :
    model_name (choose_type (text "auto") (some (text "CUDAExecutionProvider" ∷ [])))
    ≡ text "buffalo_l"
unfolding model_name choose_type text_eq
chooses_full = refl

first_of_the_largest : largest (λ (b : Box). b) (square 3) (square 5 ∷ square 4 ∷ []) ≡ square 5
unfolding largest area
first_of_the_largest = refl

counts_from_the_end : slice {A = ℕ} (negsuc 1) (pos 9) (1 ∷ 2 ∷ 3 ∷ []) ≡ 2 ∷ 3 ∷ []
unfolding slice
counts_from_the_end = refl

abbrev two : List Box
two = square 3 ∷ square 62 ∷ []

abbrev score_of : Option (Option (Result (seeing two))) → Option (ℕ × Bool)
score_of none = none
score_of (some none) = none
score_of (some (some r)) = some (r.liveness_score, r.is_live)

-- Half of the texture's 0.5 and half of 0.8.
scores : score_of (process (seeing two) (pipeline two) frame) ≡ some (650, true)
unfolding process
scores = refl

abbrev the_result : Result (seeing two)
the_result = record {
  vector = square 62;
  bbox = record { x0 = pos 0; y0 = pos 0; x1 = pos 62; y1 = pos 62 };
  quality = record { passes = true; blur = 400; brightness = 1000 };
  liveness_score = 650;
  is_live = true;
  points = none;
}

process-FromFace_example : FromFace (seeing two) (pipeline two) frame the_result
unfolding process
process-FromFace_example = process-FromFace (seeing two) (pipeline two) frame the_result refl

above_gives_none_example : process (seeing (above ∷ [])) (pipeline (above ∷ [])) frame ≡ some none
unfolding truncate largest
above_gives_none_example =
    above_gives_none (seeing (above ∷ [])) (pipeline (above ∷ [])) frame above [] 1 60 refl refl
      refl (omega arith)
