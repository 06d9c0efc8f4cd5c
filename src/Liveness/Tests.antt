-- ===== src/Liveness/Tests.antt =====
-- Runs of the liveness detection (app/services/liveness.py, app/services/antispoof.py) on a small
-- vision: an image is its height, its width and its tone, and its gray image has 10 rows of 18 pixels.
use frass_f.Base.{
  ℕ, zero, suc, ◌*◌, ◌≡◌, refl, Bool, true, false, Option, none, some, List, [], ◌∷◌, text, text_eq,
  length, arith,
}
use frass_f.Base.Int.{pos, ◌≤ℤ◌}
use frass_f.Liveness.Vision.{Vision, Gray, round_div, check_face_quality, too_small}
use frass_f.Liveness.Blocks.{blocks}
use frass_f.Liveness.AntiSpoof.{
  Onnx, new_detector, predict, predict_loaded, fuse_liveness_scores, providers,
}
use frass_f.Liveness.Detector.{LivenessDetector, LivenessResult, new_liveness, analyze}
use frass_f.Liveness.Verdict.{Probable, Keeps, analyze-Keeps, new_liveness-IsDetector}
use frass_f.Liveness.Fallback.{outcome, full, heuristic, analyze-fallback}

abbrev copies : {A : Type 0} → ℕ → A → List A
copies zero a = []
copies (suc n) a = a ∷ copies n a

abbrev head_or_zero : List ℕ → ℕ
head_or_zero [] = 0
head_or_zero (c ∷ r) = c

abbrev grid : Gray
grid = copies 10 (copies {A = ℕ} 18 7)

abbrev tone_of : Gray → ℕ
tone_of [] = 0
tone_of (r ∷ rs) = 1000000 * head_or_zero r

abbrev pub camera : Vision
camera = record {
  Image = ℕ × ℕ × ℕ;
  Landmarks = ℕ;
  height = λ i. i.0;
  width = λ i. i.1;
  gray = λ i. some (copies 10 (copies 18 i.2));
  laplacian_var = λ g. 90000000;
  mean = tone_of;
  texture = λ bs. (50000000, 40000000);
  peak_ratio = λ g. some (some 2000000);
  points = λ l. l;
  is_five_by_two = λ l. true;
  spread = λ l. some 90000;
  skin_ratio = λ i. some 400000;
}

-- A model that answers 0.9 and one that never loads.
abbrev sure : Onnx (ℕ × ℕ × ℕ)
sure = record {
  Session = Unit {0};
  Output = Unit {0};
  exists = λ p. true;
  available = none;
  session = λ p ps. some tt;
  infer = λ s i. some tt;
  last_dimension = λ o. 2;
  scalar = λ o. none;
  softmax_second = λ o. some (pos 900000);
  whole = λ o. none;
}

abbrev pub missing : Onnx (ℕ × ℕ × ℕ)
missing = record sure { session = λ p ps. none }

abbrev pub lit : ℕ × ℕ × ℕ
lit = (100, 100, 120)

too_small_face :
    check_face_quality camera (some (20, 20, 120))
    ≡ some (record {
      blur_score = 0;
      brightness = 0;
      resolution_ok = false;
      quality_pass = false;
      reason = too_small 20 20 ∷ [];
    })
unfolding check_face_quality
too_small_face = refl

rounds_to_even : round_div 2500 1000 ≡ 2
unfolding round_div
rounds_to_even = refl

two_blocks : length (blocks (copies 10 (copies 18 7))) ≡ 2
unfolding blocks
two_blocks = refl

fuses : fuse_liveness_scores 60 (pos 900000) 300000 ≡ 66000000
unfolding fuse_liveness_scores
fuses = refl

cuda_first :
    providers (some (text "CUDAExecutionProvider" ∷ []))
    ≡ text "CUDAExecutionProvider" ∷ text "CPUExecutionProvider" ∷ []
unfolding providers text_eq
cuda_first = refl

abbrev default : LivenessDetector camera sure
unfolding new_liveness
default = new_liveness camera sure 650000 [] []

abbrev score_of : {D : Type 0} → Option (D × LivenessResult) → Option (ℕ × Bool)
score_of none = none
score_of (some (d, r)) = some (r.score, r.is_live)

-- 0.1 * 0.725 + 0.15 * 0.65999… + 0.1 * 0.8 + 0.15 * 0.8 + 0.15 * 0.5 + 0.1 * 0.8 + 0.25 * 0.9
one_face : score_of (analyze camera sure default (some lit) (some 5)) ≡ some (751, true)
unfolding analyze default
one_face = refl

abbrev two_frames : List (Option (ℕ × ℕ × ℕ))
two_frames = some lit ∷ none ∷ some (90, 90, 130) ∷ []

abbrev photo : List (Option (ℕ × ℕ × ℕ))
photo = copies 12 (some lit)

answers : (o : Option (Unit {0})) (i : ℕ × ℕ × ℕ) → predict_loaded sure o i ≤ℤ pos 1000000
answers none i = omega arith
answers (some s) i = omega arith

probable : Probable camera sure
unfolding predict
probable a i = answers (predict sure a i).0.loaded i

analyze-Keeps_example : Keeps camera sure default (analyze camera sure default (some lit) (some 5))
unfolding new_liveness
analyze-Keeps_example =
    analyze-Keeps camera sure default (some lit) (some 5) probable
      (new_liveness-IsDetector camera sure 650000 [] [])

analyze-fallback_example :
    outcome camera missing
      (analyze camera missing (full camera missing 650000 [] [] none) (some lit) (some 5))
    ≡ outcome camera missing
        (analyze camera missing (heuristic camera missing 650000 [] []) (some lit) (some 5))
unfolding predict new_detector
analyze-fallback_example = analyze-fallback camera missing 650000 [] [] none lit (some 5) refl
