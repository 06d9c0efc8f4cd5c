-- ===== src/Liveness/Fallback.antt =====
-- The detector without a model (app/services/liveness.py).
use frass_f.Base.{
  ℕ, ◌≡◌, refl, Bool, true, false, Option, none, some, List, [], ◌∷◌, Text, text, text_eq,
}
use frass_f.Liveness.Vision.{Vision, FaceQuality, check_face_quality}
use frass_f.Liveness.AntiSpoof.{Onnx, AntiSpoofDetector, predict, unavailable}
use frass_f.Liveness.Checks.{check_blink}
use frass_f.Liveness.Detector.{
  LivenessDetector, LivenessResult, new_liveness, analyze, after_quality, gated, or_new,
  valid_layers, renormalise, ml_enabled, ml_weights, ml_scores, verdict,
}

-- The names of the heuristic layers, in the order of the weights.
abbrev pub heuristic_names : List Text
heuristic_names =
    text "texture"
    ∷ text "moire"
    ∷ text "depth"
    ∷ text "blink"
    ∷ text "colorspace"
    ∷ text "quality"
    ∷ []

module _ (V : Vision) (O : Onnx V.Image) where
  open V use {Image, Landmarks}

  -- The history after `analyze`, and its result.
  abbrev pub outcome :
      Option (LivenessDetector V O × LivenessResult) → Option (List ℕ × LivenessResult)
  outcome none = none
  outcome (some (d, r)) = some (d.ear_history, r)

  -- A detector of all layers, and one of the heuristic ones, with a history.
  abbrev pub full : ℕ → Text → List ℕ → Option (AntiSpoofDetector O) → LivenessDetector V O
  full t path h a = record (new_liveness V O t [] path) { ear_history = h; antispoof = a }

  abbrev pub heuristic : ℕ → Text → List ℕ → LivenessDetector V O
  heuristic t path h = record (new_liveness V O t heuristic_names path) { ear_history = h }

  gated-fallback :
      (t : ℕ) (path : Text) (h : List ℕ) (a : Option (AntiSpoofDetector O)) (i : Image)
      (l : Option Landmarks) (b : Bool) (q : FaceQuality)
      → (predict O (or_new V O a path) i).1 ≡ unavailable
      → outcome (some (gated V O b (full t path h a) (some i) l q))
        ≡ outcome (some (gated V O b (heuristic t path h) (some i) l q))
  unfolding new_liveness valid_layers renormalise ml_enabled ml_weights ml_scores check_blink
      verdict text_eq
  gated-fallback t path h a i l false q e = refl
  gated-fallback t path h a i l true q e = rw e

  after-fallback :
      (t : ℕ) (path : Text) (h : List ℕ) (a : Option (AntiSpoofDetector O)) (i : Image)
      (l : Option Landmarks) (c : Option FaceQuality)
      → (predict O (or_new V O a path) i).1 ≡ unavailable
      → outcome (after_quality V O (full t path h a) (some i) l c)
        ≡ outcome (after_quality V O (heuristic t path h) (some i) l c)
  after-fallback t path h a i l none e = refl
  after-fallback t path h a i l (some q) e = gated-fallback t path h a i l q.quality_pass q e

  -- While the model gives no answer, a detector of all layers gives the same result as one that was
  -- made of the heuristic layers, and keeps the same history.
  pub analyze-fallback :
      (t : ℕ) (path : Text) (h : List ℕ) (a : Option (AntiSpoofDetector O)) (i : Image)
      (l : Option Landmarks)
      → (predict O (or_new V O a path) i).1 ≡ unavailable
      → outcome (analyze V O (full t path h a) (some i) l)
        ≡ outcome (analyze V O (heuristic t path h) (some i) l)
  unfolding analyze
  analyze-fallback t path h a i l e =
      after-fallback t path h a i l (check_face_quality V (some i)) e
