-- ===== src/Liveness/Verdict.antt =====
-- What `analyze` keeps and the range of its result (app/services/liveness.py).
use frass_f.Base.{
  ℕ, ◌≤◌, ◌≡◌, refl, Bool, true, false, Option, none, some, List, [], ◌∷◌, Text, arith, length,
  is_empty, Bool-cases, Option-cases, inl, inr,
}
use frass_f.Base.Int.{ℤ, pos, ◌≤ℤ◌}
use frass_f.Liveness.Vision.{Vision, Gray, FaceQuality, check_face_quality}
use frass_f.Liveness.Blocks.{blocks}
use frass_f.Liveness.Blink.{blink_score, blink_score_bounds, remember, length-remember}
use frass_f.Liveness.Checks.{
  texture_score, moire_score, depth_score, skin_score, gray_of, check_texture, check_moire,
  check_depth, check_blink, check_colorspace, blink_of, eye_region,
}
use frass_f.Liveness.AntiSpoof.{Onnx, AntiSpoofDetector, predict}
use frass_f.Liveness.Detector.{
  Layer, Weights, Scores, quality_score, verdict, LivenessDetector, LivenessResult, new_liveness,
  analyze, after_quality, gated, blink_if, predict_if, heuristics, fused, valid_layers,
  weighted_total, ml_enabled, ml_weights, ml_scores, has_layer, ml_antispoof, blink, or_new,
}
use frass_f.Liveness.Total.{
  IsBalanced, default-IsBalanced, named-IsBalanced, Within, total-le-whole, round_total,
  add_score-Within, ml_scores-Within, ml_weights-IsBalanced,
}

texture_score-le : (m : ℕ × ℕ) → texture_score m ≤ 1000000
unfolding texture_score
texture_score-le (m, s) = ground arith

module _ (V : Vision) (O : Onnx V.Image) where
  open V use {Image, Landmarks, mean}

  -- An answer of the model is at most 1.
  abbrev pub Probable : Type 0
  Probable = (a : AntiSpoofDetector O) (i : Image) → (predict O a i).1 ≤ℤ pos 1000000

  -- The weights are balanced and the history has at most 30 values.
  pub record IsDetector (d : LivenessDetector V O) : Type 0 where
    pub weights_balanced : IsBalanced d.weights d.enabled
    pub remembered : length d.ear_history ≤ 30

  -- A detector that was just made, whatever the layers' names are.
  pub new_liveness-IsDetector :
      (threshold : ℕ) (names : List Text) (path : Text)
      → IsDetector (new_liveness V O threshold names path)
  unfolding new_liveness
  new_liveness-IsDetector threshold [] path = record {
    weights_balanced = default-IsBalanced;
    remembered = omega arith;
  }
  new_liveness-IsDetector threshold (t ∷ ts) path = record {
    weights_balanced = named-IsBalanced (valid_layers (t ∷ ts));
    remembered = omega arith;
  }

  texture-le : (roi : Option Image) → check_texture V roi ≤ 1000000
  unfolding check_texture texture_score blocks
  texture-le roi = elim (Option-cases (gray_of V roi)) [
    | inl e ↦ rw e (omega arith)
    | inr (g, e) ↦ rw e (ground arith)
  ]

  moire-le : (roi : Option Image) → check_moire V roi ≤ 1000000
  unfolding check_moire moire_score
  moire-le roi = elim (Option-cases (gray_of V roi)) [
    | inl e ↦ rw e (omega arith)
    | inr (g, e) ↦ rw e (ground arith)
  ]

  depth-le : (l : Option Landmarks) → check_depth V l ≤ 1000000
  unfolding check_depth depth_score
  depth-le none = omega arith
  depth-le (some l) = ground arith

  colorspace-le : (roi : Option Image) → check_colorspace V roi ≤ 1000000
  unfolding check_colorspace skin_score
  colorspace-le none = omega arith
  colorspace-le (some i) = ground arith

  quality-le : (q : FaceQuality) → quality_score q ≤ 1000000
  quality-le q = ground arith

  blink_of_bounds :
      (g : Option Gray) (h : List ℕ)
      → length h ≤ 30
      → (length (blink_of V g h).0 ≤ 30) × ((blink_of V g h).1 ≤ 1000000)
  unfolding remember blink_score
  blink_of_bounds none h k = (k, omega arith)
  blink_of_bounds (some g) h k = elim (Bool-cases (is_empty (eye_region V g))) [
    | inl e ↦ rw e (k, omega arith)
    | inr e ↦ rw e (
      length-remember (mean (eye_region V g)) h k,
      omega (arith, (blink_score_bounds (remember (mean (eye_region V g)) h)).1),
    )
  ]

  blink_if_bounds :
      (b : Bool) (roi : Option Image) (h : List ℕ)
      → length h ≤ 30
      → (length (blink_if V O b roi h).0 ≤ 30) × ((blink_if V O b roi h).1 ≤ 1000000)
  unfolding check_blink
  blink_if_bounds false roi h k = (k, omega arith)
  blink_if_bounds true roi h k = blink_of_bounds (gray_of V roi) h k

  heuristics-Within :
      (ks : List Layer) (roi : Option Image) (l : Option Landmarks) (q : FaceQuality) (b : ℕ)
      → b ≤ 1000000
      → Within (heuristics V O ks roi l q b).scores
  heuristics-Within ks roi l q b h = add_score-Within _ _ _ _ _ (colorspace-le roi) (
      add_score-Within _ _ _ _ _ h (
        add_score-Within _ _ _ _ _ (depth-le l) (
          add_score-Within _ _ _ _ _ (moire-le roi) (
            add_score-Within _ _ _ _ _ (texture-le roi)
              (add_score-Within _ _ _ _ _ (quality-le q) tt)))))

  predict_if-le :
      Probable
      → (b : Bool) (roi : Option Image) (d : LivenessDetector V O)
      → (predict_if V O b roi d).1 ≤ℤ pos 1000000
  predict_if-le p true (some i) d = p (or_new V O d.antispoof d.antispoof_path) i
  predict_if-le p true none d = omega arith
  predict_if-le p false roi d = omega arith

  verdict-le :
      (threshold : ℕ) (ks : List Layer) (w : Weights) (r : Scores) (q : FaceQuality)
      → IsBalanced w ks
      → Within r.scores
      → (verdict threshold ks w r q).score ≤ 1000
  unfolding verdict
  verdict-le threshold ks w r q b h =
      round_total (weighted_total r.scores w.parts ks) w.whole b.positive
        (total-le-whole r.scores w ks h b)

  fused-le :
      (b : Bool) (s : ℤ) (d : LivenessDetector V O) (r : Scores) (q : FaceQuality)
      → s ≤ℤ pos 1000000
      → IsBalanced d.weights d.enabled
      → Within r.scores
      → (fused V O b s d r q).score ≤ 1000
  fused-le false s d r q h w k = verdict-le d.threshold d.enabled d.weights r q w k
  fused-le true s d r q h w k =
      verdict-le d.threshold (ml_enabled s d.enabled) (ml_weights s d.enabled d.weights)
        (ml_scores s r) q (ml_weights-IsBalanced s d.enabled d.weights w) (ml_scores-Within s r h k)

  -- What holds of a result of `analyze`, if there is one.
  abbrev pub Keeps : LivenessDetector V O → Option (LivenessDetector V O × LivenessResult) → Type 0
  Keeps d none = Unit
  Keeps d (some (d', r)) =
      IsDetector d'
      × (d'.threshold ≡ d.threshold)
      × (d'.weights ≡ d.weights)
      × (d'.enabled ≡ d.enabled)
      × (r.score ≤ 1000)

  gated-Keeps :
      Probable
      → (b : Bool) (d : LivenessDetector V O) (roi : Option Image) (l : Option Landmarks)
        (q : FaceQuality)
      → IsDetector d
      → Keeps d (some (gated V O b d roi l q))
  gated-Keeps p true d roi l q h =
      let (kept, bounded) =
        blink_if_bounds (has_layer blink d.enabled) roi d.ear_history h.remembered in
      (
        record { weights_balanced = h.weights_balanced; remembered = kept },
        refl,
        refl,
        refl,
        fused-le (has_layer ml_antispoof d.enabled)
            (predict_if V O (has_layer ml_antispoof d.enabled) roi d).1 d
            (heuristics V O d.enabled roi l q
              (blink_if V O (has_layer blink d.enabled) roi d.ear_history).1)
            q (predict_if-le p (has_layer ml_antispoof d.enabled) roi d) h.weights_balanced
            (heuristics-Within d.enabled roi l q _ bounded),
      )
  gated-Keeps p false d roi l q h = (h, refl, refl, refl, omega arith)

  after_quality-Keeps :
      Probable
      → (d : LivenessDetector V O) (roi : Option Image) (l : Option Landmarks)
        (q : Option FaceQuality)
      → IsDetector d
      → Keeps d (after_quality V O d roi l q)
  after_quality-Keeps p d roi l none h = tt
  after_quality-Keeps p d roi l (some q) h = gated-Keeps p q.quality_pass d roi l q h

  -- Where the model's answer is at most 1, `analyze` keeps the detector's weights balanced and its
  -- history within 30 values, changes neither its threshold, its weights nor its layers, and the
  -- score lies between 0 and 1.
  pub analyze-Keeps :
      (d : LivenessDetector V O) (roi : Option Image) (l : Option Landmarks)
      → Probable
      → IsDetector d
      → Keeps d (analyze V O d roi l)
  unfolding analyze
  analyze-Keeps d roi l p h = after_quality-Keeps p d roi l (check_face_quality V roi) h
