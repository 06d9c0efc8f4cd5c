-- ===== src/Liveness/Detector.antt =====
-- `LivenessDetector` (app/services/liveness.py): its layers with their weights, and `analyze`. The
-- weights are fractions with one denominator, in exact arithmetic.
use frass_f.Base.{
  ℕ, ◌+◌, ◌*◌, Bool, true, false, not, ◌&&◌, Option, none, some, List, [], ◌∷◌, ◌++◌, map, Text,
  text, text_eq, any, keep_if, is_empty, is_some, min, ltb, leb, ◌==◌, if◌then◌else◌,
}
use frass_f.Base.Int.{ℤ, pos, negsuc}
use frass_f.Liveness.Vision.{Vision, FaceQuality, QualityReason, check_face_quality, round_div}
use frass_f.Liveness.Checks.{check_texture, check_moire, check_depth, check_blink, check_colorspace}
use frass_f.Liveness.Blink.{half}
use frass_f.Liveness.AntiSpoof.{Onnx, AntiSpoofDetector, new_detector, predict}

pub data Layer : Type 0 where
  texture moire depth blink colorspace quality ml_antispoof : Layer

abbrev pub number : Layer → ℕ
number texture = 0
number moire = 1
number depth = 2
number blink = 3
number colorspace = 4
number quality = 5
number ml_antispoof = 6

abbrev pub same_layer : Layer → Layer → Bool
same_layer a b = number a == number b

-- `k in enabled`
abbrev pub has_layer : Layer → List Layer → Bool
has_layer k = any (same_layer k)

abbrev pub layer_name : Layer → Text
layer_name texture = text "texture"
layer_name moire = text "moire"
layer_name depth = text "depth"
layer_name blink = text "blink"
layer_name colorspace = text "colorspace"
layer_name quality = text "quality"
layer_name ml_antispoof = text "ml_antispoof"

abbrev pub all_layers : List Layer
all_layers = texture ∷ moire ∷ depth ∷ blink ∷ colorspace ∷ quality ∷ ml_antispoof ∷ []

-- A weight of a layer is its part of the whole.
pub record Weights : Type 0 where
  pub parts : List (Layer × ℕ)
  pub whole : ℕ

abbrev pub default_weights : Weights
default_weights = record {
  parts =
      (texture, 15)
      ∷ (moire, 10)
      ∷ (depth, 15)
      ∷ (blink, 15)
      ∷ (colorspace, 10)
      ∷ (quality, 10)
      ∷ (ml_antispoof, 25)
      ∷ [];
  whole = 100;
}

-- `d.get(k, v)` of a dict by layers
unfoldable pub get_or : ℕ → Layer → List (Layer × ℕ) → ℕ
get_or v k [] = v
get_or v k ((j, w) ∷ d) = if same_layer j k then w else get_or v k d

unfoldable pub sum_parts : List (Layer × ℕ) → List Layer → ℕ
unfolding get_or
sum_parts parts [] = 0
sum_parts parts (k ∷ ks) = get_or 0 k parts + sum_parts parts ks

-- `total = sum(weights[k] for k in ks)` and `{k: weights[k] / total for k in ks}`; of no layers there
-- is no quotient.
unfoldable pub renormalise : Weights → List Layer → Weights
unfolding sum_parts
renormalise w ks = record {
  parts = map (λ (k : Layer). (k, get_or 0 k w.parts)) ks;
  whole = if is_empty ks then w.whole else sum_parts w.parts ks;
}

-- The layer of that name, if there is one.
unfoldable pub layer_of : List Layer → Text → Option Layer
layer_of [] t = none
layer_of (k ∷ ks) t = if text_eq (layer_name k) t then some k else layer_of ks t

abbrev pub cons_some : Option Layer → List Layer → List Layer
cons_some none ks = ks
cons_some (some k) ks = k ∷ ks

-- `[k for k in enabled_layers if k in valid_keys]`
unfoldable pub valid_layers : List Text → List Layer
unfolding layer_of
valid_layers [] = []
valid_layers (t ∷ ts) = cons_some (layer_of all_layers t) (valid_layers ts)

-- What the texts of the reasons stand for: the checks that found something.
pub record LivenessResult : Type 0 where
  pub score : ℕ
  pub is_live : Bool
  pub breakdown : List (Layer × ℕ)
  pub reasons : List Layer
  pub bad_quality : List QualityReason
  pub blur : ℕ
  pub bright : ℕ

-- The scores so far, and the layers that gave a reason.
pub record Scores : Type 0 where
  pub scores : List (Layer × ℕ)
  pub reasons : List Layer

-- The score of an enabled layer; below the limit it gives a reason.
unfoldable pub add_score : Bool → Layer → ℕ → ℕ → Scores → Scores
add_score false k limit s r = r
add_score true k limit s r = record {
  scores = r.scores ++ ((k, s) ∷ []);
  reasons = if ltb s limit then r.reasons ++ (k ∷ []) else r.reasons;
}

-- `min(1.0, blur_score / 200.0) * 0.5`, with the blur in tenths, and 0.5 more if the quality passes
abbrev pub quality_score : FaceQuality → ℕ
quality_score q = min 2000 q.blur_score * 250 + (if q.quality_pass then half else 0)

-- `sum(scores.get(k, 0.5) * weights.get(k, 0) for k in enabled)`
unfoldable pub weighted_total : List (Layer × ℕ) → List (Layer × ℕ) → List Layer → ℕ
unfolding get_or
weighted_total scores parts [] = 0
weighted_total scores parts (k ∷ ks) =
    get_or half k scores * get_or 0 k parts + weighted_total scores parts ks

abbrev pub rounded : List (Layer × ℕ) → List (Layer × ℕ)
unfolding round_div
rounded = map (λ (e : Layer × ℕ). (e.0, round_div e.1 1000))

-- A missing model's score is negative; then its layer is dropped and its weight goes to the others.
unfoldable pub ml_enabled : ℤ → List Layer → List Layer
ml_enabled (pos s) ks = ks
ml_enabled (negsuc s) ks = keep_if (λ k. not (same_layer k ml_antispoof)) ks

unfoldable pub ml_weights : ℤ → List Layer → Weights → Weights
unfolding renormalise ml_enabled
ml_weights (pos s) ks w = w
ml_weights (negsuc s) ks w = renormalise w (ml_enabled (negsuc s) ks)

unfoldable pub ml_scores : ℤ → Scores → Scores
unfolding add_score
ml_scores (pos s) r = add_score true ml_antispoof 400000 s r
ml_scores (negsuc s) r = r

abbrev pub poor : FaceQuality → LivenessResult
poor q = record {
  score = 0;
  is_live = false;
  breakdown = (quality, 0) ∷ [];
  reasons = [];
  bad_quality = q.reason;
  blur = q.blur_score;
  bright = q.brightness;
}

-- The weighted total against the threshold, which is in millionths.
unfoldable pub verdict : ℕ → List Layer → Weights → Scores → FaceQuality → LivenessResult
unfolding weighted_total rounded round_div
verdict threshold enabled w r q =
    let sum = weighted_total r.scores w.parts enabled in
    record {
      score = round_div sum (1000 * w.whole);
      is_live = leb (threshold * w.whole) sum;
      breakdown = rounded r.scores;
      reasons = r.reasons;
      bad_quality = [];
      blur = q.blur_score;
      bright = q.brightness;
    }

module _ (V : Vision) (O : Onnx V.Image) where
  open V use {Image, Landmarks}

  pub record LivenessDetector : Type 0 where
    pub threshold : ℕ
    pub weights : Weights
    pub enabled : List Layer
    pub ear_history : List ℕ
    pub antispoof : Option (AntiSpoofDetector O)
    pub antispoof_path : Text

  -- `self.enabled = enabled_layers or list(self.weights.keys())`, whose keys are the same layers
  abbrev pub with_layers : List Text → Weights × List Layer
  unfolding valid_layers renormalise
  with_layers names =
      if is_empty names
      then (default_weights, all_layers)
      else (renormalise default_weights (valid_layers names), valid_layers names)

  -- `LivenessDetector(threshold, enabled_layers, antispoof_model_path)`; no layers are `None` or `[]`
  unfoldable pub new_liveness : ℕ → List Text → Text → LivenessDetector
  unfolding with_layers
  new_liveness threshold names path = record {
    threshold = threshold;
    weights = (with_layers names).0;
    enabled = (with_layers names).1;
    ear_history = [];
    antispoof = none;
    antispoof_path = path;
  }

  -- The blink check, if its layer is enabled.
  abbrev pub blink_if : Bool → Option Image → List ℕ → List ℕ × ℕ
  blink_if false roi history = (history, 0)
  blink_if true roi history = check_blink V roi history

  abbrev pub or_new : Option (AntiSpoofDetector O) → Text → AntiSpoofDetector O
  or_new none path = new_detector O path
  or_new (some a) path = a

  -- The model's score, if its layer is enabled; a face that passes the quality check is there.
  abbrev pub predict_if : Bool → Option Image → LivenessDetector → Option (AntiSpoofDetector O) × ℤ
  predict_if true (some i) d =
      let (a, s) = predict O (or_new d.antispoof d.antispoof_path) i in (some a, s)
  predict_if _ _ d = (d.antispoof, pos 0)

  abbrev pub heuristics : List Layer → Option Image → Option Landmarks → FaceQuality → ℕ → Scores
  heuristics ks roi landmarks q blinked =
      add_score (has_layer colorspace ks) colorspace 300000 (check_colorspace V roi) (
        add_score (has_layer blink ks) blink 300000 blinked (
          add_score (has_layer depth ks && is_some landmarks) depth 300000 (check_depth V landmarks)
            (add_score (has_layer moire ks) moire 300000 (check_moire V roi) (
              add_score (has_layer texture ks) texture 300000 (check_texture V roi) (
                add_score (has_layer quality ks) quality 0 (quality_score q)
                  (record { scores = []; reasons = [] }))))))

  -- The end of `analyze`, from the score of the model; without its layer nothing changes.
  abbrev pub fused : Bool → ℤ → LivenessDetector → Scores → FaceQuality → LivenessResult
  fused false s d r q = verdict d.threshold d.enabled d.weights r q
  fused true s d r q =
      verdict d.threshold (ml_enabled s d.enabled) (ml_weights s d.enabled d.weights)
        (ml_scores s r) q

  abbrev pub passed :
      LivenessDetector
      → Option Image
      → Option Landmarks
      → FaceQuality
      → List ℕ × ℕ
      → Option (AntiSpoofDetector O) × ℤ
      → LivenessDetector × LivenessResult
  passed d roi landmarks q (history, blinked) (a, s) = (
    record d { ear_history = history; antispoof = a },
    fused (has_layer ml_antispoof d.enabled) s d (heuristics d.enabled roi landmarks q blinked) q,
  )

  -- Past the quality check, which refuses a poor face first.
  abbrev pub gated :
      Bool
      → LivenessDetector
      → Option Image
      → Option Landmarks
      → FaceQuality
      → LivenessDetector × LivenessResult
  gated false d roi landmarks q = (d, poor q)
  gated true d roi landmarks q =
      passed d roi landmarks q (blink_if (has_layer blink d.enabled) roi d.ear_history)
        (predict_if (has_layer ml_antispoof d.enabled) roi d)

  abbrev pub after_quality :
      LivenessDetector
      → Option Image
      → Option Landmarks
      → Option FaceQuality
      → Option (LivenessDetector × LivenessResult)
  after_quality d roi landmarks none = none
  after_quality d roi landmarks (some q) = some (gated q.quality_pass d roi landmarks q)

  -- `analyze`, which does not use `frame`: the detector after it, and the result; `none`: it raises
  unfoldable pub analyze :
      LivenessDetector
      → Option Image
      → Option Landmarks
      → Option (LivenessDetector × LivenessResult)
  unfolding check_face_quality verdict ml_enabled ml_weights ml_scores add_score check_texture
      check_moire check_depth check_colorspace check_blink new_detector predict
  analyze d roi landmarks = after_quality d roi landmarks (check_face_quality V roi)
