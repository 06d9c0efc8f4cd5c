-- ===== src/Liveness/AntiSpoof.antt =====
-- The anti-spoofing model (app/services/antispoof.py). A score is in millionths; ONNX Runtime, the
-- files and OpenCV are parameters.
use frass_f.Base.{
  ℕ, ◌+◌, ◌-◌, ◌*◌, Bool, Option, none, some, List, [], ◌∷◌, Text, text, text_eq, any, is_empty,
  leb, ◌==◌, if◌then◌else◌,
}
use frass_f.Base.Int.{ℤ, pos, negsuc}

-- -1.0, the sign that there is no model.
abbrev pub unavailable : ℤ
unavailable = negsuc 999999

-- What is called of ONNX Runtime; `none` is an exception. `session` loads a model with providers,
-- `infer` resizes the face and runs the model, and the rest reads its output: the last dimension,
-- `raw[0][0]`, the second part of the softmax, and `raw[0]`.
pub record Onnx (Image : Type 0) : Type 1 where
  pub Session : Type 0
  pub Output : Type 0
  pub exists : Text → Bool
  pub available : Option (List Text)
  pub session : Text → List Text → Option Session
  pub infer : Session → Image → Option Output
  pub last_dimension : Output → ℕ
  pub scalar : Output → Option ℤ
  pub softmax_second : Output → Option ℤ
  pub whole : Output → Option ℤ

abbrev pub cpu_provider : Text
cpu_provider = text "CPUExecutionProvider"

abbrev pub cuda_provider : Text
cuda_provider = text "CUDAExecutionProvider"

-- The providers of `_load_model`: CUDA before the processor, where it is available.
unfoldable pub providers : Option (List Text) → List Text
providers none = cpu_provider ∷ []
providers (some ps) =
    if any (text_eq cuda_provider) ps then cuda_provider ∷ cpu_provider ∷ [] else cpu_provider ∷ []

abbrev pub candidates : List Text
candidates =
    text "models/2.7_80x80_MiniFASNetV2.onnx"
    ∷ text "models/4_0_0_80x80_MiniFASNetV1SE.onnx"
    ∷ text "models/antispoof.onnx"
    ∷ []

-- The first path that exists, or ''.
unfoldable pub first_existing : (Text → Bool) → List Text → Text
first_existing exists [] = []
first_existing exists (p ∷ ps) = if exists p then p else first_existing exists ps

-- `float(…)` of an output, or the failure of the inference
abbrev pub or_unavailable : Option ℤ → ℤ
or_unavailable none = unavailable
or_unavailable (some v) = v

module _ {Image : Type 0} (O : Onnx Image) where
  open O use {
    Session, Output, exists, available, session, infer, last_dimension, scalar, softmax_second,
    whole,
  }

  pub record AntiSpoofDetector : Type 0 where
    pub model_path : Text
    pub loaded : Option Session

  -- `AntiSpoofDetector(model_path)`, with `_find_default_model`
  unfoldable pub new_detector : Text → AntiSpoofDetector
  unfolding first_existing
  new_detector path = record {
    model_path = if is_empty path then first_existing exists candidates else path;
    loaded = none;
  }

  -- `_load_model`
  unfoldable pub load_model : AntiSpoofDetector → AntiSpoofDetector
  unfolding providers
  load_model d =
      if is_empty d.model_path
      then d
      else record d { loaded = session d.model_path (providers available) }

  abbrev pub read_output : Option Output → ℤ
  read_output none = unavailable
  read_output (some o) =
      if last_dimension o == 1
      then or_unavailable (scalar o)
      else if leb 2 (last_dimension o)
      then or_unavailable (softmax_second o)
      else or_unavailable (whole o)

  abbrev pub predict_loaded : Option Session → Image → ℤ
  predict_loaded none i = unavailable
  predict_loaded (some s) i = read_output (infer s i)

  abbrev pub if_missing : Option Session → AntiSpoofDetector → AntiSpoofDetector
  unfolding load_model
  if_missing none d = load_model d
  if_missing (some s) d = d

  -- `predict`: the detector after it, and the score
  unfoldable pub predict : AntiSpoofDetector → Image → AntiSpoofDetector × ℤ
  unfolding if_missing
  predict d i = let d' = if_missing d.loaded d in (d', predict_loaded d'.loaded i)

-- `fuse_liveness_scores`, with alpha in hundredths and up to 1: in hundredths of a millionth
unfoldable pub fuse_liveness_scores : ℕ → ℤ → ℕ → ℕ
fuse_liveness_scores alpha (pos ml) heuristic = alpha * ml + (100 - alpha) * heuristic
fuse_liveness_scores alpha (negsuc ml) heuristic = 100 * heuristic
