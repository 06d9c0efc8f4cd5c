-- ===== src/Edge/Pipeline.antt =====
-- The inference of a device (edge/inference/pipeline.py). A measured value is an integer in
-- millionths; InsightFace, OpenCV, numpy and ONNX Runtime are parameters.
pub mod Largest
pub mod Crop
mod Tests
use frass_f.Base.{
  ℕ, zero, suc, ◌+◌, ◌-◌, ◌*◌, ◌/◌, Bool, true, false, not, ◌&&◌, ◌||◌, Option, none, some, List,
  [], ◌∷◌, map, Text, text, text_eq, any, is_empty, is_some, length, take, drop, min, ltb, leb,
  ◌==◌, if◌then◌else◌,
}
use frass_f.Base.Int.{ℤ, pos, negsuc, pos_part, neg_part, sub_ℕ, ltb_ℤ}
use frass_f.Liveness.Vision.{Gray, round_div}
use frass_f.Liveness.Blocks.{blocks}

abbrev pub sub_ℤ : ℤ → ℤ → ℤ
sub_ℤ a b = sub_ℕ (pos_part a + neg_part b) (neg_part a + pos_part b)

abbrev pub mul_ℤ : ℤ → ℤ → ℤ
mul_ℤ a b =
    sub_ℕ (pos_part a * pos_part b + neg_part a * neg_part b)
      (pos_part a * neg_part b + neg_part a * pos_part b)

-- A box of a face, with the corners (x0, y0) and (x1, y1), in millionths of a pixel.
pub record Box : Type 0 where
  pub x0 : ℤ
  pub y0 : ℤ
  pub x1 : ℤ
  pub y1 : ℤ

-- `astype(int)`, which rounds toward zero
unfoldable pub truncate : ℤ → ℤ
truncate (pos n) = pos (n / 1000000)
truncate (negsuc n) = sub_ℕ 0 ((n + 1) / 1000000)

-- A bound of a slice of n things: a negative one counts from the end.
abbrev pub bound : ℕ → ℤ → ℕ
bound n (pos k) = min k n
bound n (negsuc k) = n - (k + 1)

-- `xs[start:stop]`
unfoldable pub slice {ℓ} : {A : Type ℓ} → ℤ → ℤ → List A → List A
slice start stop xs =
    take (bound (length xs) stop - bound (length xs) start) (drop (bound (length xs) start) xs)

-- `(f.bbox[2] - f.bbox[0]) * (f.bbox[3] - f.bbox[1])`
unfoldable pub area : Box → ℤ
area b = mul_ℤ (sub_ℤ b.x1 b.x0) (sub_ℤ b.y1 b.y0)

-- `max(faces, key=…)` of a face and the others: the first of the largest
unfoldable pub largest {ℓ} : {F : Type ℓ} → (F → Box) → F → List F → F
largest box best [] = best
largest box best (f ∷ fs) =
    largest box (if ltb_ℤ (area (box best)) (area (box f)) then f else best) fs

-- What is called; `none` is an exception. A frame and a crop are rows of pixels.
pub record Runtime : Type 1 where
  pub Pixel : Type 0
  pub Face : Type 0
  pub Embedding : Type 0
  pub Points : Type 0
  pub Session : Type 0
  pub Output : Type 0
  pub detect : List (List Pixel) → Option (List Face)
  pub box : Face → Box
  pub landmarks : Face → Option Points
  pub embedding : Face → Option Embedding
  pub gray : List (List Pixel) → Option Gray
  pub laplacian_var : Gray → ℕ
  pub mean : Gray → ℕ
  pub mean_variance : List Gray → ℕ
  pub skin_ratio : List (List Pixel) → Option ℕ
  pub infer : Session → List (List Pixel) → Option Output
  pub last_dimension : Output → ℕ
  pub softmax_second : Output → Option ℤ
  pub scalar : Output → Option ℤ

-- The model for a type of model, of the providers that onnxruntime has; `none`: asking raises.
unfoldable pub choose_type : Text → Option (List Text) → Text
choose_type model_type providers =
    if not (text_eq model_type (text "auto")) then model_type else elim providers [
      | none ↦ text "lightweight"
      | some ps ↦
          if any (text_eq (text "CUDAExecutionProvider")) ps
            || any (text_eq (text "OpenVINOExecutionProvider")) ps
          then text "full"
          else text "lightweight"
    ]

unfoldable pub model_name : Text → Text
model_name model_type =
    if text_eq model_type (text "lightweight") then text "buffalo_s" else text "buffalo_l"

-- The quality of a crop: whether it passes, and the blur and the brightness in tenths.
pub record Quality : Type 0 where
  pub passes : Bool
  pub blur : ℕ
  pub brightness : ℕ

abbrev pub fails : Quality
fails = record { passes = false; blur = 0; brightness = 0 }

abbrev pub width_of {ℓ} : {A : Type ℓ} → List (List A) → ℕ
width_of [] = 0
width_of (r ∷ rs) = length r

-- The score of the model and of the heuristics, 1 being 400 millions, in hundredths of that.
unfoldable pub weigh : ℤ → ℕ → ℕ
weigh (pos ml) heuristic = 60 * (400 * ml) + 40 * heuristic
weigh (negsuc ml) heuristic = 100 * heuristic

abbrev pub no_model : ℤ
no_model = negsuc 999999

abbrev pub or_no_model : Option ℤ → ℤ
or_no_model none = no_model
or_no_model (some v) = v

module _ (R : Runtime) where
  open R use {
    Pixel, Face, Embedding, Points, Session, Output, detect, box, landmarks, embedding, gray,
    laplacian_var, mean, mean_variance, skin_ratio, infer, last_dimension, softmax_second, scalar,
  }

  abbrev pub Image : Type 0
  Image = List (List Pixel)

  -- A pipeline that was made: its model, if it was loaded, and the threshold in millionths.
  pub record InferencePipeline : Type 0 where
    pub antispoof : Option Session
    pub liveness_threshold : ℕ

  -- `frame[bbox[1]:bbox[3], bbox[0]:bbox[2]]`
  unfoldable pub crop : Box → Image → Image
  unfolding slice truncate
  crop b frame =
      map (λ (r : List Pixel). slice (truncate b.x0) (truncate b.x1) r)
        (slice (truncate b.y0) (truncate b.y1) frame)

  abbrev pub quality_of_gray : Option Gray → Option Quality
  quality_of_gray none = none
  quality_of_gray (some g) = some (record {
    passes = ltb 30000000 (laplacian_var g) && ltb 30000000 (mean g) && ltb (mean g) 230000000;
    blur = round_div (laplacian_var g) 100000;
    brightness = round_div (mean g) 100000;
  })

  -- `_check_quality`; `none`: it raises
  unfoldable pub check_quality : Image → Option Quality
  unfolding round_div
  check_quality i =
      if length i == 0 || width_of i == 0
      then some fails
      else if ltb (length i) 60 || ltb (width_of i) 60
      then some fails
      else quality_of_gray (gray i)

  -- `min(1.0, np.mean(variances) / 200.0) if variances else 0.5`, 1 being 200 millions
  abbrev pub texture_of : List Gray → ℕ
  texture_of [] = 100000000
  texture_of (b ∷ bs) = min 200000000 (mean_variance (b ∷ bs))

  abbrev pub skin_of : ℕ → ℕ
  skin_of ratio = if leb 150000 ratio && leb ratio 750000 then 160000000 else 80000000

  abbrev pub both : Option Gray → Option ℕ → ℕ
  both (some g) (some ratio) = texture_of (blocks g) + skin_of ratio
  both _ _ = 200000000

  -- `_heuristic_liveness`, 1 being 400 millions
  unfoldable pub heuristic_liveness : Image → ℕ
  unfolding blocks
  heuristic_liveness i = both (gray i) (skin_ratio i)

  abbrev pub read_output : Option Output → ℤ
  read_output none = no_model
  read_output (some o) =
      if leb 2 (last_dimension o) then or_no_model (softmax_second o) else or_no_model (scalar o)

  abbrev pub ml_of : Option Session → Image → ℤ
  ml_of none i = no_model
  ml_of (some s) i = read_output (infer s i)

  -- `_ml_antispoof`
  unfoldable pub ml_antispoof : InferencePipeline → Image → ℤ
  ml_antispoof p i = ml_of p.antispoof i

  -- `_compute_liveness`, 1 being 40 milliards
  unfoldable pub compute_liveness : InferencePipeline → Image → ℕ
  unfolding heuristic_liveness ml_antispoof weigh
  compute_liveness p i = weigh (ml_antispoof p i) (heuristic_liveness i)

  -- The result, less the latency; the score is in thousandths.
  pub record Result : Type 0 where
    pub vector : Embedding
    pub bbox : Box
    pub quality : Quality
    pub liveness_score : ℕ
    pub is_live : Bool
    pub points : Option Points

  -- `bbox.tolist()`
  abbrev pub whole_box : Box → Box
  whole_box b = record {
    x0 = truncate b.x0;
    y0 = truncate b.y0;
    x1 = truncate b.x1;
    y1 = truncate b.y1;
  }

  abbrev pub result_of :
      InferencePipeline → Image → Face → Quality → Option Embedding → Option Result
  result_of p i f q none = none
  result_of p i f q (some e) = some (record {
    vector = e;
    bbox = whole_box (box f);
    quality = q;
    liveness_score = round_div (compute_liveness p i) 40000000;
    is_live = leb (p.liveness_threshold * 40000) (compute_liveness p i);
    points = landmarks f;
  })

  abbrev pub if_passes : InferencePipeline → Image → Face → Option Quality → Option (Option Result)
  if_passes p i f none = none
  if_passes p i f (some q) = some (if q.passes then result_of p i f q (embedding f) else none)

  abbrev pub of_face : InferencePipeline → Image → Face → Option (Option Result)
  of_face p frame f = if_passes p (crop (box f) frame) f (check_quality (crop (box f) frame))

  abbrev pub of_faces : InferencePipeline → Image → Option (List Face) → Option (Option Result)
  of_faces p frame none = some none
  of_faces p frame (some []) = some none
  of_faces p frame (some (f ∷ fs)) = of_face p frame (largest box f fs)

  -- `process`: the result, if there is one; `none`: it raises
  unfoldable pub process : InferencePipeline → Image → Option (Option Result)
  unfolding largest area crop check_quality compute_liveness round_div truncate
  process p frame = of_faces p frame (detect frame)
