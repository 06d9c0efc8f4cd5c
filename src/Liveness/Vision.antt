-- ===== src/Liveness/Vision.antt =====
-- The images, what OpenCV and numpy measure on them, and the quality of a face
-- (app/services/liveness.py). A measured value is an integer in millionths.
use frass_f.Base.{
  ℕ, ◌+◌, ◌*◌, ◌/◌, ◌%◌, Bool, true, false, ◌&&◌, ◌||◌, Option, none, some, List, [], ◌∷◌, ltb,
  ◌==◌, if◌then◌else◌,
}

-- A gray image: its rows.
abbrev pub Gray : Type 0
Gray = List (List ℕ)

-- What is called of OpenCV and numpy; `none` is an exception. `gray` is `cvtColor` of an image with
-- three dimensions, and the image itself of another; `texture` is the mean and the deviation of the
-- variances of the blocks; `peak_ratio` has `some none` where the band holds no point; `spread` is the
-- deviation of the two depths of five landmarks; `skin_ratio` is the share of the skin mask.
pub record Vision : Type 1 where
  pub Image : Type 0
  pub Landmarks : Type 0
  pub height : Image → ℕ
  pub width : Image → ℕ
  pub gray : Image → Option Gray
  pub laplacian_var : Gray → ℕ
  pub mean : Gray → ℕ
  pub texture : List Gray → ℕ × ℕ
  pub peak_ratio : Gray → Option (Option ℕ)
  pub points : Landmarks → ℕ
  pub is_five_by_two : Landmarks → Bool
  pub spread : Landmarks → Option ℕ
  pub skin_ratio : Image → Option ℕ

-- `round`, of a quotient: to the nearest, and to the even one of two that are as near.
unfoldable pub round_div : ℕ → ℕ → ℕ
round_div n d =
    let q = n / d in
    if ltb (2 * (n % d)) d then q else if ltb d (2 * (n % d)) then q + 1 else q + q % 2

-- What the text of the reason is made of.
pub data QualityReason : Type 0 where
  empty_region : QualityReason
  too_small : ℕ → ℕ → QualityReason
  blurry : ℕ → QualityReason
  poor_lighting : ℕ → QualityReason

-- The blur score and the brightness are in tenths; with no reason the text is 'Quality OK'.
pub record FaceQuality : Type 0 where
  pub blur_score : ℕ
  pub brightness : ℕ
  pub resolution_ok : Bool
  pub quality_pass : Bool
  pub reason : List QualityReason

abbrev refused : QualityReason → FaceQuality
refused r = record {
  blur_score = 0;
  brightness = 0;
  resolution_ok = false;
  quality_pass = false;
  reason = r ∷ [];
}

abbrev unless : Bool → QualityReason → List QualityReason → List QualityReason
unless true r rs = rs
unless false r rs = r ∷ rs

-- The blur threshold is 50, and the brightness lies between 40 and 220.
abbrev pub is_sharp : ℕ → Bool
is_sharp v = ltb 50000000 v

abbrev pub is_bright_enough : ℕ → Bool
is_bright_enough b = ltb 40000000 b && ltb b 220000000

abbrev pub measured : ℕ → ℕ → FaceQuality
measured v b = record {
  blur_score = round_div v 100000;
  brightness = round_div b 100000;
  resolution_ok = true;
  quality_pass = is_sharp v && is_bright_enough b;
  reason = unless (is_sharp v) (blurry v) (unless (is_bright_enough b) (poor_lighting b) []);
}

module _ (V : Vision) where
  open V use {Image, height, width, gray, laplacian_var, mean}

  -- `face_roi.size == 0`
  abbrev pub has_no_pixel : Image → Bool
  has_no_pixel i = height i == 0 || width i == 0

  abbrev pub quality_of_gray : Option Gray → Option FaceQuality
  quality_of_gray none = none
  quality_of_gray (some g) = some (measured (laplacian_var g) (mean g))

  abbrev pub quality_of : Image → Option FaceQuality
  quality_of i =
      if has_no_pixel i
      then some (refused empty_region)
      else if ltb (height i) 80 || ltb (width i) 80
      then some (refused (too_small (width i) (height i)))
      else quality_of_gray (gray i)

  -- `check_face_quality`; `none`: the conversion to gray raises
  unfoldable pub check_face_quality : Option Image → Option FaceQuality
  unfolding round_div
  check_face_quality none = some (refused empty_region)
  check_face_quality (some i) = quality_of i
