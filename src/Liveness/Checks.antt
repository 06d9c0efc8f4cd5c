-- ===== src/Liveness/Checks.antt =====
-- The heuristic checks of `LivenessDetector` (app/services/liveness.py), each a score in millionths;
-- an exception gives 0.5.
use frass_f.Base.{
  ℕ, ◌+◌, ◌*◌, ◌/◌, ◌&&◌, ◌||◌, Option, none, some, List, min, ltb, leb, if◌then◌else◌, length,
  take, is_empty,
}
use frass_f.Liveness.Vision.{Vision, Gray, has_no_pixel}
use frass_f.Liveness.Blocks.{blocks, width_of}
use frass_f.Liveness.Blink.{half, remember, blink_score}

-- The variances' mean and deviation: their ratio lies between 0.3 and 2.5, or not.
unfoldable pub texture_score : ℕ × ℕ → ℕ
texture_score (mean, std) =
    if ltb mean 10000000
    then 200000
    else if ltb 500000000 mean
    then 700000
    else if leb (3 * (mean + 1)) (10 * std) && leb (10 * std) (25 * (mean + 1))
    then min 1000000 (half + std * 200000 / (mean + 1))
    else 400000

unfoldable pub moire_score : ℕ → ℕ
moire_score ratio =
    if ltb 8000000 ratio
    then 200000
    else if ltb 5000000 ratio
    then 400000
    else if ltb 3000000 ratio
    then 600000
    else 800000

unfoldable pub depth_score : ℕ → ℕ
depth_score spread =
    if ltb 80000 spread
    then 800000
    else if ltb 40000 spread
    then 600000
    else if ltb 20000 spread
    then 400000
    else 200000

unfoldable pub skin_score : ℕ → ℕ
skin_score ratio =
    if leb 150000 ratio && leb ratio 750000
    then 800000
    else if leb 80000 ratio && leb ratio 850000
    then 600000
    else if ltb ratio 50000
    then 200000
    else 400000

-- `_check_depth` without the landmarks' parameter: the deviation, if there is one.
abbrev pub or_half : (ℕ → ℕ) → Option ℕ → ℕ
or_half score none = half
or_half score (some v) = score v

module _ (V : Vision) where
  open V use {
    Image, Landmarks, gray, mean, texture, peak_ratio, points, is_five_by_two, spread, skin_ratio,
  }

  -- The check of a gray image; `none`: the face is missing or empty, or the conversion failed.
  abbrev pub gray_of : Option Image → Option Gray
  gray_of none = none
  gray_of (some i) = if has_no_pixel V i then none else gray i

  abbrev pub texture_of : List Gray → ℕ
  texture_of bs = if is_empty bs then half else texture_score (texture bs)

  abbrev pub texture_of_gray : Option Gray → ℕ
  texture_of_gray none = half
  texture_of_gray (some g) =
      if ltb (length g) 10 || ltb (width_of g) 10 then half else texture_of (blocks g)

  -- `_check_texture`
  unfoldable pub check_texture : Option Image → ℕ
  unfolding texture_score blocks
  check_texture roi = texture_of_gray (gray_of roi)

  abbrev pub moire_of : Option (Option ℕ) → ℕ
  moire_of none = half
  moire_of (some ratio) = or_half moire_score ratio

  abbrev pub moire_of_gray : Option Gray → ℕ
  moire_of_gray none = half
  moire_of_gray (some g) = moire_of (peak_ratio g)

  -- `_check_moire`
  unfoldable pub check_moire : Option Image → ℕ
  unfolding moire_score
  check_moire roi = moire_of_gray (gray_of roi)

  -- `_check_depth`
  unfoldable pub check_depth : Option Landmarks → ℕ
  unfolding depth_score
  check_depth none = half
  check_depth (some l) =
      if ltb (points l) 5
      then half
      else if is_five_by_two l
      then or_half depth_score (spread l)
      else half

  -- `gray[:int(h * 0.45), :]`
  abbrev pub eye_region : Gray → Gray
  eye_region g = take (length g * 45 / 100) g

  abbrev pub blink_of : Option Gray → List ℕ → List ℕ × ℕ
  blink_of none history = (history, half)
  blink_of (some g) history = if is_empty (eye_region g) then (history, half) else (
    remember (mean (eye_region g)) history,
    blink_score (remember (mean (eye_region g)) history),
  )

  -- `_check_blink`: the history after it, and the score
  unfoldable pub check_blink : Option Image → List ℕ → List ℕ × ℕ
  unfolding remember blink_score
  check_blink roi history = blink_of (gray_of roi) history

  abbrev pub skin_of : Image → ℕ
  skin_of i = if has_no_pixel V i then half else or_half skin_score (skin_ratio i)

  -- `_check_colorspace`
  unfoldable pub check_colorspace : Option Image → ℕ
  unfolding skin_score
  check_colorspace none = half
  check_colorspace (some i) = skin_of i
