-- ===== src/Edge/Pipeline/Crop.antt =====
-- What the slice of a box that begins above the frame holds (edge/inference/pipeline.py).
use frass_f.Base.{ℕ, ◌+◌, ◌-◌, ◌≤◌, ◌≡◌, ap, none, some, List, [], ◌∷◌, map, length, min, arith}
use frass_f.Base.Int.{pos, negsuc}
use frass_f.Edge.Pipeline.{
  Box, slice, truncate, largest, Runtime, InferencePipeline, Image, crop, check_quality, process,
}

slice_empty {ℓ} :
    {A : Type ℓ} (k n : ℕ) (xs : List A) → n + k + 1 ≤ length xs → slice (negsuc k) (pos n) xs ≡ []
unfolding slice
slice_empty k n xs h = let e : min n (length xs) - (length xs - (k + 1)) ≡ 0 = omega arith in rw e

module _ (R : Runtime) where
  open R use {Pixel, Face, detect, box}

  crop_empty :
      (b : Box) (frame : Image R) (k n : ℕ)
      → truncate b.y0 ≡ negsuc k
      → truncate b.y1 ≡ pos n
      → n + k + 1 ≤ length frame
      → crop R b frame ≡ []
  unfolding crop
  crop_empty b frame k n e f h =
      rw (e, f)
        (ap (map (λ (r : List Pixel). slice (truncate b.x0) (truncate b.x1) r))
          (slice_empty k n frame h))

  -- Where the largest face begins above the frame, so that the first row of its box is negative, and
  -- its box ends before the row that counts as the first one from the end, there is no result,
  -- whatever the frame shows.
  pub above_gives_none :
      (p : InferencePipeline R) (frame : Image R) (first : Face) (rest : List Face) (k n : ℕ)
      → detect frame ≡ some (first ∷ rest)
      → truncate (box (largest box first rest)).y0 ≡ negsuc k
      → truncate (box (largest box first rest)).y1 ≡ pos n
      → n + k + 1 ≤ length frame
      → process R p frame ≡ some none
  unfolding process check_quality
  above_gives_none p frame first rest k n d e f h =
      rw d (rw (crop_empty (box (largest box first rest)) frame k n e f h))
