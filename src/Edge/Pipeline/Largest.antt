-- ===== src/Edge/Pipeline/Largest.antt =====
-- Which face a result is of, and what a result takes (edge/inference/pipeline.py).
use frass_f.Base.{
  ◌*◌, ◌≤◌, ◌<◌, ◌≡◌, refl, ◌↔◌, inl, inr, Bool, true, false, Option, none, some, List, [], ◌∷◌,
  leb, arith, if◌then◌else◌, length, All, Bool-cases, Option-cases,
}
use frass_f.Base.Int.{ℤ, ltb_ℤ, ◌≤ℤ◌}
use frass_f.Liveness.Vision.{Gray}
use frass_f.Edge.Pipeline.{
  Box, area, largest, Runtime, Quality, InferencePipeline, Result, Image, crop, check_quality,
  width_of, compute_liveness, process, of_faces, if_passes, result_of,
}

≤ℤ_trans : (a b c : ℤ) → a ≤ℤ b → b ≤ℤ c → a ≤ℤ c
≤ℤ_trans a b c h k = omega arith

-- What `largest` goes on with.
abbrev larger : {F : Type 0} → (F → Box) → F → F → F
larger box best f = if ltb_ℤ (area (box best)) (area (box f)) then f else best

larger-area :
    {F : Type 0} (box : F → Box) (best f : F)
    → (area (box best) ≤ℤ area (box (larger box best f)))
      × (area (box f) ≤ℤ area (box (larger box best f)))
larger-area box best f = elim (Bool-cases (ltb_ℤ (area (box best)) (area (box f)))) [
  | inl t ↦ rw t (ground arith, omega arith)
  | inr e ↦ rw e (omega arith, ground arith)
]

largest-area :
    {F : Type 0} (box : F → Box) (best : F) (fs : List F)
    → (area (box best) ≤ℤ area (box (largest box best fs)))
      × All (λ f. area (box f) ≤ℤ area (box (largest box best fs))) fs
unfolding largest
largest-area box best [] = (omega arith, tt)
largest-area box best (f ∷ fs) =
    let next = larger box best f in
    let (over, under) = larger-area box best f in
    let ih = largest-area box next fs in
    (
      ≤ℤ_trans (area (box best)) (area (box next)) _ over ih.0,
      (≤ℤ_trans (area (box f)) (area (box next)) _ under ih.0, ih.1),
    )

module _ (R : Runtime) where
  open R use {
    Pixel, Face, Embedding, Points, detect, box, landmarks, embedding, gray, laplacian_var, mean,
  }

  -- Of the faces in the frame the result is one of the largest, and it is found good.
  pub record FromFace (p : InferencePipeline R) (frame : Image R) (r : Result R) : Type 0 where
    pub face : Face
    pub first : Face
    pub rest : List Face
    pub detected : detect frame ≡ some (first ∷ rest)
    pub largest_of_all : All (λ f. area (box f) ≤ℤ area (box face)) (first ∷ rest)
    pub has_embedding : embedding face ≡ some r.vector
    pub tall : 60 ≤ length (crop R (box face) frame)
    pub wide : 60 ≤ width_of (crop R (box face) frame)
    pub view : Gray
    pub converted : gray (crop R (box face) frame) ≡ some view
    pub sharp : 30000000 < laplacian_var view
    pub bright : 30000000 < mean view
    pub not_overexposed : mean view < 230000000
    pub live_iff :
        (r.is_live ≡ true)
        ↔ (p.liveness_threshold * 40000 ≤ compute_liveness R p (crop R (box face) frame))

  check_quality-passes :
      (i : Image R) (q : Quality)
      → check_quality R i ≡ some q
      → q.passes ≡ true
      → (g : Gray) × (gray i ≡ some g)
        × (60 ≤ length i)
        × (60 ≤ width_of i)
        × (30000000 < laplacian_var g)
        × (30000000 < mean g)
        × (mean g < 230000000)
  unfolding check_quality
  check_quality-passes i q h p = elim (Option-cases (gray i)) [
    | inl e ↦ absurd (ground arith)
    | inr (g, e) ↦ (g, e, ground arith, ground arith, ground arith, ground arith, ground arith)
  ]

  -- The quality and the embedding of a face that gave a result.
  abbrev Used : InferencePipeline R → Image R → Face → Option Quality → Result R → Type 0
  Used p i f c r =
      (q : Quality) × (v : Embedding) × (c ≡ some q)
      × (q.passes ≡ true)
      × (embedding f ≡ some v)
      × (result_of R p i f q (some v) ≡ some r)

  if_passes-Used :
      (p : InferencePipeline R) (i : Image R) (f : Face) (c : Option Quality) (r : Result R)
      → if_passes R p i f c ≡ some (some r)
      → Used p i f c r
  if_passes-Used p i f none r h = absurd (ground arith)
  if_passes-Used p i f (some q) r h = go q.passes (embedding f) refl refl cc
    where
      go :
          (b : Bool) (e : Option Embedding)
          → q.passes ≡ b
          → embedding f ≡ e
          → (if b then result_of R p i f q e else none) ≡ some r
          → Used p i f (some q) r
      go false e t v k = absurd (ground arith)
      go true none t v k = absurd (ground arith)
      go true (some v) t w k = (q, v, refl, t, w, k)

  live_of :
      (p : InferencePipeline R) (i : Image R) (f : Face) (q : Quality) (v : Embedding)
      (r : Result R)
      → result_of R p i f q (some v) ≡ some r
      → (r.is_live ≡ true) ↔ (p.liveness_threshold * 40000 ≤ compute_liveness R p i)
  live_of p i f q v r k =
      let e : r.is_live ≡ leb (p.liveness_threshold * 40000) (compute_liveness R p i) =
        ground arith in
      rw e (ground arith)

  result-FromFace :
      (p : InferencePipeline R) (frame : Image R) (first : Face) (rest : List Face) (r : Result R)
      → detect frame ≡ some (first ∷ rest)
      → Used p
          (crop R (box (largest box first rest)) frame)
          (largest box first rest)
          (check_quality R (crop R (box (largest box first rest)) frame))
          r
      → FromFace p frame r
  result-FromFace p frame first rest r d (q, v, c, t, w, k) =
      let i = crop R (box (largest box first rest)) frame in
      let (g, e, tall, wide, sharp, bright, over) = check_quality-passes i q c t in
      record {
        face = largest box first rest;
        first = first;
        rest = rest;
        detected = d;
        largest_of_all = largest-area box first rest;
        has_embedding = ground arith;
        tall = tall;
        wide = wide;
        view = g;
        converted = e;
        sharp = sharp;
        bright = bright;
        not_overexposed = over;
        live_iff = live_of p i (largest box first rest) q v r k;
      }

  -- A result is of a face that none in the frame is larger than; its crop has at least 60 rows and
  -- columns, is sharp and neither dark nor overexposed, the embedding is that of the face, and it is
  -- live exactly when its liveness reaches the threshold.
  pub process-FromFace :
      (p : InferencePipeline R) (frame : Image R) (r : Result R)
      → process R p frame ≡ some (some r)
      → FromFace p frame r
  unfolding process
  process-FromFace p frame r h = go (detect frame) refl h
    where
      go :
          (o : Option (List Face))
          → detect frame ≡ o
          → of_faces R p frame o ≡ some (some r)
          → FromFace p frame r
      go none d k = absurd (ground arith)
      go (some []) d k = absurd (ground arith)
      go (some (f ∷ fs)) d k = result-FromFace p frame f fs r d (if_passes-Used p _ _ _ r k)
