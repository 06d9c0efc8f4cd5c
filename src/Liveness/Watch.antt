-- ===== src/Liveness/Watch.antt =====
-- The blink check over a sequence of frames (app/services/liveness.py).
use frass_f.Base.{
  ℕ, ◌-◌, ◌≤◌, ◌<◌, ◌≡◌, refl, ◌∙◌, ap, Option, none, some, List, [], ◌∷◌, ◌++◌, ltb, arith,
  if◌then◌else◌, length, drop, length-drop, is_empty, All, Bool-cases, inl, inr, Option-cases, min,
}
use frass_f.Liveness.Vision.{Vision, Gray}
use frass_f.Liveness.Blink.{
  half, remember, remember_all, remember_all-last, blink_score, blink_score-still, All-drop,
  blink_score-few, length-remember-le,
}
use frass_f.Liveness.Checks.{gray_of, eye_region, check_blink, blink_of}

module _ (V : Vision) where
  open V use {Image, gray, mean}

  -- The history after frames, from the first to the last.
  unfoldable pub watch : List (Option Image) → List ℕ → List ℕ
  unfolding check_blink
  watch [] history = history
  watch (i ∷ is) history = watch is (check_blink V i history).0

  -- The intensity of the eyes in a frame that shows them.
  abbrev pub intensity_of : Option Gray → List ℕ
  intensity_of none = []
  intensity_of (some g) = if is_empty (eye_region V g) then [] else mean (eye_region V g) ∷ []

  unfoldable pub intensities : List (Option Image) → List ℕ
  intensities [] = []
  intensities (i ∷ is) = intensity_of (gray_of V i) ++ intensities is

  watch_one :
      (g : Option Gray) (h rest : List ℕ)
      → remember_all rest (blink_of V g h).0 ≡ remember_all (intensity_of g ++ rest) h
  unfolding remember_all
  watch_one none h rest = refl
  watch_one (some g) h rest = elim (Bool-cases (is_empty (eye_region V g))) [
    | inl e ↦ rw e
    | inr e ↦ rw e
  ]

  watch-remember_all :
      (is : List (Option Image)) (h : List ℕ) → watch is h ≡ remember_all (intensities is) h
  unfolding watch intensities remember_all
  watch-remember_all [] h = refl
  watch-remember_all (i ∷ is) h =
      watch-remember_all is (blink_of V (gray_of V i) h).0
      ∙ watch_one (gray_of V i) h (intensities is)

  -- From an empty history the frames leave the intensities of the last 30 that show the eyes.
  pub watch-last :
      (is : List (Option Image))
      → watch is [] ≡ drop (length (intensities is) - 30) (intensities is)
  watch-last is =
      watch-remember_all is []
      ∙ remember_all-last (intensities is) [] (omega arith)
      ∙ ap (λ (n : ℕ). drop n (intensities is)) (omega arith)

  length-drop_end : (ks : List ℕ) → length (drop (length ks - 30) ks) ≡ min 30 (length ks)
  length-drop_end ks = omega (arith, length-drop (length ks - 30) ks)

  -- In a sequence of frames of one intensity, as of a photo, the blink score is 0.2 as soon as ten
  -- frames showed the eyes, and 0.5 before.
  pub still-score :
      (is : List (Option Image)) (c : ℕ)
      → All (λ v. v ≡ c) (intensities is)
      → blink_score (watch is []) ≡ (if ltb (length (intensities is)) 10 then half else 200000)
  still-score is c h = elim (Bool-cases (ltb (length (intensities is)) 10)) [
    | inl t ↦
        rw t (
          rw (watch-last is) (blink_score-few _ (ground (arith, length-drop_end (intensities is)))))
    | inr f ↦ rw f (
        rw (watch-last is) (
          blink_score-still c _ (All-drop (λ v. v ≡ c) _ (intensities is) h)
            (ground (arith, length-drop_end (intensities is)))))
  ]

  length-intensities : (is : List (Option Image)) → length (intensities is) ≤ length is
  unfolding intensities
  length-intensities [] = omega arith
  length-intensities (i ∷ is) = elim (Option-cases (gray_of V i)) [
    | inl e ↦ rw e (omega (arith, length-intensities is))
    | inr (g, e) ↦ rw e (ground (arith, length-intensities is))
  ]

  length-watch : (is : List (Option Image)) → length (watch is []) ≤ length is
  length-watch is =
      rw (watch-last is) (omega (arith, length-drop_end (intensities is), length-intensities is))

  blink_of-few : (g : Option Gray) (h : List ℕ) → length h < 9 → (blink_of V g h).1 ≡ half
  blink_of-few none h k = refl
  blink_of-few (some g) h k = ground (
    arith,
    length-remember-le (mean (eye_region V g)) h,
    blink_score-few (remember (mean (eye_region V g)) h),
  )

  -- A detector that is new to every frame learns nothing: below ten frames the score is 0.5.
  pub few-score :
      (is : List (Option Image)) (roi : Option Image)
      → length is < 9
      → (check_blink V roi (watch is [])).1 ≡ half
  unfolding check_blink
  few-score is roi h = blink_of-few (gray_of V roi) (watch is []) (omega (arith, length-watch is))
