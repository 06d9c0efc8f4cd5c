-- ===== src/Liveness/Blink.antt =====
-- The history of the eye's intensities and what `_check_blink` reads from it
-- (app/services/liveness.py).
use mathlib.Core.List.{append_assoc}
use frass_f.Base.{
  ℕ, zero, suc, ◌+◌, ◌-◌, ◌*◌, ◌≤◌, ◌<◌, ◌≡◌, refl, sym, ap, ◌∙◌, ◌&&◌, List, [], ◌∷◌, ◌++◌, max,
  ltb, leb, arith, if◌then◌else◌, length, drop, length-append, length-drop, Bool-cases, inl, inr,
  All,
}

abbrev pub half : ℕ
half = 500000

-- The end of the history: `append`, and `pop(0)` past 30 values.
unfoldable pub remember : ℕ → List ℕ → List ℕ
remember v history =
    let longer = history ++ (v ∷ []) in if ltb 30 (length longer) then drop 1 longer else longer

abbrev pub distance : ℕ → ℕ → ℕ
distance a b = if leb a b then b - a else a - b

-- `np.abs(np.diff(intensities))`
unfoldable pub diffs : List ℕ → List ℕ
diffs [] = []
diffs (a ∷ []) = []
diffs (a ∷ b ∷ r) = distance a b ∷ diffs (b ∷ r)

unfoldable pub total : List ℕ → ℕ
total [] = 0
total (d ∷ ds) = d + total ds

unfoldable pub largest : List ℕ → ℕ
largest [] = 0
largest (d ∷ ds) = max d (largest ds)

-- The largest and the mean difference, `sum / n`, against their thresholds, with the sides multiplied
-- by n; the spike ratio is the largest over the mean plus a millionth.
unfoldable pub spike_score : ℕ → ℕ → ℕ → ℕ
spike_score n mx sum =
    if ltb (3 * (sum + n)) (mx * n) && ltb 5000000 mx
    then 900000
    else if ltb (2 * (sum + n)) (mx * n) && ltb 3000000 mx
    then 700000
    else if ltb sum (500000 * n)
    then 200000
    else if ltb sum (1000000 * n)
    then 400000
    else 600000

unfoldable pub blink_score : List ℕ → ℕ
unfolding diffs total largest spike_score
blink_score history =
    if ltb (length history) 10
    then half
    else spike_score (length (diffs history)) (largest (diffs history)) (total (diffs history))

-- The intensities of the frames, one by one.
unfoldable pub remember_all : List ℕ → List ℕ → List ℕ
unfolding remember
remember_all [] history = history
remember_all (v ∷ vs) history = remember_all vs (remember v history)

pub length-remember :
    (v : ℕ) (history : List ℕ) → length history ≤ 30 → length (remember v history) ≤ 30
unfolding remember
length-remember v history h =
    ground (arith, length-append history (v ∷ []), length-drop 1 (history ++ (v ∷ [])))

drop_past : (h v : List ℕ) → drop (length h) (h ++ v) ≡ v
drop_past [] v = refl
drop_past (x ∷ h) v = drop_past h v

-- One more frame, with the history full or not.
remember_full :
    (v x : ℕ) (h vs : List ℕ)
    → length (x ∷ h) ≡ 30
    → remember v (x ∷ h) ++ vs ≡ drop 1 ((x ∷ h) ++ (v ∷ vs))
unfolding remember
remember_full v x h vs e = elim (Bool-cases (ltb 30 (length ((x ∷ h) ++ (v ∷ []))))) [
  | inl t ↦ rw t (append_assoc h (v ∷ []) vs)
  | inr f ↦ absurd (ground (arith, length-append (x ∷ h) (v ∷ [])))
]

remember_more : (v : ℕ) (h vs : List ℕ) → length h < 30 → remember v h ++ vs ≡ h ++ (v ∷ vs)
unfolding remember
remember_more v h vs e = elim (Bool-cases (ltb 30 (length (h ++ (v ∷ []))))) [
  | inl t ↦ absurd (ground (arith, length-append h (v ∷ [])))
  | inr f ↦ rw f (append_assoc h (v ∷ []) vs)
]

length-remember_more : (v : ℕ) (h : List ℕ) → length h < 30 → length (remember v h) ≡ length h + 1
unfolding remember
length-remember_more v h e = ground (arith, length-append h (v ∷ []))

length-remember_full : (v : ℕ) (h : List ℕ) → length h ≡ 30 → length (remember v h) ≡ 30
unfolding remember
length-remember_full v h e = ground (arith, length-append h (v ∷ []), length-drop 1 (h ++ (v ∷ [])))

append-nil_right : (h : List ℕ) → h ++ [] ≡ h
append-nil_right [] = refl
append-nil_right (x ∷ h) = ap (λ (r : List ℕ). x ∷ r) (append-nil_right h)

full_step :
    (v : ℕ) (g vs : List ℕ)
    → length g ≡ 30
    → remember_all vs (remember v g)
      ≡ drop (length (remember v g) + length vs - 30) (remember v g ++ vs)
    → remember_all vs (remember v g) ≡ drop (length g + suc (length vs) - 30) (g ++ (v ∷ vs))
full_step v [] vs e ih = absurd (omega arith)
full_step v (x ∷ g) vs e ih =
    let a : 30 + length vs - 30 ≡ length vs = omega arith in
    let b : length (x ∷ g) + suc (length vs) - 30 ≡ suc (length vs) = omega arith in
    ih ∙ rw (length-remember_full v (x ∷ g) e) (rw a (rw b (rw (remember_full v x g vs e))))

-- From a history of at most 30 values the frames leave the last 30 of all.
pub remember_all-last :
    (vs h : List ℕ) → length h ≤ 30 → remember_all vs h ≡ drop (length h + length vs - 30) (h ++ vs)
unfolding remember_all
remember_all-last [] h k =
    let e : length h + 0 - 30 ≡ 0 = omega arith in rw e (sym (append-nil_right h))
remember_all-last (v ∷ vs) h k = elim (Bool-cases (ltb (length h) 30)) [
  | inl t ↦
      let s : length h < 30 = ground arith in
      remember_all-last vs (remember v h) (omega (arith, length-remember_more v h s))
      ∙ rw (length-remember_more v h s)
          (rw (remember_more v h vs s) (ap (λ (n : ℕ). drop n (h ++ (v ∷ vs))) (omega arith)))
  | inr f ↦
      let e : length h ≡ 30 = ground arith in
      full_step v h vs e
        (remember_all-last vs (remember v h) (omega (arith, length-remember_full v h e)))
]

-- Frames of one intensity have no differences.
diffs_still :
    (c : ℕ) (h : List ℕ)
    → All (λ v. v ≡ c) h
    → (length (diffs h) ≡ length h - 1) × (largest (diffs h) ≡ 0) × (total (diffs h) ≡ 0)
unfolding diffs largest total
diffs_still c [] k = omega arith
diffs_still c (a ∷ []) k = omega arith
diffs_still c (a ∷ b ∷ r) k = ground (arith, diffs_still c (b ∷ r) k.1, k.0, k.1.0)

pub blink_score-still :
    (c : ℕ) (h : List ℕ) → All (λ v. v ≡ c) h → 10 ≤ length h → blink_score h ≡ 200000
unfolding blink_score spike_score
blink_score-still c h k n = ground (arith, diffs_still c h k)

pub All-drop : (P : ℕ → Type 0) (n : ℕ) (h : List ℕ) → All P h → All P (drop n h)
All-drop P zero h k = k
All-drop P (suc n) [] k = tt
All-drop P (suc n) (x ∷ h) k = All-drop P n h k.1

pub blink_score_bounds : (h : List ℕ) → (200000 ≤ blink_score h) × (blink_score h ≤ 900000)
unfolding blink_score spike_score
blink_score_bounds h = ground arith

pub blink_score-few : (h : List ℕ) → length h < 10 → blink_score h ≡ half
unfolding blink_score
blink_score-few h k = ground arith

pub length-remember-le : (v : ℕ) (h : List ℕ) → length (remember v h) ≤ length h + 1
unfolding remember
length-remember-le v h = ground (arith, length-append h (v ∷ []), length-drop 1 (h ++ (v ∷ [])))
