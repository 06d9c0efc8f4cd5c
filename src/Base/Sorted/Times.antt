-- ===== src/Base/Sorted/Times.antt =====
-- The times of rows in an order: two orders of the same rows have the same list of times.
use frass_f.Base.Tests.{ltb, leb}
use frass_f.Base.Lists.{All, count_if, take, drop}
use frass_f.Base.Sorted.{Ordered, newer}
use Prim.Native.Nat.{ℕ, zero, suc, ◌≤◌}
use mathlib.Core.Path.{◌≡◌, refl, sym, ap, ◌∙◌}
use mathlib.Core.Bool.{Bool, true}
use mathlib.Core.List.{List, [], ◌∷◌, map}
use native.Mathlib.Omega.{arith}

-- From the latest to the earliest.
abbrev pub Latest : List ℕ → Type 0
Latest ts = Ordered (newer (λ (t : ℕ). t)) ts

none_later : (t : ℕ) (ts : List ℕ) → All (λ u. leb u t ≡ true) ts → count_if (λ u. ltb t u) ts ≡ 0
none_later t [] h = refl
none_later t (u ∷ ts) h = ground (arith, none_later t ts h.1)

head-le :
    (t u : ℕ) (ts us : List ℕ)
    → All (λ v. leb v u ≡ true) us
    → ((p : ℕ → Bool) → count_if p (t ∷ ts) ≡ count_if p (u ∷ us))
    → t ≤ u
head-le t u ts us h same = let e = same (λ v. ltb u v) in let z = none_later u us h in ground arith

tail-same :
    (t u : ℕ) (ts us : List ℕ)
    → t ≡ u
    → ((p : ℕ → Bool) → count_if p (t ∷ ts) ≡ count_if p (u ∷ us))
    → (p : ℕ → Bool) → count_if p ts ≡ count_if p us
tail-same t u ts us e same p = let h = same p in let q = ap p e in ground arith

pub same_counts_same :
    (ts us : List ℕ)
    → Latest ts
    → Latest us
    → ((p : ℕ → Bool) → count_if p ts ≡ count_if p us)
    → ts ≡ us
same_counts_same [] [] h k same = refl
same_counts_same [] (u ∷ us) h k same = let e = same (λ v. true) in absurd (ground arith)
same_counts_same (t ∷ ts) [] h k same = let e = same (λ v. true) in absurd (ground arith)
same_counts_same (t ∷ ts) (u ∷ us) h k same =
    let below = head-le t u ts us k.0 same in
    let above = head-le u t us ts h.0 (λ p. sym (same p)) in
    let e : t ≡ u = omega arith in
    ap (λ (v : ℕ). v ∷ ts) e
    ∙ ap (λ (vs : List ℕ). u ∷ vs) (same_counts_same ts us h.1 k.1 (tail-same t u ts us e same))

module _ {A : Type 0} (time : A → ℕ) where
  pub count-map :
      (p : ℕ → Bool) (xs : List A) → count_if p (map time xs) ≡ count_if (λ x. p (time x)) xs
  count-map p [] = refl
  count-map p (x ∷ xs) = ground (arith, count-map p xs)

  times-All :
      (t : ℕ) (xs : List A)
      → All (λ x. leb (time x) t ≡ true) xs
      → All (λ u. leb u t ≡ true) (map time xs)
  times-All t [] h = tt
  times-All t (x ∷ xs) h = (h.0, times-All t xs h.1)

  pub times-Latest : (xs : List A) → Ordered (newer time) xs → Latest (map time xs)
  times-Latest [] h = tt
  times-Latest (x ∷ xs) h = (times-All (time x) xs h.0, times-Latest xs h.1)

  -- Two orders of the same rows, each from the newest to the oldest, have the same times.
  pub times-same :
      (xs ys : List A)
      → Ordered (newer time) xs
      → Ordered (newer time) ys
      → ((p : A → Bool) → count_if p xs ≡ count_if p ys)
      → map time xs ≡ map time ys
  times-same xs ys h k same =
      same_counts_same (map time xs) (map time ys) (times-Latest xs h) (times-Latest ys k)
        (λ p. count-map p xs ∙ same (λ x. p (time x)) ∙ sym (count-map p ys))

  pub map-take : (n : ℕ) (xs : List A) → map time (take n xs) ≡ take n (map time xs)
  map-take zero xs = refl
  map-take (suc n) [] = refl
  map-take (suc n) (x ∷ xs) = ap (λ (ts : List ℕ). time x ∷ ts) (map-take n xs)

  pub map-drop : (n : ℕ) (xs : List A) → map time (drop n xs) ≡ drop n (map time xs)
  map-drop zero xs = refl
  map-drop (suc n) [] = refl
  map-drop (suc n) (x ∷ xs) = map-drop n xs
