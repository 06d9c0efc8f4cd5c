-- ===== src/Base/Sorted.antt =====
-- Rows in an order, as `order_by` gives them.
pub mod Times
use frass_f.Base.Tests.{leb, if◌then◌else◌, Bool-cases}
use frass_f.Base.Lists.{All, count_if, keep_if, take, drop, length}
use Prim.Native.Nat.{ℕ, zero, suc}
use mathlib.Core.Path.{◌≡◌, refl}
use mathlib.Core.Bool.{Bool, true, false, ◌&&◌}
use mathlib.Core.List.{List, [], ◌∷◌}
use mathlib.Core.Logic.{inl, inr}
use native.Mathlib.Omega.{arith}

module _ {A : Type 0} (before : A → A → Bool) where
  -- A row goes before those that it may be before: equal rows stay in the order of the table.
  unfoldable pub insert_row : A → List A → List A
  insert_row l [] = l ∷ []
  insert_row l (m ∷ ms) = if before l m then l ∷ m ∷ ms else m ∷ insert_row l ms

  unfoldable pub sort : List A → List A
  unfolding insert_row
  sort [] = []
  sort (l ∷ ls) = insert_row l (sort ls)

  -- Each row may be before all that follow it.
  abbrev pub Ordered : List A → Type 0
  Ordered [] = Unit
  Ordered (l ∷ ls) = All (λ m. before l m ≡ true) ls × Ordered ls

  pub insert-All : (P : A → Type 0) (l : A) (ms : List A) → P l → All P ms → All P (insert_row l ms)
  unfolding insert_row
  insert-All P l [] h k = (h, tt)
  insert-All P l (m ∷ ms) h k = elim (Bool-cases (before l m)) [
    | inl t ↦ rw t (h, k)
    | inr f ↦ rw f (k.0, insert-All P l ms h k.1)
  ]

  pub sort-All : (P : A → Type 0) (ls : List A) → All P ls → All P (sort ls)
  unfolding sort
  sort-All P [] h = tt
  sort-All P (l ∷ ls) h = insert-All P l (sort ls) h.0 (sort-All P ls h.1)

  pub count-insert :
      (p : A → Bool) (l : A) (ms : List A) → count_if p (insert_row l ms) ≡ count_if p (l ∷ ms)
  unfolding insert_row
  count-insert p l [] = refl
  count-insert p l (m ∷ ms) = ground (arith, count-insert p l ms)

  pub count-sort : (p : A → Bool) (ls : List A) → count_if p (sort ls) ≡ count_if p ls
  unfolding sort
  count-sort p [] = refl
  count-sort p (l ∷ ls) = ground (arith, count-insert p l (sort ls), count-sort p ls)

  pub count-keep :
      (q p : A → Bool) (ls : List A) → count_if p (keep_if q ls) ≡ count_if (λ l. q l && p l) ls
  count-keep q p [] = refl
  count-keep q p (l ∷ ls) = ground (arith, count-keep q p ls)

  pub keep-All : (q : A → Bool) (ls : List A) → All (λ l. q l ≡ true) (keep_if q ls)
  keep-All q [] = tt
  keep-All q (l ∷ ls) = elim (Bool-cases (q l)) [
    | inl t ↦ rw t (t, keep-All q ls)
    | inr f ↦ rw f (keep-All q ls)
  ]

  -- All of a list that has a front and a rest, and the order between them.
  pub front : (n : ℕ) (P : A → Type 0) (ls : List A) → All P ls → All P (take n ls)
  front zero P ls h = tt
  front (suc n) P [] h = tt
  front (suc n) P (l ∷ ls) h = (h.0, front n P ls h.1)

  pub front-Ordered : (n : ℕ) (ls : List A) → Ordered ls → Ordered (take n ls)
  front-Ordered zero ls h = tt
  front-Ordered (suc n) [] h = tt
  front-Ordered (suc n) (l ∷ ls) h =
      (front n (λ m. before l m ≡ true) ls h.0, front-Ordered n ls h.1)

  pub back : (n : ℕ) (P : A → Type 0) (ls : List A) → All P ls → All P (drop n ls)
  back zero P ls h = h
  back (suc n) P [] h = tt
  back (suc n) P (l ∷ ls) h = back n P ls h.1

  -- Every row in front may be before every row of the rest.
  pub between :
      (n : ℕ) (ls : List A)
      → Ordered ls
      → All (λ l. All (λ m. before l m ≡ true) (drop n ls)) (take n ls)
  between zero ls h = tt
  between (suc n) [] h = tt
  between (suc n) (l ∷ ls) h = (back n (λ m. before l m ≡ true) ls h.0, between n ls h.1)

  length-insert : (l : A) (ms : List A) → length (insert_row l ms) ≡ suc (length ms)
  unfolding insert_row
  length-insert l [] = refl
  length-insert l (m ∷ ms) = ground (arith, length-insert l ms)

  pub length-sort : (ls : List A) → length (sort ls) ≡ length ls
  unfolding sort
  length-sort [] = refl
  length-sort (l ∷ ls) = omega (arith, length-insert l (sort ls), length-sort ls)

  module _ (trans : (a b c : A) → before a b ≡ true → before b c ≡ true → before a c ≡ true)
      (total : (a b : A) → before a b ≡ false → before b a ≡ true) where
    later-All :
        (l m : A) (ms : List A)
        → before l m ≡ true
        → All (λ x. before m x ≡ true) ms
        → All (λ x. before l x ≡ true) ms
    later-All l m [] h k = tt
    later-All l m (x ∷ ms) h k = (trans l m x h k.0, later-All l m ms h k.1)

    insert-Ordered : (l : A) (ms : List A) → Ordered ms → Ordered (insert_row l ms)
    unfolding insert_row
    insert-Ordered l [] h = (tt, tt)
    insert-Ordered l (m ∷ ms) h = elim (Bool-cases (before l m)) [
      | inl t ↦ rw t ((t, later-All l m ms t h.0), h)
      | inr f ↦
          rw f (insert-All (λ x. before m x ≡ true) l ms (total l m f) h.0, insert-Ordered l ms h.1)
    ]

    pub sort-Ordered : (ls : List A) → Ordered (sort ls)
    unfolding sort
    sort-Ordered [] = tt
    sort-Ordered (l ∷ ls) = insert-Ordered l (sort ls) (sort-Ordered ls)

-- From the newest to the oldest, by a time of each row.
abbrev pub newer : {A : Type 0} → (A → ℕ) → A → A → Bool
newer time l m = leb (time m) (time l)

pub newer-Ordered :
    {A : Type 0} (time : A → ℕ) (ls : List A) → Ordered (newer time) (sort (newer time) ls)
newer-Ordered {A} time ls =
    sort-Ordered (newer time) (λ (a b c : A) h k. ground arith) (λ (a b : A) h. ground arith) ls
