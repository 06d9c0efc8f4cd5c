-- ===== src/Matching.antt =====
-- The linear scan for the nearest known embedding: `_recognize_linear`
-- (app/services/face_engine.py), which backend/app.py repeats. Scores are integers in a fixed small
-- unit; `dot` is numpy's, which raises (`none`) on two lengths that differ.
pub mod Optimal
pub mod Tests
use frass_f.Base.{
  ℕ, Option, none, some, List, [], ◌∷◌, ◌*◌, ◌+◌, ◌-◌, ◌/◌, ◌%◌, ltb, Bool, ◌==◌, ◌||◌, ◌&&◌,
  if◌then◌else◌,
}
use frass_f.Base.Int.{ℤ, pos, negsuc, ltb_ℤ, leb_ℤ}

-- A score of 1.0.
abbrev pub one : ℕ
one = 1000000

-- The known embeddings of each person, a dict in insertion order.
abbrev pub Known : Type 0 → Type 0
Known E = List (ℕ × List E)

-- `best_id` and `best_score`
pub record Best : Type 0 where
  pub id : Option ℕ
  pub score : ℤ

abbrev pub no_best : Best
no_best = record { id = none; score = pos 0 }

module _ {E : Type 0} (dot : E → E → Option ℤ) (query : E) where
  unfoldable pub better : ℕ → ℤ → Best → Best
  better id score b = if ltb_ℤ b.score score then record { id = some id; score = score } else b

  -- The inner loop, over the embeddings of one person.
  unfoldable pub scan_person : ℕ → List E → Best → Option Best
  unfolding better
  scan_person id [] b = some b
  scan_person id (e ∷ es) b = elim (dot query e) [
    | none ↦ none
    | some score ↦ scan_person id es (better id score b)
  ]

  unfoldable pub scan : Known E → Best → Option Best
  unfolding scan_person
  scan [] b = some b
  scan ((id, es) ∷ known) b = elim (scan_person id es b) [ none ↦ none | some b' ↦ scan known b' ]

-- `round(score * 100, 1)` in tenths of a percent: a tie goes to the even neighbour.
unfoldable pub round_half_even : ℕ → ℕ → ℕ
round_half_even n unit =
    let q = n / unit in
    let r = 2 * (n % unit) in if ltb unit r || (r == unit && q % 2 == 1) then q + 1 else q

abbrev negate : ℕ → ℤ
negate n = if n == 0 then pos 0 else negsuc (n - 1)

unfoldable pub percent : ℤ → ℤ
unfolding round_half_even
percent (pos n) = pos (round_half_even n 1000)
percent (negsuc n) = negate (round_half_even (n + 1) 1000)

-- What the scan answers: the person, if the best score reaches the threshold, and the confidence.
unfoldable pub decide_match : ℤ → Best → Option ℕ × ℤ
unfolding percent
decide_match threshold b =
    if leb_ℤ threshold b.score then (b.id, percent b.score) else (none, percent b.score)

-- `_recognize_linear`, on a snapshot of the known embeddings.
module _ {E : Type 0} (dot : E → E → Option ℤ) (query : E) where
  unfoldable pub recognize_linear : ℤ → Known E → Option (Option ℕ × ℤ)
  unfolding scan decide_match
  recognize_linear threshold [] = some (none, pos 0)
  recognize_linear threshold (p ∷ known) = elim (scan dot query (p ∷ known) no_best) [
    | none ↦ none
    | some b ↦ some (decide_match threshold b)
  ]
