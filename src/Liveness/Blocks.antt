-- ===== src/Liveness/Blocks.antt =====
-- The blocks of 8 by 8 pixels of `_check_texture` (app/services/liveness.py) and of
-- `_heuristic_liveness` (edge/inference/pipeline.py).
use frass_f.Base.{
  ℕ, zero, suc, ◌+◌, ◌-◌, ◌≡◌, List, [], ◌∷◌, ◌++◌, map, ltb, if◌then◌else◌, length, take, drop,
  All,
}
use frass_f.Liveness.Vision.{Gray}

-- `range(start, stop, 8)` with fuel.
unfoldable pub range_by_8 : ℕ → ℕ → ℕ → List ℕ
range_by_8 zero start stop = []
range_by_8 (suc f) start stop =
    let rest = range_by_8 f (start + 8) stop in if ltb start stop then start ∷ rest else []

-- `range(0, n - block_size, block_size)`
unfoldable pub offsets : ℕ → List ℕ
unfolding range_by_8
offsets n = range_by_8 (n - 8) 0 (n - 8)

abbrev pub width_of : Gray → ℕ
width_of [] = 0
width_of (r ∷ rs) = length r

-- `gray[y:y + block_size, x:x + block_size]`
unfoldable pub block : Gray → ℕ → ℕ → Gray
block g y x = map (λ (r : List ℕ). take 8 (drop x r)) (take 8 (drop y g))

unfoldable pub blocks_of_row : Gray → ℕ → List ℕ → List Gray
unfolding block
blocks_of_row g y [] = []
blocks_of_row g y (x ∷ xs) = block g y x ∷ blocks_of_row g y xs

unfoldable pub blocks_of_rows : Gray → List ℕ → List ℕ → List Gray
unfolding blocks_of_row
blocks_of_rows g xs [] = []
blocks_of_rows g xs (y ∷ ys) = blocks_of_row g y xs ++ blocks_of_rows g xs ys

-- The two loops, row by row.
unfoldable pub blocks : Gray → List Gray
unfolding offsets blocks_of_rows
blocks g = blocks_of_rows g (offsets (width_of g)) (offsets (length g))

-- A block of 8 rows of 8 pixels.
abbrev pub IsWhole : Gray → Type 0
IsWhole b = (length b ≡ 8) × All (λ (r : List ℕ). length r ≡ 8) b

abbrev pub IsRectangle : ℕ → Gray → Type 0
IsRectangle w = All (λ (r : List ℕ). length r ≡ w)
