-- ===== src/Backend/Match.antt =====
-- Matching an embedding (backend/app.py): pgvector where the database has it, or the linear scan.
use frass_f.Base.{ℕ, Bool, Option, none, some, if◌then◌else◌, is_empty, ◌-◌, ◌+◌}
use frass_f.Base.Int.{ℤ, pos, sub_ℕ, ltb_ℤ, leb_ℤ}
use frass_f.Matching.{Known, one, no_best, scan, percent, decide_match}
use frass_f.Backend.State.{Backend, load_embeddings}

-- What the similarity query of pgvector does: it raises, finds no row, or finds the nearest.
pub data Nearest : Type 0 where
  raised no_row : Nearest
  row : ℕ → ℤ → Nearest

-- What the program needs of numpy and of the database: the product of two embeddings (`none` where
-- their lengths differ), the norm, whether the database is PostgreSQL, and its nearest row.
pub record Engine (E : Type 0) : Type 0 where
  pub dot : E → E → Option ℤ
  pub norm : E → ℕ
  pub postgresql : Bool
  pub nearest : E → Nearest

-- The pair that `_match_pgvector` returns. Where no row is found its second component is not a number
-- but the pair `(None, 0.0)`.
pub data PgMatch : Type 0 where
  pair : Option ℕ → ℤ → PgMatch
  nested : PgMatch

abbrev answer_of : ℤ → Nearest → PgMatch
answer_of threshold raised = pair none (pos 0)
answer_of threshold no_row = nested
answer_of threshold (row id similarity) =
    if leb_ℤ threshold similarity
    then pair (some id) (percent similarity)
    else pair none (percent similarity)

module _ {E : Type 0} (K : Engine E) where
  -- `_match_pgvector`
  unfoldable pub match_pgvector : ℤ → E → PgMatch
  unfolding percent
  match_pgvector threshold query =
      if K.postgresql then answer_of threshold (K.nearest query) else pair none (pos 0)

  -- The loop over the cache, and the end of `match_embedding`.
  unfoldable pub match_linear : ℤ → E → Known E → Option (Option ℕ × ℤ)
  unfolding scan decide_match
  match_linear threshold query known = elim (scan K.dot query known no_best) [
    | none ↦ none
    | some b ↦ some (decide_match threshold b)
  ]

  -- `result[0] is not None or result[1] > 0`; the comparison raises (`none`) on the nested pair.
  unfoldable pub after_pgvector : PgMatch → ℤ → E → Known E → Option (Option ℕ × ℤ)
  unfolding match_linear
  after_pgvector nested threshold query known = none
  after_pgvector (pair (some id) confidence) threshold query known = some (some id, confidence)
  after_pgvector (pair none confidence) threshold query known =
      if ltb_ℤ (pos 0) confidence
      then some (none, confidence)
      else match_linear threshold query known

  unfoldable pub answer : ℤ → E → Known E → Option (Option ℕ × ℤ)
  unfolding match_pgvector after_pgvector
  answer threshold query known =
      if is_empty known
      then some (none, pos 0)
      else after_pgvector (match_pgvector threshold query) threshold query known

  abbrev loaded : {C : Type 0} → Bool → Backend C E → Backend C E
  loaded load_fails b = if b.cache_loaded then b else load_embeddings load_fails b

  -- `match_embedding`; `none`: it raises.
  unfoldable pub match_embedding :
      {C : Type 0} → Bool → ℤ → E → Backend C E → Option (Option ℕ × ℤ) × Backend C E
  unfolding answer load_embeddings
  match_embedding load_fails threshold query b =
      let b' = loaded load_fails b in (answer threshold query b'.embedding_cache, b')

  -- `embedding_quality`: 1 less the distance of the norm from 1.
  unfoldable pub embedding_quality : E → ℤ
  embedding_quality e = sub_ℕ one ((one - K.norm e) + (K.norm e - one))
