-- ===== src/Backend/Results/NoVectors.antt =====
-- Matching on PostgreSQL while no row has a vector (backend/app.py).
use frass_f.Base.{◌≡◌, true, false, none, some, Text, is_empty}
use frass_f.Base.Int.{ltb_ℤ}
use frass_f.Backend.State.{Backend, Env, Config}
use frass_f.Backend.Match.{
  Engine, no_row, match_pgvector, after_pgvector, answer, match_embedding, embedding_quality,
}
use frass_f.Backend.Results.{Result, after_match, process_result}

-- On PostgreSQL, while the vector search finds no row though embeddings are loaded, every live result
-- of sufficient quality raises: it is not matched by the linear scan, and nothing changes.
pub no_row_raises :
    {C E : Type 0} (K : Engine E) (cfg : Config) (result : Result E) (query : E) (device_id : Text)
    (env : Env) (b : Backend C E)
    → K.postgresql ≡ true
    → K.nearest query ≡ no_row
    → b.cache_loaded ≡ true
    → is_empty b.embedding_cache ≡ false
    → result.embedding ≡ some query
    → result.is_live ≡ true
    → ltb_ℤ (embedding_quality K query) cfg.min_embedding_quality ≡ false
    → process_result K cfg result device_id env b ≡ (none, b)
unfolding process_result match_embedding match_pgvector answer after_pgvector after_match
no_row_raises K cfg result query device_id env b postgres nothing loaded filled given live good =
    rw (given, live, good, loaded, filled, postgres, nothing)
