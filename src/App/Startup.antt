-- ===== src/App/Startup.antt =====
-- What a new application is like (app/__init__.py, app/config.py, app/extensions.py).
use frass_f.Base.{
  ◌⊎◌, ℕ, ◌≡◌, ◌≢◌, refl, sym, ap, ◌∙◌, Bool, true, false, Option, none, some, List, [], ◌∷◌, Text,
  text, text_eq, if◌then◌else◌, arith,
}
use frass_f.Auth.Account.{Passwords}
use frass_f.App.{
  Environ, fallback_secret, Violation, validate, chosen, Data, Application, created, started,
  unless, create_app, Request, serve, serve_all, close_redis, init_redis, redis_unavailable,
  health_check,
}

-- A secret that is set and is neither of the placeholders.
abbrev pub IsSecret : Text → Type 0
IsSecret t = (t ≢ []) × (t ≢ text "change-me-in-production") × (t ≢ fallback_secret)

-- The value of a variable is a secret, or the fallback, where the variable was not set at the import.
abbrev pub IsSecretOrLate : Environ → Text → Text → Type 0
IsSecretOrLate imported n t = IsSecret t ⊎ ((imported n ≡ none) × (t ≡ fallback_secret))

module _ {W : Type 0} (P : Passwords) where
  created-same :
      (o : Option Violation) (x a : Application W) → unless o x ≡ created a → (o ≡ none) × (x ≡ a)
  created-same none x a h = (refl, cc)
  created-same (some v) x a h = absurd (ground arith)

-- What requests do to the tables where there is no Redis.
abbrev pub without_redis : {W : Type 0} → List (Request W) → Data W → Data W
without_redis [] d = d
without_redis (r ∷ rs) d = without_redis rs (r false d)

no_client : (b : Bool) → close_redis b ≡ false
no_client true = refl
no_client false = refl

serve_all-no_client :
    {W : Type 0} (rs : List (Request W)) (a : Application W)
    → a.redis_client ≡ false
    → ((serve_all rs a).redis_client ≡ false)
      × ((serve_all rs a).tables ≡ without_redis rs a.tables)
unfolding serve_all
serve_all-no_client [] a h = (h, refl)
serve_all-no_client {W} (r ∷ rs) a h =
    let (x, y) = serve_all-no_client rs (serve r a) (no_client a.redis_client) in
    (x, y ∙ ap (λ (b : Bool). without_redis rs (r b a.tables)) h)

-- The context in which the factory seeds the tables closes the Redis client at its end, whatever the
-- configuration: of an application that is created, `get_redis` gives no client to any request, though
-- the server answers, so that the tables are those of requests without one, and the health check says
-- that Redis is unavailable.
pub create_app-no_redis :
    {W : Type 0} (P : Passwords) (config_name : Option Text) (imported env : Environ)
    (answers : Bool) (salt salt' : ℕ) (d : Data W) (a : Application W) (rs : List (Request W))
    (db_ok pings : Bool)
    → create_app P config_name imported env answers salt salt' d ≡ created a
    → ((serve_all rs a).tables ≡ without_redis rs a.tables)
      × ((health_check db_ok pings (serve_all rs a)).redis ≡ redis_unavailable)
unfolding create_app
create_app-no_redis {W} P config_name imported env answers salt salt' d a rs db_ok pings h =
    let c = chosen config_name env in
    let (o, x) =
      created-same P (if text_eq c.0 (text "production") then validate env else none)
        (started P c imported answers salt salt' d) a h in
    let closed : a.redis_client ≡ false =
      sym (ap (λ (b : Application W). b.redis_client) x) ∙ no_client (init_redis answers) in
    let (y, z) = serve_all-no_client rs a closed in (z, rw y refl)
