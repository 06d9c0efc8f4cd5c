-- ===== src/App/Tests.antt =====
-- Runs of the application factory (app/__init__.py), its configuration and its seed.
use frass_f.Base.{ℕ, ◌≡◌, refl, true, false, none, some, [], ◌∷◌, text, text_eq, if◌then◌else◌}
use frass_f.Auth.Account.{Passwords, matches, mismatch}
use frass_f.App.{
  Environ, fallback_secret, insecure, Data, Application, raised, created, create_app, Request,
  serve_all, seed_defaults, redis_unavailable, health_check, production_config, development_config,
  chosen,
}
use frass_f.App.Startup.{without_redis, create_app-no_redis}

abbrev libraries : Passwords
libraries = record {
  has_argon2 = true;
  argon2_hash = λ salt p. p;
  argon2_verify = λ h p. if text_eq h p then matches else mismatch;
  generate_password_hash = λ salt p. p;
  check_password_hash = λ h p. some (text_eq h p);
}

abbrev no_rows : Data ℕ
no_rows = record { accounts = record { users = []; audit = []; redis = 0 }; schedules = [] }

-- Every variable is set.
abbrev all_set : Environ
all_set name = some (text "a-long-secret")

abbrev production : Application ℕ
production = record {
  config_name = text "production";
  config_class = production_config;
  secret_key = text "a-long-secret";
  jwt_secret_key = text "a-long-secret";
  redis_client = false;
  tables = no_rows;
}

starts :
    create_app libraries (some (text "production")) all_set all_set true 1 2 no_rows
    ≡ created production
unfolding create_app
starts = refl

needs_secrets :
    create_app libraries (some (text "production")) (λ name. none) (λ name. none) true 1 2 no_rows
    ≡ raised (insecure (text "SECRET_KEY"))
unfolding create_app
needs_secrets = refl

-- A name that is not known starts the development configuration.
falls_back : chosen (some (text "prod")) all_set ≡ (text "development", development_config)
unfolding chosen
falls_back = refl

-- The variables stand in the file .env alone: the secrets are the fallback.
abbrev late : Application ℕ
late = record production { secret_key = fallback_secret; jwt_secret_key = fallback_secret }

late_secrets :
    create_app libraries (some (text "production")) (λ name. none) all_set true 1 2 no_rows
    ≡ created late
unfolding create_app
late_secrets = refl

-- A request that keeps something in Redis, if there is a client.
abbrev stores : Request ℕ
stores client d = if client then record d { accounts = record d.accounts { redis = 1 } } else d

create_app-no_redis_example :
    ((serve_all (stores ∷ stores ∷ []) production).tables
      ≡ without_redis (stores ∷ stores ∷ []) production.tables)
    × ((health_check true true (serve_all (stores ∷ stores ∷ []) production)).redis
        ≡ redis_unavailable)
create_app-no_redis_example =
    create_app-no_redis libraries (some (text "production")) all_set all_set true 1 2 no_rows
      production (stores ∷ stores ∷ []) true true starts

abbrev seeded : Data ℕ
unfolding seed_defaults
seeded = seed_defaults libraries 1 2 no_rows
