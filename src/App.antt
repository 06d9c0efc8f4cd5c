-- ===== src/App.antt =====
-- The application factory (app/__init__.py), the configuration (app/config.py), the Redis client
-- (app/extensions.py) and the default data (app/services/seed.py).
pub mod Startup
pub mod Seed
mod Tests
use frass_f.Base.{
  ℕ, Bool, true, false, not, ◌&&◌, ◌||◌, Option, none, some, List, [], ◌∷◌, Text, text, text_eq,
  is_empty, if◌then◌else◌, Table, first_where, insert, next_id,
}
use frass_f.Auth.Account.{User, Passwords, Accounts, set_password, is_named}
use frass_f.Attendance.State.{Schedule}

pub data ConfigClass : Type 0 where
  development_config production_config testing_config : ConfigClass

-- The dict `config`
unfoldable pub config_of : Text → Option ConfigClass
unfolding text_eq
config_of name =
    if text_eq name (text "development") || text_eq name (text "default")
    then some development_config
    else if text_eq name (text "production")
    then some production_config
    else if text_eq name (text "testing")
    then some testing_config
    else none

-- `os.environ.get`
abbrev pub Environ : Type 0
Environ = Text → Option Text

abbrev pub fallback_secret : Text
fallback_secret = text "dev-insecure-fallback-key-do-not-use-in-production"

abbrev pub or_text : Text → Option Text → Text
or_text t none = t
or_text t (some v) = v

-- `Config.SECRET_KEY` and `Config.JWT_SECRET_KEY`, from the environment as it is when the configuration
-- is imported, before `load_dotenv` has read the file .env
abbrev pub secret_key : Environ → Text
secret_key env = or_text fallback_secret (env (text "SECRET_KEY"))

abbrev pub jwt_secret_key : Environ → Text
jwt_secret_key env = or_text fallback_secret (env (text "JWT_SECRET_KEY"))

-- The URL of the database as `validate` reads it, after `load_dotenv`.
abbrev pub database_url : Environ → Text
database_url env = or_text [] (env (text "DATABASE_URL"))

pub data Violation : Type 0 where
  insecure : Text → Violation
  no_database : Violation

abbrev pub is_insecure : Option Text → Bool
is_insecure none = true
is_insecure (some v) =
    is_empty v || text_eq v (text "change-me-in-production") || text_eq v fallback_secret

-- `ProductionConfig.validate`, with what it raises
unfoldable pub validate : Environ → Option Violation
unfolding text_eq
validate env =
    if is_insecure (env (text "SECRET_KEY"))
    then some (insecure (text "SECRET_KEY"))
    else if is_insecure (env (text "JWT_SECRET_KEY"))
    then some (insecure (text "JWT_SECRET_KEY"))
    else if is_empty (database_url env)
    then some no_database
    else none

abbrev pub known_or_development : Option ConfigClass → Text → Text × ConfigClass
known_or_development none name = (text "development", development_config)
known_or_development (some c) name = (name, c)

-- The name and the class of the configuration.
unfoldable pub chosen : Option Text → Environ → Text × ConfigClass
unfolding config_of
chosen none env =
    let name = or_text (text "development") (env (text "FLASK_ENV")) in
    known_or_development (config_of name) name
chosen (some name) env = known_or_development (config_of name) name

-- The tables that the seed fills.
pub record Data (W : Type 0) : Type 0 where
  pub accounts : Accounts W
  pub schedules : Table Schedule

abbrev pub default_user : Text → Text → User
default_user username role = record {
  username = username;
  email = none;
  password_hash = [];
  role = role;
  is_active = true;
  mfa_enabled = false;
  mfa_secret = none;
  failed_login_attempts = 0;
  locked_until = none;
  student_id = none;
}

abbrev pub add_unless : Option (ℕ × User) → User → Table User → Table User
add_unless (some x) u t = t
add_unless none u t = insert (next_id t) u t

abbrev pub seed_user : Passwords → Text → Text → Text → ℕ → Table User → Table User
seed_user P username role password salt t =
    add_unless (first_where (is_named username) t)
      (set_password P salt password (default_user username role)) t

abbrev pub default_schedule : Text → Text → Text → Text → Schedule
default_schedule name days start_time end_time = record {
  name = name;
  department = none;
  days_of_week = days;
  start_time = start_time;
  end_time = end_time;
  late_threshold = 10;
  grace_period = 5;
  is_active = true;
}

abbrev pub seed_schedules : Table Schedule → Table Schedule
seed_schedules [] =
    (
      1,
      default_schedule (text "Morning Class (Mon-Thu)") (text "0,1,2,3") (text "09:45")
          (text "10:45"),
    )
    ∷ (
      2,
      default_schedule (text "Morning Class (Fri-Sat)") (text "4,5") (text "08:45") (text "09:45"),
    )
    ∷ []
seed_schedules (x ∷ t) = x ∷ t

-- `seed_defaults`, with the randomness of the two hashes
unfoldable pub seed_defaults : {W : Type 0} → Passwords → ℕ → ℕ → Data W → Data W
unfolding first_where insert next_id set_password text_eq
seed_defaults P salt salt' d =
    let with_admin =
      seed_user P (text "admin") (text "admin") (text "admin123") salt d.accounts.users in
    record {
      accounts = record d.accounts {
        users = seed_user P (text "teacher") (text "teacher") (text "teacher123") salt' with_admin;
      };
      schedules = seed_schedules d.schedules;
    }

-- `redis_client` is there or not: `init_redis`, where the server answers or not, and `close_redis`.
abbrev pub init_redis : Bool → Bool
init_redis answers = if answers then true else false

abbrev pub close_redis : Bool → Bool
close_redis client = if client then false else client

pub record Application (W : Type 0) : Type 0 where
  pub config_name : Text
  pub config_class : ConfigClass
  pub secret_key : Text
  pub jwt_secret_key : Text
  pub redis_client : Bool
  pub tables : Data W

-- The end of an application context, which calls the functions of the teardown.
abbrev pub pop_context : {W : Type 0} → Application W → Application W
pop_context a = record a { redis_client = close_redis a.redis_client }

pub data Created (W : Type 0) : Type 0 where
  raised : Violation → Created W
  created : Application W → Created W

abbrev pub seed_if : {W : Type 0} → Bool → Passwords → ℕ → ℕ → Data W → Data W
seed_if true P salt salt' d = seed_defaults P salt salt' d
seed_if false P salt salt' d = d

-- The part after the validation: the extensions, and then a context in which the tables are seeded.
abbrev pub started :
    {W : Type 0} → Passwords → Text × ConfigClass → Environ → Bool → ℕ → ℕ → Data W → Application W
started P (name, c) imported answers salt salt' d = pop_context (record {
  config_name = name;
  config_class = c;
  secret_key = secret_key imported;
  jwt_secret_key = jwt_secret_key imported;
  redis_client = init_redis answers;
  tables = seed_if (text_eq name (text "development")) P salt salt' d;
})

abbrev pub unless : {W : Type 0} → Option Violation → Application W → Created W
unless none a = created a
unless (some v) a = raised v

-- `create_app`, where the database answers, with the environment at the import of the configuration
-- and the one after `load_dotenv`
unfoldable pub create_app :
    {W : Type 0} → Passwords → Option Text → Environ → Environ → Bool → ℕ → ℕ → Data W → Created W
unfolding chosen validate seed_defaults
create_app P config_name imported env answers salt salt' d =
    let c = chosen config_name env in
    unless (if text_eq c.0 (text "production") then validate env else none)
      (started P c imported answers salt salt' d)

-- A request: what it does to the tables, where `get_redis` gives a client or not. The limiter, which
-- has a client of its own, is no part of it.
abbrev pub Request : Type 0 → Type 0
Request W = Bool → Data W → Data W

-- A request in its context
abbrev pub serve : {W : Type 0} → Request W → Application W → Application W
serve r a = pop_context (record a { tables = r a.redis_client a.tables })

unfoldable pub serve_all : {W : Type 0} → List (Request W) → Application W → Application W
serve_all [] a = a
serve_all (r ∷ rs) a = serve_all rs (serve r a)

pub data RedisCheck : Type 0 where
  redis_ok redis_unavailable redis_error : RedisCheck

pub record Health : Type 0 where
  pub healthy : Bool
  pub redis : RedisCheck
  pub code : ℕ

-- `health_check`, where the database answers or not and a ping does or not
abbrev pub health_check : {W : Type 0} → Bool → Bool → Application W → Health
health_check db_ok pings a = record {
  healthy = db_ok;
  redis = if a.redis_client then (if pings then redis_ok else redis_error) else redis_unavailable;
  code = if db_ok then 200 else 503;
}
