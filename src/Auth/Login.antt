-- ===== src/Auth/Login.antt =====
-- `login` (app/auth/routes.py) with both of its lockouts.
pub mod Lockout
pub mod Success
use frass_f.Base.{
  ℕ, ◌+◌, ◌-◌, ◌/◌, max, Bool, true, false, not, ◌&&◌, ◌||◌, Option, none, some, List, [], ◌∷◌,
  ◌++◌, Text, text, strip, is_empty, ltb, if◌then◌else◌, Dict, get, Table, insert, first_where,
}
use frass_f.Base.Int.{ℤ, pos, leb_ℤ, ltb_ℤ}
use frass_f.Base.Parse.{parse_int}
use frass_f.Auth.Account.{
  User, AuditLog, Passwords, check_password, seconds, is_locked, record_failed_login,
  record_successful_login, is_named, Accounts,
}

-- The calls of Redis; a call that raises gives `none`, or `false`.
pub record Redis : Type 1 where
  pub World : Type 0
  pub is_connected : Bool
  pub hgetall : Text → World → Option (Dict Text) × World
  pub ttl : Text → World → Option ℤ × World
  -- The pipeline `hincrby(key, 'attempts', 1)`, `hset(key, 'last_attempt', now)`.
  pub add_attempt : Text → ℕ → World → Bool × World
  pub expire : Text → ℕ → World → Bool × World
  pub delete : Text → World → Bool × World
  pub setex : Text → ℕ → Text → World → Bool × World

-- `pyotp.TOTP(secret).verify(code, valid_window=1)` at a time
abbrev pub Totp : Type 0
Totp = Text → Text → ℕ → Bool

pub record Credentials : Type 0 where
  pub username : Text
  pub password : Text
  pub mfa_code : Text

pub data Answer : Type 0 where
  missing_credentials credentials_required invalid_credentials account_disabled : Answer
  mfa_code_required mfa_code_invalid server_error : Answer
  locked_in_redis : ℤ → Answer
  logged_in : ℕ → Answer

abbrev pub lockout_key : Text → Text
lockout_key username = text "login_lockout:" ++ username

module _ (R : Redis) where
  open R use {World, is_connected, hgetall, ttl, add_attempt, expire, delete}

  abbrev with_ttl : Option ℤ × World → Option ℤ × World
  with_ttl (none, w) = (none, w)
  with_ttl (some t, w) = (if ltb_ℤ (pos 0) t then some t else none, w)

  -- `int(data.get('attempts', 0)) >= 5`; a text that is no number raises, and the raise is caught.
  abbrev five_attempts : Option Text → Bool
  five_attempts none = false
  five_attempts (some s) = elim (parse_int s) [ none ↦ false | some n ↦ leb_ℤ (pos 5) n ]

  abbrev pub from_hash : Text → Option (Dict Text) × World → Option ℤ × World
  from_hash key (none, w) = (none, w)
  from_hash key (some d, w) =
      if five_attempts (get (text "attempts") d) then with_ttl (ttl key w) else (none, w)

  -- `_check_lockout_redis`: the seconds that are left
  unfoldable pub check_lockout_redis : Text → World → Option ℤ × World
  unfolding parse_int get
  check_lockout_redis username w =
      if not is_connected
      then (none, w)
      else from_hash (lockout_key username) (hgetall (lockout_key username) w)

  abbrev then_expire : Text → Bool × World → World
  then_expire key (false, w) = w
  then_expire key (true, w) = (expire key 300 w).1

  -- `_record_failed_redis`
  unfoldable pub record_failed_redis : Text → ℕ → World → World
  record_failed_redis username now w =
      if not is_connected
      then w
      else then_expire (lockout_key username) (add_attempt (lockout_key username) now w)

  -- `_clear_lockout_redis`
  unfoldable pub clear_lockout_redis : Text → World → World
  clear_lockout_redis username w =
      if not is_connected then w else (delete (lockout_key username) w).1

  module _ (P : Passwords) (verify : Totp) where
    -- A failed attempt of a name that no account has, and of the account `i`.
    abbrev pub no_account : Text → ℕ → Accounts World → Answer × Accounts World
    unfolding record_failed_redis
    no_account username now s =
        (invalid_credentials, record s { redis = record_failed_redis username now s.redis })

    abbrev pub wrong_password : Text → ℕ → User → ℕ → Accounts World → Answer × Accounts World
    unfolding record_failed_redis record_failed_login insert
    wrong_password username i u now s = (
      invalid_credentials,
      record s {
        users = insert i (record_failed_login now u) s.users;
        redis = record_failed_redis username now s.redis;
      },
    )

    abbrev pub login_log : ℕ → Text → ℕ → AuditLog
    login_log i ip now = record {
      user_id = some i;
      action = text "login";
      entity_type = text "user";
      entity_id = some i;
      details = none;
      ip_address = ip;
      created_at = now;
    }

    unfoldable pub succeed : Text → Text → ℕ → User → ℕ → Accounts World → Answer × Accounts World
    unfolding record_successful_login clear_lockout_redis insert
    succeed username ip i u now s = (
      logged_in i,
      record s {
        users = insert i (record_successful_login u) s.users;
        audit = s.audit ++ (login_log i ip now ∷ []);
        redis = clear_lockout_redis username s.redis;
      },
    )

    -- The code, with the account as it is in the session; `none`: no secret, and pyotp raises.
    abbrev pub code_passes : Text → ℕ → Option Text → Option Bool
    code_passes code now none = none
    code_passes code now (some secret) = some (verify secret code now)

    abbrev pub after_code :
        Option Bool
        → Credentials
        → Text
        → Text
        → ℕ
        → User
        → ℕ
        → Accounts World
        → Answer × Accounts World
    after_code none c username ip i u now s = (server_error, s)
    after_code (some false) c username ip i u now s = (mfa_code_invalid, s)
    after_code (some true) c username ip i u now s = succeed username ip i u now s

    -- From `is_active` on. A request that ends without a commit leaves the tables as they were.
    abbrev pub not_locked :
        Credentials → Text → Text → ℕ → User → ℕ → Accounts World → Answer × Accounts World
    not_locked c username ip i u now s =
        if not u.is_active
        then (account_disabled, s)
        else if not u.mfa_enabled
        then succeed username ip i u now s
        else if is_empty c.mfa_code
        then (mfa_code_required, s)
        else after_code (code_passes c.mfa_code now u.mfa_secret) c username ip i u now s

    -- Of a locked account: the database gives `locked_until` without a time zone, and taking the time
    -- with one from it raises.
    abbrev pub after_locked :
        Bool × User → Credentials → Text → Text → ℕ → ℕ → Accounts World → Answer × Accounts World
    after_locked (true, u) c username ip i now s = (server_error, s)
    after_locked (false, u) c username ip i now s = not_locked c username ip i u now s

    abbrev pub after_password :
        Option Bool
        → Credentials
        → Text
        → Text
        → ℕ
        → User
        → ℕ
        → Accounts World
        → Answer × Accounts World
    unfolding is_locked
    after_password none c username ip i u now s = (server_error, s)
    after_password (some false) c username ip i u now s = wrong_password username i u now s
    after_password (some true) c username ip i u now s =
        after_locked (is_locked now u) c username ip i now s

    abbrev pub with_account :
        Option (ℕ × User) → Credentials → Text → Text → ℕ → Accounts World → Answer × Accounts World
    unfolding check_password
    with_account none c username ip now s = no_account username now s
    with_account (some (i, u)) c username ip now s =
        after_password (check_password P c.password u) c username ip i u now s

    abbrev pub after_redis :
        Option ℤ × World → Credentials → Text → Text → ℕ → Accounts World → Answer × Accounts World
    unfolding first_where
    after_redis (some t, w) c username ip now s = (locked_in_redis t, record s { redis = w })
    after_redis (none, w) c username ip now s =
        with_account (first_where (is_named username) s.users) c username ip now
          (record s { redis = w })

    -- `login`; `none`: no JSON was sent.
    unfoldable pub login : Option Credentials → Text → ℕ → Accounts World → Answer × Accounts World
    unfolding strip check_lockout_redis
    login none ip now s = (missing_credentials, s)
    login (some c) ip now s =
        let username = strip c.username in
        if is_empty username || is_empty c.password
        then (credentials_required, s)
        else after_redis (check_lockout_redis username s.redis) c username ip now s
