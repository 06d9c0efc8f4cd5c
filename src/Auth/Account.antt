-- ===== src/Auth/Account.antt =====
-- The account of a user and its lockout (app/models/user.py), and the audit log
-- (app/models/audit.py). Times are in microseconds.
use frass_f.Base.{
  ℕ, suc, ◌+◌, ◌*◌, Bool, true, false, Option, none, some, List, Text, Table, text_eq, leb, ltb,
  if◌then◌else◌,
}

-- A hash is a text of the password library.
pub record User : Type 0 where
  pub username : Text
  pub email : Option Text
  pub password_hash : Text
  pub role : Text
  pub is_active : Bool
  pub mfa_enabled : Bool
  pub mfa_secret : Option Text
  pub failed_login_attempts : ℕ
  pub locked_until : Option ℕ
  pub student_id : Option ℕ

pub record AuditLog : Type 0 where
  pub user_id : Option ℕ
  pub action : Text
  pub entity_type : Text
  pub entity_id : Option ℕ
  pub details : Option Text
  pub ip_address : Text
  pub created_at : ℕ

-- What argon2's `verify` comes to: `True`, `VerifyMismatchError`, `InvalidHashError`, another raise.
pub data Verdict : Type 0 where
  matches mismatch invalid_hash raises : Verdict

-- The password libraries. `salt` stands for the randomness of a hash; werkzeug's check is `none`
-- where it raises.
pub record Passwords : Type 0 where
  pub has_argon2 : Bool
  pub argon2_hash : ℕ → Text → Text
  pub argon2_verify : Text → Text → Verdict
  pub generate_password_hash : ℕ → Text → Text
  pub check_password_hash : Text → Text → Option Bool

module _ (P : Passwords) where
  open P use {has_argon2, argon2_hash, argon2_verify, generate_password_hash, check_password_hash}

  -- `set_password`
  unfoldable pub set_password : ℕ → Text → User → User
  set_password salt password u = record u {
    password_hash =
        if has_argon2 then argon2_hash salt password else generate_password_hash salt password;
  }

  abbrev or_false : Option Bool → Bool
  or_false none = false
  or_false (some b) = b

  abbrev by_werkzeug : Text → Text → Option Bool
  by_werkzeug hash password = some (or_false (check_password_hash hash password))

  abbrev after_argon2 : Verdict → Text → Text → Option Bool
  after_argon2 matches hash password = some true
  after_argon2 mismatch hash password = some false
  after_argon2 invalid_hash hash password = by_werkzeug hash password
  after_argon2 raises hash password = none

  -- `check_password`; `none`: it raises.
  unfoldable pub check_password : Text → User → Option Bool
  check_password password u =
      if has_argon2
      then after_argon2 (argon2_verify u.password_hash password) u.password_hash password
      else by_werkzeug u.password_hash password

abbrev pub seconds : ℕ → ℕ
seconds n = n * 1000000

abbrev pub unlocked : User → User
unlocked u = record u { failed_login_attempts = 0; locked_until = none }

-- `is_locked`, with the user that it leaves in the session.
unfoldable pub is_locked : ℕ → User → Bool × User
is_locked now u = elim u.locked_until [
  | none ↦ (false, u)
  | some t ↦ (if ltb now t then (true, u) else (false, unlocked u))
]

-- `record_failed_login`, with its default of 5 attempts and 300 seconds.
unfoldable pub record_failed_login : ℕ → User → User
record_failed_login now u =
    let attempts = suc u.failed_login_attempts in
    if leb 5 attempts
    then record u { failed_login_attempts = attempts; locked_until = some (now + seconds 300) }
    else record u { failed_login_attempts = attempts }

-- `record_successful_login`
unfoldable pub record_successful_login : User → User
record_successful_login u = unlocked u

-- `User.query.filter_by(username=username)`
abbrev pub is_named : Text → User → Bool
is_named name u = text_eq u.username name

-- The tables, and the world of the Redis server.
pub record Accounts (W : Type 0) : Type 0 where
  pub users : Table User
  pub audit : List AuditLog
  pub redis : W
