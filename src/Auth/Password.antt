-- ===== src/Auth/Password.antt =====
-- The requests that change an account: `register`, `change_password`, `mfa_setup`, `mfa_verify` and
-- `mfa_disable` (app/auth/routes.py).
pub mod Strength
pub mod Lifecycle
use frass_f.Base.{
  ℕ, Bool, true, false, not, ◌&&◌, ◌||◌, Option, none, some, List, [], ◌∷◌, ◌++◌, Text, text,
  text_eq, strip, is_empty, is_lower, is_upper, is_digit, any, length, ltb, ◌==◌, if◌then◌else◌,
  Table, values, lookup, insert, next_id,
}
use frass_f.Auth.Account.{
  User, AuditLog, Passwords, set_password, check_password, is_named, Accounts,
}
use frass_f.Auth.Login.{Totp}

-- The text up to its first newline, which `.` of a pattern does not match, and from there.
unfoldable pub line_of : Text → Text × Text
line_of [] = ([], [])
line_of (c ∷ s) = let (l, r) = line_of s in if c == 10 then ([], c ∷ s) else (c ∷ l, r)

-- `$`: the end, or before a last newline.
abbrev pub at_end : Text → Bool
at_end [] = true
at_end (c ∷ []) = true
at_end (c ∷ d ∷ s) = false

-- `^(?=.*[a-z])(?=.*[A-Z])(?=.*\d).+$`, with the ASCII digits for `\d`
unfoldable pub password_pattern : Text → Bool
unfolding line_of
password_pattern s =
    any is_lower (line_of s).0
    && any is_upper (line_of s).0
    && any is_digit (line_of s).0
    && not (is_empty (line_of s).0)
    && at_end (line_of s).1

pub data Weakness : Type 0 where
  too_short wrong_characters : Weakness

-- `_validate_password_strength`
unfoldable pub validate_password_strength : Text → Option Weakness
unfolding password_pattern
validate_password_strength s =
    if ltb (length s) 8
    then some too_short
    else if not (password_pattern s)
    then some wrong_characters
    else none

pub data Answer : Type 0 where
  missing_data username_and_password_required invalid_role username_exists : Answer
  insufficient_permissions user_not_found password_incorrect : Answer
  mfa_not_set_up invalid_code mfa_is_enabled mfa_is_disabled password_changed server_error : Answer
  weak_password : Weakness → Answer
  mfa_secret_is : Text → Answer
  created : ℕ → Answer

-- `if pw_error: return …`
abbrev pub if_strong :
    {W : Type 0} → Option Weakness → Accounts W → Answer × Accounts W → Answer × Accounts W
if_strong (some e) s done = (weak_password e, s)
if_strong none s done = done

module _ {W : Type 0} (P : Passwords) (verify : Totp) where
  abbrev pub change_to : Option Bool → ℕ → User → Text → ℕ → Accounts W → Answer × Accounts W
  unfolding validate_password_strength set_password insert
  change_to none i u new salt s = (server_error, s)
  change_to (some false) i u new salt s = (password_incorrect, s)
  change_to (some true) i u new salt s =
      if_strong (validate_password_strength new) s
        (password_changed, record s { users = insert i (set_password P salt new u) s.users })

  abbrev pub change_of : Option User → ℕ → Text → Text → ℕ → Accounts W → Answer × Accounts W
  unfolding change_to check_password
  change_of none i old new salt s = (server_error, s)
  change_of (some u) i old new salt s = change_to (check_password P old u) i u new salt s

  -- `change_password`; a user that is not there raises, and so does the password library.
  unfoldable pub change_password : ℕ → Option (Text × Text) → ℕ → Accounts W → Answer × Accounts W
  unfolding change_of lookup
  change_password i none salt s = (missing_data, s)
  change_password i (some (old, new)) salt s = change_of (lookup i s.users) i old new salt s

  abbrev pub setup_of : Option User → ℕ → Text → Accounts W → Answer × Accounts W
  unfolding insert
  setup_of none i secret s = (user_not_found, s)
  setup_of (some u) i secret s = (
    mfa_secret_is secret,
    record s { users = insert i (record u { mfa_secret = some secret }) s.users },
  )

  -- `mfa_setup`, with the secret that pyotp has made
  unfoldable pub mfa_setup : ℕ → Text → Accounts W → Answer × Accounts W
  unfolding lookup setup_of
  mfa_setup i secret s = setup_of (lookup i s.users) i secret s

  abbrev pub verify_with : Option Text → ℕ → User → Text → ℕ → Accounts W → Answer × Accounts W
  unfolding insert
  verify_with none i u code now s = (mfa_not_set_up, s)
  verify_with (some secret) i u code now s =
      if is_empty secret
      then (mfa_not_set_up, s)
      else if verify secret code now
      then (mfa_is_enabled, record s { users = insert i (record u { mfa_enabled = true }) s.users })
      else (invalid_code, s)

  abbrev pub verify_of : Option User → ℕ → Text → ℕ → Accounts W → Answer × Accounts W
  unfolding verify_with
  verify_of none i code now s = (mfa_not_set_up, s)
  verify_of (some u) i code now s = verify_with u.mfa_secret i u code now s

  -- `mfa_verify`
  unfoldable pub mfa_verify : ℕ → Text → ℕ → Accounts W → Answer × Accounts W
  unfolding lookup verify_of
  mfa_verify i code now s = verify_of (lookup i s.users) i code now s

  abbrev pub disable_after : Option Bool → ℕ → User → Accounts W → Answer × Accounts W
  unfolding insert
  disable_after none i u s = (server_error, s)
  disable_after (some false) i u s = (password_incorrect, s)
  disable_after (some true) i u s = (
    mfa_is_disabled,
    record s { users = insert i (record u { mfa_enabled = false; mfa_secret = none }) s.users },
  )

  abbrev pub disable_of : Option User → ℕ → Text → Accounts W → Answer × Accounts W
  unfolding disable_after check_password
  disable_of none i password s = (server_error, s)
  disable_of (some u) i password s = disable_after (check_password P password u) i u s

  -- `mfa_disable`
  unfoldable pub mfa_disable : ℕ → Text → Accounts W → Answer × Accounts W
  unfolding lookup disable_of
  mfa_disable i password s = disable_of (lookup i s.users) i password s

pub record Registration : Type 0 where
  pub username : Text
  pub password : Text
  pub email : Text
  pub role : Option Text

-- `data.get('role', 'teacher')`
abbrev pub role_or_default : Option Text → Text
role_or_default none = text "teacher"
role_or_default (some r) = r

abbrev pub is_role : Text → Bool
is_role r = text_eq r (text "admin") || text_eq r (text "teacher") || text_eq r (text "student")

abbrev pub nonempty : Text → Option Text
nonempty s = if is_empty s then none else some s

abbrev pub has_email : Text → User → Bool
has_email e u = elim u.email [ none ↦ false | some f ↦ text_eq f e ]

-- The unique constraint on the address, which NULL never violates.
abbrev pub email_taken : Option Text → Table User → Bool
email_taken none t = false
email_taken (some e) t = any (has_email e) (values t)

unfoldable pub new_user : Passwords → Text → Registration → ℕ → User
unfolding set_password strip text_eq
new_user P username r salt = set_password P salt r.password (record {
  username = username;
  email = nonempty (strip r.email);
  password_hash = [];
  role = role_or_default r.role;
  is_active = true;
  mfa_enabled = false;
  mfa_secret = none;
  failed_login_attempts = 0;
  locked_until = none;
  student_id = none;
})

abbrev pub creation_log : ℕ → ℕ → Text → Text → Text → ℕ → AuditLog
creation_log by i username role ip now = record {
  user_id = some by;
  action = text "create";
  entity_type = text "user";
  entity_id = some i;
  details = some (text "Created user: " ++ username ++ text " (" ++ role ++ text ")");
  ip_address = ip;
  created_at = now;
}

-- `flush` and `commit`, where the constraint on the address may raise.
abbrev pub add_user : {W : Type 0} → Text → User → ℕ → Text → ℕ → Accounts W → Answer × Accounts W
unfolding insert next_id text_eq
add_user username u by ip now s = if email_taken u.email s.users then (server_error, s) else (
  created (next_id s.users),
  record s {
    users = insert (next_id s.users) u s.users;
    audit = s.audit ++ (creation_log by (next_id s.users) username u.role ip now ∷ []);
  },
)

module _ {W : Type 0} (P : Passwords) where
  abbrev pub register_named :
      Text → Registration → ℕ → ℕ → Text → ℕ → Accounts W → Answer × Accounts W
  unfolding text_eq add_user new_user validate_password_strength
  register_named username r salt by ip now s =
      if is_empty username || is_empty r.password
      then (username_and_password_required, s)
      else if not (is_role (role_or_default r.role))
      then (invalid_role, s)
      else if any (is_named username) (values s.users)
      then (username_exists, s)
      else if_strong (validate_password_strength r.password) s
          (add_user username (new_user P username r salt) by ip now s)

  -- The body of `register`, of the user `by`.
  unfoldable pub register :
      Option Registration → ℕ → Text → ℕ → ℕ → Accounts W → Answer × Accounts W
  unfolding register_named strip
  register none salt ip now by s = (missing_data, s)
  register (some r) salt ip now by s = register_named (strip r.username) r salt by ip now s
