-- ===== src/Auth/Tests.antt =====
-- Runs of the accounts (app/auth/) with small libraries.
use frass_f.Base.{
  ◌≡◌, refl, true, false, none, some, [], ◌∷◌, Text, text, text_eq, arith, text_eq_refl, Dict,
  first_where, strip, any, if◌then◌else◌, get,
}
use frass_f.Base.Int.{pos}
use frass_f.Auth.Account.{
  User, Passwords, matches, mismatch, check_password, seconds, is_locked, Accounts,
}
use frass_f.Auth.Login.{Redis, Totp, Credentials, check_lockout_redis, succeed, login}
use frass_f.Auth.Login.Lockout.{is_logged_in, logins, wrong_password_locks}
use frass_f.Auth.Login.Success.{LetIn, login-LetIn}
use frass_f.Auth.Password.Strength.{MatchesOwn}
use frass_f.Auth.Password.Lifecycle.{
  Sound, registration, setup, verify_code, change, disable, handle_all, handle_all-Sound,
}

abbrev libraries : Passwords
libraries = record {
  has_argon2 = true;
  argon2_hash = λ salt p. p;
  argon2_verify = λ h p. if text_eq h p then matches else mismatch;
  generate_password_hash = λ salt p. p;
  check_password_hash = λ h p. some (text_eq h p);
}

own : MatchesOwn libraries
own salt p = (rw (text_eq_refl p) refl, rw (text_eq_refl p) refl)

abbrev redis : Redis
redis = record {
  World = Dict Text;
  is_connected = true;
  hgetall = λ key w. (some w, w);
  ttl = λ key w. (some (pos 300), w);
  add_attempt = λ key now w. (true, w);
  expire = λ key n w. (true, w);
  delete = λ key w. (true, []);
  setex = λ key n v w. (true, w);
}

abbrev codes : Totp
codes secret code now = text_eq secret code

abbrev ada : User
ada = record {
  username = text "ada";
  email = none;
  password_hash = text "Secret12";
  role = text "teacher";
  is_active = true;
  mfa_enabled = true;
  mfa_secret = some (text "123");
  failed_login_attempts = 4;
  locked_until = none;
  student_id = none;
}

abbrev accounts : Accounts (Dict Text)
accounts = record { users = (1, ada) ∷ []; audit = []; redis = [] }

abbrev right : Credentials
right = record { username = text " ada"; password = text "Secret12"; mfa_code = text "123" }

abbrev wrong : Credentials
wrong = record right { password = text "x" }

wrong_password_locks_example :
    any is_logged_in
      (logins redis libraries codes
        ((right, [], seconds 20) ∷ (wrong, [], seconds 200) ∷ (right, [], seconds 309) ∷ [])
        (login redis libraries codes (some wrong) [] (seconds 10) accounts).1).0
    ≡ false
wrong_password_locks_example =
    wrong_password_locks redis libraries codes wrong [] 1 (seconds 10) ada accounts
      ((right, [], seconds 20) ∷ (wrong, [], seconds 200) ∷ (right, [], seconds 309) ∷ [])
      (unfold strip in refl) (unfold check_lockout_redis get in refl)
      (unfold strip first_where text_eq in refl) (omega arith)
      (unfold check_password text_eq in refl)
      (
        (refl, omega arith, omega arith),
        ((refl, omega arith, omega arith), ((refl, omega arith, omega arith), tt)),
      )

abbrev after_login : Accounts (Dict Text)
after_login = (login redis libraries codes (some right) [] (seconds 10) accounts).1

login-LetIn_example : LetIn redis libraries codes right [] 1 (seconds 10) accounts after_login
login-LetIn_example =
    login-LetIn redis libraries codes right [] 1 (seconds 10) accounts after_login (
      unfold login strip check_lockout_redis get first_where text_eq check_password is_locked
        succeed in
      refl)

handle_all-Sound_example : Sound (
    handle_all libraries codes
      (registration
          (some
            (record { username = text "bo"; password = text "Geheim34"; email = []; role = none }))
          0
          []
          5
          1
        ∷ setup 2 (text "77")
        ∷ verify_code 2 (text "77") 9
        ∷ change 2 (some (text "Geheim34", text "Secret12")) 0
        ∷ disable 1 (text "Secret12")
        ∷ [])
      accounts)
handle_all-Sound_example =
    handle_all-Sound libraries codes
      (registration
          (some
            (record { username = text "bo"; password = text "Geheim34"; email = []; role = none }))
          0 [] 5 1
        ∷ setup 2 (text "77")
        ∷ verify_code 2 (text "77") 9
        ∷ change 2 (some (text "Geheim34", text "Secret12")) 0
        ∷ disable 1 (text "Secret12")
        ∷ [])
      accounts (λ name. ground arith, (λ k. refl, tt))
