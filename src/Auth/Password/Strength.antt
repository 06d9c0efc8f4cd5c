-- ===== src/Auth/Password/Strength.antt =====
-- What the test of a password's strength asks (app/auth/routes.py), and what a change of password
-- leads to.
use frass_f.Base.{
  ℕ, ◌≤◌, ◌≡◌, refl, ◌↔◌, Bool, true, false, not, Option, none, some, [], ◌∷◌, Text, arith,
  is_lower, is_upper, is_digit, any, all, length, ◌==◌, lookup, insert, lookup-insert, Bool-cases,
  inl, inr,
}
use frass_f.Auth.Account.{User, Passwords, matches, set_password, check_password, Accounts}
use frass_f.Auth.Login.{Totp}
use frass_f.Auth.Password.{
  line_of, password_pattern, validate_password_strength, change_password, change_of, change_to,
  if_strong, password_changed, Weakness,
}

one_line : (s : Text) → all (λ c. not (c == 10)) s ≡ true → line_of s ≡ (s, [])
unfolding line_of
one_line [] h = refl
one_line (c ∷ s) h = let rest = one_line s (ground arith) in rw rest (ground arith)

-- A password without a newline is strong exactly if it has at least eight characters, a lower-case
-- and an upper-case letter, and a digit.
pub validate_password_strength_iff :
    (s : Text)
    → all (λ c. not (c == 10)) s ≡ true
    → (validate_password_strength s ≡ none) ↔ (
        (8 ≤ length s)
        × (any is_lower s ≡ true)
        × (any is_upper s ≡ true)
        × (any is_digit s ≡ true))
unfolding validate_password_strength password_pattern
validate_password_strength_iff s h = rw (one_line s h) (ground arith)

-- What the libraries promise: a password matches its own hash, by the library that made it.
abbrev pub MatchesOwn : Passwords → Type 0
MatchesOwn P =
    (salt : ℕ) (password : Text)
    → (P.argon2_verify (P.argon2_hash salt password) password ≡ matches)
      × (P.check_password_hash (P.generate_password_hash salt password) password ≡ some true)

module _ {W : Type 0} (P : Passwords) (verify : Totp) (own : MatchesOwn P) (i : ℕ) (old new : Text)
    (salt : ℕ) (s s' : Accounts W) where
  -- The account's old password was given, the new one is strong, and is the account's now.
  abbrev pub Changed : Type 0
  Changed =
      (u u' : User) × (lookup i s.users ≡ some u)
      × (check_password P old u ≡ some true)
      × (validate_password_strength new ≡ none)
      × (lookup i s'.users ≡ some u')
      × (check_password P new u' ≡ some true)

  own_password : (u : User) → check_password P new (set_password P salt new u) ≡ some true
  unfolding check_password set_password
  own_password u =
      let (a, w) = own salt new in
      elim (Bool-cases P.has_argon2) [ inl e ↦ rw (e, a) refl | inr e ↦ rw (e, w) refl ]

  changed_strong :
      (o : Option Weakness) (u : User)
      → if_strong o s
          (password_changed, record s { users = insert i (set_password P salt new u) s.users })
        ≡ (password_changed, s')
      → (o ≡ none) × (lookup i s'.users ≡ some (set_password P salt new u))
  changed_strong (some w) u h = absurd (ground arith)
  changed_strong none u h =
      let put = lookup-insert i i (set_password P salt new u) s.users in
      let after : s' ≡ record s { users = insert i (set_password P salt new u) s.users } =
        ground arith in
      (refl, rw (after, put) (ground arith))

  changed_after :
      (b : Option Bool) (u : User)
      → lookup i s.users ≡ some u
      → check_password P old u ≡ b
      → change_to P verify b i u new salt s ≡ (password_changed, s')
      → Changed
  unfolding change_to
  changed_after none u e r h = absurd (ground arith)
  changed_after (some false) u e r h = absurd (ground arith)
  changed_after (some true) u e r h =
      let (strong, after) = changed_strong (validate_password_strength new) u h in
      (u, set_password P salt new u, e, r, strong, after, own_password u)

  changed_user :
      (o : Option User)
      → lookup i s.users ≡ o
      → change_of P verify o i old new salt s ≡ (password_changed, s')
      → Changed
  unfolding change_of change_to
  changed_user none e h = absurd (ground arith)
  changed_user (some u) e h = changed_after (check_password P old u) u e refl h

  -- Where a password matches its own hash, a change that succeeds was given the old password and a strong new
  -- one, and from then on the account's password is the new one.
  pub change_password-Changed :
      change_password P verify i (some (old, new)) salt s ≡ (password_changed, s') → Changed
  unfolding change_password
  change_password-Changed h = changed_user (lookup i s.users) refl h
