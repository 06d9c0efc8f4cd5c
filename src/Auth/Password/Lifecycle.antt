-- ===== src/Auth/Password/Lifecycle.antt =====
-- What the requests that change accounts keep (app/auth/routes.py).
use frass_f.Base.{
  count_if-none, count_if-insert, All-insert, All-lookup, ap, text_eq, text_eq_sound, All-append, ℕ,
  ◌≤◌, ◌≡◌, refl, Bool, true, false, Option, none, some, is_some, List, [], ◌∷◌, ◌++◌, Text, arith,
  count_if, count_if-append, values, values-insert, lookup, insert, next_id, Bool-cases, inl, inr,
  All, any, ◌||◌, is_empty, strip,
}
use mathlib.Core.Path.{subst}
use frass_f.Auth.Account.{User, Passwords, set_password, check_password, is_named, Accounts}
use frass_f.Auth.Login.{Totp}
use frass_f.Auth.Password.{
  Answer, if_strong, change_of, setup_of, verify_of, disable_of, password_changed, Weakness,
  is_role, role_or_default, Registration, change_to, change_password, mfa_setup, verify_with,
  mfa_verify, disable_after, mfa_disable, new_user, add_user, register_named, register, email_taken,
  validate_password_strength,
}

-- An account with a second factor has a secret.
abbrev pub Coded : User → Type 0
Coded u = u.mfa_enabled ≡ true → is_some u.mfa_secret ≡ true

-- No two accounts have one name, and a second factor has a secret.
abbrev pub Sound : {W : Type 0} → Accounts W → Type 0
Sound s =
    ((name : Text) → count_if (is_named name) (values s.users) ≤ 1) × All Coded (values s.users)

one_more :
    (u : User) (us : List User)
    → any (is_named u.username) us ≡ false
    → ((name : Text) → count_if (is_named name) us ≤ 1)
    → (name : Text) → count_if (is_named name) (us ++ (u ∷ [])) ≤ 1
one_more u us h one name =
    rw (count_if-append (is_named name) us (u ∷ [])) (elim (Bool-cases (is_named name u)) [
      | inl e ↦
          let same : u.username ≡ name = text_eq_sound u.username name e in
          let absent =
            count_if-none (is_named name) us (subst (λ n. any (is_named n) us ≡ false) same h) in
          ground arith
      | inr e ↦ let before = one name in ground arith
    ])

module _ {W : Type 0} where
  replace-Sound :
      (i : ℕ) (u v : User) (s : Accounts W)
      → lookup i s.users ≡ some u
      → v.username ≡ u.username
      → (Coded u → Coded v)
      → Sound s
      → Sound (record s { users = insert i v s.users })
  replace-Sound i u v s h n c (one, coded) = (
    λ name.
        rw (count_if-insert (is_named name) i u v s.users h (ap (λ x. text_eq x name) n))
          (one name),
    All-insert Coded i v s.users (c (All-lookup Coded i u s.users h coded)) coded,
  )

  add_user-Sound :
      (u : User) (by now : ℕ) (ip : Text) (s : Accounts W)
      → any (is_named u.username) (values s.users) ≡ false
      → Coded u
      → Sound s
      → Sound (add_user u.username u by ip now s).1
  unfolding add_user
  add_user-Sound u by now ip s h c (one, coded) = elim (Bool-cases (email_taken u.email s.users)) [
    | inl e ↦ rw e (one, coded)
    | inr e ↦
        rw (e, values-insert (next_id s.users) u s.users (omega arith))
          (
            one_more u (values s.users) h one,
            All-append Coded (values s.users) (u ∷ []) coded (c, tt),
          )
  ]

pub data Request : Type 0 where
  registration : Option Registration → ℕ → Text → ℕ → ℕ → Request
  change : ℕ → Option (Text × Text) → ℕ → Request
  setup : ℕ → Text → Request
  verify_code : ℕ → Text → ℕ → Request
  disable : ℕ → Text → Request

module _ {W : Type 0} (P : Passwords) (verify : Totp) where
  unfoldable pub handle : Request → Accounts W → Answer × Accounts W
  unfolding register change_password mfa_setup mfa_verify mfa_disable
  handle (registration r salt ip now by) = register P r salt ip now by
  handle (change i change_data salt) = change_password P verify i change_data salt
  handle (setup i secret) = mfa_setup P verify i secret
  handle (verify_code i code now) = mfa_verify P verify i code now
  handle (disable i password) = mfa_disable P verify i password

  unfoldable pub handle_all : List Request → Accounts W → Accounts W
  unfolding handle
  handle_all [] s = s
  handle_all (r ∷ rs) s = handle_all rs (handle r s).1

  register_named-Sound :
      (name : Text) (r : Registration) (salt by now : ℕ) (ip : Text) (s : Accounts W)
      → Sound s
      → Sound (register_named P name r salt by ip now s).1
  unfolding register_named new_user set_password
  register_named-Sound name r salt by now ip s h =
      elim (Bool-cases (is_empty name || is_empty r.password)) [
        | inl e ↦ rw e h
        | inr e ↦ elim (Bool-cases (is_role (role_or_default r.role))) [
          | inr k ↦ rw (e, k) h
          | inl k ↦ elim (Bool-cases (any (is_named name) (values s.users))) [
            | inl t ↦ rw (e, k, t) h
            | inr t ↦ rw (e, k, t) (strong (validate_password_strength r.password) t)
          ]
        ]
      ]
    where
      u : User
      u = new_user P name r salt

      strong :
          (o : Option Weakness)
          → any (is_named name) (values s.users) ≡ false
          → Sound (if_strong o s (add_user name u by ip now s)).1
      strong (some e) t = h
      strong none t = add_user-Sound u by now ip s t (λ k. absurd (ground arith)) h

  change_to-Sound :
      (b : Option Bool) (i : ℕ) (u : User) (new : Text) (salt : ℕ) (s : Accounts W)
      → lookup i s.users ≡ some u
      → Sound s
      → Sound (change_to P verify b i u new salt s).1
  unfolding change_to set_password
  change_to-Sound none i u new salt s e h = h
  change_to-Sound (some false) i u new salt s e h = h
  change_to-Sound (some true) i u new salt s e h = strong (validate_password_strength new)
    where
      strong :
          (o : Option Weakness)
          → Sound
              (if_strong o s (
                password_changed,
                record s { users = insert i (set_password P salt new u) s.users },
              )).1
      strong (some w) = h
      strong none = replace-Sound i u (set_password P salt new u) s e refl (λ c. c) h

  change_of-Sound :
      (o : Option User) (i : ℕ) (old new : Text) (salt : ℕ) (s : Accounts W)
      → lookup i s.users ≡ o
      → Sound s
      → Sound (change_of P verify o i old new salt s).1
  unfolding change_of
  change_of-Sound none i old new salt s e h = h
  change_of-Sound (some u) i old new salt s e h =
      change_to-Sound (check_password P old u) i u new salt s e h

  verify_with-Sound :
      (o : Option Text) (i : ℕ) (u : User) (code : Text) (now : ℕ) (s : Accounts W)
      → u.mfa_secret ≡ o
      → lookup i s.users ≡ some u
      → Sound s
      → Sound (verify_with P verify o i u code now s).1
  unfolding verify_with
  verify_with-Sound none i u code now s o e h = h
  verify_with-Sound (some secret) i u code now s o e h = elim (Bool-cases (is_empty secret)) [
    | inl k ↦ rw k h
    | inr k ↦ elim (Bool-cases (verify secret code now)) [
      | inr v ↦ rw (k, v) h
      | inl v ↦
          rw (k, v)
            (replace-Sound i u (record u { mfa_enabled = true }) s e refl (λ c k. rw o refl) h)
    ]
  ]

  disable_after-Sound :
      (b : Option Bool) (i : ℕ) (u : User) (s : Accounts W)
      → lookup i s.users ≡ some u
      → Sound s
      → Sound (disable_after P verify b i u s).1
  unfolding disable_after
  disable_after-Sound none i u s e h = h
  disable_after-Sound (some false) i u s e h = h
  disable_after-Sound (some true) i u s e h =
      replace-Sound i u (record u { mfa_enabled = false; mfa_secret = none }) s e refl
        (λ c k. absurd (ground arith)) h

  setup_of-Sound :
      (o : Option User) (i : ℕ) (secret : Text) (s : Accounts W)
      → lookup i s.users ≡ o
      → Sound s
      → Sound (setup_of P verify o i secret s).1
  unfolding setup_of
  setup_of-Sound none i secret s e h = h
  setup_of-Sound (some u) i secret s e h =
      replace-Sound i u (record u { mfa_secret = some secret }) s e refl (λ c k. refl) h

  verify_of-Sound :
      (o : Option User) (i : ℕ) (code : Text) (now : ℕ) (s : Accounts W)
      → lookup i s.users ≡ o
      → Sound s
      → Sound (verify_of P verify o i code now s).1
  unfolding verify_of
  verify_of-Sound none i code now s e h = h
  verify_of-Sound (some u) i code now s e h = verify_with-Sound u.mfa_secret i u code now s refl e h

  disable_of-Sound :
      (o : Option User) (i : ℕ) (password : Text) (s : Accounts W)
      → lookup i s.users ≡ o
      → Sound s
      → Sound (disable_of P verify o i password s).1
  unfolding disable_of
  disable_of-Sound none i password s e h = h
  disable_of-Sound (some u) i password s e h =
      disable_after-Sound (check_password P password u) i u s e h

  handle-Sound : (r : Request) (s : Accounts W) → Sound s → Sound (handle r s).1
  unfolding handle register change_password mfa_setup mfa_verify mfa_disable
  handle-Sound (registration none salt ip now by) s h = h
  handle-Sound (registration (some r) salt ip now by) s h =
      register_named-Sound (strip r.username) r salt by now ip s h
  handle-Sound (change i none salt) s h = h
  handle-Sound (change i (some (old, new)) salt) s h =
      change_of-Sound (lookup i s.users) i old new salt s refl h
  handle-Sound (setup i secret) s h = setup_of-Sound (lookup i s.users) i secret s refl h
  handle-Sound (verify_code i code now) s h = verify_of-Sound (lookup i s.users) i code now s refl h
  handle-Sound (disable i password) s h = disable_of-Sound (lookup i s.users) i password s refl h

  -- Registrations, changes of passwords and of second factors, in any order and at any times, never
  -- give two accounts one name, nor an account a second factor without a secret, where that held
  -- before.
  pub handle_all-Sound : (rs : List Request) (s : Accounts W) → Sound s → Sound (handle_all rs s)
  unfolding handle_all
  handle_all-Sound [] s h = h
  handle_all-Sound (r ∷ rs) s h = handle_all-Sound rs (handle r s).1 (handle-Sound r s h)
