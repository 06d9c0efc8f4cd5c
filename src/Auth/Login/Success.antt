-- ===== src/Auth/Login/Success.antt =====
-- What a login that succeeds has passed (app/auth/routes.py).
use frass_f.Base.{
  ℕ, ◌≤◌, ◌≡◌, refl, ◌⊎◌, inl, inr, Bool, true, false, ◌||◌, Option, none, some, [], ◌∷◌, ◌++◌,
  Text, strip, is_empty, ltb, arith, Bool-cases, insert, first_where,
}
use frass_f.Base.Int.{ℤ}
use frass_f.Auth.Account.{
  User, Passwords, check_password, is_locked, unlocked, record_successful_login, is_named, Accounts,
}
use frass_f.Auth.Login.{
  Redis, Totp, Credentials, logged_in, check_lockout_redis, after_redis, with_account,
  after_password, after_locked, not_locked, after_code, code_passes, succeed, wrong_password,
  no_account, login_log, login,
}

module _ (R : Redis) (P : Passwords) (verify : Totp) (c : Credentials) (ip : Text) (i now : ℕ)
    (s s' : Accounts R.World) where
  open R use {World}

  -- The account `i` of the name was let in, and its failed attempts are forgotten.
  pub record LetIn : Type 0 where
    pub user : User
    pub is_found : first_where (is_named (strip c.username)) s.users ≡ some (i, user)
    pub password_right : check_password P c.password user ≡ some true
    pub lock_over : (t : ℕ) → user.locked_until ≡ some t → t ≤ now
    pub active : user.is_active ≡ true
    pub code_right :
        (user.mfa_enabled ≡ false)
        ⊎ (code_passes R P verify c.mfa_code now user.mfa_secret ≡ some true)
    pub users_after : s'.users ≡ insert i (unlocked user) s.users
    pub audited : s'.audit ≡ s.audit ++ (login_log R P verify i ip now ∷ [])

  -- What the account has passed from the check of `is_active` on, to end in `s'`.
  abbrev Passed : ℕ → User → Accounts World → Type 0
  Passed j u s₁ =
      (j ≡ i)
      × (u.is_active ≡ true)
      × ((u.mfa_enabled ≡ false) ⊎ (code_passes R P verify c.mfa_code now u.mfa_secret ≡ some true))
      × (s' ≡ (succeed R P verify (strip c.username) ip j u now s₁).1)

  code_lets :
      (j : ℕ) (b : Option Bool) (u : User) (s₁ : Accounts World)
      → after_code R P verify b c (strip c.username) ip j u now s₁ ≡ (logged_in i, s')
      → (j ≡ i) × (b ≡ some true) × (s' ≡ (succeed R P verify (strip c.username) ip j u now s₁).1)
  unfolding after_code succeed
  code_lets j none u s₁ h = absurd (ground arith)
  code_lets j (some false) u s₁ h = absurd (ground arith)
  code_lets j (some true) u s₁ h = (ground arith, refl, ground arith)

  not_locked_lets :
      (j : ℕ) (u : User) (s₁ : Accounts World)
      → not_locked R P verify c (strip c.username) ip j u now s₁ ≡ (logged_in i, s')
      → Passed j u s₁
  unfolding not_locked succeed
  not_locked_lets j u s₁ h = elim (Bool-cases u.is_active) [
    | inr e ↦ absurd (ground arith)
    | inl e ↦ elim (Bool-cases u.mfa_enabled) [
      | inr m ↦ (ground arith, e, inl m, ground arith)
      | inl m ↦ elim (Bool-cases (is_empty c.mfa_code)) [
        | inl n ↦ absurd (ground arith)
        | inr n ↦
            let (k, b, r) =
              code_lets j (code_passes R P verify c.mfa_code now u.mfa_secret) u s₁
                (ground arith) in
            (k, e, inr b, r)
      ]
    ]
  ]

  unlocked_lets :
      (j : ℕ) (u : User) (s₁ : Accounts World) (o : Option ℕ)
      → u.locked_until ≡ o
      → after_locked R P verify (is_locked now u) c (strip c.username) ip j now s₁
        ≡ (logged_in i, s')
      → ((t : ℕ) → u.locked_until ≡ some t → t ≤ now) × Passed j u s₁
  unfolding is_locked after_locked not_locked succeed record_successful_login
  unlocked_lets j u s₁ none e h =
      (λ t e'. absurd (ground arith), not_locked_lets j u s₁ (ground arith))
  unlocked_lets j u s₁ (some t) e h = elim (Bool-cases (ltb now t)) [
    | inl l ↦ absurd (ground arith)
    | inr l ↦ (λ t' e'. ground arith, not_locked_lets j (unlocked u) s₁ (ground arith))
  ]

  let_in :
      (j : ℕ) (u : User) (s₁ : Accounts World)
      → first_where (is_named (strip c.username)) s.users ≡ some (j, u)
      → check_password P c.password u ≡ some true
      → s₁.users ≡ s.users
      → s₁.audit ≡ s.audit
      → ((t : ℕ) → u.locked_until ≡ some t → t ≤ now) × Passed j u s₁
      → LetIn
  unfolding succeed record_successful_login
  let_in j u s₁ found right users audit (over, (same, active, code, after)) = record {
    user = u;
    is_found = rw found (rw same refl);
    password_right = right;
    lock_over = over;
    active = active;
    code_right = code;
    users_after = rw (after, users, same) refl;
    audited = rw (after, audit, same) refl;
  }

  password_lets :
      (j : ℕ) (u : User) (s₁ : Accounts World) (b : Option Bool)
      → first_where (is_named (strip c.username)) s.users ≡ some (j, u)
      → check_password P c.password u ≡ b
      → s₁.users ≡ s.users
      → s₁.audit ≡ s.audit
      → after_password R P verify b c (strip c.username) ip j u now s₁ ≡ (logged_in i, s')
      → LetIn
  unfolding after_password wrong_password
  password_lets j u s₁ none found right users audit h = absurd (ground arith)
  password_lets j u s₁ (some false) found right users audit h = absurd (ground arith)
  password_lets j u s₁ (some true) found right users audit h =
      let_in j u s₁ found right users audit (unlocked_lets j u s₁ u.locked_until refl h)

  account_lets :
      (o : Option (ℕ × User)) (w : World)
      → first_where (is_named (strip c.username)) s.users ≡ o
      → with_account R P verify o c (strip c.username) ip now (record s { redis = w })
        ≡ (logged_in i, s')
      → LetIn
  unfolding with_account no_account
  account_lets none w found h = absurd (ground arith)
  account_lets (some (j, u)) w found h =
      password_lets j u (record s { redis = w }) (check_password P c.password u) found refl refl
        refl h

  redis_lets :
      (r : Option ℤ × World)
      → after_redis R P verify r c (strip c.username) ip now s ≡ (logged_in i, s')
      → LetIn
  unfolding after_redis with_account
  redis_lets (some t, w) h = absurd (ground arith)
  redis_lets (none, w) h = account_lets (first_where (is_named (strip c.username)) s.users) w refl h

  -- A login succeeds only for the account of the name, with its password, when its lockout is over,
  -- if it is active and, where it has a second factor, with a code of its secret; then its failed
  -- attempts are forgotten, no other account has changed, and the login is in the audit log.
  pub login-LetIn : login R P verify (some c) ip now s ≡ (logged_in i, s') → LetIn
  unfolding login
  login-LetIn h = elim (Bool-cases (is_empty (strip c.username) || is_empty c.password)) [
    | inl e ↦ absurd (ground arith)
    | inr e ↦ redis_lets (check_lockout_redis R (strip c.username) s.redis) (ground arith)
  ]
