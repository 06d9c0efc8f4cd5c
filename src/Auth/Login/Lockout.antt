-- ===== src/Auth/Login/Lockout.antt =====
-- What the lockout of an account keeps out (app/auth/routes.py, app/models/user.py).
use frass_f.Base.{
  ℕ, suc, ◌+◌, ◌≤◌, ◌<◌, ◌≡◌, refl, Bool, true, false, ◌||◌, Option, none, some, List, [], ◌∷◌,
  Text, strip, is_empty, leb, arith, Bool-cases, inl, inr, any, first_where, first_where-insert,
  first_where-passes,
}
use frass_f.Base.Int.{ℤ}
use frass_f.Auth.Account.{
  User, Passwords, check_password, seconds, is_locked, record_failed_login, is_named, Accounts,
}
use frass_f.Auth.Login.{
  Redis, Totp, Credentials, Answer, logged_in, check_lockout_redis, after_redis, with_account,
  after_password, wrong_password, login,
}

abbrev pub is_logged_in : Answer → Bool
is_logged_in (logged_in i) = true
is_logged_in _ = false

-- The account of the name is locked until `limit` at least.
abbrev pub Locked : {W : Type 0} → Text → ℕ → Accounts W → Type 0
Locked name limit s =
    (i : ℕ) × (u : User) × (t : ℕ) × (first_where (is_named name) s.users ≡ some (i, u))
    × (u.locked_until ≡ some t)
    × (limit ≤ t)

failed_stays :
    (now limit t : ℕ) (u : User)
    → u.locked_until ≡ some t
    → limit ≤ t
    → limit ≤ now + seconds 300
    → (t' : ℕ) × ((record_failed_login now u).locked_until ≡ some t') × (limit ≤ t')
unfolding record_failed_login
failed_stays now limit t u e h room = elim (Bool-cases (leb 5 (suc u.failed_login_attempts))) [
  | inl five ↦ (now + seconds 300, rw five refl, room)
  | inr fewer ↦ (t, rw fewer e, h)
]

module _ (R : Redis) (P : Passwords) (verify : Totp) where
  open R use {World}

  -- The answer is no login, and the account of the name stays locked.
  abbrev Refused : Text → ℕ → Answer × Accounts World → Type 0
  Refused name limit (a, s) = (is_logged_in a ≡ false) × Locked name limit s

  module _ (name ip : Text) (now limit : ℕ) (early : now < limit) (room : limit ≤ now + seconds 300)
      (c : Credentials) where
    wrong_stays :
        (s : Accounts World) (i : ℕ) (u : User) (t : ℕ)
        → first_where (is_named name) s.users ≡ some (i, u)
        → u.locked_until ≡ some t
        → limit ≤ t
        → Refused name limit (wrong_password R P verify name i u now s)
    unfolding wrong_password
    wrong_stays s i u t found e h =
        let (t', e', h') = failed_stays now limit t u e h room in
        let named = first_where-passes (is_named name) s.users i u found in
        (
          refl,
          (
            i,
            record_failed_login now u,
            t',
            first_where-insert (is_named name) i u (record_failed_login now u) s.users found
                (unfold record_failed_login in ground (arith, named)),
            e',
            h',
          ),
        )

    account_stays :
        (s : Accounts World) (i : ℕ) (u : User) (t : ℕ) (b : Option Bool)
        → first_where (is_named name) s.users ≡ some (i, u)
        → u.locked_until ≡ some t
        → limit ≤ t
        → Refused name limit (after_password R P verify b c name ip i u now s)
    unfolding is_locked after_password
    account_stays s i u t none found e h = (refl, (i, u, t, found, e, h))
    account_stays s i u t (some false) found e h = wrong_stays s i u t found e h
    account_stays s i u t (some true) found e h =
        let still : is_locked now u ≡ (true, u) = ground arith in
        rw still (refl, (i, u, t, found, e, h))

    account-Refused :
        (s : Accounts World)
        → Locked name limit s
        → Refused name limit
            (with_account R P verify (first_where (is_named name) s.users) c name ip now s)
    unfolding with_account after_password
    account-Refused s (i, u, t, found, e, h) =
        rw found (account_stays s i u t (check_password P c.password u) found e h)

    redis-Refused :
        (s : Accounts World) (r : Option ℤ × World)
        → Locked name limit s
        → Refused name limit (after_redis R P verify r c name ip now s)
    unfolding after_redis with_account
    redis-Refused s (none, w) l = account-Refused (record s { redis = w }) l
    redis-Refused s (some t, w) l = (refl, l)

    login-Refused :
        (s : Accounts World)
        → strip c.username ≡ name
        → Locked name limit s
        → Refused name limit (login R P verify (some c) ip now s)
    unfolding login
    login-Refused s n l = elim (Bool-cases (is_empty (strip c.username) || is_empty c.password)) [
      | inl e ↦ rw e (refl, l)
      | inr e ↦ rw (e, n) (redis-Refused s (check_lockout_redis R name s.redis) l)
    ]

  -- Attempts to log in, each with its address and time, one after the other.
  unfoldable pub logins :
      List (Credentials × Text × ℕ) → Accounts World → List Answer × Accounts World
  logins [] s = ([], s)
  logins ((c, ip, now) ∷ cs) s =
      let first = login R P verify (some c) ip now s in
      let rest = logins cs first.1 in (first.0 ∷ rest.0, rest.1)

  -- The attempts name the account, and come within 300 seconds before the limit.
  abbrev pub Within : Text → ℕ → List (Credentials × Text × ℕ) → Type 0
  Within name limit [] = Unit
  Within name limit ((c, ip, now) ∷ cs) =
      ((strip c.username ≡ name) × (now < limit) × (limit ≤ now + seconds 300))
      × Within name limit cs

  Locked-refuses :
      (name : Text) (limit : ℕ) (cs : List (Credentials × Text × ℕ)) (s : Accounts World)
      → Within name limit cs
      → Locked name limit s
      → any is_logged_in (logins cs s).0 ≡ false
  unfolding logins
  Locked-refuses name limit [] s w l = refl
  Locked-refuses name limit ((c, ip, now) ∷ cs) s ((n, early, room), w) l =
      let (refused, l') = login-Refused name ip now limit early room c s n l in
      let rest = Locked-refuses name limit cs (login R P verify (some c) ip now s).1 w l' in
      rw (refused, rest)

  fifth_locks :
      (name ip : Text) (i now : ℕ) (u : User) (s : Accounts World)
      → first_where (is_named name) s.users ≡ some (i, u)
      → 4 ≤ u.failed_login_attempts
      → Locked name (now + seconds 300) (wrong_password R P verify name i u now s).1
  unfolding wrong_password
  fifth_locks name ip i now u s found four =
      let named = first_where-passes (is_named name) s.users i u found in
      let five : leb 5 (suc u.failed_login_attempts) ≡ true = ground arith in
      (
        i,
        record_failed_login now u,
        now + seconds 300,
        first_where-insert (is_named name) i u (record_failed_login now u) s.users found
            (unfold record_failed_login in ground (arith, named)),
        unfold record_failed_login in (rw five refl),
        omega arith,
      )

  unlocked_redis_locks :
      (c : Credentials) (name ip : Text) (i now : ℕ) (u : User) (s : Accounts World)
      (r : Option ℤ × World)
      → r.0 ≡ none
      → first_where (is_named name) s.users ≡ some (i, u)
      → 4 ≤ u.failed_login_attempts
      → check_password P c.password u ≡ some false
      → Locked name (now + seconds 300) (after_redis R P verify r c name ip now s).1
  unfolding after_redis with_account after_password
  unlocked_redis_locks c name ip i now u s (some t, w) free found four wrong = absurd (ground arith)
  unlocked_redis_locks c name ip i now u s (none, w) free found four wrong =
      rw (found, wrong) (fifth_locks name ip i now u (record s { redis = w }) found four)

  -- A login with a name and a wrong password for that name's account, which Redis does not refuse and
  -- which is the fifth failed attempt or a later one, though a lockout may have expired in between,
  -- locks the account: within the 300 seconds that follow no attempt to log in by its name succeeds,
  -- whatever the password, the code, and the state of Redis.
  pub wrong_password_locks :
      (c : Credentials) (ip : Text) (i now : ℕ) (u : User) (s : Accounts World)
      (cs : List (Credentials × Text × ℕ))
      → (is_empty (strip c.username) || is_empty c.password) ≡ false
      → (check_lockout_redis R (strip c.username) s.redis).0 ≡ none
      → first_where (is_named (strip c.username)) s.users ≡ some (i, u)
      → 4 ≤ u.failed_login_attempts
      → check_password P c.password u ≡ some false
      → Within (strip c.username) (now + seconds 300) cs
      → any is_logged_in (logins cs (login R P verify (some c) ip now s).1).0 ≡ false
  unfolding login
  wrong_password_locks c ip i now u s cs given free found four wrong within =
      Locked-refuses (strip c.username) (now + seconds 300) cs
        (login R P verify (some c) ip now s).1 within
        (rw given (
          unlocked_redis_locks c (strip c.username) ip i now u s
            (check_lockout_redis R (strip c.username) s.redis) free found four wrong))
