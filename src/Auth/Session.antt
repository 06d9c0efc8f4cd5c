-- ===== src/Auth/Session.antt =====
-- Tokens: `refresh`, `me`, `logout` (app/auth/routes.py) and the roles that a request asks for
-- (app/auth/decorators.py).
use frass_f.Base.{
  ℕ, ◌-◌, ◌≡◌, refl, Bool, false, not, Option, none, some, List, ◌++◌, Text, text, text_eq,
  is_empty, any, if◌then◌else◌, lookup, insert, lookup-insert, arith, Bool-cases, inl, inr,
}
use frass_f.Auth.Account.{User, Accounts}
use frass_f.Auth.Login.{Redis}

-- An access token names its user and the role at the time.
pub data Answer : Type 0 where
  user_not_found logged_out : Answer
  refreshed : ℕ → Text → Answer
  user_info : User → Answer

abbrev refreshed_for : Option User → ℕ → Answer
refreshed_for none i = user_not_found
refreshed_for (some u) i = if not u.is_active then user_not_found else refreshed i u.role

-- `refresh`
unfoldable pub refresh : {W : Type 0} → ℕ → Accounts W → Answer
unfolding lookup
refresh i s = refreshed_for (lookup i s.users) i

abbrev info_of : Option User → Answer
info_of none = user_not_found
info_of (some u) = user_info u

-- `me`
unfoldable pub me : {W : Type 0} → ℕ → Accounts W → Answer
unfolding lookup
me i s = info_of (lookup i s.users)

abbrev allowed : Option User → List Text → Bool
allowed none roles = false
allowed (some u) roles = any (text_eq u.role) roles

-- `role_required`: whether the handler runs for the user of the token.
unfoldable pub role_required : {W : Type 0} → List Text → ℕ → Accounts W → Bool
unfolding lookup text_eq
role_required roles i s = allowed (lookup i s.users) roles

module _ (R : Redis) where
  open R use {World, is_connected, setex}

  -- `_revoke_token`
  unfoldable pub revoke_token : Text → ℕ → World → World
  revoke_token jti expires_in w =
      if not is_connected
      then w
      else (setex (text "revoked_token:" ++ jti) expires_in (text "1") w).1

  -- `logout`, of a token with the id `jti` that expires at the second `exp`; both are cookies to delete.
  unfoldable pub logout : Text → ℕ → ℕ → Accounts World → Answer × Accounts World
  unfolding revoke_token
  logout jti exp now s = (
    logged_out,
    (if is_empty jti then s else record s { redis = revoke_token jti (exp - now) s.redis }),
  )

-- After a logout every token still works: for each user, refreshing, the user's info and every role
-- are answered as before.
pub logout_keeps_access :
    (R : Redis) (jti : Text) (exp now i : ℕ) (roles : List Text) (s : Accounts R.World)
    → (refresh i (logout R jti exp now s).1 ≡ refresh i s)
      × (me i (logout R jti exp now s).1 ≡ me i s)
      × (role_required roles i (logout R jti exp now s).1 ≡ role_required roles i s)
unfolding refresh me role_required logout
logout_keeps_access R jti exp now i roles s = elim (Bool-cases (is_empty jti)) [
  | inl e ↦ rw e (refl, refl, refl)
  | inr e ↦ rw e (refl, refl, refl)
]

-- An account that is disabled is refused a new access token, but with the one it has it still passes
-- every role that it passed before.
pub disabled_keeps_roles :
    {W : Type 0} (i : ℕ) (u : User) (roles : List Text) (s : Accounts W)
    → lookup i s.users ≡ some u
    → (refresh i (record s { users = insert i (record u { is_active = false }) s.users })
        ≡ user_not_found)
      × (role_required roles i
            (record s { users = insert i (record u { is_active = false }) s.users })
          ≡ role_required roles i s)
unfolding refresh role_required
disabled_keeps_roles i u roles s h =
    let put = lookup-insert i i (record u { is_active = false }) s.users in
    let now_off : lookup i (insert i (record u { is_active = false }) s.users)
        ≡ some (record u { is_active = false }) =
      ground arith in
    (rw now_off refl, rw (now_off, h) refl)
