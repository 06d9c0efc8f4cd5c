-- ===== src/App/Seed.antt =====
-- What the default data does to tables that have rows already (app/services/seed.py).
use frass_f.Base.{
  ℕ, ◌≡◌, refl, ap, ◌∙◌, Bool, Option, none, some, [], ◌∷◌, Text, text, text_eq_refl, arith,
  Bool-cases, Option-cases, inl, inr, Table, lookup, next_id, first_where, lookup-insert,
  lookup-next_id, first_where-insert_new, ◌==◌,
}
use frass_f.Auth.Account.{User, Passwords, is_named, set_password}
use frass_f.Attendance.State.{Schedule}
use frass_f.App.{Data, add_unless, seed_user, default_user, seed_schedules, seed_defaults}

-- A user that is added unless there is one keeps the rows and the first users of every kind.
add_unless-lookup :
    (o : Option (ℕ × User)) (u v : User) (t : Table User) (i : ℕ)
    → lookup i t ≡ some v
    → lookup i (add_unless o u t) ≡ some v
add_unless-lookup (some x) u v t i h = h
add_unless-lookup none u v t i h = elim (Bool-cases (next_id t == i)) [
  | inl e ↦
      let same : next_id t ≡ i = ground arith in
      absurd (ground (arith, lookup-next_id i t (omega (arith, same)), h))
  | inr e ↦ rw (lookup-insert (next_id t) i u t) (rw e h)
]

add_unless-first :
    (o : Option (ℕ × User)) (u : User) (t : Table User) (p : User → Bool) (x : ℕ × User)
    → first_where p t ≡ some x
    → first_where p (add_unless o u t) ≡ some x
add_unless-first (some y) u t p x h = h
add_unless-first none u t p x h =
    rw (first_where-insert_new p (next_id t) u t (omega arith)) (rw h refl)

-- Afterwards there is a user of the name.
add_unless-found :
    (u : User) (t : Table User)
    → (x : ℕ × User) × (first_where
          (is_named u.username)
          (add_unless (first_where (is_named u.username) t) u t)
        ≡ some x)
add_unless-found u t = elim (Option-cases (first_where (is_named u.username) t)) [
  | inl e ↦ (
    (next_id t, u),
    rw e (
        rw (first_where-insert_new (is_named u.username) (next_id t) u t (omega arith))
          (rw e (rw (text_eq_refl u.username) refl))),
  )
  | inr (x, e) ↦ (x, rw e e)
]

seed_schedules-again : (t : Table Schedule) → seed_schedules (seed_schedules t) ≡ seed_schedules t
seed_schedules-again [] = refl
seed_schedules-again (x ∷ t) = refl

seed_user-again :
    (P : Passwords) (username role password : Text) (salt : ℕ) (t : Table User) (x : ℕ × User)
    → first_where (is_named username) t ≡ some x
    → seed_user P username role password salt t ≡ t
seed_user-again P username role password salt t x h = rw h refl

-- Every account stays as it is, there are users of both names, and seeding again, as at the next
-- start, changes nothing, whatever the new hashes are.
pub seed_defaults-again :
    {W : Type 0} (P : Passwords) (a b c e : ℕ) (d : Data W)
    → (seed_defaults P c e (seed_defaults P a b d) ≡ seed_defaults P a b d)
      × ((i : ℕ) (v : User)
          → lookup i d.accounts.users ≡ some v
          → lookup i (seed_defaults P a b d).accounts.users ≡ some v)
unfolding seed_defaults
seed_defaults-again {W} P a b c e d =
    let named : Text → Text → Text → ℕ → User =
      λ n role password salt. set_password P salt password (default_user n role) in
    let t = d.accounts.users in
    let t' = seed_user P (text "admin") (text "admin") (text "admin123") a t in
    let t'' = seed_user P (text "teacher") (text "teacher") (text "teacher123") b t' in
    let admin = add_unless-found (named (text "admin") (text "admin") (text "admin123") a) t in
    let teacher =
      add_unless-found (named (text "teacher") (text "teacher") (text "teacher123") b) t' in
    let admin' =
      add_unless-first (first_where (is_named (text "teacher")) t')
        (named (text "teacher") (text "teacher") (text "teacher123") b) t' (is_named (text "admin"))
        admin.0 admin.1 in
    (
      ap (with_users (seed_schedules (seed_schedules d.schedules))) (
            ap (seed_user P (text "teacher") (text "teacher") (text "teacher123") e) (
              seed_user-again P (text "admin") (text "admin") (text "admin123") c t'' admin.0
                admin')
            ∙ seed_user-again P (text "teacher") (text "teacher") (text "teacher123") e t''
                teacher.0 teacher.1)
          ∙ ap (λ (s : Table Schedule). with_users s t'') (seed_schedules-again d.schedules),
      λ i v h.
          add_unless-lookup (first_where (is_named (text "teacher")) t')
            (named (text "teacher") (text "teacher") (text "teacher123") b) v t' i
            (add_unless-lookup (first_where (is_named (text "admin")) t)
              (named (text "admin") (text "admin") (text "admin123") a) v t i h),
    )
  where
    with_users : Table Schedule → Table User → Data W
    with_users s us = record { accounts = record d.accounts { users = us }; schedules = s }
