-- ===== src/Base/Tables.antt =====
-- A database table as its rows by primary key, in insertion order; also a Python dict.
use Prim.Native.Nat.{ℕ, suc, ◌≤◌, max}
use mathlib.Core.Path.{◌≡◌, refl}
use mathlib.Core.Bool.{Bool, true, false}
use mathlib.Core.Option.{Option, none, some}
use mathlib.Core.List.{List, [], ◌∷◌, ◌++◌}
use native.Mathlib.Omega.{arith}
use mathlib.Core.Path.{subst}
use mathlib.Core.Logic.{inl, inr}
use frass_f.Base.Tests.{◌==◌, if◌then◌else◌, Bool-cases}
use frass_f.Base.Lists.{All, count_if}

abbrev pub Table {ℓ} : Type ℓ → Type ℓ
Table V = List (ℕ × V)

module _ {ℓ} {V : Type ℓ} where
  -- `db.session.get(Model, k)`, `d.get(k)`
  unfoldable pub lookup : ℕ → Table V → Option V
  lookup k [] = none
  lookup k ((j, v) ∷ t) = if j == k then some v else lookup k t

  -- The row `k` written, and added at the end where it is not there.
  unfoldable pub insert : ℕ → V → Table V → Table V
  insert k v [] = (k, v) ∷ []
  insert k v ((j, w) ∷ t) = if j == k then (j, v) ∷ t else (j, w) ∷ insert k v t

  -- `db.session.delete(row)`, `d.pop(k, None)`
  unfoldable pub erase : ℕ → Table V → Table V
  erase k [] = []
  erase k ((j, w) ∷ t) = if j == k then erase k t else (j, w) ∷ erase k t

  -- `Model.query.filter(p).first()`, the row with its key
  unfoldable pub first_where : (V → Bool) → Table V → Option (ℕ × V)
  first_where p [] = none
  first_where p ((j, v) ∷ t) = if p v then some (j, v) else first_where p t

  -- Every row that passes the test is rewritten.
  unfoldable pub update_where : (V → Bool) → (V → V) → Table V → Table V
  update_where p f [] = []
  update_where p f ((j, v) ∷ t) = (j, (if p v then f v else v)) ∷ update_where p f t

  -- A key above every key: the next value of an autoincrement column.
  unfoldable pub next_id : Table V → ℕ
  next_id [] = 1
  next_id ((j, v) ∷ t) = max (suc j) (next_id t)

  pub lookup-insert :
      (k j : ℕ) (v : V) (t : Table V)
      → lookup j (insert k v t) ≡ (if k == j then some v else lookup j t)
  unfolding lookup insert
  lookup-insert k j v [] = refl
  lookup-insert k j v ((i, w) ∷ t) = ground (arith, lookup-insert k j v t)

  pub lookup-erase :
      (k j : ℕ) (t : Table V) → lookup j (erase k t) ≡ (if k == j then none else lookup j t)
  unfolding lookup erase
  lookup-erase k j [] = ground arith
  lookup-erase k j ((i, w) ∷ t) = ground (arith, lookup-erase k j t)

  pub lookup-next_id : (k : ℕ) (t : Table V) → next_id t ≤ k → lookup k t ≡ none
  unfolding lookup next_id
  lookup-next_id k [] h = refl
  lookup-next_id k ((i, w) ∷ t) h = ground (arith, lookup-next_id k t)

  pub first_where-passes :
      (p : V → Bool) (t : Table V) (j : ℕ) (v : V) → first_where p t ≡ some (j, v) → p v ≡ true
  unfolding first_where
  first_where-passes p [] j v h = ground arith
  first_where-passes p ((i, w) ∷ t) j v h = ground (arith, first_where-passes p t j v)

  -- The values of the rows.
  abbrev pub values : Table V → List V
  values [] = []
  values ((j, v) ∷ t) = v ∷ values t

  -- A row with a new key goes to the end.
  pub values-insert :
      (k : ℕ) (v : V) (t : Table V) → next_id t ≤ k → values (insert k v t) ≡ values t ++ (v ∷ [])
  unfolding insert next_id
  values-insert k v [] h = refl
  values-insert k v ((j, w) ∷ t) h = ground (arith, values-insert k v t)

  pub next_id-update_where :
      (p : V → Bool) (f : V → V) (t : Table V) → next_id (update_where p f t) ≡ next_id t
  unfolding next_id update_where
  next_id-update_where p f [] = refl
  next_id-update_where p f ((j, w) ∷ t) = rw (next_id-update_where p f t)

  -- What rewriting all rows does to one of them.
  pub lookup-update_where :
      (p : V → Bool) (f : V → V) (k : ℕ) (v : V) (t : Table V)
      → lookup k t ≡ some v
      → lookup k (update_where p f t) ≡ some (if p v then f v else v)
  unfolding lookup update_where
  lookup-update_where p f k v [] h = ground arith
  lookup-update_where p f k v ((j, w) ∷ t) h = ground (arith, lookup-update_where p f k v t)

  -- The first row that passes, rewritten so that it passes still, is the first.
  pub first_where-insert :
      (p : V → Bool) (i : ℕ) (u v : V) (t : Table V)
      → first_where p t ≡ some (i, u)
      → p v ≡ true
      → first_where p (insert i v t) ≡ some (i, v)
  unfolding first_where insert
  first_where-insert p i u v [] h q = ground arith
  first_where-insert p i u v ((j, w) ∷ t) h q = ground (arith, first_where-insert p i u v t)

  -- What a row with a new key is to the search of the first.
  pub first_where-insert_new :
      (p : V → Bool) (k : ℕ) (v : V) (t : Table V)
      → next_id t ≤ k
      → first_where p (insert k v t)
        ≡ (elim (first_where p t) [ none ↦ (if p v then some (k, v) else none) | some x ↦ some x ])
  unfolding first_where insert next_id
  first_where-insert_new p k v [] h = refl
  first_where-insert_new p k v ((j, w) ∷ t) h = elim (Bool-cases (p w)) [
    | inl e ↦ ground arith
    | inr e ↦ ground (arith, first_where-insert_new p k v t)
  ]

  -- A row rewritten to one that the test takes alike.
  pub count_if-insert :
      (p : V → Bool) (k : ℕ) (u v : V) (t : Table V)
      → lookup k t ≡ some u
      → p v ≡ p u
      → count_if p (values (insert k v t)) ≡ count_if p (values t)
  unfolding lookup insert
  count_if-insert p k u v [] h e = ground arith
  count_if-insert p k u v ((j, w) ∷ t) h e = ground (arith, count_if-insert p k u v t)

  -- `Model.query.filter(p).delete()`
  unfoldable pub erase_where : (V → Bool) → Table V → Table V
  erase_where p [] = []
  erase_where p ((j, w) ∷ t) = let rest = erase_where p t in if p w then rest else (j, w) ∷ rest

  -- What one test counts after the rows of another are gone that it excludes, or is.
  pub count_if-erase_where :
      (p : V → Bool) (t : Table V) → count_if p (values (erase_where p t)) ≡ 0
  unfolding erase_where
  count_if-erase_where p [] = refl
  count_if-erase_where p ((j, w) ∷ t) = ground (arith, count_if-erase_where p t)

  pub count_if-erase_where_other :
      (p q : V → Bool) (t : Table V)
      → ((v : V) → q v ≡ true → p v ≡ false)
      → count_if q (values (erase_where p t)) ≡ count_if q (values t)
  unfolding erase_where
  count_if-erase_where_other p q [] h = refl
  count_if-erase_where_other p q ((j, w) ∷ t) h =
      let rest = count_if-erase_where_other p q t h in let excluded = h w in ground arith

-- What holds of every value.
module _ {ℓ κ} {V : Type ℓ} (P : V → Type κ) where
  pub All-insert :
      (k : ℕ) (v : V) (t : Table V) → P v → All P (values t) → All P (values (insert k v t))
  unfolding insert
  All-insert k v [] h a = (h, tt)
  All-insert k v ((j, w) ∷ t) h a = elim (Bool-cases (j == k)) [
    | inl e ↦ rw e (h, a.1)
    | inr e ↦ rw e (a.0, All-insert k v t h a.1)
  ]

  pub All-erase : (k : ℕ) (t : Table V) → All P (values t) → All P (values (erase k t))
  unfolding erase
  All-erase k [] a = a
  All-erase k ((j, w) ∷ t) a = elim (Bool-cases (j == k)) [
    | inl e ↦ rw e (All-erase k t a.1)
    | inr e ↦ rw e (a.0, All-erase k t a.1)
  ]

  pub All-lookup : (k : ℕ) (v : V) (t : Table V) → lookup k t ≡ some v → All P (values t) → P v
  unfolding lookup
  All-lookup k v [] h a = absurd (ground arith)
  All-lookup k v ((j, w) ∷ t) h a = elim (Bool-cases (j == k)) [
    | inl e ↦ let same : w ≡ v = ground arith in subst P same a.0
    | inr e ↦ All-lookup k v t (ground arith) a.1
  ]
