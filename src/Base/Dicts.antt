-- ===== src/Base/Dicts.antt =====
-- A Python dict, or a table, with texts for keys.
use mathlib.Core.Path.{◌≡◌, refl, ◌∙◌}
use mathlib.Core.Bool.{Bool, true, false}
use mathlib.Core.Option.{Option, none, some}
use mathlib.Core.List.{List, [], ◌∷◌}
use mathlib.Core.Logic.{inl, inr}
use native.Mathlib.Omega.{arith}
use frass_f.Base.Tests.{if◌then◌else◌, Bool-cases}
use frass_f.Base.Strings.{Text, text_eq, text_eq_iff}

abbrev pub Dict {ℓ} : Type ℓ → Type ℓ
Dict V = List (Text × V)

-- The value of the first, or else of the second.
abbrev pub first_of {ℓ} : {A : Type ℓ} → Option A → Option A → Option A
first_of none b = b
first_of (some a) b = some a

module _ {ℓ} {V : Type ℓ} where
  -- `d.get(k)`
  unfoldable pub get : Text → Dict V → Option V
  get k [] = none
  get k ((j, v) ∷ d) = if text_eq j k then some v else get k d

  -- `d[k] = v`
  unfoldable pub put : Text → V → Dict V → Dict V
  put k v [] = (k, v) ∷ []
  put k v ((j, w) ∷ d) = if text_eq j k then (j, v) ∷ d else (j, w) ∷ put k v d

  -- The entries whose value passes the test.
  unfoldable pub filter_values : (V → Bool) → Dict V → Dict V
  filter_values p [] = []
  filter_values p ((j, w) ∷ d) = if p w then (j, w) ∷ filter_values p d else filter_values p d

  pub get-put :
      (k j : Text) (v : V) (d : Dict V)
      → get j (put k v d) ≡ (if text_eq k j then some v else get j d)
  unfolding get put
  get-put k j v [] = refl
  get-put k j v ((i, w) ∷ d) =
      ground (arith, text_eq_iff k j, text_eq_iff i k, text_eq_iff i j, get-put k j v d)

  -- A filter keeps a key whose first entry passes.
  pub get-filter_values :
      (p : V → Bool) (k : Text) (v : V) (d : Dict V)
      → get k d ≡ some v
      → p v ≡ true
      → get k (filter_values p d) ≡ some v
  unfolding get filter_values
  get-filter_values p k v [] h q = h
  get-filter_values p k v ((j, w) ∷ d) h q = ground (arith, get-filter_values p k v d)

  -- `base.update(overrides)`
  unfoldable pub update_all : Dict V → Dict V → Dict V
  unfolding put
  update_all base [] = base
  update_all base ((k, v) ∷ overrides) = update_all (put k v base) overrides

  -- No key twice, as in a dict that is read from JSON.
  abbrev pub Distinct : Dict V → Type ℓ
  Distinct [] = Unit
  Distinct ((k, v) ∷ d) = (get k d ≡ none) × Distinct d

  pub get-update_all :
      (k : Text) (base d : Dict V)
      → Distinct d
      → get k (update_all base d) ≡ first_of (get k d) (get k base)
  unfolding get update_all
  get-update_all k base [] h = refl
  get-update_all k base ((j, v) ∷ d) h =
      let rest = get-update_all k (put j v base) d h.1 in
      let there = get-put j k v base in let unique = h.0 in ground (arith, text_eq_iff j k)

  pub put-Distinct : (k : Text) (v : V) (d : Dict V) → Distinct d → Distinct (put k v d)
  unfolding get put
  put-Distinct k v [] h = (refl, tt)
  put-Distinct k v ((j, w) ∷ d) h = elim (Bool-cases (text_eq j k)) [
    | inl t ↦ rw t (h.0, h.1)
    | inr f ↦
        let apart : text_eq k j ≡ false = ground (arith, text_eq_iff j k, text_eq_iff k j) in
        rw f (get-put k j v d ∙ rw apart h.0, put-Distinct k v d h.1)
  ]

  pub update_all-Distinct : (base d : Dict V) → Distinct base → Distinct (update_all base d)
  unfolding update_all
  update_all-Distinct base [] h = h
  update_all-Distinct base ((k, v) ∷ d) h =
      update_all-Distinct (put k v base) d (put-Distinct k v base h)
