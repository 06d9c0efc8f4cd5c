-- ===== src/Edge/DeviceConfig/Precedence.antt =====
-- Which value of a key a device gets (edge/config/device_config.py).
use frass_f.Base.{
  ◌≡◌, refl, sym, ◌∙◌, ap, Bool, true, false, Option, none, some, [], ◌∷◌, Text, text_eq,
  text_eq_iff, is_some, Dict, get, put, get-put, update_all, Distinct, first_of, get-update_all,
  arith, inl, inr, Bool-cases, if◌then◌else◌,
}
use frass_f.Base.Int.{ℤ}
use frass_f.Base.Parse.{parse_int}
use frass_f.Edge.DeviceConfig.{
  Value, int, Config, default_config, Floats, File, missing, read, env_key, cast, overridden,
  cons_entry, override_all, from_file, load, merge,
}

-- What the file says of a key; a file that does not read says nothing.
abbrev pub in_file : {F : Type 0} → File F → Config F
in_file missing = []
in_file (read none) = []
in_file (read (some c)) = c

-- One update of a key that may be known, before the others.
merge_step {ℓ} :
    {C : Type ℓ} (k j : Text) (v : C) (o : Option C) (c : Dict C) (known_j known_k : Bool)
    → (text_eq j k ≡ true → known_j ≡ known_k)
    → (text_eq j k ≡ true → o ≡ none)
    → (if known_k
        then first_of o (get k (if known_j then put j v c else c))
        else get k (if known_j then put j v c else c))
      ≡ (if known_k then first_of (if text_eq j k then some v else o) (get k c) else get k c)
merge_step k j v o c false false same unique = refl
merge_step k j v o c true false same unique = let there = get-put j k v c in ground (arith, same)
merge_step k j v o c false true same unique = ground (arith, same)
merge_step k j v o c true true same unique =
    let there = get-put j k v c in
    elim (Bool-cases (text_eq j k)) [
      | inl t ↦ rw (unique t) (rw (there, t))
      | inr f ↦ rw (there, f)
    ]

module _ (X : Floats) where
  open X use {Float}

  -- The value of the environment, if the variable is set, or else the one that was there.
  abbrev pub resolved : (Text → Option Text) → Text → Option (Value Float) → Option (Value Float)
  resolved env k none = none
  resolved env k (some v) = overridden X (env (env_key k)) v

  cons_entry-some :
      (k : Text) (o : Option (Value Float)) (r : Option (Config Float)) (d : Config Float)
      → cons_entry k o r ≡ some d
      → (v : Value Float) × (c : Config Float) × (o ≡ some v) × (r ≡ some c) × (d ≡ (k, v) ∷ c)
  cons_entry-some k none r d h = absurd (ground arith)
  cons_entry-some k (some v) none d h = absurd (ground arith)
  cons_entry-some k (some v) (some c) d h = (v, c, refl, refl, cc)

  get-override_all :
      (env : Text → Option Text) (k : Text) (c d : Config Float)
      → override_all X env c ≡ some d
      → get k d ≡ resolved env k (get k c)
  unfolding override_all get
  get-override_all env k [] d h = let e : d ≡ [] = cc in rw e
  get-override_all env k ((j, v) ∷ c) d h =
      let (w, rest, p, q, e) =
        cons_entry-some j (overridden X (env (env_key j)) v) (override_all X env c) d h in
      rw e (elim (Bool-cases (text_eq j k)) [
        | inl t ↦ let same : j ≡ k = (text_eq_iff j k).0 t in rw t (rw (← same) (sym p))
        | inr f ↦ rw f (get-override_all env k c rest q)
      ])

  -- A device that starts gets, of each key: none that neither the defaults nor the file have; else
  -- the value of the environment, read by the type of the one below, else the file's, else the default.
  pub get-load :
      (env : Text → Option Text) (file : File Float) (k : Text) (d : Config Float)
      → Distinct (in_file file)
      → load X env file ≡ some d
      → get k d ≡ resolved env k (first_of (get k (in_file file)) (get k (default_config X)))
  unfolding load from_file get
  get-load env missing k d u h = get-override_all env k (default_config X) d h
  get-load env (read none) k d u h = get-override_all env k (default_config X) d h
  get-load env (read (some c)) k d u h =
      get-override_all env k (update_all (default_config X) c) d h
      ∙ rw (get-update_all k (default_config X) c u)

  -- A merge takes the values of the keys that the defaults have, and leaves every other key.
  pub get-merge :
      (k : Text) (updates c : Config Float)
      → Distinct updates
      → get k (merge X updates c) ≡ (
          if is_some (get k (default_config X))
          then first_of (get k updates) (get k c)
          else get k c)
  unfolding merge get
  get-merge k [] c h = ground arith
  get-merge k ((j, v) ∷ updates) c h =
      get-merge k updates (if is_some (get j (default_config X)) then put j v c else c) h.1
      ∙ merge_step k j v (get k updates) c (is_some (get j (default_config X)))
          (is_some (get k (default_config X)))
          (λ t. ap (λ (x : Text). is_some (get x (default_config X))) ((text_eq_iff j k).0 t))
          (λ t. ap (λ (x : Text). get x updates) (sym ((text_eq_iff j k).0 t)) ∙ h.0)

  cons_entry-raises : (k : Text) (o : Option (Value Float)) → cons_entry k o none ≡ none
  cons_entry-raises k none = refl
  cons_entry-raises k (some v) = refl

  override_raises :
      (env : Text → Option Text) (k : Text) (c : Config Float) (v : Value Float)
      → get k c ≡ some v
      → overridden X (env (env_key k)) v ≡ none
      → override_all X env c ≡ none
  unfolding override_all get
  override_raises env k [] v h o = absurd (ground arith)
  override_raises env k ((j, w) ∷ c) v h o = elim (Bool-cases (text_eq j k)) [
    | inl t ↦
        let same : j ≡ k = (text_eq_iff j k).0 t in
        let e : w ≡ v = ground arith in
        let raised : overridden X (env (env_key j)) w ≡ none = rw (same, e) o in rw raised refl
    | inr f ↦
        rw (override_raises env k c v (ground arith) o)
          (cons_entry-raises j (overridden X (env (env_key j)) w))
  ]

  cast_raises : (t : Text) (n : ℤ) → parse_int t ≡ none → cast X t (int n) ≡ none
  unfolding cast
  cast_raises t n p = rw p

  -- A variable of the environment that is no number, for a key whose value is a number, raises: the
  -- device does not start, whatever the file is.
  pub bad_number_raises :
      (env : Text → Option Text) (file : File Float) (k t : Text) (n : ℤ)
      → get k (from_file X file) ≡ some (int n)
      → env (env_key k) ≡ some t
      → parse_int t ≡ none
      → load X env file ≡ none
  unfolding load
  bad_number_raises env file k t n h e p =
      override_raises env k (from_file X file) (int n) h (rw e (cast_raises t n p))
