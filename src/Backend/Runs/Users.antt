-- ===== src/Backend/Runs/Users.antt =====
-- What holds of the users and the embeddings after any requests (backend/app.py).
use frass_f.Base.{
  ℕ, ◌≤◌, ◌≡◌, refl, sym, ap, ◌∙◌, Bool, true, false, ◌||◌, Option, none, some, List, [], ◌∷◌, ◌++◌,
  Text, text_eq, text_eq_sound, is_empty, is_some, Table, lookup, insert, next_id, first_where,
  values, values-insert, lookup-insert, count_if, count_if-append, All, All-append, ◌==◌,
  if◌then◌else◌, arith, Bool-cases, inl, inr,
}
use frass_f.Base.Int.{ℤ, ltb_ℤ}
use frass_f.Matching.{Known}
use frass_f.Backend.State.{
  Backend, User, FaceEmbedding, Env, Config, load_embeddings, group_embeddings, add_known,
}
use frass_f.Backend.Match.{Engine, match_embedding, embedding_quality}
use frass_f.Backend.Users.{
  Registration, Entry, is_external, user_for, with_embedding, register_with, register_user,
  verified, or_threshold, truthy, verify_face, log_for, log_attendance,
}

abbrev pub HasUser : Table User → ℕ → Type 0
HasUser t i = is_some (lookup i t) ≡ true

-- No two users have one external id, and every embedding, in the table and in the cache, is of a user.
abbrev pub OfUsers : {C E : Type 0} → Backend C E → Type 0
OfUsers {C} {E} b =
    ((t : Text) → count_if (is_external t) (values b.users) ≤ 1)
    × All (λ (r : FaceEmbedding E). HasUser b.users r.user_id) b.embeddings
    × All (λ (k : ℕ × List E). HasUser b.users k.0) b.embedding_cache

add-All :
    {E : Type 0} (P : ℕ → Type 0) (i : ℕ) (e : E) (known : Known E)
    → P i
    → All (λ (k : ℕ × List E). P k.0) known
    → All (λ (k : ℕ × List E). P k.0) (add_known i e known)
unfolding add_known
add-All P i e [] h k = (h, tt)
add-All P i e ((j, es) ∷ known) h k = elim (Bool-cases (j == i)) [
  | inl t ↦ rw t (k.0, k.1)
  | inr f ↦ rw f (k.0, add-All P i e known h k.1)
]

group-All :
    {E : Type 0} (P : ℕ → Type 0) (rs : List (FaceEmbedding E)) (known : Known E)
    → All (λ (r : FaceEmbedding E). P r.user_id) rs
    → All (λ (k : ℕ × List E). P k.0) known
    → All (λ (k : ℕ × List E). P k.0) (group_embeddings rs known)
unfolding group_embeddings
group-All P [] known h k = k
group-All P (r ∷ rs) known h k =
    group-All P rs (add_known r.user_id r.embedding known) h.1
      (add-All P r.user_id r.embedding known h.0 k)

pub load-OfUsers :
    {C E : Type 0} (f : Bool) (b : Backend C E) → OfUsers b → OfUsers (load_embeddings f b)
unfolding load_embeddings
load-OfUsers true b h = (h.0, h.1, tt)
load-OfUsers false b h = (h.0, h.1, group-All (HasUser b.users) b.embeddings [] h.1 tt)

pub first-HasUser :
    (p : User → Bool) (t : Table User) (i : ℕ) (u : User)
    → first_where p t ≡ some (i, u)
    → HasUser t i
unfolding first_where lookup
first-HasUser p [] i u h = absurd (ground arith)
first-HasUser p ((j, v) ∷ t) i u h = ground (arith, first-HasUser p t i u)

first_none-count :
    (p : User → Bool) (t : Table User) → first_where p t ≡ none → count_if p (values t) ≡ 0
unfolding first_where
first_none-count p [] h = refl
first_none-count p ((j, v) ∷ t) h = ground (arith, first_none-count p t)

-- A user that is added.
module _ (u : User) (t : Table User) where
  abbrev with_user : Table User
  with_user = insert (next_id t) u t

  kept-HasUser : (i : ℕ) → HasUser t i → HasUser with_user i
  kept-HasUser i h = rw (lookup-insert (next_id t) i u t) (either (next_id t == i) h)
    where
      either : (b : Bool) → HasUser t i → is_some (if b then some u else lookup i t) ≡ true
      either true k = refl
      either false k = k

  new-HasUser : HasUser with_user (next_id t)
  new-HasUser = rw (lookup-insert (next_id t) (next_id t) u t) (ground arith)

  kept-All :
      {A : Type 0} (f : A → ℕ) (xs : List A)
      → All (λ x. HasUser t (f x)) xs
      → All (λ x. HasUser with_user (f x)) xs
  kept-All f [] h = tt
  kept-All f (x ∷ xs) h = (kept-HasUser (f x) h.0, kept-All f xs h.1)

  with_user-count :
      first_where (is_external u.external_id) t ≡ none
      → ((s : Text) → count_if (is_external s) (values t) ≤ 1)
      → (s : Text) → count_if (is_external s) (values with_user) ≤ 1
  with_user-count h k s = rw (values-insert (next_id t) u t (omega arith)) (
      rw (count_if-append (is_external s) (values t) (u ∷ []))
        (elim (Bool-cases (text_eq u.external_id s)) [
          | inl e ↦
              let same : u.external_id ≡ s = text_eq_sound u.external_id s e in
              let zero_of : count_if (is_external s) (values t) ≡ 0 =
                ap (λ (x : Text). count_if (is_external x) (values t)) (sym same)
                ∙ first_none-count (is_external u.external_id) t h in
              rw e (omega (arith, zero_of))
          | inr e ↦ rw e (omega (arith, k s))
        ]))

module _ {C E : Type 0} (K : Engine E) (cfg : Config) where
  with_embedding-OfUsers :
      (e : E) (f : Bool) (i : ℕ) (b : Backend C E)
      → HasUser b.users i
      → OfUsers b
      → OfUsers (with_embedding K cfg e f (i, b)).1
  with_embedding-OfUsers e f i b u h =
      load-OfUsers f
        (record b {
          embeddings =
              b.embeddings
              ++ (record { user_id = i; embedding = e; quality_score = embedding_quality K e }
                  ∷ []);
        })
        (
          h.0,
          All-append (λ (r : FaceEmbedding E). HasUser b.users r.user_id) b.embeddings
              (record { user_id = i; embedding = e; quality_score = embedding_quality K e } ∷ [])
              h.1 (u, tt),
          h.2,
        )

  user_for-OfUsers :
      (o : Option (ℕ × User)) (e : E) (f : Bool) (external_id name : Text) (b : Backend C E)
      → first_where (is_external external_id) b.users ≡ o
      → OfUsers b
      → OfUsers (with_embedding K cfg e f (user_for o external_id name b)).1
  user_for-OfUsers (some (i, u)) e f external_id name b q h =
      with_embedding-OfUsers e f i b (first-HasUser (is_external external_id) b.users i u q) h
  user_for-OfUsers none e f external_id name b q h =
      let u : User = record { external_id = external_id; name = name } in
      with_embedding-OfUsers e f (next_id b.users) (record b { users = with_user u b.users })
        (new-HasUser u b.users)
        (
          with_user-count u b.users q h.0,
          kept-All u b.users (λ (r : FaceEmbedding E). r.user_id) b.embeddings h.1,
          kept-All u b.users (λ (k : ℕ × List E). k.0) b.embedding_cache h.2,
        )

  pub register-OfUsers :
      (r : Registration E) (env : Env) (b : Backend C E)
      → OfUsers b
      → OfUsers (register_user K cfg r env b).1
  unfolding register_user
  register-OfUsers r env b h = elim (Bool-cases (is_empty r.external_id || is_empty r.name)) [
    | inl t ↦ rw t h
    | inr t ↦ rw t (with_vector r.embedding)
  ]
    where
      with_vector :
          (o : Option E) → OfUsers (register_with K cfg r.external_id r.name o env.load_fails b).1
      with_vector none = h
      with_vector (some e) =
          elim (Bool-cases (ltb_ℤ (embedding_quality K e) cfg.min_embedding_quality)) [
            | inl t ↦ rw t h
            | inr t ↦ rw t (
                user_for-OfUsers (first_where (is_external r.external_id) b.users) e env.load_fails
                  r.external_id r.name b refl h)
          ]

  pub match-OfUsers :
      (f : Bool) (threshold : ℤ) (e : E) (b : Backend C E)
      → OfUsers b
      → OfUsers (match_embedding K f threshold e b).1
  unfolding match_embedding
  match-OfUsers f threshold e b h = go b.cache_loaded
    where
      go : (c : Bool) → OfUsers (if c then b else load_embeddings f b)
      go true = h
      go false = load-OfUsers f b h

  pub verify-OfUsers :
      (e : Option E) (threshold : Option ℤ) (env : Env) (b : Backend C E)
      → OfUsers b
      → OfUsers (verify_face K cfg e threshold env b).1
  unfolding verify_face
  verify-OfUsers none threshold env b h = h
  verify-OfUsers (some e) threshold env b h =
      let t = or_threshold cfg threshold in
      go (match_embedding K env.load_fails t e b) (match-OfUsers env.load_fails t e b h)
    where
      go : (x : Option (Option ℕ × ℤ) × Backend C E) → OfUsers x.1 → OfUsers (verified K cfg x).1
      go (none, b') k = k
      go (some (id, confidence), b') k = elim (Bool-cases (truthy id)) [
        | inl t ↦ rw t k
        | inr t ↦ rw t k
      ]

  pub log-OfUsers :
      (e : Entry) (env : Env) (b : Backend C E) → OfUsers b → OfUsers (log_attendance e env b).1
  unfolding log_attendance
  log-OfUsers e env b h = go (lookup e.user_id b.users)
    where
      go : (o : Option User) → OfUsers (log_for o e env.now b).1
      go none = h
      go (some u) = h
