-- ===== src/Backend/Users/Registered.antt =====
-- What a registration keeps and gives (backend/app.py).
use mathlib.Core.List.{append_assoc, append-nil}
use frass_f.Base.{
  lookup, ◌⊎◌, first_where-insert_new, lookup-insert, lookup-next_id, Table, ℕ, ◌≡◌, refl, sym, ap,
  ◌∙◌, false, ◌||◌, Option, none, some, List, [], ◌∷◌, ◌++◌, Text, text_eq_refl, is_empty, next_id,
  first_where, ◌==◌, if◌then◌else◌, arith, Bool-cases, inl, inr,
}
use frass_f.Base.Int.{ltb_ℤ}
use frass_f.Matching.{Known}
use frass_f.Backend.State.{
  Backend, User, FaceEmbedding, Env, Config, load_embeddings, group_embeddings, add_known,
}
use frass_f.Backend.Match.{Engine, embedding_quality}
use frass_f.Backend.Users.{
  Registration, Answer, registered, is_external, user_for, with_embedding, register_with,
  register_user,
}

-- The embeddings of a person among the known ones.
abbrev pub of_person : {E : Type 0} → ℕ → Known E → List E
of_person i [] = []
of_person i ((j, es) ∷ known) = if j == i then es else of_person i known

-- The embeddings of a user among the rows of the table, in their order.
abbrev pub rows_of : {E : Type 0} → ℕ → List (FaceEmbedding E) → List E
rows_of i [] = []
rows_of i (r ∷ rs) = if r.user_id == i then r.embedding ∷ rows_of i rs else rows_of i rs

of_person-add_known :
    {E : Type 0} (i u : ℕ) (e : E) (known : Known E)
    → of_person i (add_known u e known)
      ≡ (if u == i then of_person i known ++ (e ∷ []) else of_person i known)
unfolding add_known
of_person-add_known i u e [] = refl
of_person-add_known i u e ((j, es) ∷ known) = ground (arith, of_person-add_known i u e known)

of_person-group :
    {E : Type 0} (i : ℕ) (rs : List (FaceEmbedding E)) (known : Known E)
    → of_person i (group_embeddings rs known) ≡ of_person i known ++ rows_of i rs
unfolding group_embeddings
of_person-group i [] known = sym (append-nil (of_person i known))
of_person-group i (r ∷ rs) known =
    of_person-group i rs (add_known r.user_id r.embedding known)
    ∙ elim (Bool-cases (r.user_id == i)) [
      | inl t ↦
          rw (of_person-add_known i r.user_id r.embedding known)
            (rw t (append_assoc (of_person i known) (r.embedding ∷ []) (rows_of i rs)))
      | inr f ↦ rw (of_person-add_known i r.user_id r.embedding known) (rw f)
    ]

rows_of-append :
    {E : Type 0} (i : ℕ) (rs : List (FaceEmbedding E)) (r : FaceEmbedding E)
    → rows_of i (rs ++ (r ∷ [])) ≡ rows_of i rs ++ (if r.user_id == i then r.embedding ∷ [] else [])
rows_of-append {E} i [] r = refl
rows_of-append {E} i (s ∷ rs) r = elim (Bool-cases (s.user_id == i)) [
  | inl t ↦ rw t (ap (λ (es : List E). s.embedding ∷ es) (rows_of-append i rs r))
  | inr f ↦ rw f (rows_of-append i rs r)
]

-- The users stay as they were, or the user is a new one of that name beside them.
abbrev pub Keeps : ℕ → User → Text → Table User → Table User → Type 0
Keeps i u name t t' =
    (t' ≡ t)
    ⊎ ((lookup i t ≡ none)
        × (u.name ≡ name)
        × ((j : ℕ) → lookup j t' ≡ (if i == j then some u else lookup j t)))

module _ {C E : Type 0} (K : Engine E) (cfg : Config) where
  -- What a registration does: an answer with an id adds the embedding, and the cache has the
  -- embeddings of everyone then; every other answer changes nothing.
  abbrev pub Registers : Registration E → Backend C E → Answer × Backend C E → Type 0
  Registers r b (registered i q, b') =
      (e : E) × (r.embedding ≡ some e)
      × (q ≡ embedding_quality K e)
      × (ltb_ℤ q cfg.min_embedding_quality ≡ false)
      × (u : User) × (first_where (is_external r.external_id) b'.users ≡ some (i, u))
      × Keeps i u r.name b.users b'.users
      × (b'.embeddings
          ≡ b.embeddings
            ++ (record { user_id = i; embedding = e; quality_score = embedding_quality K e } ∷ []))
      × ((j : ℕ)
          → of_person j b'.embedding_cache
            ≡ rows_of j b.embeddings ++ (if i == j then e ∷ [] else []))
  Registers r b (_, b') = b' ≡ b

  -- The user that the registration finds or adds is the first of the external id.
  user_for-first :
      (o : Option (ℕ × User)) (external_id name : Text) (b : Backend C E)
      → first_where (is_external external_id) b.users ≡ o
      → (u : User) × (first_where (is_external external_id) (user_for o external_id name b).1.users
          ≡ some ((user_for o external_id name b).0, u))
        × Keeps
            (user_for o external_id name b).0
            u
            name
            b.users
            (user_for o external_id name b).1.users
  user_for-first (some (i, u)) external_id name b h = (u, h, inl refl)
  user_for-first none external_id name b h =
      let u : User = record { external_id = external_id; name = name } in
      (
        u,
        rw
            (
              first_where-insert_new (is_external external_id) (next_id b.users) u b.users
                  (omega arith),
              h,
              text_eq_refl external_id,
            )
            refl,
        inr (
          lookup-next_id (next_id b.users) b.users (omega arith),
          refl,
          λ j. lookup-insert (next_id b.users) j u b.users,
        ),
      )

  user_for-embeddings :
      (o : Option (ℕ × User)) (external_id name : Text) (b : Backend C E)
      → (user_for o external_id name b).1.embeddings ≡ b.embeddings
  user_for-embeddings (some (i, u)) external_id name b = refl
  user_for-embeddings none external_id name b = refl

  -- Where the embeddings can be read, a registration with an answer `registered` has added the
  -- embedding, whose quality is sufficient, as the last row of the table, of the user that it answers.
  -- This is the first one of the external id, found or new with the name that was sent; every other
  -- user is as before, and the cache then has the embeddings of all users, that one with its new last
  -- one. Every other answer changes nothing.
  pub register_user-Registers :
      (r : Registration E) (env : Env) (b : Backend C E)
      → env.load_fails ≡ false
      → Registers r b (register_user K cfg r env b)
  unfolding register_user load_embeddings
  register_user-Registers r env b works =
      elim (Bool-cases (is_empty r.external_id || is_empty r.name)) [
        | inl t ↦ rw t refl
        | inr f ↦ rw f (rw works (with_vector r.embedding refl))
      ]
    where
      cached :
          (j : ℕ) (o : Option (ℕ × User)) (e : E)
          → of_person j
              (with_embedding K cfg e false (user_for o r.external_id r.name b)).1.embedding_cache
            ≡ rows_of j b.embeddings
              ++ (if (user_for o r.external_id r.name b).0 == j then e ∷ [] else [])
      cached j o e =
          let (i, b') = user_for o r.external_id r.name b in
          let row : FaceEmbedding E = record {
            user_id = i;
            embedding = e;
            quality_score = embedding_quality K e;
          } in
          of_person-group j (b'.embeddings ++ (row ∷ [])) []
          ∙ rows_of-append j b'.embeddings row
          ∙ ap (λ (rs : List (FaceEmbedding E)). rows_of j rs ++ (if i == j then e ∷ [] else []))
              (user_for-embeddings o r.external_id r.name b)

      with_vector :
          (o : Option E)
          → r.embedding ≡ o
          → Registers r b (register_with K cfg r.external_id r.name o false b)
      with_vector none h = refl
      with_vector (some e) h =
          let found =
            user_for-first (first_where (is_external r.external_id) b.users) r.external_id r.name b
              refl in
          elim (Bool-cases (ltb_ℤ (embedding_quality K e) cfg.min_embedding_quality)) [
            | inl t ↦ rw t refl
            | inr f ↦ rw f (
              e,
              h,
              refl,
              f,
              found.0,
              found.1,
              found.2,
              ap
                  (λ (rs : List (FaceEmbedding E)).
                    rs
                    ++ (record {
                      user_id =
                          (user_for (first_where (is_external r.external_id) b.users) r.external_id
                            r.name b).0;
                      embedding = e;
                      quality_score = embedding_quality K e;
                    }
                        ∷ []))
                  (user_for-embeddings (first_where (is_external r.external_id) b.users)
                    r.external_id r.name b),
              λ j. cached j (first_where (is_external r.external_id) b.users) e,
            )
          ]
