-- ===== src/Matching/Optimal.antt =====
-- The scan finds the greatest score (app/services/face_engine.py, backend/app.py).
use mathlib.Core.Path.{subst}
use frass_f.Base.{
  true, ap, sym, ◌∙◌, ℕ, ◌≡◌, refl, ◌⊎◌, inl, inr, Option, none, some, Option-cases, Bool-cases,
  List, [], ◌∷◌, arith,
}
use frass_f.Base.Int.{ℤ, pos, pos_part, neg_part, ◌≤ℤ◌, ltb_ℤ, leb_ℤ}
use frass_f.Matching.{
  Known, Best, no_best, better, scan_person, scan, percent, decide_match, recognize_linear,
}

none≢some {ℓ} : {A : Type ℓ} {a : A} → none ≡ some a → ⊥
none≢some h = cc

≤ℤ_trans : (a b c : ℤ) → a ≤ℤ b → b ≤ℤ c → a ≤ℤ c
≤ℤ_trans a b c h k = omega arith

module _ {E : Type 0} (dot : E → E → Option ℤ) (query : E) where
  -- No embedding of the list scores more than `top`.
  abbrev AtMost : ℤ → List E → Type 0
  AtMost top [] = Unit
  AtMost top (e ∷ es) = ((score : ℤ) → dot query e ≡ some score → score ≤ℤ top) × AtMost top es

  abbrev pub NoneAbove : ℤ → Known E → Type 0
  NoneAbove top [] = Unit
  NoneAbove top ((id, es) ∷ known) = AtMost top es × NoneAbove top known

  -- Some embedding of the list has the score.
  abbrev Hits : ℤ → List E → Type 0
  Hits top [] = ⊥
  Hits top (e ∷ es) = (dot query e ≡ some top) ⊎ Hits top es

  -- The person has an embedding with the score.
  abbrev pub Attained : ℕ → ℤ → Known E → Type 0
  Attained id top [] = ⊥
  Attained id top ((j, es) ∷ known) = ((id ≡ j) × Hits top es) ⊎ Attained id top known

  AtMost-mono : (s t : ℤ) (es : List E) → s ≤ℤ t → AtMost s es → AtMost t es
  AtMost-mono s t [] h a = tt
  AtMost-mono s t (e ∷ es) h a =
      ((λ score eq. ≤ℤ_trans score s t (a.0 score eq) h), AtMost-mono s t es h a.1)

  NoneAbove-mono : (s t : ℤ) (known : Known E) → s ≤ℤ t → NoneAbove s known → NoneAbove t known
  NoneAbove-mono s t [] h a = tt
  NoneAbove-mono s t ((id, es) ∷ known) h a =
      (AtMost-mono s t es h a.0, NoneAbove-mono s t known h a.1)

  -- How the best has changed over the embeddings of one person.
  record Person (id : ℕ) (es : List E) (b b' : Best) : Type 0 where
    grows : b.score ≤ℤ b'.score
    top : AtMost b'.score es
    source : (b' ≡ b) ⊎ ((b'.id ≡ some id) × Hits b'.score es)

  hit_le :
      (e : E) (score top : ℤ)
      → dot query e ≡ some score
      → score ≤ℤ top
      → (s : ℤ) → dot query e ≡ some s
      → s ≤ℤ top
  hit_le e score top eq h s eq' = let same : s ≡ score = cc in rw same h

  from_better :
      (id : ℕ) (e : E) (es : List E) (score : ℤ) (b' : Best)
      → dot query e ≡ some score
      → (b' ≡ record { id = some id; score = score }) ⊎ ((b'.id ≡ some id) × Hits b'.score es)
      → (b'.id ≡ some id) × Hits b'.score (e ∷ es)
  from_better id e es score b' eq (inl same) =
      (ap (λ (c : Best). c.id) same, inl (eq ∙ ap (λ (c : Best). some c.score) (sym same)))
  from_better id e es score b' eq (inr (name, hits)) = (name, inr hits)

  from_same :
      (id : ℕ) (e : E) (es : List E) (b b' : Best)
      → (b' ≡ b) ⊎ ((b'.id ≡ some id) × Hits b'.score es)
      → (b' ≡ b) ⊎ ((b'.id ≡ some id) × Hits b'.score (e ∷ es))
  from_same id e es b b' (inl same) = inl same
  from_same id e es b b' (inr (name, hits)) = inr (name, inr hits)

  step_Person :
      (id : ℕ) (e : E) (es : List E) (score : ℤ) (b b' : Best)
      → dot query e ≡ some score
      → Person id es (better dot query id score b) b'
      → Person id (e ∷ es) b b'
  unfolding better
  step_Person id e es score b b' eq p = elim (Bool-cases (ltb_ℤ b.score score)) [
    | inl more ↦
        let q = rw more at p in
        record {
          grows = ≤ℤ_trans b.score score b'.score (ground arith) q.grows;
          top = (hit_le e score b'.score eq q.grows, q.top);
          source = inr (from_better id e es score b' eq q.source);
        }
    | inr less ↦
        let q = rw less at p in
        record {
          grows = q.grows;
          top = (
            hit_le e score b'.score eq (≤ℤ_trans score b.score b'.score (ground arith) q.grows),
            q.top,
          );
          source = from_same id e es b b' q.source;
        }
  ]

  -- The greatest score of a list of persons, and who has it.
  pub record Greatest (known : Known E) (b b' : Best) : Type 0 where
    pub grows : b.score ≤ℤ b'.score
    pub top : NoneAbove b'.score known
    pub source : (b' ≡ b) ⊎ ((id : ℕ) × (b'.id ≡ some id) × Attained id b'.score known)

  step_Greatest :
      (id : ℕ) (es : List E) (known : Known E) (b b₁ b' : Best)
      → Person id es b b₁
      → Greatest known b₁ b'
      → Greatest ((id, es) ∷ known) b b'
  step_Greatest id es known b b₁ b' p g = record {
    grows = ≤ℤ_trans b.score b₁.score b'.score p.grows g.grows;
    top = (AtMost-mono b₁.score b'.score es g.grows p.top, g.top);
    source = trace p.source g.source;
  }
    where
      first :
          (b₁ ≡ b) ⊎ ((b₁.id ≡ some id) × Hits b₁.score es)
          → b' ≡ b₁
          → (b' ≡ b) ⊎ ((j : ℕ) × (b'.id ≡ some j) × Attained j b'.score ((id, es) ∷ known))
      first (inl same) e = inl (e ∙ same)
      first (inr (name, hits)) e = inr (
        id,
        ap (λ (c : Best). c.id) e ∙ name,
        inl (refl, subst (λ c. Hits c.score es) (sym e) hits),
      )

      trace :
          (b₁ ≡ b) ⊎ ((b₁.id ≡ some id) × Hits b₁.score es)
          → (b' ≡ b₁) ⊎ ((j : ℕ) × (b'.id ≡ some j) × Attained j b'.score known)
          → (b' ≡ b) ⊎ ((j : ℕ) × (b'.id ≡ some j) × Attained j b'.score ((id, es) ∷ known))
      trace s (inl e) = first s e
      trace s (inr (j, name, at)) = inr (j, name, inr at)

  scan_person_lem :
      (id : ℕ) (es : List E) (b b' : Best)
      → scan_person dot query id es b ≡ some b'
      → Person id es b b'
  unfolding scan_person
  scan_person_lem id [] b b' h =
      let same : b ≡ b' = cc in
      record { grows = rw (← same) (omega arith); top = tt; source = inl (sym same) }
  scan_person_lem id (e ∷ es) b b' h = elim (Option-cases (dot query e)) [
    | inl raised ↦ absurd (none≢some ((rw (raised, scan_person) at h)))
    | inr (score, eq) ↦
        step_Person id e es score b b' eq
          (scan_person_lem id es (better dot query id score b) b' (rw (eq, scan_person) at h))
  ]

  pub scan_lem :
      (known : Known E) (b b' : Best) → scan dot query known b ≡ some b' → Greatest known b b'
  unfolding scan
  scan_lem [] b b' h =
      let same : b ≡ b' = cc in
      record { grows = rw (← same) (omega arith); top = tt; source = inl (sym same) }
  scan_lem ((id, es) ∷ known) b b' h = elim (Option-cases (scan_person dot query id es b)) [
    | inl raised ↦ absurd (none≢some ((rw (raised, scan) at h)))
    | inr (b₁, eq) ↦
        step_Greatest id es known b b₁ b' (scan_person_lem id es b b₁ eq)
          (scan_lem known b₁ b' (rw (eq, scan) at h))
  ]

  -- Every embedding has the length of the query.
  abbrev Lists : List E → Type 0
  Lists [] = Unit
  Lists (e ∷ es) = ((score : ℤ) × (dot query e ≡ some score)) × Lists es

  abbrev pub Comparable : Known E → Type 0
  Comparable [] = Unit
  Comparable ((id, es) ∷ known) = Lists es × Comparable known

  scan_person_total :
      (id : ℕ) (es : List E) (b : Best)
      → Lists es
      → (b' : Best) × (scan_person dot query id es b ≡ some b')
  unfolding scan_person
  scan_person_total id [] b h = (b, refl)
  scan_person_total id (e ∷ es) b ((score, eq), h) =
      let (b', returns) = scan_person_total id es (better dot query id score b) h in
      (b', rw (eq, scan_person) returns)

  scan_total :
      (known : Known E) (b : Best)
      → Comparable known
      → (b' : Best) × (scan dot query known b ≡ some b')
  unfolding scan
  scan_total [] b h = (b, refl)
  scan_total ((id, es) ∷ known) b (here, there) =
      let (b₁, first) = scan_person_total id es b here in
      let (b', returns) = scan_total known b₁ there in (b', rw (first, scan) returns)

  -- What an answer says of the known embeddings.
  pub record Answers (threshold : ℤ) (known : Known E) (r : Option ℕ × ℤ) : Type 0 where
    pub score : ℤ
    pub confidence : r.1 ≡ percent score
    pub greatest : NoneAbove score known
    pub origin : (score ≡ pos 0) ⊎ ((id : ℕ) × Attained id score known)
    pub floor : pos 0 ≤ℤ score
    pub person :
        ((r.0 ≡ none) × (ltb_ℤ score threshold ≡ true))
        ⊎ ((id : ℕ) × (r.0 ≡ some id) × (threshold ≤ℤ score) × Attained id score known)

  decide_Answers :
      (threshold : ℤ) (known : Known E) (b : Best)
      → pos 1 ≤ℤ threshold
      → Greatest known no_best b
      → Answers threshold known (decide_match threshold b)
  unfolding decide_match
  decide_Answers threshold known b positive g = elim (Bool-cases (leb_ℤ threshold b.score)) [
    | inl reached ↦ rw reached (record {
      score = b.score;
      confidence = refl;
      greatest = g.top;
      origin = origin_of g.source;
      floor = g.grows;
      person = inr (found g.source (ground arith));
    })
    | inr below ↦ rw below (record {
      score = b.score;
      confidence = refl;
      greatest = g.top;
      origin = origin_of g.source;
      floor = g.grows;
      person = inl (refl, ground arith);
    })
  ]
    where
      origin_of :
          (b ≡ no_best) ⊎ ((id : ℕ) × (b.id ≡ some id) × Attained id b.score known)
          → (b.score ≡ pos 0) ⊎ ((id : ℕ) × Attained id b.score known)
      origin_of (inl same) = inl (ap (λ (c : Best). c.score) same)
      origin_of (inr (id, name, at)) = inr (id, at)

      found :
          (b ≡ no_best) ⊎ ((id : ℕ) × (b.id ≡ some id) × Attained id b.score known)
          → threshold ≤ℤ b.score
          → (id : ℕ) × (b.id ≡ some id) × (threshold ≤ℤ b.score) × Attained id b.score known
      found (inl same) h = absurd (
          omega (
            arith,
            ap (λ (c : Best). pos_part c.score) same,
            ap (λ (c : Best). neg_part c.score) same,
          ))
      found (inr (id, name, at)) h = (id, name, h, at)

  -- If the threshold is above zero and every known embedding has the query's length, the scan
  -- answers, and the confidence is that of a score which no known embedding exceeds, and which is zero
  -- or above it and the score of a known embedding. A person is named exactly if that score reaches
  -- the threshold, and then an embedding of theirs has it.
  pub recognize_linear-Answers :
      (threshold : ℤ) (known : Known E)
      → pos 1 ≤ℤ threshold
      → Comparable known
      → (r : Option ℕ × ℤ) × (recognize_linear dot query threshold known ≡ some r)
        × Answers threshold known r
  unfolding recognize_linear
  recognize_linear-Answers threshold [] positive h = ((none, pos 0), refl, decide_none)
    where
      decide_none : Answers threshold [] (none, pos 0)
      decide_none = record {
        score = pos 0;
        confidence = unfold percent in refl;
        greatest = tt;
        origin = inl refl;
        floor = omega arith;
        person = inl (refl, ground arith);
      }
  recognize_linear-Answers threshold (p ∷ known) positive h =
      let (b, returns) = scan_total (p ∷ known) no_best h in
      (
        decide_match threshold b,
        rw (returns, recognize_linear),
        decide_Answers threshold (p ∷ known) b positive (scan_lem (p ∷ known) no_best b returns),
      )
