-- ===== src/Edge/OfflineStore/Bound.antt =====
-- The bound on the queue of edge/sync/offline_store.py: the newest `max_size` results are kept.
use frass_f.Base.{
  ℕ, zero, suc, ◌+◌, ◌-◌, ◌≤◌, ◌<◌, ◌≡◌, refl, sym, ap, ◌∙◌, Option, none, some, List, [], ◌∷◌,
  ◌++◌, arith, inl, inr, length, drop, leb, Bool-cases, length-append, length-drop,
}
use mathlib.Core.Path.{ap₂}
use mathlib.Core.List.{append-nil, append_assoc}
use frass_f.Edge.Json.{Json}
use frass_f.Edge.OfflineStore.{
  OfflineStore, Write, written, not_opened, cut_short, make_room, save, enqueue,
}

-- The last `n` elements.
abbrev pub newest {ℓ} : {A : Type ℓ} → ℕ → List A → List A
newest n xs = drop (length xs - n) xs

module _ {ℓ} {A : Type ℓ} where
  drop-append_le : (k : ℕ) (xs ys : List A) → k ≤ length xs → drop k (xs ++ ys) ≡ drop k xs ++ ys
  drop-append_le zero xs ys h = refl
  drop-append_le (suc k) [] ys h = elim h [ ]
  drop-append_le (suc k) (x ∷ xs) ys h = drop-append_le k xs ys (omega arith)

  drop_nil : (a : ℕ) → ◌≡◌ {A = List A} (drop a []) []
  drop_nil zero = refl
  drop_nil (suc a) = refl

  drop-drop : (a b c : ℕ) (xs : List A) → c ≡ b + a → drop a (drop b xs) ≡ drop c xs
  drop-drop a zero c xs e = ap (λ (n : ℕ). drop n xs) (omega arith)
  drop-drop a (suc b) c [] e = drop_nil a ∙ sym (drop_nil c)
  drop-drop a (suc b) zero (x ∷ xs) e = absurd (omega arith)
  drop-drop a (suc b) (suc c) (x ∷ xs) e = drop-drop a b c xs (omega arith)

  newest_by : (k m : ℕ) (xs : List A) → k ≡ length xs - m → drop k xs ≡ newest m xs
  newest_by k m xs e = ap (λ (n : ℕ). drop n xs) e

  -- Forgetting all but the newest early or late is the same.
  newest-append : (m : ℕ) (xs ys : List A) → newest m (newest m xs ++ ys) ≡ newest m (xs ++ ys)
  newest-append m xs ys =
      let k : ℕ = length xs - m in
      let e = sym (drop-append_le k xs ys (omega arith)) in
      ap (newest m) e
      ∙ drop-drop (length (drop k (xs ++ ys)) - m) k (length (xs ++ ys) - m) (xs ++ ys)
          (omega (arith, length-append xs ys, length-drop k (xs ++ ys)))

  newest_all : (m : ℕ) (xs : List A) → length xs ≤ m → newest m xs ≡ xs
  newest_all m xs h = sym (newest_by 0 m xs (omega arith))

  make_room-newest :
      (m : ℕ) (q : List A) (v : A)
      → 0 < m
      → length q ≤ m
      → (r : List A) × (make_room m q ≡ some r) × (r ++ (v ∷ []) ≡ newest m (q ++ (v ∷ [])))
  unfolding make_room
  make_room-newest m [] v p h = ([], ground arith, newest_by 0 m (v ∷ []) (omega arith))
  make_room-newest m (x ∷ q) v p h = elim (Bool-cases (leb m (length (x ∷ q)))) [
    | inl full ↦ (
      q,
      ground arith,
      newest_by 1 m (x ∷ (q ++ (v ∷ []))) (ground (arith, length-append q (v ∷ []))),
    )
    | inr space ↦ (
      x ∷ q,
      ground arith,
      newest_by 0 m (x ∷ (q ++ (v ∷ []))) (ground (arith, length-append q (v ∷ []))),
    )
  ]

module _ (J : Json) where
  open J use {Value}

  queue-save : (w : Write) (s : OfflineStore Value) → (save J w s).queue ≡ s.queue
  unfolding save
  queue-save written s = refl
  queue-save not_opened s = refl
  queue-save (cut_short n) s = refl

  max_size-save : (w : Write) (s : OfflineStore Value) → (save J w s).max_size ≡ s.max_size
  unfolding save
  max_size-save written s = refl
  max_size-save not_opened s = refl
  max_size-save (cut_short n) s = refl

  -- Calls of `queue`, one for each result, whatever becomes of their saves.
  pub enqueue_all : List (Write × Value) → OfflineStore Value → Option (OfflineStore Value)
  unfolding enqueue
  enqueue_all [] s = some s
  enqueue_all ((w, v) ∷ calls) s = elim (enqueue J w v s) [
    | none ↦ none
    | some s' ↦ enqueue_all calls s'
  ]

  abbrev pub values : List (Write × Value) → List Value
  values [] = []
  values ((w, v) ∷ calls) = v ∷ values calls

  pub enqueue-newest :
      (w : Write) (v : Value) (s : OfflineStore Value)
      → 0 < s.max_size
      → length s.queue ≤ s.max_size
      → (s' : OfflineStore Value) × (enqueue J w v s ≡ some s')
        × (s'.queue ≡ newest s.max_size (s.queue ++ (v ∷ [])))
        × (s'.max_size ≡ s.max_size)
  unfolding enqueue
  enqueue-newest w v s p h =
      let (r, e, n) = make_room-newest s.max_size s.queue v p h in
      let s₁ : OfflineStore Value = record s { queue = r ++ (v ∷ []) } in
      (save J w s₁, rw (e, enqueue), queue-save w s₁ ∙ n, max_size-save w s₁)

  -- From a queue within its bound, which is above 0, any number of calls of `queue` succeed, keep the
  -- bound, and leave the newest `max_size` of the old queue followed by the new results, in order.
  pub enqueue_all-newest :
      (calls : List (Write × Value)) (s : OfflineStore Value)
      → 0 < s.max_size
      → length s.queue ≤ s.max_size
      → (s' : OfflineStore Value) × (enqueue_all calls s ≡ some s')
        × (s'.queue ≡ newest s.max_size (s.queue ++ values calls))
        × (length s'.queue ≤ s.max_size)
  unfolding enqueue_all
  enqueue_all-newest [] s p h = (
    s,
    refl,
    sym (ap (newest s.max_size) (append-nil s.queue) ∙ newest_all s.max_size s.queue h),
    h,
  )
  enqueue_all-newest ((w, v) ∷ calls) s p h =
      let (s₁, e, q, m) = enqueue-newest w v s p h in
      let fits : length s₁.queue ≤ s₁.max_size = omega (
        arith,
        ap length q,
        length-drop (length (s.queue ++ (v ∷ [])) - s.max_size) (s.queue ++ (v ∷ [])),
      ) in
      let (s', e', q', b) = enqueue_all-newest calls s₁ (omega arith) fits in
      (
        s',
        rw (e, enqueue_all) e',
        q'
            ∙ ap₂ (λ (m : ℕ) (q : List Value). newest m (q ++ values calls)) m q
            ∙ newest-append s.max_size (s.queue ++ (v ∷ [])) (values calls)
            ∙ ap (newest s.max_size) (append_assoc s.queue (v ∷ []) (values calls)),
        omega arith,
      )
