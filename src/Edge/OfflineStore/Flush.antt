-- ===== src/Edge/OfflineStore/Flush.antt =====
-- `flush` of edge/sync/offline_store.py: it ends, loses nothing, and keeps the order.
use mathlib.Core.List.{reverse, reverse-reverse, reverse_aux-eq, reverse_aux-eq-foldl, append_assoc}
use mathlib.Core.Path.{ap₂, subst}
use frass_f.Base.{
  ℕ, zero, suc, ◌+◌, ◌≤◌, ◌<◌, min, ◌≡◌, refl, sym, ap, ◌∙◌, inl, inr, Bool, true, false, Option,
  some, List, [], ◌∷◌, ◌++◌, arith, length, take, drop, is_empty, Bool-cases, length-append,
  length-take, length-drop, take-append-drop,
}
use frass_f.Edge.Json.{Json}
use frass_f.Edge.OfflineStore.{
  OfflineStore, Write, written, not_opened, cut_short, batch_size, put_back, flush_loop, flush_end,
  flush,
}

module _ {ℓ} {A : Type ℓ} where
  put_back_lem : (batch q : List A) → put_back batch q ≡ batch ++ q
  unfolding put_back
  put_back_lem batch q =
      sym (reverse_aux-eq-foldl (reverse batch) q)
      ∙ reverse_aux-eq (reverse batch) q
      ∙ ap (λ (r : List A). r ++ q) (reverse-reverse batch)

  batch_lem :
      (x : A) (q : List A)
      → let n = min batch_size (length (x ∷ q)) in
        (length (take n (x ∷ q)) ≡ n) × (length (drop n (x ∷ q)) + n ≡ length (x ∷ q))
  batch_lem x q =
      let n : ℕ = min batch_size (length (x ∷ q)) in
      (omega (arith, length-take n (x ∷ q)), omega (arith, length-drop n (x ∷ q)))

module _ {S V : Type 0} (send_batch : List V → S → Bool × S) where
  -- The calls of `send_batch` from one world to another that deliver a list and leave a list: each
  -- batch is non-empty and has at most `batch_size` results; they are accepted in the order of the
  -- list, until all is sent or a batch is refused.
  pub data Sends : S → List V → List V → S → Type 0 where
    finished : {s : S} → Sends s [] [] s
    refused :
        {s s' : S} {left : List V}
        → 0 < length left
        → send_batch (take (min batch_size (length left)) left) s ≡ (false, s')
        → Sends s [] left s'
    accepted :
        {s s₁ s' : S} {batch rest left : List V}
        → 0 < length batch
        → length batch ≤ batch_size
        → send_batch batch s ≡ (true, s₁)
        → Sends s₁ rest left s'
        → Sends s (batch ++ rest) left s'

  -- What the loop returns when it started at `sent`, a queue and a world.
  abbrev pub Flushed : ℕ → List V → S → Option (ℕ × List V × S) → Type 0
  Flushed sent q s r =
      (delivered : List V) × (left : List V) × (s' : S) × (r
        ≡ some (sent + length delivered, left, s'))
      × (q ≡ delivered ++ left)
      × Sends s delivered left s'

  flush_loop-Flushed :
      (f sent : ℕ) (q : List V) (s : S)
      → length q < f
      → Flushed sent q s (flush_loop send_batch f sent q s)
  unfolding flush_loop
  flush_loop-Flushed zero sent q s h = elim h [ ]
  flush_loop-Flushed (suc f) sent [] s h =
      ([], [], s, ap (λ (n : ℕ). some (n, [], s)) (omega arith), refl, finished)
  flush_loop-Flushed (suc f) sent (x ∷ q) s h =
      split (send_batch batch s) refl
        (λ s₁. flush_loop-Flushed f (sent + length batch) rest s₁ (omega (arith, batch_lem x q)))
    where
      n : ℕ
      n = min batch_size (length (x ∷ q))

      batch : List V
      batch = take n (x ∷ q)

      rest : List V
      rest = drop n (x ∷ q)

      whole : put_back batch rest ≡ x ∷ q
      whole = put_back_lem batch rest ∙ take-append-drop n (x ∷ q)

      split :
          (r : Bool × S)
          → send_batch batch s ≡ r
          → ((s₁ : S)
              → Flushed
                  (sent + length batch)
                  rest
                  s₁
                  (flush_loop send_batch f (sent + length batch) rest s₁))
          → Flushed sent (x ∷ q) s (flush_loop send_batch (suc f) sent (x ∷ q) s)
      split (false, s₁) e ih = (
        [],
        x ∷ q,
        s₁,
        rw (e, flush_loop) (ap₂ (λ (n : ℕ) (r : List V). some (n, r, s₁)) (omega arith) whole),
        refl,
        refused (omega arith) e,
      )
      split (true, s₁) e ih =
          let (delivered, left, s', returns, kept, sends) = ih s₁ in
          (
            batch ++ delivered,
            left,
            s',
            rw (e, flush_loop)
                (returns
                  ∙ ap (λ (n : ℕ). some (n, left, s'))
                      (omega (arith, length-append batch delivered))),
            sym (take-append-drop n (x ∷ q))
                ∙ ap (λ (r : List V). batch ++ r) kept
                ∙ sym (append_assoc batch delivered left),
            accepted (omega (arith, batch_lem x q)) (omega (arith, batch_lem x q)) e sends,
          )

eq_nil_of_is_empty {ℓ} : {A : Type ℓ} (q : List A) → is_empty q ≡ true → q ≡ []
eq_nil_of_is_empty [] h = refl
eq_nil_of_is_empty (x ∷ q) h = ground arith

module _ (J : Json) {S : Type 0} (send_batch : List J.Value → S → Bool × S) where
  open J use {Value}

  queue-flush_end :
      (w : Write) (s : OfflineStore Value) (n : ℕ) (q : List Value) (world : S)
      → (flush_end J send_batch w s (n, q, world)).1.queue ≡ q
  unfolding flush_end
  queue-flush_end written s n q world = ground arith
  queue-flush_end not_opened s n q world = ground arith
  queue-flush_end (cut_short k) s n q world = ground arith

  -- `flush` returns. What it delivered, in batches of at most `batch_size`, followed by what it left
  -- in the queue is the old queue; it returns how many it delivered, and stops short of the end only
  -- at a batch that the backend refused, which stays in the queue.
  pub flush-Sends :
      (w : Write) (s : OfflineStore Value) (world : S)
      → (delivered : List Value) × (s' : OfflineStore Value) × (world' : S) × (flush J send_batch w
            s world
          ≡ some (length delivered, s', world'))
        × (s.queue ≡ delivered ++ s'.queue)
        × Sends send_batch world delivered s'.queue world'
  unfolding flush
  flush-Sends w s world = elim (Bool-cases (is_empty s.queue)) [
    | inl empty ↦
        let e = eq_nil_of_is_empty s.queue empty in
        (
          [],
          s,
          world,
          rw empty,
          refl,
          subst (λ q. Sends send_batch world [] q world) (sym e) finished,
        )
    | inr some_left ↦
        let (delivered, left, world', returns, kept, sends) =
          flush_loop-Flushed send_batch (suc (length s.queue)) 0 s.queue world (omega arith) in
        let e = queue-flush_end w s (0 + length delivered) left world' in
        (
          delivered,
          (flush_end J send_batch w s (0 + length delivered, left, world')).1,
          world',
          rw (some_left, returns)
              (ap
                (λ (n : ℕ).
                  some (
                    n,
                    (flush_end J send_batch w s (0 + length delivered, left, world')).1,
                    world',
                  ))
                (omega arith)),
          kept ∙ ap (λ (r : List Value). delivered ++ r) (sym e),
          subst (λ q. Sends send_batch world delivered q world') (sym e) sends,
        )
  ]
