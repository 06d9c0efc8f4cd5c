-- ===== src/Liveness/Total.antt =====
-- The weights of the layers sum to one, also after the layer of a missing model is dropped, so a
-- score lies between 0 and 1 (app/services/liveness.py).
use frass_f.Base.{
  ℕ, ◌+◌, ◌*◌, ◌/◌, ◌%◌, ◌≤◌, ◌<◌, ◌≡◌, refl, sym, ap, ◌∙◌, Bool, true, false, not, List, [], ◌∷◌,
  map, ltb, ◌==◌, arith, if◌then◌else◌, keep_if, is_empty, Bool-cases, inl, inr, ◌⊎◌, All,
  All-append,
}
use frass_f.Base.Int.{ℤ, pos, negsuc, ◌≤ℤ◌}
use frass_f.Liveness.Vision.{round_div}
use frass_f.Liveness.Blink.{half}
use frass_f.Liveness.Detector.{
  Layer, texture, moire, depth, blink, colorspace, quality, ml_antispoof, number, same_layer,
  has_layer, all_layers, Weights, default_weights, get_or, sum_parts, renormalise, weighted_total,
  ml_enabled, ml_weights, ml_scores, Scores, add_score,
}

abbrev of_number : ℕ → Layer
of_number n =
    if n == 0
    then texture
    else if n == 1
    then moire
    else if n == 2
    then depth
    else if n == 3
    then blink
    else if n == 4
    then colorspace
    else if n == 5
    then quality
    else ml_antispoof

of_number-number : (k : Layer) → of_number (number k) ≡ k
of_number-number texture = refl
of_number-number moire = refl
of_number-number depth = refl
of_number-number blink = refl
of_number-number colorspace = refl
of_number-number quality = refl
of_number-number ml_antispoof = refl

same_layer-eq : (j k : Layer) → same_layer j k ≡ true → j ≡ k
same_layer-eq j k h =
    let e : number j ≡ number k = ground arith in
    sym (of_number-number j) ∙ ap of_number e ∙ of_number-number k

-- The dict of the parts of some layers.
abbrev table : List (Layer × ℕ) → List Layer → List (Layer × ℕ)
table parts = map (λ (k : Layer). (k, get_or 0 k parts))

get_or-table :
    (parts : List (Layer × ℕ)) (k : Layer) (ks : List Layer)
    → has_layer k ks ≡ true
    → get_or 0 k (table parts ks) ≡ get_or 0 k parts
unfolding get_or
get_or-table parts k [] h = ground arith
get_or-table parts k (j ∷ ks) h = elim (Bool-cases (same_layer j k)) [
  | inl t ↦ rw t (ap (λ (l : Layer). get_or 0 l parts) (same_layer-eq j k t))
  | inr f ↦ rw f (get_or-table parts k ks (ground arith))
]

abbrev Has : List Layer → List Layer → Type 0
Has ks = All (λ k. has_layer k ks ≡ true)

Has-more : (j : Layer) (ks ls : List Layer) → Has ks ls → Has (j ∷ ks) ls
Has-more j ks [] h = tt
Has-more j ks (l ∷ ls) h = (ground (arith, h.0), Has-more j ks ls h.1)

Has-self : (ks : List Layer) → Has ks ks
Has-self [] = tt
Has-self (k ∷ ks) = (ground arith, Has-more k ks ks (Has-self ks))

sum_parts-table :
    (parts : List (Layer × ℕ)) (ks ls : List Layer)
    → Has ks ls
    → sum_parts (table parts ks) ls ≡ sum_parts parts ls
unfolding sum_parts
sum_parts-table parts ks [] h = refl
sum_parts-table parts ks (l ∷ ls) h =
    omega (arith, get_or-table parts l ks h.0, sum_parts-table parts ks ls h.1)

abbrev Weighted : List (Layer × ℕ) → List Layer → Type 0
Weighted parts = All (λ k. 0 < get_or 0 k parts)

Weighted-table :
    (parts : List (Layer × ℕ)) (ks ls : List Layer)
    → Has ks ls
    → Weighted parts ls
    → Weighted (table parts ks) ls
Weighted-table parts ks [] h w = tt
Weighted-table parts ks (l ∷ ls) h w =
    (omega (arith, get_or-table parts l ks h.0, w.0), Weighted-table parts ks ls h.1 w.1)

sum_parts_positive :
    (parts : List (Layer × ℕ)) (k : Layer) (ks : List Layer)
    → 0 < get_or 0 k parts
    → 0 < sum_parts parts (k ∷ ks)
unfolding sum_parts
sum_parts_positive parts k ks h = omega arith

-- The enabled layers have weights, and these sum to the whole, if there is an enabled layer.
pub record IsBalanced (w : Weights) (ks : List Layer) : Type 0 where
  pub positive : 0 < w.whole
  pub weighted : All (λ k. 0 < get_or 0 k w.parts) ks
  pub balanced : sum_parts w.parts ks ≡ (if is_empty ks then 0 else w.whole)

pub renormalise-IsBalanced :
    (w : Weights) (ks : List Layer)
    → 0 < w.whole
    → All (λ k. 0 < get_or 0 k w.parts) ks
    → IsBalanced (renormalise w ks) ks
unfolding renormalise sum_parts
renormalise-IsBalanced w [] p h = record { positive = p; weighted = tt; balanced = refl }
renormalise-IsBalanced w (k ∷ ks) p h = record {
  positive = sum_parts_positive w.parts k ks h.0;
  weighted = Weighted-table w.parts (k ∷ ks) (k ∷ ks) (Has-self (k ∷ ks)) h;
  balanced = sum_parts-table w.parts (k ∷ ks) (k ∷ ks) (Has-self (k ∷ ks));
}

default-get_or : (k : Layer) → 0 < get_or 0 k default_weights.parts
unfolding get_or
default-get_or texture = omega arith
default-get_or moire = omega arith
default-get_or depth = omega arith
default-get_or blink = omega arith
default-get_or colorspace = omega arith
default-get_or quality = omega arith
default-get_or ml_antispoof = omega arith

All-every : {P : Layer → Type 0} → ((k : Layer) → P k) → (ks : List Layer) → All P ks
All-every h [] = tt
All-every h (k ∷ ks) = (h k, All-every h ks)

pub default-IsBalanced : IsBalanced default_weights all_layers
unfolding sum_parts get_or
default-IsBalanced = record {
  positive = omega arith;
  weighted = All-every {P = λ k. 0 < get_or 0 k default_weights.parts} default-get_or all_layers;
  balanced = refl;
}

pub named-IsBalanced : (ks : List Layer) → IsBalanced (renormalise default_weights ks) ks
named-IsBalanced ks =
    renormalise-IsBalanced default_weights ks (omega arith)
      (All-every {P = λ k. 0 < get_or 0 k default_weights.parts} default-get_or ks)

All-keep_if :
    (P : Layer → Type 0) (p : Layer → Bool) (ks : List Layer) → All P ks → All P (keep_if p ks)
All-keep_if P p [] h = tt
All-keep_if P p (k ∷ ks) h = elim (Bool-cases (p k)) [
  | inl t ↦ rw t (h.0, All-keep_if P p ks h.1)
  | inr f ↦ rw f (All-keep_if P p ks h.1)
]

-- Whatever the model answers, the weights that are used are balanced.
pub ml_weights-IsBalanced :
    (s : ℤ) (ks : List Layer) (w : Weights)
    → IsBalanced w ks
    → IsBalanced (ml_weights s ks w) (ml_enabled s ks)
unfolding ml_weights ml_enabled
ml_weights-IsBalanced (pos s) ks w b = b
ml_weights-IsBalanced (negsuc s) ks w b =
    renormalise-IsBalanced w (keep_if (λ k. not (same_layer k ml_antispoof)) ks) b.positive
      (All-keep_if (λ k. 0 < get_or 0 k w.parts) _ ks b.weighted)

-- Scores of at most one.
abbrev pub Within : List (Layer × ℕ) → Type 0
Within = All (λ (e : Layer × ℕ). e.1 ≤ 1000000)

get_or-Within :
    (k : Layer) (scores : List (Layer × ℕ)) → Within scores → get_or half k scores ≤ 1000000
unfolding get_or
get_or-Within k [] h = omega arith
get_or-Within k ((j, s) ∷ scores) h = ground (arith, get_or-Within k scores h.1, h.0)

weighted_total-le :
    (scores parts : List (Layer × ℕ)) (ks : List Layer)
    → Within scores
    → weighted_total scores parts ks ≤ 1000000 * sum_parts parts ks
unfolding weighted_total sum_parts
weighted_total-le scores parts [] h = omega arith
weighted_total-le scores parts (k ∷ ks) h =
    grind (arith, weighted_total-le scores parts ks h, get_or-Within k scores h)

pub total-le-whole :
    (scores : List (Layer × ℕ)) (w : Weights) (ks : List Layer)
    → Within scores
    → IsBalanced w ks
    → weighted_total scores w.parts ks ≤ 1000000 * w.whole
total-le-whole scores w ks h b = ground (arith, weighted_total-le scores w.parts ks h, b.balanced)

mul_mono : (a b d : ℕ) → a ≤ b → a * d ≤ b * d
mul_mono a b d h = grind arith

div_parts : (n d : ℕ) → 0 < d → (n / d) * d + n % d ≡ n
div_parts n d p = grind arith

quotient-le : (q r d m : ℕ) → 0 < d → q * d + r ≤ m * d → (q < m) ⊎ ((q ≡ m) × (r ≡ 0))
quotient-le q r d m p h = elim (Bool-cases (ltb q m)) [
  | inl t ↦ inl (ground arith)
  | inr f ↦ elim (Bool-cases (ltb m q)) [
    | inl t ↦ absurd (ground (arith, mul_mono (m + 1) q d (ground arith)))
    | inr g ↦ let e : q ≡ m = ground arith in inr (e, omega (arith, ap (λ (t : ℕ). t * d) e))
  ]
]

round_div-le : (n d m : ℕ) → 0 < d → n ≤ m * d → round_div n d ≤ m
unfolding round_div
round_div-le n d m p h = elim (quotient-le (n / d) (n % d) d m p (omega (arith, div_parts n d p))) [
  | inl t ↦ ground arith
  | inr t ↦ ground (arith, t.0, t.1)
]

pub round_total : (n w : ℕ) → 0 < w → n ≤ 1000000 * w → round_div n (1000 * w) ≤ 1000
round_total n w p h = round_div-le n (1000 * w) 1000 (omega arith) (omega arith)

pub add_score-Within :
    (b : Bool) (k : Layer) (limit s : ℕ) (r : Scores)
    → s ≤ 1000000
    → Within r.scores
    → Within (add_score b k limit s r).scores
unfolding add_score
add_score-Within false k limit s r h w = w
add_score-Within true k limit s r h w =
    All-append (λ (e : Layer × ℕ). e.1 ≤ 1000000) r.scores ((k, s) ∷ []) w (h, tt)

pub ml_scores-Within :
    (s : ℤ) (r : Scores) → s ≤ℤ pos 1000000 → Within r.scores → Within (ml_scores s r).scores
unfolding ml_scores
ml_scores-Within (pos s) r h w = add_score-Within true ml_antispoof 400000 s r (omega arith) w
ml_scores-Within (negsuc s) r h w = w
