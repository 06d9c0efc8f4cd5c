-- ===== src/Edge/EdgeDevice/Nonce.antt =====
-- The nonce of a result (edge/main.py): it names the frame and the time of the result.
use frass_f.Base.{ℕ, ◌≡◌, refl, ap, true, [], ◌∷◌, ◌++◌, Text, all, is_digit, arith}
use frass_f.Base.Decimal.{decimal, decimal_injective, decimal_is_digits}
use frass_f.Edge.EdgeDevice.{nonce}

append_cancel : (p s t : Text) → p ++ s ≡ p ++ t → s ≡ t
append_cancel [] s t e = e
append_cancel (c ∷ p) s t e = append_cancel p s t (cc)

abbrev colon : ℕ
colon = b':'

-- Two texts of digits that a colon ends agree where the whole texts do.
split_at_colon :
    (a b s t : Text)
    → all is_digit a ≡ true
    → all is_digit b ≡ true
    → a ++ (colon ∷ s) ≡ b ++ (colon ∷ t)
    → (a ≡ b) × (s ≡ t)
split_at_colon [] [] s t ha hb e = (refl, cc)
split_at_colon [] (d ∷ b) s t ha hb e = absurd (ground arith)
split_at_colon (c ∷ a) [] s t ha hb e = absurd (ground arith)
split_at_colon (c ∷ a) (d ∷ b) s t ha hb e = ground (arith, split_at_colon a b s t)

-- Two results of one device have the same nonce only if both the frame's number and the time in
-- nanoseconds are the same.
pub nonce_injective :
    (device_id : Text) (f g s t : ℕ) → nonce device_id f s ≡ nonce device_id g t → (f ≡ g) × (s ≡ t)
unfolding nonce
nonce_injective device_id f g s t e =
    let parts =
      split_at_colon (decimal f) (decimal g) (decimal s) (decimal t) (decimal_is_digits f)
        (decimal_is_digits g)
        (ap (drop_head) (
          append_cancel device_id (colon ∷ (decimal f ++ (colon ∷ decimal s)))
            (colon ∷ (decimal g ++ (colon ∷ decimal t))) e)) in
    (decimal_injective f g parts.0, decimal_injective s t parts.1)
  where
    drop_head : Text → Text
    drop_head [] = []
    drop_head (c ∷ r) = r
