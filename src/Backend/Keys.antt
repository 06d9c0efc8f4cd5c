-- ===== src/Backend/Keys.antt =====
-- `require_api_key` and `_parse_api_keys` (backend/app.py): which requests a handler sees.
use frass_f.Base.{
  ◌≡◌, ◌↔◌, ◌⊎◌, inl, inr, refl, ◌∙◌, ap, Bool, true, false, not, ◌&&◌, ◌||◌, Option, none, some,
  [], Text, text, text_eq, text_eq_iff, text_eq_refl, is_empty, Dict, get, if◌then◌else◌, arith,
  Bool-cases,
}

-- What `API_KEYS` is as JSON: keys by device (a value that is no text equals no key), one key, or
-- something else.
pub data Keys : Type 0 where
  by_device : Dict Text → Keys
  one_key : Text → Keys
  other : Keys

-- `_parse_api_keys`, of the variable and what `json.loads` makes of it; `none` is an exception.
unfoldable pub parse_api_keys : (Text → Option Keys) → Option Text → Keys
parse_api_keys loads none = by_device []
parse_api_keys loads (some raw) =
    if is_empty raw then by_device [] else elim (loads raw) [ none ↦ by_device [] | some k ↦ k ]

pub data Access : Type 0 where
  key_required invalid_key granted : Access

-- The device of a request: the header's, or else the one that the body names.
abbrev pub device_of : Text → Text → Text
device_of header body = if is_empty header then body else header

abbrev pub is_key : Text → Option Text → Bool
is_key key none = false
is_key key (some k) = text_eq k key

abbrev pub granted_if : Bool → Access
granted_if true = granted
granted_if false = invalid_key

abbrev pub check_key : Keys → Text → Text → Access
check_key (by_device keys) key device = granted_if (
    (not (is_empty device) && is_key key (get device keys))
    || is_key key (get (text "_global") keys))
check_key (one_key k) key device = granted_if (text_eq k key)
check_key other key device = invalid_key

-- `require_api_key`, from the headers X-API-Key and X-Device-ID and the body's `device_id`, all empty
-- where they are missing.
unfoldable pub require_api_key : Keys → Text → Text → Text → Access
require_api_key keys key header body =
    if is_empty key then key_required else check_key keys key (device_of header body)

is_key-some : (key : Text) (o : Option Text) → is_key key o ≡ true → o ≡ some key
is_key-some key none h = absurd (ground arith)
is_key-some key (some k) h = ap some ((text_eq_iff k key).0 h)

granted_or : (x y : Bool) → granted_if (x || y) ≡ granted → (x ≡ true) ⊎ (y ≡ true)
granted_or true y h = inl refl
granted_or false true h = inr refl
granted_or false false h = absurd (ground arith)

both_true : (x y : Bool) → (not x && y) ≡ true → (x ≡ false) × (y ≡ true)
both_true true y h = absurd (ground arith)
both_true false y h = (refl, h)

-- The key of the device, if the request names one, or the global one.
abbrev pub HasKey : Dict Text → Text → Text → Type 0
HasKey keys key device =
    ((is_empty device ≡ false) × (get device keys ≡ some key))
    ⊎ (get (text "_global") keys ≡ some key)

HasKey-granted :
    (keys : Dict Text) (key device : Text)
    → HasKey keys key device
    → check_key (by_device keys) key device ≡ granted
HasKey-granted keys key device (inl (e, h)) = rw e (rw h (rw (text_eq_refl key)))
HasKey-granted keys key device (inr h) =
    ap
      (λ (o : Option Text).
        granted_if ((not (is_empty device) && is_key key (get device keys)) || is_key key o))
      h
    ∙ rw (text_eq_refl key) (or_true (not (is_empty device) && is_key key (get device keys)))
  where
    or_true : (x : Bool) → granted_if (x || true) ≡ granted
    or_true true = refl
    or_true false = refl

granted-HasKey :
    (keys : Dict Text) (key device : Text)
    → check_key (by_device keys) key device ≡ granted
    → HasKey keys key device
granted-HasKey keys key device h =
    elim (granted_or (not (is_empty device) && is_key key (get device keys))
      (is_key key (get (text "_global") keys)) h) [
        | inl a ↦
            let (e, k) = both_true (is_empty device) (is_key key (get device keys)) a in
            inl (e, is_key-some key (get device keys) k)
        | inr g ↦ inr (is_key-some key (get (text "_global") keys) g)
      ]

-- Where the keys are by device, a request gets through exactly with a key that is not empty and that
-- is the one of its device, if it names one, or the global one. The device is that of the header, if
-- there is one, whatever device the body is about.
pub granted_iff :
    (keys : Dict Text) (key header body : Text)
    → (require_api_key (by_device keys) key header body ≡ granted)
      ↔ ((is_empty key ≡ false) × HasKey keys key (if is_empty header then body else header))
unfolding require_api_key
granted_iff keys key header body = elim (Bool-cases (is_empty key)) [
  | inl e ↦ rw e ((λ h. absurd (ground arith)), (λ (n, h). absurd (ground arith)))
  | inr e ↦ rw e (
    (λ h. (refl, granted-HasKey keys key (device_of header body) h)),
    (λ (n, h). HasKey-granted keys key (device_of header body) h),
  )
]
