-- ===== src/Edge/OfflineStore.antt =====
-- `class OfflineStore` (edge/sync/offline_store.py): a bounded queue of results, kept on disk.
pub mod Disk
pub mod Flush
pub mod Bound
pub mod Tests
use mathlib.Core.List.{foldl, reverse, flatten}
use frass_f.Base.{
  ℕ, zero, suc, ◌+◌, min, Bool, true, false, Option, none, some, List, [], ◌∷◌, ◌++◌, map, Text,
  strip, is_empty, length, take, drop, leb, ltb, if◌then◌else◌,
}
use frass_f.Edge.Json.{Json, is_newline}

-- The queue from its left end, and the text of the file (`none`: there is no file).
pub record OfflineStore (V : Type 0) : Type 0 where
  pub max_size : ℕ
  pub queue : List V
  pub disk : Option Text

-- How a call of `save` goes: all is written, the file cannot be opened, or writing stops short.
pub data Write : Type 0 where
  written : Write
  not_opened : Write
  cut_short : ℕ → Write

pub cons_head : ℕ → List Text → List Text
cons_head c [] = (c ∷ []) ∷ []
cons_head c (l ∷ ls) = (c ∷ l) ∷ ls

-- `for line in f`
pub lines : Text → List Text
unfolding cons_head
lines [] = []
lines (c ∷ s) = let rest = lines s in if is_newline c then [] ∷ rest else cons_head c rest

-- `popleft` on a full queue; `none`: it raises on an empty one.
pub make_room {ℓ} : {A : Type ℓ} → ℕ → List A → Option (List A)
make_room max_size [] = if leb max_size 0 then none else some []
make_room max_size (x ∷ q) = if leb max_size (length (x ∷ q)) then some q else some (x ∷ q)

module _ (J : Json) where
  open J use {Value, dumps, loads}

  -- The text that the loop of `save` writes.
  pub saved_text : List Value → Text
  saved_text [] = []
  saved_text (v ∷ q) = dumps v ++ (10 ∷ saved_text q)

  pub save : Write → OfflineStore Value → OfflineStore Value
  save written s = record s { disk = some (saved_text s.queue) }
  save not_opened s = s
  save (cut_short n) s = record s { disk = some (take n (saved_text s.queue)) }

  -- A line that does not parse raises, and ends the loading.
  pub load_lines : List Text → List Value
  load_lines [] = []
  load_lines (l ∷ ls) =
      let rest = load_lines ls in
      let line = strip l in
      if is_empty line then rest else elim (loads line) [ none ↦ [] | some v ↦ v ∷ rest ]

  pub load : Option Text → List Value
  unfolding load_lines lines
  load none = []
  load (some t) = load_lines (lines t)

  -- `__init__`
  pub init : ℕ → Option Text → OfflineStore Value
  unfolding load
  init max_size file = record { max_size = max_size; queue = load file; disk = file }

  -- `queue`
  pub enqueue : Write → Value → OfflineStore Value → Option (OfflineStore Value)
  unfolding save make_room
  enqueue w v s = elim (make_room s.max_size s.queue) [
    | none ↦ none
    | some q ↦ some (save w (record s { queue = q ++ (v ∷ []) }))
  ]

abbrev pub batch_size : ℕ
batch_size = 50

-- `for item in reversed(batch): appendleft(item)`
pub put_back {ℓ} : {A : Type ℓ} → List A → List A → List A
put_back batch q = foldl (λ r x. x ∷ r) q (reverse batch)

-- `if sync_client.send_batch(batch): … else: …`, each branch from the world that the call left.
abbrev pub after_send {ℓ} : {S : Type 0} {A : Type ℓ} → Bool × S → (S → A) → (S → A) → A
after_send (true, s) accepted refused = accepted s
after_send (false, s) accepted refused = refused s

-- The loop of `flush` over the queue and the world behind the client; `none`: out of fuel.
module _ {S V : Type 0} (send_batch : List V → S → Bool × S) where
  pub flush_loop : ℕ → ℕ → List V → S → Option (ℕ × List V × S)
  unfolding put_back
  flush_loop zero sent q s = none
  flush_loop (suc f) sent [] s = some (sent, [], s)
  flush_loop (suc f) sent (x ∷ q) s =
      let n = min batch_size (length (x ∷ q)) in
      let batch = take n (x ∷ q) in
      let rest = drop n (x ∷ q) in
      after_send (send_batch batch s) (λ s'. flush_loop f (sent + length batch) rest s')
        (λ s'. some (sent, put_back batch rest, s'))

module _ (J : Json) {S : Type 0} (send_batch : List J.Value → S → Bool × S) where
  open J use {Value}

  -- What `flush` does once its loop has ended.
  pub flush_end : Write → OfflineStore Value → ℕ × List Value × S → ℕ × OfflineStore Value × S
  unfolding save
  flush_end w s (sent, q, world) =
      let s' : OfflineStore Value = record s { queue = q } in
      (sent, (if ltb 0 sent then save J w s' else s'), world)

  pub flush : Write → OfflineStore Value → S → Option (ℕ × OfflineStore Value × S)
  unfolding flush_end flush_loop
  flush w s world =
      if is_empty s.queue
      then some (0, s, world)
      else elim (flush_loop send_batch (suc (length s.queue)) 0 s.queue world) [
        | none ↦ none
        | some r ↦ some (flush_end w s r)
      ]
