-- ===== src/Edge/OfflineStore/Disk.antt =====
-- What `save` writes, `_load` reads back (edge/sync/offline_store.py).
use frass_f.Base.{◌≡◌, refl, ap, true, not, List, [], ◌∷◌, ◌++◌, Text, all, arith}
use frass_f.Edge.Json.{Json, is_newline}
use frass_f.Edge.OfflineStore.{OfflineStore, written, lines, saved_text, save, load_lines, load}

lines-append :
    (l t : Text) → all (λ c. not (is_newline c)) l ≡ true → lines (l ++ (10 ∷ t)) ≡ l ∷ lines t
unfolding lines
lines-append [] t h = refl
lines-append (c ∷ l) t h = ground (arith, lines-append l t)

module _ (J : Json) where
  open J use {Value, dumps, loads-dumps, strip-dumps, dumps_not_empty, dumps_one_line}

  load_lines-saved_text : (q : List Value) → load_lines J (lines (saved_text J q)) ≡ q
  unfolding load_lines saved_text lines
  load_lines-saved_text [] = refl
  load_lines-saved_text (v ∷ q) =
      rw (lines-append (dumps v) (saved_text J q) (dumps_one_line v), load_lines)
        (rw (strip-dumps v, dumps_not_empty v, loads-dumps v)
          (ap (λ (r : List Value). v ∷ r) (load_lines-saved_text q)))

  -- The queue that a completed save wrote is the queue that a restarted device loads, in order.
  pub load-save : (s : OfflineStore Value) → load J (save J written s).disk ≡ s.queue
  unfolding load save
  load-save s = load_lines-saved_text s.queue
