-- ===== src/Edge/OfflineStore/Tests.antt =====
-- Runs of edge/sync/offline_store.py at concrete queues.
use frass_f.Base.{
  ℕ, ◌+◌, ◌≤◌, ◌≡◌, refl, Bool, true, false, Option, none, some, List, [], ◌∷◌, ◌++◌, Text, text,
  text_eq, strip, length, leb, if◌then◌else◌, arith,
}
use frass_f.Edge.Json.{Json}
use frass_f.Edge.OfflineStore.{OfflineStore, written, not_opened, save, load, flush}
use frass_f.Edge.OfflineStore.Bound.{enqueue_all, enqueue_all-newest}
use frass_f.Edge.OfflineStore.Disk.{load-save}
use frass_f.Edge.OfflineStore.Flush.{Sends, flush-Sends}

abbrev pub dump_flag : Bool → Text
dump_flag true = text "true"
dump_flag false = text "false"

abbrev pub load_flag : Text → Option Bool
load_flag t =
    if text_eq t (text "true")
    then some true
    else if text_eq t (text "false")
    then some false
    else none

pub load_flag-dump_flag : (v : Bool) → load_flag (dump_flag v) ≡ some v
unfolding text_eq
load_flag-dump_flag true = refl
load_flag-dump_flag false = refl

pub strip-dump_flag : (v : Bool) → strip (dump_flag v) ≡ dump_flag v
unfolding strip
strip-dump_flag true = refl
strip-dump_flag false = refl

-- Results that are a JSON `true` or `false`.
abbrev pub flags : Json
flags = record {
  Value = Bool;
  dumps = dump_flag;
  loads = load_flag;
  loads-dumps = load_flag-dump_flag;
  strip-dumps = strip-dump_flag;
  dumps_not_empty = elim [ true ↦ refl | false ↦ refl ];
  dumps_one_line = elim [ true ↦ refl | false ↦ refl ];
}

abbrev store : OfflineStore Bool
store = record { max_size = 3; queue = true ∷ false ∷ []; disk = none }

-- A backend that counts what it accepts, and refuses once it holds three results.
abbrev counting : List Bool → ℕ → Bool × ℕ
counting batch n = if leb 3 n then (false, n) else (true, n + length batch)

load_truncated : load flags (some (text "true\nfal")) ≡ true ∷ []
unfolding load text_eq strip
load_truncated = refl

load-save_example : load flags (save flags written store).disk ≡ true ∷ false ∷ []
load-save_example = load-save flags store

enqueue_all-newest_example :
    (s' : OfflineStore Bool) × (enqueue_all flags ((written, true) ∷ (not_opened, true) ∷ []) store
      ≡ some s')
    × (s'.queue ≡ false ∷ true ∷ true ∷ [])
    × (length s'.queue ≤ 3)
enqueue_all-newest_example =
    enqueue_all-newest flags ((written, true) ∷ (not_opened, true) ∷ []) store (omega arith)
      (omega arith)

flush-Sends_example :
    (delivered : List Bool) × (s' : OfflineStore Bool) × (world' : ℕ) × (flush flags counting
        written store 0
      ≡ some (length delivered, s', world'))
    × (true ∷ false ∷ [] ≡ delivered ++ s'.queue)
    × Sends counting 0 delivered s'.queue world'
flush-Sends_example = flush-Sends flags counting written store 0

flush_refused : flush flags counting written store 3 ≡ some (0, store, 3)
unfolding flush
flush_refused = refl
