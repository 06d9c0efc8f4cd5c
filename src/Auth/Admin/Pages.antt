-- ===== src/Auth/Admin/Pages.antt =====
-- The pages of the audit log together (app/api/admin.py), whatever order the database gives to entries
-- of one time.
use frass_f.Base.{
  ℕ, zero, suc, ◌+◌, ◌*◌, ◌≡◌, refl, sym, ap, ◌∙◌, Bool, Option, none, some, List, [], ◌∷◌, ◌++◌,
  Text, map, take, drop, keep_if, count_if, arith,
}
use mathlib.Core.List.{map-append}
use frass_f.Base.Int.{pos}
use frass_f.Base.Sorted.{sort, newer, Ordered, newer-Ordered, count-sort}
use frass_f.Base.Sorted.Times.{times-same, map-take, map-drop}
use frass_f.Auth.Account.{AuditLog}
use frass_f.Auth.Admin.{AuditPage, selects, audit_log}

abbrev pub time_of : AuditLog → ℕ
time_of a = a.created_at

-- What `order_by(AuditLog.created_at.desc())` promises: the same rows, from the newest to the oldest.
pub record IsOrder (ordered : List AuditLog → List AuditLog) : Type 0 where
  pub same :
      (p : AuditLog → Bool) (logs : List AuditLog) → count_if p (ordered logs) ≡ count_if p logs
  pub by_time : (logs : List AuditLog) → Ordered (newer time_of) (ordered logs)

abbrev pub joined : Option (List AuditLog) → Option AuditPage → Option (List AuditLog)
joined none p = none
joined (some es) none = none
joined (some es) (some p) = some (es ++ p.entries)

-- The entries of the first pages, one page after the other; each page is a query with its own order.
abbrev pub first_pages :
    (ℕ → List AuditLog → List AuditLog) → ℕ → ℕ → Text → ℕ → List AuditLog → Option (List AuditLog)
first_pages orders zero n action user_id logs = some []
first_pages orders (suc k) n action user_id logs =
    joined (first_pages orders k n action user_id logs) (
      audit_log (orders k)
        (record { page = pos (suc k); per_page = pos n; action = action; user_id = user_id }) logs)

take-nil : (n : ℕ) → take {A = ℕ} n [] ≡ []
take-nil zero = refl
take-nil (suc n) = refl

take-same : (m n : ℕ) (ts : List ℕ) → m ≡ n → take m ts ≡ take n ts
take-same m n ts e = ap (λ (k : ℕ). take k ts) e

take-more : (m n : ℕ) (ts : List ℕ) → take m ts ++ take n (drop m ts) ≡ take (m + n) ts
take-more zero n ts = take-same n (0 + n) ts (omega arith)
take-more (suc m) n [] = take-nil n ∙ sym (take-nil (suc m + n))
take-more (suc m) n (t ∷ ts) =
    ap (λ (r : List ℕ). t ∷ r) (take-more m n ts)
    ∙ take-same (suc (m + n)) (suc m + n) (t ∷ ts) (omega arith)

-- The times of one page are those of the reference order in its place.
page-times :
    (ordered : List AuditLog → List AuditLog) (m n : ℕ) (chosen : List AuditLog)
    → IsOrder ordered
    → map time_of (take n (drop m (ordered chosen)))
      ≡ take n (drop m (map time_of (sort (newer time_of) chosen)))
page-times ordered m n chosen o =
    map-take time_of n (drop m (ordered chosen))
    ∙ ap (take n) (
        map-drop time_of m (ordered chosen)
        ∙ ap (drop m) (
            times-same time_of (ordered chosen) (sort (newer time_of) chosen) (o.by_time chosen)
              (newer-Ordered time_of chosen)
              (λ p. o.same p chosen ∙ sym (count-sort (newer time_of) p chosen))))

-- Whatever order each query gives to entries of one time, the first k pages of n entries follow one
-- another without an exception, and their times are the k n latest times of the entries that are
-- selected, from the latest, each as often as there are such entries.
pub first_pages-times :
    (orders : ℕ → List AuditLog → List AuditLog) (k n : ℕ) (action : Text) (user_id : ℕ)
    (logs : List AuditLog)
    → ((i : ℕ) → IsOrder (orders i))
    → (all : List AuditLog) × (first_pages orders k n action user_id logs ≡ some all)
      × (map time_of all
          ≡ take
              (k * n)
              (map time_of (sort (newer time_of) (keep_if (selects action user_id) logs))))
unfolding audit_log
first_pages-times orders zero n action user_id logs o = (
  [],
  refl,
  sym (
      take-same (0 * n) 0
        (map time_of (sort (newer time_of) (keep_if (selects action user_id) logs))) (omega arith)),
)
first_pages-times orders (suc k) n action user_id logs o =
    let chosen = keep_if (selects action user_id) logs in
    let times = map time_of (sort (newer time_of) chosen) in
    let page = take n (drop (k * n) (orders k chosen)) in
    let (all, e, h) = first_pages-times orders k n action user_id logs o in
    (
      all ++ page,
      rw e refl,
      map-append time_of all page
          ∙ rw (h, page-times (orders k) (k * n) n chosen (o k)) (take-more (k * n) n times)
          ∙ take-same (k * n + n) (suc k * n) times (ground arith),
    )
