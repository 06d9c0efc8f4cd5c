-- ===== src/Auth/Admin/Tests.antt =====
-- Runs of the admin's operations (app/api/admin.py).
use frass_f.Base.{
  ℕ, Bool, ◌≡◌, refl, true, false, none, some, List, [], ◌∷◌, ◌++◌, Text, text, text_eq, map,
  Option, count_if, count_if-append, take, keep_if, zero, suc, ◌∙◌, arith,
}
use frass_f.Base.Int.{pos}
use frass_f.Base.Sorted.{sort, insert_row, newer, newer-Ordered, count-sort}
use frass_f.Auth.Admin.Pages.{time_of, IsOrder, first_pages, first_pages-times}
use frass_f.Attendance.State.{AttendanceSession, active}
use frass_f.Auth.Account.{User, AuditLog, Accounts}
use frass_f.Auth.Admin.{
  own_account, related_records, server_error, update_user, Records, delete_user, audit_log,
  AuditPage, selects,
}
use frass_f.Auth.Admin.Deletion.{Leaves, delete_user-Leaves}

abbrev user : Text → Text → User
user name role = record {
  username = name;
  email = some (name);
  password_hash = [];
  role = role;
  is_active = true;
  mfa_enabled = false;
  mfa_secret = none;
  failed_login_attempts = 0;
  locked_until = none;
  student_id = none;
}

abbrev entry : ℕ → Text → ℕ → AuditLog
entry i action t = record {
  user_id = some i;
  action = action;
  entity_type = text "user";
  entity_id = none;
  details = none;
  ip_address = [];
  created_at = t;
}

abbrev log : List AuditLog
log = entry 1 (text "create") 5 ∷ entry 2 (text "login") 7 ∷ entry 2 (text "create") 9 ∷ []

abbrev accounts : Accounts ℕ
accounts = record {
  users = (1, user (text "root") (text "admin")) ∷ (2, user (text "ada") (text "teacher")) ∷ [];
  audit = log;
  redis = 0;
}

abbrev records : Records ℕ
records = record { accounts = accounts; sessions = [] }

abbrev session : AttendanceSession
session = record {
  started_by = 2;
  schedule_id = none;
  tolerance = pos 0;
  status = active;
  started_at = 0;
  ended_at = none;
}

not_oneself : delete_user 1 1 records ≡ (own_account, records)
unfolding delete_user
not_oneself = refl

not_with_sessions :
    (delete_user 1 2 (record records { sessions = (1, session) ∷ [] })).0 ≡ related_records
unfolding delete_user
not_with_sessions = refl

-- An address that another user has raises.
same_address :
    update_user 2
      (record { role = none; is_active = none; email = some (some (text "root")) })
      accounts
    ≡ (server_error, accounts)
unfolding update_user
same_address = refl

abbrev after : Records ℕ
unfolding delete_user
after = (delete_user 1 2 records).1

delete_user-Leaves_example : Leaves 1 2 records after
unfolding delete_user after
delete_user-Leaves_example = delete_user-Leaves 1 2 records after refl

abbrev entry_times : Option AuditPage → List ℕ
entry_times none = []
entry_times (some p) = map (λ (a : AuditLog). a.created_at) p.entries

abbrev backwards : List AuditLog → List AuditLog
backwards [] = []
backwards (e ∷ es) = backwards es ++ (e ∷ [])

-- The second page of one entry, where the database answers the rows in the order of `backwards`.
second_page :
    entry_times (
      audit_log backwards
        (record { page = pos 2; per_page = pos 1; action = text "create"; user_id = 0 })
        log)
    ≡ 5 ∷ []
unfolding audit_log text_eq
second_page = refl

-- A page before the first raises.
no_page :
    audit_log backwards (record { page = pos 0; per_page = pos 1; action = []; user_id = 0 }) log
    ≡ none
unfolding audit_log text_eq
no_page = refl

count_if-backwards :
    (p : AuditLog → Bool) (es : List AuditLog) → count_if p (backwards es) ≡ count_if p es
count_if-backwards p [] = refl
count_if-backwards p (e ∷ es) =
    ground (arith, count_if-append p (backwards es) (e ∷ []), count_if-backwards p es)

-- The rows of the second query stand in the other order, where the times are equal.
abbrev orders : ℕ → List AuditLog → List AuditLog
orders zero es = sort (newer time_of) es
orders (suc i) es = sort (newer time_of) (backwards es)

orders-IsOrder : (i : ℕ) → IsOrder (orders i)
orders-IsOrder zero = record { same = count-sort (newer time_of); by_time = newer-Ordered time_of }
orders-IsOrder (suc i) = record {
  same = λ p es. count-sort (newer time_of) p (backwards es) ∙ count_if-backwards p es;
  by_time = λ es. newer-Ordered time_of (backwards es);
}

abbrev ties : List AuditLog
ties = entry 1 (text "create") 5 ∷ entry 2 (text "login") 5 ∷ []

-- An entry on both pages of one entry, and one on neither.
repeated :
    first_pages orders 2 1 [] 0 ties
    ≡ some (entry 1 (text "create") 5 ∷ entry 1 (text "create") 5 ∷ [])
unfolding audit_log sort insert_row text_eq
repeated = refl

first_pages-times_example :
    (all : List AuditLog) × (first_pages orders 2 1 [] 0 ties ≡ some all)
    × (map time_of all ≡ take 2 (map time_of (sort (newer time_of) (keep_if (selects [] 0) ties))))
first_pages-times_example = first_pages-times orders 2 1 [] 0 ties orders-IsOrder
