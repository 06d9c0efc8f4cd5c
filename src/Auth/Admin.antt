-- ===== src/Auth/Admin.antt =====
-- What an admin does to users, and the pages of the audit log (app/api/admin.py). The order of a
-- query's rows is the database's: entries of one time may stand in another order in each query.
pub mod Deletion
pub mod Pages
mod Tests
use frass_f.Base.{
  ℕ, zero, suc, ◌+◌, ◌*◌, Bool, true, false, not, ◌&&◌, ◌||◌, Option, none, some, List, [], ◌∷◌,
  map, Text, text, text_eq, is_empty, any, length, take, drop, keep_if, Table, lookup, insert,
  erase, values, ◌==◌, if◌then◌else◌,
}
use frass_f.Base.Int.{ℤ, pos, negsuc}
use frass_f.Attendance.State.{AttendanceSession}
use frass_f.Auth.Account.{User, AuditLog, Accounts}

pub data Answer : Type 0 where
  user_not_found own_account related_records deleted server_error : Answer
  updated : User → Answer

-- The keys of the body that are there: the role, the truth of `is_active`, the address or null.
pub record Changes : Type 0 where
  pub role : Option Text
  pub is_active : Option Bool
  pub email : Option (Option Text)

abbrev pub is_role : Text → Bool
is_role t = text_eq t (text "admin") || text_eq t (text "teacher") || text_eq t (text "student")

abbrev pub or_old {ℓ} : {A : Type ℓ} → Option A → A → A
or_old none a = a
or_old (some b) a = b

abbrev pub with_role : Option Text → Text → Text
with_role none old = old
with_role (some t) old = if is_role t then t else old

abbrev pub changed : Changes → User → User
changed c u = record u {
  role = with_role c.role u.role;
  is_active = or_old c.is_active u.is_active;
  email = or_old c.email u.email;
}

-- The unique constraint on addresses, which NULL never violates.
abbrev pub has_email : Text → Option Text → Bool
has_email t none = false
has_email t (some e) = text_eq e t

abbrev pub email_taken : ℕ → Option Text → Table User → Bool
email_taken i none t = false
email_taken i (some e) [] = false
email_taken i (some e) ((j, u) ∷ t) =
    (not (j == i) && has_email e u.email) || email_taken i (some e) t

abbrev pub update_found :
    {W : Type 0} → Option User → ℕ → Changes → Accounts W → Answer × Accounts W
update_found none i c s = (user_not_found, s)
update_found (some u) i c s =
    if email_taken i (changed c u).email s.users
    then (server_error, s)
    else (updated (changed c u), record s { users = insert i (changed c u) s.users })

-- `update_user`
unfoldable pub update_user : {W : Type 0} → ℕ → Changes → Accounts W → Answer × Accounts W
unfolding lookup insert text_eq
update_user i c s = update_found (lookup i s.users) i c s

-- The tables with rows of a user.
pub record Records (W : Type 0) : Type 0 where
  pub accounts : Accounts W
  pub sessions : Table AttendanceSession

abbrev pub is_started_by : ℕ → AttendanceSession → Bool
is_started_by i x = x.started_by == i

abbrev pub without_author : ℕ → Option ℕ → Option ℕ
without_author i none = none
without_author i (some j) = if j == i then none else some j

-- The relationship `audit_logs`: the entries of a user that is deleted have none.
abbrev pub forget : ℕ → AuditLog → AuditLog
forget i a = record a { user_id = without_author i a.user_id }

-- The relationship `sessions_started` would set `started_by` to NULL too, which the column forbids.
abbrev pub delete_found : {W : Type 0} → Option User → ℕ → Records W → Answer × Records W
delete_found none i s = (user_not_found, s)
delete_found (some u) i s =
    if any (is_started_by i) (values s.sessions) then (related_records, s) else (
      deleted,
      record s {
        accounts = record s.accounts {
          users = erase i s.accounts.users;
          audit = map (forget i) s.accounts.audit;
        };
      },
    )

-- `delete_user`, of the user `i`, by the user `identity`
unfoldable pub delete_user : {W : Type 0} → ℕ → ℕ → Records W → Answer × Records W
unfolding lookup erase
delete_user identity i s =
    if i == identity then (own_account, s) else delete_found (lookup i s.accounts.users) i s

-- The arguments of `audit_log`; an action that is empty and a user 0 are as none.
pub record AuditQuery : Type 0 where
  pub page : ℤ
  pub per_page : ℤ
  pub action : Text
  pub user_id : ℕ

pub record AuditPage : Type 0 where
  pub total : ℕ
  pub page : ℤ
  pub per_page : ℤ
  pub entries : List AuditLog

abbrev pub is_author : ℕ → Option ℕ → Bool
is_author i none = false
is_author i (some j) = j == i

abbrev pub selects : Text → ℕ → AuditLog → Bool
selects action user_id a =
    (is_empty action || text_eq a.action action) && (user_id == 0 || is_author user_id a.user_id)

-- `(page - 1) * per_page`; `none` is a negative number.
abbrev pub offset : ℤ → ℕ → Option ℕ
offset (pos zero) n = if n == 0 then some 0 else none
offset (pos (suc p)) n = some (p * n)
offset (negsuc p) n = if n == 0 then some 0 else none

abbrev pub slice : Option ℕ → ℕ → List AuditLog → Option (List AuditLog)
slice none n logs = none
slice (some k) n logs = some (take n (drop k logs))

-- `offset(…).limit(…)`; PostgreSQL raises where one is negative.
abbrev pub entries_of : ℤ → ℤ → List AuditLog → Option (List AuditLog)
entries_of page (pos n) logs = slice (offset page n) n logs
entries_of page (negsuc n) logs = none

abbrev pub page_with : AuditQuery → ℕ → Option (List AuditLog) → Option AuditPage
page_with q total none = none
page_with q total (some es) =
    some (record { total = total; page = q.page; per_page = q.per_page; entries = es })

-- `audit_log`; `none`: it raises. `ordered` is the database's order by `created_at`, in this query.
unfoldable pub audit_log :
    (List AuditLog → List AuditLog) → AuditQuery → List AuditLog → Option AuditPage
unfolding text_eq
audit_log ordered q logs =
    let chosen = keep_if (selects q.action q.user_id) logs in
    page_with q (length chosen) (entries_of q.page q.per_page (ordered chosen))
