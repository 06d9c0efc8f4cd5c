-- ===== src/Auth/Admin/Deletion.antt =====
-- What the deletion of a user leaves (app/api/admin.py, app/models/audit.py).
use mathlib.Core.Path.{subst}
use frass_f.Base.{
  if◌then◌else◌, Text, ◌∙◌, ℕ, ◌≡◌, ◌≢◌, refl, sym, ap, ◌∙◌, false, Option, none, some, List, [],
  ◌∷◌, map, any, lookup, erase, lookup-erase, values, ◌==◌, arith, Bool-cases, inl, inr,
}
use frass_f.Auth.Account.{User, AuditLog}
use frass_f.Auth.Admin.{
  Answer, deleted, Records, is_started_by, is_author, forget, without_author, delete_found,
  delete_user,
}

forget_author : (i : ℕ) (o : Option ℕ) → is_author i (without_author i o) ≡ false
forget_author i none = refl
forget_author i (some j) = ground arith

forget-any :
    (i : ℕ) (rest : List AuditLog) → any (λ a. is_author i a.user_id) (map (forget i) rest) ≡ false
forget-any i [] = refl
forget-any i (a ∷ rest) = rw (forget_author i a.user_id) (forget-any i rest)

-- What an entry says beside its author.
abbrev pub content : AuditLog → Text × Text × Option ℕ × Option Text × Text × ℕ
content a = (a.action, a.entity_type, a.entity_id, a.details, a.ip_address, a.created_at)

forget-content :
    (i : ℕ) (rest : List AuditLog) → map content (map (forget i) rest) ≡ map content rest
forget-content i [] = refl
forget-content i (a ∷ rest) =
    ap (λ (xs : List (Text × Text × Option ℕ × Option Text × Text × ℕ)). content a ∷ xs)
      (forget-content i rest)

-- The author of an entry, unless it is the user.
abbrev pub other_author : ℕ → AuditLog → Option ℕ
other_author i a = if is_author i a.user_id then none else a.user_id

without-other : (i : ℕ) (o : Option ℕ) → without_author i o ≡ (if is_author i o then none else o)
without-other i none = refl
without-other i (some j) = refl

forget-authors :
    (i : ℕ) (rest : List AuditLog)
    → map (λ a. a.user_id) (map (forget i) rest) ≡ map (other_author i) rest
forget-authors i [] = refl
forget-authors i (a ∷ rest) =
    ap (λ (o : Option ℕ). o ∷ map (λ b. b.user_id) (map (forget i) rest))
      (without-other i a.user_id)
    ∙ ap (λ (os : List (Option ℕ)). other_author i a ∷ os) (forget-authors i rest)

-- What is left of `s` in `s'` once the user is deleted.
pub record Leaves {W : Type 0} (identity i : ℕ) (s s' : Records W) : Type 0 where
  pub another : i ≢ identity
  pub gone : lookup i s'.accounts.users ≡ none
  pub others : (j : ℕ) → (i == j) ≡ false → lookup j s'.accounts.users ≡ lookup j s.accounts.users
  pub no_session : any (is_started_by i) (values s'.sessions) ≡ false
  pub same_sessions : s'.sessions ≡ s.sessions
  pub no_author : any (λ a. is_author i a.user_id) s'.accounts.audit ≡ false
  pub same_content : map content s'.accounts.audit ≡ map content s.accounts.audit
  pub authors : map (λ a. a.user_id) s'.accounts.audit ≡ map (other_author i) s.accounts.audit

-- A user that is deleted is not the one who asks, had started no session, and is gone; every other
-- account and every session is left as it was. The audit log keeps all its entries in their order,
-- with their contents and their authors, but for that user, whom none names any more.
pub delete_user-Leaves :
    {W : Type 0} (identity i : ℕ) (s s' : Records W)
    → delete_user identity i s ≡ (deleted, s')
    → Leaves identity i s s'
unfolding delete_user
delete_user-Leaves {W} identity i s s' h = elim (Bool-cases (i == identity)) [
  | inl e ↦ absurd (ground arith)
  | inr e ↦ found (lookup i s.accounts.users) e (sym (rw e refl) ∙ h)
]
  where
    after : Records W
    after = record s {
      accounts = record s.accounts {
        users = erase i s.accounts.users;
        audit = map (forget i) s.accounts.audit;
      };
    }

    leaves :
        (i == identity) ≡ false
        → any (is_started_by i) (values s.sessions) ≡ false
        → Leaves identity i s after
    leaves e f = record {
      another = λ same. absurd (ground arith);
      gone = rw (lookup-erase i i s.accounts.users) (ground arith);
      others = λ j d. rw (lookup-erase i j s.accounts.users) (rw d refl);
      no_session = f;
      same_sessions = refl;
      no_author = forget-any i s.accounts.audit;
      same_content = forget-content i s.accounts.audit;
      authors = forget-authors i s.accounts.audit;
    }

    found :
        (o : Option User)
        → (i == identity) ≡ false
        → delete_found o i s ≡ (deleted, s')
        → Leaves identity i s s'
    found none e k = absurd (ground arith)
    found (some u) e k = elim (Bool-cases (any (is_started_by i) (values s.sessions))) [
      | inl f ↦ absurd (ground arith)
      | inr f ↦
          let done : delete_found (some u) i s ≡ (deleted, after) = rw f refl in
          subst (Leaves identity i s) (ap (λ (x : Answer × Records W). x.1) (sym done ∙ k))
            (leaves e f)
    ]
