-- ===== src/Students/Counted.antt =====
-- What the requests keep of students and their faces (app/api/students.py).
use mathlib.Core.Path.{subst}
use frass_f.Base.{
  Bool, count_if-none, ℕ, ◌+◌, ◌≤◌, ◌≡◌, ap, inl, inr, Bool, false, Option, none, some, List, [],
  ◌∷◌, Text, text_eq, text_eq_sound, is_empty, any, arith, count_if, count_if-append, ◌==◌, Table,
  values, values-insert, lookup, lookup-insert, lookup-erase, lookup-next_id, insert, erase,
  next_id, count_if-insert, count_if-erase_where, count_if-erase_where_other, Bool-cases,
}
use frass_f.Attendance.State.{Student}
use frass_f.Students.{
  Enrolment, NewStudent, has_sid, new_student, create_named, is_encoding_of, delete_found,
}

abbrev pub photo_count_of : Option Student → ℕ
photo_count_of none = 0
photo_count_of (some x) = x.photo_count

-- The student of every id has as many encodings as its count of photos says, and an id without a
-- student none.
abbrev pub Counted : {B E : Type 0} → Enrolment B E → Type 0
Counted s =
    (i : ℕ)
    → count_if (is_encoding_of i) (values s.encodings) ≡ photo_count_of (lookup i s.students)

-- No two students have one number.
abbrev pub Numbered : {B E : Type 0} → Enrolment B E → Type 0
Numbered s = (sid : Text) → count_if (has_sid sid) (values s.students) ≤ 1

fewer :
    (p : Student → Bool) (i : ℕ) (t : Table Student)
    → count_if p (values (erase i t)) ≤ count_if p (values t)
unfolding erase
fewer p i [] = omega arith
fewer p i ((j, w) ∷ t) = ground (arith, fewer p i t)

module _ {B E : Type 0} where
  unfoldable pub Sound : Enrolment B E → Type 0
  Sound s = Counted s × Numbered s

  -- A student rewritten with the same number and count.
  pub replace-Sound :
      (i : ℕ) (x y : Student) (s : Enrolment B E)
      → lookup i s.students ≡ some x
      → y.student_id ≡ x.student_id
      → y.photo_count ≡ x.photo_count
      → Sound s
      → Sound (record s { students = insert i y s.students })
  unfolding Sound
  replace-Sound i x y s l n p (counted, numbered) = (
    λ j.
        let put = lookup-insert i j y s.students in
        let before = counted j in
        elim (Bool-cases (i == j)) [
          | inl e ↦ let same : i ≡ j = ground arith in ground arith
          | inr e ↦ ground arith
        ],
    λ sid.
        rw (count_if-insert (has_sid sid) i x y s.students l (ap (λ t. text_eq t sid) n))
          (numbered sid),
  )

  pub create-Sound :
      (o : Option Text) (name : Text) (n : NewStudent) (by now : ℕ) (ip : Text) (s : Enrolment B E)
      → Sound s
      → Sound (create_named o name n by ip now s).1
  unfolding Sound create_named
  create-Sound none name n by now ip s h = h
  create-Sound (some sid) name n by now ip s (counted, numbered) =
      elim (Bool-cases (is_empty name)) [
        | inl e ↦ rw e (counted, numbered)
        | inr e ↦ elim (Bool-cases (any (has_sid sid) (values s.students))) [
          | inl t ↦ rw (e, t) (counted, numbered)
          | inr t ↦
              let k : ℕ = next_id s.students in
              let x : Student = new_student sid name n in
              rw (e, t)
                (
                  λ j.
                      let put = lookup-insert k j x s.students in
                      let fresh = lookup-next_id k s.students (omega arith) in
                      let before = counted j in
                      elim (Bool-cases (k == j)) [
                        | inl e ↦ let same : k ≡ j = ground arith in ground arith
                        | inr e ↦ ground arith
                      ],
                  λ other.
                      rw
                        (
                          values-insert k x s.students (omega arith),
                          count_if-append (has_sid other) (values s.students) (x ∷ []),
                        )
                        (numbered_more sid other x (values s.students) t (numbered other)),
                )
        ]
      ]
    where
      numbered_more :
          (sid other : Text) (x : Student) (xs : List Student)
          → any (has_sid sid) xs ≡ false
          → count_if (has_sid other) xs ≤ 1
          → count_if (has_sid other) xs + count_if (has_sid other) (new_student sid name n ∷ []) ≤ 1
      numbered_more sid other x xs t one = elim (Bool-cases (text_eq sid other)) [
        | inl e ↦
            let same : sid ≡ other = text_eq_sound sid other e in
            let absent =
              count_if-none (has_sid other) xs (subst (λ n. any (has_sid n) xs ≡ false) same t) in
            ground arith
        | inr e ↦ ground arith
      ]

  pub delete-Sound :
      (o : Option Student) (stuck : Text × ℕ → Bool) (i by now : ℕ) (ip : Text) (s : Enrolment B E)
      → Sound s
      → Sound (delete_found o stuck i by ip now s).1
  unfolding Sound delete_found
  delete-Sound none stuck i by now ip s h = h
  delete-Sound (some x) stuck i by now ip s (counted, numbered) = (
    λ j.
        let gone = lookup-erase i j s.students in
        let before = counted j in
        elim (Bool-cases (i == j)) [
          | inl e ↦
              let same : i ≡ j = ground arith in
              let none_left = count_if-erase_where (is_encoding_of i) s.encodings in ground arith
          | inr e ↦
              let others =
                count_if-erase_where_other (is_encoding_of i) (is_encoding_of j) s.encodings
                  (λ v q. ground arith) in
              ground arith
        ],
    λ sid. let less = fewer (has_sid sid) i s.students in let before = numbered sid in omega arith,
  )
