-- ===== src/Schedules/Timely.antt =====
-- What the requests keep of the schedules (app/api/schedules.py), for `_compute_status` to read.
use frass_f.Base.{
  ℕ, ◌≤◌, ◌≡◌, refl, true, false, ◌||◌, Option, none, some, List, [], ◌∷◌, Text, arith, strip,
  is_empty, All, All-insert, All-erase, All-lookup, values, lookup, next_id, Bool-cases, inl, inr,
}
use frass_f.Base.Int.{ℤ, pos, negsuc}
use frass_f.Attendance.State.{Schedule, School}
use frass_f.Attendance.Status.{validate_time}
use frass_f.Schedules.{
  NewSchedule, Changes, clamp_threshold, new_schedule, create_schedule, changed, bad_time, or_keep,
  threshold_or, update_found, update_schedule, delete_found, delete_schedule,
}

-- Both times pass the pattern, and neither margin is above eight hours.
abbrev pub Timely : Schedule → Type 0
Timely x =
    (validate_time x.start_time ≡ true)
    × (validate_time x.end_time ≡ true)
    × (x.late_threshold ≤ 480)
    × (x.grace_period ≤ 480)

clamp_bound : (v : Option ℤ) → clamp_threshold v ≤ 480
unfolding clamp_threshold
clamp_bound none = omega arith
clamp_bound (some (pos n)) = omega arith
clamp_bound (some (negsuc n)) = omega arith

threshold_bound : (v : Option (Option ℤ)) (n : ℕ) → n ≤ 480 → threshold_or v n ≤ 480
unfolding threshold_or
threshold_bound none n h = h
threshold_bound (some v) n h = clamp_bound v

kept_time :
    (o : Option Text) (t : Text)
    → bad_time o ≡ false
    → validate_time t ≡ true
    → validate_time (or_keep o t) ≡ true
unfolding bad_time
kept_time none t h v = v
kept_time (some u) t h v = ground arith

abbrev pub AllTimely : School → Type 0
AllTimely s = All Timely (values s.schedules)

create_timely :
    (n : Option NewSchedule) (s : School) → AllTimely s → AllTimely (create_schedule n s).1
unfolding create_schedule new_schedule
create_timely none s a = a
create_timely (some n) s a =
    elim (Bool-cases (is_empty (strip n.name) || is_empty n.start_time || is_empty n.end_time)) [
      | inl e ↦ rw e a
      | inr e ↦ elim (Bool-cases (validate_time n.start_time)) [
        | inr b ↦ rw (e, b) a
        | inl b ↦ elim (Bool-cases (validate_time n.end_time)) [
          | inr c ↦ rw (e, b, c) a
          | inl c ↦
              rw (e, b, c)
                (All-insert Timely (next_id s.schedules) (new_schedule n) s.schedules
                  (b, c, clamp_bound n.late_threshold, clamp_bound n.grace_period) a)
        ]
      ]
    ]

update_timely :
    (o : Option Schedule) (sid : ℕ) (c : Option Changes) (s : School)
    → lookup sid s.schedules ≡ o
    → AllTimely s
    → AllTimely (update_found o sid c s).1
unfolding update_found changed
update_timely none sid c s l a = a
update_timely (some x) sid none s l a = a
update_timely (some x) sid (some c) s l a = elim (Bool-cases (bad_time c.start_time)) [
  | inl e ↦ rw e a
  | inr e ↦ elim (Bool-cases (bad_time c.end_time)) [
    | inl b ↦ rw (e, b) a
    | inr b ↦
        let (p, q, late, grace) = All-lookup Timely sid x s.schedules l a in
        rw (e, b)
          (All-insert Timely sid (changed c x) s.schedules
            (
              kept_time c.start_time x.start_time e p,
              kept_time c.end_time x.end_time b q,
              threshold_bound c.late_threshold x.late_threshold late,
              threshold_bound c.grace_period x.grace_period grace,
            )
            a)
  ]
]

delete_timely :
    (o : Option Schedule) (sid : ℕ) (s : School) → AllTimely s → AllTimely (delete_found o sid s).1
unfolding delete_found
delete_timely none sid s a = a
delete_timely (some x) sid s a = All-erase Timely sid s.schedules a

pub data Request : Type 0 where
  create : Option NewSchedule → Request
  update : ℕ → Option Changes → Request
  delete : ℕ → Request

unfoldable pub handle : Request → School → School
unfolding create_schedule update_schedule delete_schedule
handle (create n) s = (create_schedule n s).1
handle (update sid c) s = (update_schedule sid c s).1
handle (delete sid) s = (delete_schedule sid s).1

unfoldable pub handle_all : List Request → School → School
unfolding handle
handle_all [] s = s
handle_all (r ∷ rs) s = handle_all rs (handle r s)

handle-Timely : (r : Request) (s : School) → AllTimely s → AllTimely (handle r s)
unfolding handle update_schedule delete_schedule
handle-Timely (create n) s a = create_timely n s a
handle-Timely (update sid c) s a = update_timely (lookup sid s.schedules) sid c s refl a
handle-Timely (delete sid) s a = delete_timely (lookup sid s.schedules) sid s a

-- After any requests to create, update and delete schedules, both times of every schedule pass
-- `_validate_time` and neither margin is above eight hours, where that held before.
pub handle_all-AllTimely :
    (rs : List Request) (s : School) → AllTimely s → AllTimely (handle_all rs s)
unfolding handle_all
handle_all-AllTimely [] s a = a
handle_all-AllTimely (r ∷ rs) s a = handle_all-AllTimely rs (handle r s) (handle-Timely r s a)
