-- ===== src/Backend/Users/Queries.antt =====
-- What `get_attendance` answers (backend/app.py): the newest of the logs that are asked for.
use frass_f.Base.{
  ◌+◌, ◌≡◌, Bool, true, List, length, take, drop, count_if, min, length-take, take-append-drop,
  count_if-append, length-drop, ◌&&◌, ap, sym, ◌∙◌, arith, All, keep_if,
}
use frass_f.Base.Sorted.{
  sort, newer, Ordered, sort-All, newer-Ordered, count-sort, count-keep, keep-All, front,
  front-Ordered, between,
}
use frass_f.Backend.State.{AttendanceLog}
use frass_f.Backend.Users.{Query, selects, time_of, get_attendance}

-- The answer has at most 500 logs, all of which the query selects, from the newest to the oldest.
-- With some rest, of which no log is newer than one of the answer, it has exactly the selected logs of
-- the table, each as often; and there is a rest only behind 500 logs.
pub get_attendance-newest :
    (q : Query) (logs : List AttendanceLog)
    → Ordered (newer time_of) (get_attendance q logs)
      × All (λ l. selects q l ≡ true) (get_attendance q logs)
      × ((rest : List AttendanceLog) × (length (get_attendance q logs)
            ≡ min 500 (length (get_attendance q logs) + length rest))
          × All (λ l. All (λ m. newer time_of l m ≡ true) rest) (get_attendance q logs)
          × ((p : AttendanceLog → Bool)
              → count_if p (get_attendance q logs) + count_if p rest
                ≡ count_if (λ l. selects q l && p l) logs))
unfolding get_attendance
get_attendance-newest q logs =
    let all = sort (newer time_of) (keep_if (selects q) logs) in
    (
      front-Ordered (newer time_of) 500 all (newer-Ordered time_of (keep_if (selects q) logs)),
      front (newer time_of) 500 (λ l. selects q l ≡ true) all
          (sort-All (newer time_of) (λ l. selects q l ≡ true) (keep_if (selects q) logs)
            (keep-All (newer time_of) (selects q) logs)),
      (
        drop 500 all,
        omega (arith, length-take 500 all, length-drop 500 all),
        between (newer time_of) 500 all (newer-Ordered time_of (keep_if (selects q) logs)),
        λ p.
            sym (count_if-append p (take 500 all) (drop 500 all))
            ∙ ap (count_if p) (take-append-drop 500 all)
            ∙ count-sort (newer time_of) p (keep_if (selects q) logs)
            ∙ count-keep (newer time_of) (selects q) p logs,
      ),
    )
