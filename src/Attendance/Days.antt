-- ===== src/Attendance/Days.antt =====
-- The counters of AttendanceService (apps/api/src/modules/attendance/attendance.service.ts) count: an
-- independent description of what they give.
use edu_lanka.Prelude.{
  ℕ, ◌+◌, String, ◌≡◌, sym, inl, inr, Bool, true, false, ◌&&◌, Option, none, some, List, [], ◌∷◌,
  length, select, Bool-cases, str_eq, str_eq_iff, if◌then◌else◌, arith,
}
use edu_lanka.JsMap.{JsMap, get, set, get-set, get-nil}
use edu_lanka.Http.{Result, ok, err}
use edu_lanka.Http.Pure.{◌>>=◌}
use edu_lanka.Postgrest.{found}
use edu_lanka.User.{JwtPayload}
use edu_lanka.Attendance.{
  Assignments, assert_class_access, get_class_attendance_stats, no_counts, Status, present, absent,
  late, excused, Attendance, Counts, counted, same_status, day_of, by_day,
}

-- The counter of a status, or of none.
abbrev pub amount : Option Status → Counts → ℕ
amount none c = c.unmarked
amount (some present) c = c.present
amount (some absent) c = c.absent
amount (some late) c = c.late
amount (some excused) c = c.excused

pub amount-counted :
    (o p : Option Status) (c : Counts)
    → amount o (counted p c) ≡ amount o c + (if same_status o p then 1 else 0)
amount-counted none none c = omega arith
amount-counted none (some present) c = omega arith
amount-counted none (some absent) c = omega arith
amount-counted none (some late) c = omega arith
amount-counted none (some excused) c = omega arith
amount-counted (some present) none c = omega arith
amount-counted (some present) (some present) c = omega arith
amount-counted (some present) (some absent) c = omega arith
amount-counted (some present) (some late) c = omega arith
amount-counted (some present) (some excused) c = omega arith
amount-counted (some absent) none c = omega arith
amount-counted (some absent) (some present) c = omega arith
amount-counted (some absent) (some absent) c = omega arith
amount-counted (some absent) (some late) c = omega arith
amount-counted (some absent) (some excused) c = omega arith
amount-counted (some late) none c = omega arith
amount-counted (some late) (some present) c = omega arith
amount-counted (some late) (some absent) c = omega arith
amount-counted (some late) (some late) c = omega arith
amount-counted (some late) (some excused) c = omega arith
amount-counted (some excused) none c = omega arith
amount-counted (some excused) (some present) c = omega arith
amount-counted (some excused) (some absent) c = omega arith
amount-counted (some excused) (some late) c = omega arith
amount-counted (some excused) (some excused) c = omega arith

-- The rows of a date with a status.
abbrev pub of_day : String → Status → Attendance → Bool
of_day d s r = str_eq r.date d && same_status (some s) (some r.status)

pub length-if :
    {A : Type 0} (b : Bool) (x : A) (xs : List A)
    → length (if b then x ∷ xs else xs) ≡ (if b then 1 else 0) + length xs
length-if true x xs = omega arith
length-if false x xs = omega arith

-- One more row of a day.
set-amount :
    (d k : String) (s p : Status) (m : JsMap Counts)
    → amount (some s) (day_of (get d (set k (counted (some p) (day_of (get k m))) m)))
      ≡ amount (some s) (day_of (get d m))
        + (if str_eq k d && same_status (some s) (some p) then 1 else 0)
set-amount d k s p m = rw get-set (elim (Bool-cases (str_eq k d)) [
  | inl e ↦
      let same : k ≡ d = (str_eq_iff k d).0 e in
      rw (e, same) (amount-counted (some s) (some p) (day_of (get d m)))
  | inr e ↦ rw e (
      let unchanged : amount (some s) (day_of (get d m)) ≡ amount (some s) (day_of (get d m)) + 0 =
        omega arith in
      unchanged)
])

by_day-amount :
    (d : String) (s : Status) (m : JsMap Counts) (rows : List Attendance)
    → amount (some s) (day_of (get d (by_day m rows)))
      ≡ amount (some s) (day_of (get d m)) + length (select (of_day d s) rows)
by_day-amount d s m [] = omega arith
by_day-amount d s m (r ∷ rs) =
    let m' = set r.date (counted (some r.status) (day_of (get r.date m))) m in
    let rest = by_day-amount d s m' rs in
    let one = set-amount d r.date s r.status m in
    let first = length-if (of_day d s r) r (select (of_day d s) rs) in
    rw (rest, one, first) (omega arith)

-- The class statistics for a date, where a date without an entry counts as zeros, are for each status
-- the number of the rows found with that date and status.
pub get_class_attendance_stats-counts :
    (A : Assignments) (caller : JwtPayload) (class : String) (rows : List Attendance)
    (days : JsMap Counts)
    → get_class_attendance_stats A caller class (found rows) ≡ ok days
    → (d : String) (s : Status)
    → amount (some s) (day_of (get d days)) ≡ length (select (of_day d s) rows)
unfolding get_class_attendance_stats
get_class_attendance_stats-counts A caller class rows days h d s =
    let same = passed-ok (assert_class_access A caller class) (by_day [] rows) days h in
    rw (sym same, by_day-amount d s [] rows, get-nil) (nothing s)
  where
    passed-ok : (x : Result (Unit {0})) (a b : JsMap Counts) → (x >>= λ u. ok a) ≡ ok b → a ≡ b
    passed-ok (ok u) a b h = cc
    passed-ok (err e) a b h = absurd (let bad : err e ≡ ok b = h in cc)

    nothing :
        (s : Status)
        → amount (some s) no_counts + length (select (of_day d s) rows)
          ≡ length (select (of_day d s) rows)
    nothing present = omega arith
    nothing absent = omega arith
    nothing late = omega arith
    nothing excused = omega arith
