-- ===== src/Attendance/Roster.antt =====
-- The summary of a class's roster (apps/api/src/modules/attendance/attendance.service.ts).
use native.Mathlib.Nat.{div-lt_iff_lt-mul}
use mathlib.Core.Path.{subst}
use edu_lanka.Prelude.{
  ℕ, ◌+◌, ◌*◌, ◌/◌, ◌≤◌, ◌<◌, String, ◌≡◌, inl, inr, Bool, Option, none, some, List, [], ◌∷◌, map,
  length, length-map, select, Bool-cases, ltb, arith,
}
use edu_lanka.Http.{Result, ok, err}
use edu_lanka.Http.Pure.{◌>>=◌}
use edu_lanka.Postgrest.{Reply, found}
use edu_lanka.User.{JwtPayload}
use edu_lanka.Attendance.{
  Status, present, absent, late, excused, Attendance, Assignments, assert_class_access, Counts,
  no_counts, counted, RosterLine, roster_line, by_student, tally, rounded_percent, summary_of, Roll,
  roll_of, class_found, get_attendance, same_status,
}
use edu_lanka.Attendance.Days.{amount, amount-counted, length-if}

abbrev has_status : Option Status → RosterLine → Bool
has_status o l = same_status o l.status

tally-amount :
    (o : Option Status) (c : Counts) (ls : List RosterLine)
    → amount o (tally c ls) ≡ amount o c + length (select (has_status o) ls)
tally-amount o c [] = omega arith
tally-amount o c (l ∷ ls) =
    let rest = tally-amount o (counted l.status c) ls in
    let one = amount-counted o l.status c in
    let first = length-if (has_status o l) l (select (has_status o) ls) in
    rw (rest, one, first) (omega arith)

abbrev pub total : Counts → ℕ
total c = c.present + c.absent + c.late + c.excused + c.unmarked

total-counted : (o : Option Status) (c : Counts) → total (counted o c) ≡ total c + 1
total-counted none c = omega arith
total-counted (some present) c = omega arith
total-counted (some absent) c = omega arith
total-counted (some late) c = omega arith
total-counted (some excused) c = omega arith

tally-total : (c : Counts) (ls : List RosterLine) → total (tally c ls) ≡ total c + length ls
tally-total c [] = omega arith
tally-total c (l ∷ ls) =
    let rest = tally-total (counted l.status c) ls in
    let one = total-counted l.status c in rw (rest, one) (omega arith)

-- A part is at most a hundred percent.
rounded_percent-le : (a n : ℕ) → a ≤ n → 0 < n → rounded_percent a n ≤ 100
rounded_percent-le a n l p =
    let below : (200 * a + n) / (2 * n) < 101 =
      (div-lt_iff_lt-mul (let positive : 0 < 2 * n = omega arith in positive)).1 (omega arith) in
    omega arith

-- What the counters and the rate of a roll say of its lines.
abbrev pub IsSummed : List String → Roll → Type 0
IsSummed students roll =
    ((o : Option Status)
      → amount o roll.summary.counts ≡ length (select (has_status o) roll.students))
    × (roll.summary.total_marked + roll.summary.counts.unmarked ≡ length students)
    × (length roll.students ≡ length students)
    × (roll.summary.attendance_rate ≤ 100)

rate-le : (c : Counts) (n : ℕ) → total c ≡ n → (summary_of n c).attendance_rate ≤ 100
rate-le c n e = elim (Bool-cases (ltb 0 (c.present + c.absent + c.late + c.excused))) [
  | inl k ↦ rw k (
      rounded_percent-le (c.present + c.late) n (omega arith)
        (let some_marked : 0 < n = ground arith in some_marked))
  | inr k ↦ rw k (omega arith)
]

roll_of-IsSummed :
    (students : List String) (rows : List Attendance) → IsSummed students (roll_of students rows)
unfolding roll_of
roll_of-IsSummed students rows =
    let m = by_student [] rows in
    let ls = map (roster_line m) students in
    let long : length ls ≡ length students = length-map (roster_line m) students in
    let whole = tally-total no_counts ls in
    (
      λ o. counted_lines o ls,
      omega (arith, whole, long),
      long,
      rate-le (tally no_counts ls) (length ls) (omega (arith, whole)),
    )
  where
    counted_lines :
        (o : Option Status) (ls : List RosterLine)
        → amount o (tally no_counts ls) ≡ length (select (has_status o) ls)
    counted_lines none ls = omega (arith, tally-amount none no_counts ls)
    counted_lines (some present) ls = omega (arith, tally-amount (some present) no_counts ls)
    counted_lines (some absent) ls = omega (arith, tally-amount (some absent) no_counts ls)
    counted_lines (some late) ls = omega (arith, tally-amount (some late) no_counts ls)
    counted_lines (some excused) ls = omega (arith, tally-amount (some excused) no_counts ls)

chain-ok : (x y : Result (Unit {0})) (a b : Roll) → (x >>= λ u. y >>= λ v. ok a) ≡ ok b → a ≡ b
chain-ok (ok u) (ok v) a b h = some_roll h
  where
    some_roll : {a b : Roll} → ok a ≡ ok b → a ≡ b
    some_roll h = cc
chain-ok (ok u) (err e) a b h = absurd (let bad : err e ≡ ok b = h in cc)
chain-ok (err e) y a b h = absurd (let bad : err e ≡ ok b = h in cc)

-- The roll that `getAttendance` gives for the students and the rows found has one line for each
-- student; each of its counters is the number of the lines with that status, or without one; the
-- marked and the unmarked lines are all, and the rate is at most 100.
pub get_attendance-IsSummed :
    (A : Assignments) (caller : JwtPayload) (class : String) (c : Reply (Option String))
    (students : List String) (rows : List Attendance) (roll : Roll)
    → get_attendance A caller class c (found students) (found rows) ≡ ok roll
    → IsSummed students roll
unfolding get_attendance
get_attendance-IsSummed A caller class c students rows roll h =
    subst (IsSummed students)
      (chain-ok (assert_class_access A caller class) (class_found c) (roll_of students rows) roll h)
      (roll_of-IsSummed students rows)
