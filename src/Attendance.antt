-- ===== src/Attendance.antt =====
-- `AttendanceService` (apps/api/src/modules/attendance/attendance.service.ts): who may see a class, the
-- roster of a class with its counters, the statistics by day, and a student's record. The replies to
-- the queries are arguments.
pub mod Student
pub mod Recording
pub mod Days
pub mod Roster
mod Tests
use edu_lanka.Prelude.{
  ℕ, zero, suc, ◌+◌, ◌*◌, ◌/◌, String, Bool, true, false, not, ◌&&◌, ◌||◌, Option, none, some, List,
  [], ◌∷◌, map, length, select, any, ◌==◌, str_eq, if◌then◌else◌, ltb,
}
use edu_lanka.JsMap.{JsMap, get, set}
use edu_lanka.Http.{Result, ok, err, HttpError}
use edu_lanka.Http.Pure.{◌>>=◌}
use edu_lanka.Postgrest.{Reply, found, failed}
use edu_lanka.User.{JwtPayload, UserRole}
use edu_lanka.Uuid.{is_uuid}

pub data Status : Type 0 where
  present absent late excused : Status

-- A row of `attendance`.
pub record Attendance : Type 0 where
  pub student_id : String
  pub date : String
  pub period : ℕ
  pub status : Status
  pub marked_at : ℕ

-- The row of `teachers` of a user, by its id, and the classes of a teacher. An empty class id stands
-- for a missing one.
pub record Assignments : Type 0 where
  pub teacher_of : Reply (Option String)
  pub classes_of : String → Reply (List String)

-- `data ?? []`.
abbrev pub or_empty {ℓ} : {A : Type ℓ} → Reply (List A) → List A
or_empty failed = []
or_empty (found xs) = xs

abbrev pub given : String → Bool
given s = not (str_eq s "")

abbrev classes_of_teacher : Assignments → Reply (Option String) → List String
classes_of_teacher A (found (some t)) =
    if given t then select given (or_empty (A.classes_of t)) else []
classes_of_teacher A _ = []

unfoldable pub get_teacher_class_ids : Assignments → List String
get_teacher_class_ids A = classes_of_teacher A A.teacher_of

abbrev pub require : Bool → HttpError → Result (Unit {0})
require true e = ok tt
require false e = err e

abbrev assert_role : Assignments → String → UserRole → Result (Unit {0})
assert_role A class UserRole.super_admin = ok tt
assert_role A class UserRole.school_admin = ok tt
assert_role A class UserRole.teacher =
    require (any (str_eq class) (get_teacher_class_ids A)) HttpError.forbidden
assert_role A class _ = err HttpError.forbidden

unfoldable pub assert_class_access : Assignments → JwtPayload → String → Result (Unit {0})
assert_class_access A caller class =
    require (is_uuid caller.tenant_id && is_uuid caller.sub && is_uuid class) HttpError.bad_request
    >>= λ x. assert_role A class caller.role

pub record Counts : Type 0 where
  pub present : ℕ
  pub absent : ℕ
  pub late : ℕ
  pub excused : ℕ
  pub unmarked : ℕ

abbrev pub no_counts : Counts
no_counts = record { present = 0; absent = 0; late = 0; excused = 0; unmarked = 0 }

-- The chain of increments.
abbrev pub counted : Option Status → Counts → Counts
counted (some present) c = record c { present = c.present + 1 }
counted (some absent) c = record c { absent = c.absent + 1 }
counted (some late) c = record c { late = c.late + 1 }
counted (some excused) c = record c { excused = c.excused + 1 }
counted none c = record c { unmarked = c.unmarked + 1 }

-- `new Map(rows.map(r => [r.student_id, r]))`: a later row replaces an earlier one.
abbrev pub by_student : JsMap Attendance → List Attendance → JsMap Attendance
by_student m [] = m
by_student m (r ∷ rs) = by_student (set r.student_id r m) rs

abbrev pub status_of : Option Attendance → Option Status
status_of none = none
status_of (some r) = some r.status

-- The line of a student in the roster, by the user's id.
pub record RosterLine : Type 0 where
  pub student_id : String
  pub status : Option Status

abbrev pub roster_line : JsMap Attendance → String → RosterLine
roster_line m user = record { student_id = user; status = status_of (get user m) }

-- The counters while the roster is built.
abbrev pub tally : Counts → List RosterLine → Counts
tally c [] = c
tally c (l ∷ ls) = tally (counted l.status c) ls

-- `Math.round((a / n) * 100)`, of the exact fraction.
abbrev pub rounded_percent : ℕ → ℕ → ℕ
rounded_percent a n = (200 * a + n) / (2 * n)

pub record RosterSummary : Type 0 where
  pub total_students : ℕ
  pub total_marked : ℕ
  pub counts : Counts
  pub attendance_rate : ℕ

abbrev pub summary_of : ℕ → Counts → RosterSummary
summary_of total c =
    let marked = c.present + c.absent + c.late + c.excused in
    record {
      total_students = total;
      total_marked = marked;
      counts = c;
      attendance_rate = if ltb 0 marked then rounded_percent (c.present + c.late) total else 0;
    }

pub record Roll : Type 0 where
  pub summary : RosterSummary
  pub students : List RosterLine

abbrev pub or_error {ℓ} : {A : Type ℓ} → HttpError → Reply A → Result A
or_error e failed = err e
or_error e (found a) = ok a

abbrev pub class_found : Reply (Option String) → Result (Unit {0})
class_found (found (some c)) = ok tt
class_found _ = err HttpError.not_found

unfoldable pub roll_of : List String → List Attendance → Roll
roll_of students rows =
    let roster = map (roster_line (by_student [] rows)) students in
    record { summary = summary_of (length roster) (tally no_counts roster); students = roster }

-- The replies of `classes`, of the active `students` by their users' ids, and of `attendance`.
unfoldable pub get_attendance :
    Assignments
    → JwtPayload
    → String
    → Reply (Option String)
    → Reply (List String)
    → Reply (List Attendance)
    → Result Roll
unfolding assert_class_access
get_attendance A caller class class_reply students rows =
    assert_class_access A caller class >>= λ x. class_found class_reply >>= λ y.
    or_error HttpError.internal_error students >>= λ enrolled.
    or_error HttpError.internal_error rows >>= λ recorded. ok (roll_of enrolled recorded)

-- The statistics of one day after one more row.
abbrev pub day_of : Option Counts → Counts
day_of none = no_counts
day_of (some c) = c

abbrev pub by_day : JsMap Counts → List Attendance → JsMap Counts
by_day m [] = m
by_day m (r ∷ rs) = by_day (set r.date (counted (some r.status) (day_of (get r.date m))) m) rs

-- The entries of the map; the total of a day is the sum of its four counters.
unfoldable pub get_class_attendance_stats :
    Assignments → JwtPayload → String → Reply (List Attendance) → Result (JsMap Counts)
unfolding assert_class_access
get_class_attendance_stats A caller class rows = assert_class_access A caller class >>= λ x.
    or_error HttpError.internal_error rows >>= λ recorded. ok (by_day [] recorded)

abbrev status_index : Option Status → ℕ
status_index none = 0
status_index (some present) = 1
status_index (some absent) = 2
status_index (some late) = 3
status_index (some excused) = 4

-- `===` on statuses.
abbrev pub same_status : Option Status → Option Status → Bool
same_status a b = status_index a == status_index b
