-- ===== src/Attendance/Tests.antt =====
-- Roll calls and rosters of a class (apps/api/src/modules/attendance/attendance.service.ts).
use edu_lanka.Prelude.{
  ℕ, String, ◌≡◌, refl, true, false, Option, none, some, List, [], ◌∷◌, length, str_eq_refl, All,
  str_eq, if◌then◌else◌, ◌==◌, ◌&&◌, arith,
}
use edu_lanka.JsMap
use edu_lanka.JsMap.{JsMap, get}
use edu_lanka.Http.{ok}
use edu_lanka.Postgrest.{Reply, found, failed}
use edu_lanka.PostgrestMemory.{found-injective}
use edu_lanka.User.{JwtPayload, UserRole}
use edu_lanka.Uuid.{is_uuid}
use edu_lanka.Attendance.{
  Status, present, absent, late, Attendance, Assignments, get_teacher_class_ids,
  assert_class_access, Counts, day_of, by_day, Roll, roll_of, get_attendance,
  get_class_attendance_stats,
}
use edu_lanka.Attendance.Student.{student_summary}
use edu_lanka.Attendance.Days.{amount, get_class_attendance_stats-counts}
use edu_lanka.Attendance.Recording.{
  RecordAttendanceDto, Enrolled, RollTable, Rolls, record_attendance,
}
use edu_lanka.Attendance.Recording.Stored.{IsRecorded, record_attendance-stored}
use edu_lanka.Attendance.Roster.{IsSummed, get_attendance-IsSummed}

abbrev school_id : String
school_id = "aaaaaaaa-0000-4000-8000-000000000001"

abbrev class_id : String
class_id = "bbbbbbbb-0000-4000-8000-00000000000C"

abbrev teacher : JwtPayload
teacher = record {
  sub = "cccccccc-0000-4000-8000-000000000002";
  tenant_id = school_id;
  role = UserRole.teacher;
}

abbrev assignments : Assignments
assignments = record { teacher_of = found (some "t-1"); classes_of = λ t. found (class_id ∷ []) }

abbrev row : String → String → Status → Attendance
row student date status = record {
  student_id = student;
  date = date;
  period = 1;
  status = status;
  marked_at = 5;
}

abbrev rows : List Attendance
rows =
    row "u-1" "2026-05-04" present
    ∷ row "u-2" "2026-05-04" late
    ∷ row "u-1" "2026-05-05" absent
    ∷ []

short_uuid : is_uuid "aaaaaaaa-0000-4000-8000-00000000001" ≡ false
unfolding is_uuid
short_uuid = refl

abbrev days : JsMap Counts
days = by_day [] rows

get_class_attendance_stats-counts_example : amount (some late) (day_of (get "2026-05-04" days)) ≡ 1
unfolding get_class_attendance_stats assert_class_access is_uuid get_teacher_class_ids
get_class_attendance_stats-counts_example =
    get_class_attendance_stats-counts assignments teacher class_id rows days refl "2026-05-04" late

abbrev roll : Roll
roll =
    roll_of ("u-1" ∷ "u-2" ∷ "u-3" ∷ [])
      (row "u-1" "2026-05-04" present ∷ row "u-2" "2026-05-04" late ∷ [])

get_attendance-IsSummed_case : IsSummed ("u-1" ∷ "u-2" ∷ "u-3" ∷ []) roll
unfolding get_attendance assert_class_access is_uuid get_teacher_class_ids
get_attendance-IsSummed_case =
    get_attendance-IsSummed assignments teacher class_id (found (some "7-A"))
      ("u-1" ∷ "u-2" ∷ "u-3" ∷ [])
      (row "u-1" "2026-05-04" present ∷ row "u-2" "2026-05-04" late ∷ []) roll refl

two_of_three : roll.summary.attendance_rate ≡ 67
unfolding roll_of get JsMap.set
two_of_three = refl

no_records : (student_summary []).attendance_percentage ≡ 100
unfolding student_summary
no_records = refl

-- A table that takes one row at a time.
abbrev Cells : Type 0
Cells = String → String → String → String → ℕ → Option Attendance

abbrev with_row : String → String → Attendance → Cells → Cells
with_row tenant class r db t c s d p =
    if str_eq tenant t
      && str_eq class c
      && str_eq r.student_id s
      && str_eq r.date d
      && r.period == p
    then some r
    else db t c s d p

abbrev upsert_one : String → String → List Attendance → Cells → Reply ℕ × Cells
upsert_one tenant class (r ∷ []) db = (found 1, with_row tenant class r db)
upsert_one tenant class _ db = (failed, db)

same_period : (p : ℕ) → (p == p) ≡ true
same_period p = ground arith

upsert_one_found :
    (tenant class : String) (rows : List Attendance) (db : Cells) (n : ℕ)
    → (upsert_one tenant class rows db).0 ≡ found n
    → (n ≡ length rows)
      × All
          (λ r.
            (upsert_one tenant class rows db).1 tenant class r.student_id r.date r.period ≡ some r)
          rows
upsert_one_found tenant class [] db n h = absurd (let bad : failed ≡ found n = h in cc)
upsert_one_found tenant class (r ∷ []) db n h = (
  found-injective h,
  rw
      (
        str_eq_refl tenant,
        str_eq_refl class,
        str_eq_refl r.student_id,
        str_eq_refl r.date,
        same_period r.period,
      )
      (refl, tt),
)
upsert_one_found tenant class (r ∷ q ∷ rs) db n h = absurd (let bad : failed ≡ found n = h in cc)

abbrev one_row_table : RollTable
one_row_table = record {
  Db = Cells;
  cell = λ t c s d p db. db t c s d p;
  select_cells = λ t c d p ids db. found [];
  upsert_rows = upsert_one;
  upsert_rows_found = upsert_one_found;
}

abbrev roll_call : RecordAttendanceDto
roll_call = record {
  class_id = class_id;
  date = "2026-05-06";
  period = 1;
  records = record { student_id = "s-1"; status = late } ∷ [];
}

abbrev enrolled : List Enrolled
enrolled = record { id = "s-1"; user_id = "u-1" } ∷ []

abbrev blank : Rolls one_row_table
blank = record { attendance = λ t c s d p. none; conflicts_log = [] }

abbrev after_call : Rolls one_row_table
after_call =
    (record_attendance one_row_table assignments teacher roll_call (found enrolled) true 9 blank).1

record_attendance-stored_example :
    (assert_class_access assignments teacher class_id ≡ ok tt)
    × (1 ≡ length roll_call.records)
    × All
        (IsRecorded one_row_table school_id roll_call enrolled 9 after_call.attendance)
        roll_call.records
unfolding record_attendance assert_class_access is_uuid get_teacher_class_ids get JsMap.set
record_attendance-stored_example =
    record_attendance-stored one_row_table assignments teacher roll_call enrolled true 9 blank
      after_call 1 refl
