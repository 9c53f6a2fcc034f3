-- ===== src/Attendance/Recording.antt =====
-- `recordAttendance` (apps/api/src/modules/attendance/attendance.service.ts): the roll call of a class.
-- The events that it then appends for mobile devices, whose failures are dropped, are left out.
pub mod Mapping
pub mod Stored
use edu_lanka.Prelude.{
  ℕ, ◌+◌, String, ◌≡◌, ◌≢◌, Bool, true, false, not, ◌&&◌, Option, none, some, List, [], ◌∷◌, map,
  ◌++◌, All, length, select, any, ◌==◌, str_eq, if◌then◌else◌,
}
use edu_lanka.JsMap.{JsMap, get, set}
use edu_lanka.Http.{Result, ok, err, HttpError}
use edu_lanka.Postgrest.{Reply, found, failed}
use edu_lanka.User.{JwtPayload}
use edu_lanka.Attendance.{
  Status, Attendance, Assignments, assert_class_access, by_student, given, or_empty, same_status,
}

pub record RecordItem : Type 0 where
  pub student_id : String
  pub status : Status

-- `RecordAttendanceDto`; the period is 1 if it is not given.
pub record RecordAttendanceDto : Type 0 where
  pub class_id : String
  pub date : String
  pub period : ℕ
  pub records : List RecordItem

-- An active student of the class, by the ids of the row of `students` and of the user.
pub record Enrolled : Type 0 where
  pub id : String
  pub user_id : String

-- Both ids lead to the user's.
abbrev pub enrolled_as : Enrolled → JsMap String → JsMap String
enrolled_as s m =
    let by_user = if given s.user_id then set s.user_id s.user_id m else m in
    if given s.id && given s.user_id then set s.id s.user_id by_user else by_user

abbrev pub user_map : JsMap String → List Enrolled → JsMap String
user_map m [] = m
user_map m (s ∷ ss) = user_map (enrolled_as s m) ss

abbrev pub is_known : JsMap String → RecordItem → Bool
is_known m r = is_some (get r.student_id m)
  where
    is_some : Option String → Bool
    is_some none = false
    is_some (some u) = true

abbrev or_self : String → Option String → String
or_self id none = id
or_self id (some u) = u

-- The rows to write.
abbrev pub new_row : RecordAttendanceDto → JsMap String → ℕ → RecordItem → Attendance
new_row dto m now r = record {
  student_id = or_self r.student_id (get r.student_id m);
  date = dto.date;
  period = dto.period;
  status = r.status;
  marked_at = now;
}

-- A conflict of a row with a stored one.
pub record Conflict : Type 0 where
  pub client : Attendance
  pub server : Attendance

abbrev pub conflicts_with : Option Attendance → Attendance → List Conflict → List Conflict
conflicts_with none r rest = rest
conflicts_with (some e) r rest =
    if same_status (some e.status) (some r.status)
    then rest
    else record { client = r; server = e } ∷ rest

abbrev pub conflicts : JsMap Attendance → List Attendance → List Conflict
conflicts m [] = []
conflicts m (r ∷ rs) = conflicts_with (get r.student_id m) r (conflicts m rs)

-- The table `attendance` behind the Supabase client, by tenant, class, student, date and period: what an
-- upsert that is answered leaves in it. (PostgreSQL refuses two rows of one key in an upsert.)
pub record RollTable : Type 1 where
  pub Db : Type 0
  pub cell : String → String → String → String → ℕ → Db → Option Attendance
  pub select_cells : String → String → String → ℕ → List String → Db → Reply (List Attendance)
  -- The number of rows that are returned.
  pub upsert_rows : String → String → List Attendance → Db → Reply ℕ × Db
  pub upsert_rows_found :
      (tenant class : String) (rows : List Attendance) (db : Db) (n : ℕ)
      → (upsert_rows tenant class rows db).0 ≡ found n
      → (n ≡ length rows)
        × All
            (λ r.
              cell tenant class r.student_id r.date r.period (upsert_rows tenant class rows db).1
              ≡ some r)
            rows

-- The table and the log of conflicts.
pub record Rolls (T : RollTable) : Type 0 where
  pub attendance : T.Db
  pub conflicts_log : List Conflict

module _ (T : RollTable) where
  -- The insert into the log, whose failure is dropped; nothing is inserted for no conflicts.
  abbrev pub with_conflicts : Bool → List Conflict → Rolls T → Rolls T
  with_conflicts true cs s = record s { conflicts_log = s.conflicts_log ++ cs }
  with_conflicts false cs s = s

  abbrev pub saved : Rolls T → Reply ℕ × T.Db → Result ℕ × Rolls T
  saved s (found n, db) = (ok n, record s { attendance = db })
  saved s (failed, db) = (err HttpError.internal_error, record s { attendance = db })

  abbrev pub write_rows :
      String → RecordAttendanceDto → Bool → List Attendance → Rolls T → Result ℕ × Rolls T
  write_rows tenant dto log_answers rows s =
      let existing =
        T.select_cells tenant dto.class_id dto.date dto.period (map (λ r. r.student_id) rows)
          s.attendance in
      let logged =
        with_conflicts log_answers (conflicts (by_student [] (or_empty existing)) rows) s in
      saved logged (T.upsert_rows tenant dto.class_id rows logged.attendance)

  abbrev pub record_known :
      String
      → RecordAttendanceDto
      → Bool
      → ℕ
      → JsMap String
      → List RecordItem
      → Rolls T
      → Result ℕ × Rolls T
  record_known tenant dto log_answers now m [] s =
      write_rows tenant dto log_answers (map (new_row dto m now) dto.records) s
  record_known tenant dto log_answers now m (r ∷ rs) s = (err HttpError.bad_request, s)

  abbrev pub record_enrolled :
      String → RecordAttendanceDto → Bool → ℕ → Reply (List Enrolled) → Rolls T → Result ℕ × Rolls T
  record_enrolled tenant dto log_answers now failed s = (err HttpError.internal_error, s)
  record_enrolled tenant dto log_answers now (found students) s =
      let m = user_map [] students in
      record_known tenant dto log_answers now m (select (λ r. not (is_known m r)) dto.records) s

  abbrev pub record_given :
      String
      → RecordAttendanceDto
      → Bool
      → ℕ
      → Reply (List Enrolled)
      → List RecordItem
      → Rolls T
      → Result ℕ × Rolls T
  record_given tenant dto log_answers now students [] s = (err HttpError.bad_request, s)
  record_given tenant dto log_answers now students (r ∷ rs) s =
      record_enrolled tenant dto log_answers now students s

  abbrev pub record_allowed :
      String
      → RecordAttendanceDto
      → Bool
      → ℕ
      → Reply (List Enrolled)
      → Rolls T
      → Result (Unit {0})
      → Result ℕ × Rolls T
  record_allowed tenant dto log_answers now students s (err e) = (err e, s)
  record_allowed tenant dto log_answers now students s (ok u) =
      record_given tenant dto log_answers now students dto.records s

  -- The reply is of the active `students` of the class; whether the log answers is an argument.
  unfoldable pub record_attendance :
      Assignments
      → JwtPayload
      → RecordAttendanceDto
      → Reply (List Enrolled)
      → Bool
      → ℕ
      → Rolls T
      → Result ℕ × Rolls T
  unfolding assert_class_access
  record_attendance A caller dto students log_answers now s =
      record_allowed caller.tenant_id dto log_answers now students s
        (assert_class_access A caller dto.class_id)
