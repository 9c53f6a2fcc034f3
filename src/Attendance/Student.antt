-- ===== src/Attendance/Student.antt =====
-- A student's own record of attendance, and who may see it
-- (apps/api/src/modules/attendance/attendance.service.ts).
use edu_lanka.Prelude.{
  ℕ, String, Bool, ◌&&◌, ◌||◌, Option, some, List, [], ◌∷◌, length, select, any, str_eq,
  if◌then◌else◌, ltb,
}
use edu_lanka.Http.{Result, ok, err, HttpError}
use edu_lanka.Http.Pure.{◌>>=◌}
use edu_lanka.Postgrest.{Reply, found}
use edu_lanka.User.{JwtPayload, UserRole}
use edu_lanka.Uuid.{is_uuid}
use edu_lanka.Attendance.{
  Status, present, absent, late, excused, Attendance, Assignments, given, get_teacher_class_ids,
  require, or_error, same_status, rounded_percent,
}

-- `records.filter(...).length` for a student's own record.
pub record StudentSummary : Type 0 where
  pub total : ℕ
  pub present : ℕ
  pub absent : ℕ
  pub late : ℕ
  pub excused : ℕ
  pub attendance_percentage : ℕ

abbrev pub number_of : Status → List Attendance → ℕ
number_of s rows = length (select (λ r. same_status (some s) (some r.status)) rows)

abbrev pub attended : Attendance → Bool
attended r = same_status (some present) (some r.status) || same_status (some late) (some r.status)

unfoldable pub student_summary : List Attendance → StudentSummary
student_summary rows = record {
  total = length rows;
  present = number_of present rows;
  absent = number_of absent rows;
  late = number_of late rows;
  excused = number_of excused rows;
  attendance_percentage =
      if ltb 0 (length rows)
      then rounded_percent (length (select attended rows)) (length rows)
      else 100;
}

-- A row of `students`: an empty class id stands for a missing one.
pub record Student : Type 0 where
  pub id : String
  pub user_id : String
  pub class_id : String

abbrev student_found : Reply (Option Student) → Result Student
student_found (found (some s)) = ok s
student_found _ = err HttpError.not_found

abbrev link_found : Reply (Option String) → Result (Unit {0})
link_found (found (some id)) = ok tt
link_found _ = err HttpError.forbidden

-- Who may see the record of a student; the reply is of `parents` by user and student.
abbrev pub may_view :
    Assignments
    → (String → Reply (Option String))
    → JwtPayload
    → UserRole
    → Student
    → Result (Unit {0})
may_view A link caller UserRole.super_admin s = ok tt
may_view A link caller UserRole.school_admin s = ok tt
may_view A link caller UserRole.teacher s =
    require (given s.class_id && any (str_eq s.class_id) (get_teacher_class_ids A))
      HttpError.forbidden
may_view A link caller UserRole.parent s = link_found (link s.id)
may_view A link caller UserRole.student s =
    require (str_eq s.user_id caller.sub || str_eq s.id caller.sub) HttpError.forbidden
may_view A link caller _ s = err HttpError.forbidden

-- The reply of `attendance` is to the query for the ids that are given.
unfoldable pub get_student_attendance :
    Assignments
    → (String → Reply (Option String))
    → JwtPayload
    → String
    → Reply (Option Student)
    → (List String → Reply (List Attendance))
    → Result StudentSummary
unfolding student_summary
get_student_attendance A link caller student_id student rows =
    require (is_uuid caller.tenant_id && is_uuid caller.sub && is_uuid student_id)
      HttpError.bad_request
    >>= λ x. student_found student >>= λ s. may_view A link caller caller.role s >>= λ y.
        or_error HttpError.internal_error (rows (select given (s.id ∷ s.user_id ∷ [])))
        >>= λ recorded. ok (student_summary recorded)

-- The ids under which a signed-in student's record is looked for.
abbrev own_ids : JwtPayload → Reply (Option Student) → List String
own_ids caller (found (some s)) = if given s.id then caller.sub ∷ s.id ∷ [] else caller.sub ∷ []
own_ids caller _ = caller.sub ∷ []

unfoldable pub get_my_attendance :
    JwtPayload
    → Reply (Option Student)
    → (List String → Reply (List Attendance))
    → Result StudentSummary
unfolding student_summary
get_my_attendance caller student rows =
    require (is_uuid caller.tenant_id && is_uuid caller.sub) HttpError.bad_request >>= λ x.
    or_error HttpError.internal_error (rows (own_ids caller student)) >>= λ recorded.
    ok (student_summary recorded)
