-- ===== src/Homework.antt =====
-- `HomeworkService` (apps/api/src/modules/homework/homework.service.ts): tasks, submissions and grades.
-- Attachments are left out. The classes of a teacher are those of the attendance, whose code the service
-- repeats; the tables that are only read are the replies to their queries.
pub mod Submitted
pub mod Graded
mod Tests
use edu_lanka.Prelude.{
  ℕ, String, Bool, true, false, not, ◌&&◌, ◌||◌, Option, none, some, List, [], ◌∷◌, any, str_eq,
  if◌then◌else◌,
}
use edu_lanka.Http.{Result, ok, err, HttpError, Action, ◌>>=◌, ◌>>◌, return, throw, require}
use edu_lanka.Postgrest.{Reply, found, failed, Table}
use edu_lanka.User.{UserRole, JwtPayload, role_eq, is_teacher, is_admin}
use edu_lanka.Uuid.{is_uuid}
use edu_lanka.Attendance.{Assignments, get_teacher_class_ids}

pub data SubmissionStatus : Type 0 where
  submitted graded resubmit_requested : SubmissionStatus

pub record Submission : Type 0 where
  pub id : String
  pub tenant_id : String
  pub homework_id : String
  pub student_id : String
  pub content : Option String
  pub submitted_at : ℕ
  pub status : SubmissionStatus
  pub grade : Option String
  pub feedback : Option String
  pub client_uuid : Option String
  pub updated_at : ℕ

pub record Task : Type 0 where
  pub id : String
  pub tenant_id : String
  pub class_id : String
  pub teacher_id : String
  pub title : String
  pub description : String
  pub due_date : String
  pub is_deleted : Bool

pub record CreateHomeworkDto : Type 0 where
  pub class_id : String
  pub title : String
  pub description : String
  pub due_date : String

-- What is left out of a request keeps its column.
pub record SubmitHomeworkDto : Type 0 where
  pub content : Option String
  pub client_uuid : Option String

pub record GradeHomeworkDto : Type 0 where
  pub grade : String
  pub feedback : Option String
  pub status : Option SubmissionStatus

pub record Classbook : Type 1 where
  pub Tasks : Table Task
  pub Submissions : Table Submission

-- The classes of the caller as a teacher, and the class of the caller as a student.
pub record Enrolment : Type 0 where
  pub assignments : Assignments
  pub student_class : Reply (Option (Option String))

pub record Coursework (D : Classbook) : Type 0 where
  pub tasks : D.Tasks.Db
  pub submissions : D.Submissions.Db

abbrev pub has_ids : JwtPayload → String → Bool
has_ids caller id = is_uuid caller.tenant_id && is_uuid caller.sub && is_uuid id

abbrev pub is_staff : UserRole → Bool
is_staff r = is_teacher r || is_admin r

-- `includes` on the classes of the teacher.
abbrev pub teaches : Enrolment → String → Bool
teaches E class = any (λ c. str_eq c class) (get_teacher_class_ids E.assignments)

abbrev pub is_task : String → JwtPayload → Task → Bool
is_task id caller t = str_eq t.tenant_id caller.tenant_id && str_eq t.id id

abbrev pub is_open_task : String → JwtPayload → Task → Bool
is_open_task id caller t = is_task id caller t && not t.is_deleted

abbrev pub is_own_submission : String → JwtPayload → Submission → Bool
is_own_submission homework caller s =
    str_eq s.tenant_id caller.tenant_id
    && str_eq s.homework_id homework
    && str_eq s.student_id caller.sub

abbrev pub is_submission : String → JwtPayload → Submission → Bool
is_submission id caller s = str_eq s.tenant_id caller.tenant_id && str_eq s.id id

-- `getStudentClassId`.
abbrev pub student_class_id : Reply (Option (Option String)) → Option String
student_class_id (found (some c)) = c
student_class_id _ = none

abbrev pub is_class : Option String → String → Bool
is_class none class = false
is_class (some c) class = str_eq c class

abbrev pub given_or : Option String → Option String → Option String
given_or none old = old
given_or (some x) old = some x

abbrev pub status_or_graded : Option SubmissionStatus → SubmissionStatus
status_or_graded none = graded
status_or_graded (some s) = s

abbrev pub resubmitted : SubmitHomeworkDto → ℕ → Submission → Submission
resubmitted dto now s = record s {
  content = given_or dto.content s.content;
  submitted_at = now;
  status = submitted;
  client_uuid = given_or dto.client_uuid s.client_uuid;
  updated_at = now;
}

abbrev pub new_submission : String → SubmitHomeworkDto → JwtPayload → ℕ → String → Submission
new_submission homework dto caller now id = record {
  id = id;
  tenant_id = caller.tenant_id;
  homework_id = homework;
  student_id = caller.sub;
  content = dto.content;
  submitted_at = now;
  status = submitted;
  grade = none;
  feedback = none;
  client_uuid = dto.client_uuid;
  updated_at = now;
}

abbrev pub with_grade : GradeHomeworkDto → ℕ → Submission → Submission
with_grade dto now s = record s {
  grade = some dto.grade;
  feedback = given_or dto.feedback s.feedback;
  status = status_or_graded dto.status;
  updated_at = now;
}

abbrev pub new_task : CreateHomeworkDto → JwtPayload → String → Task
new_task dto caller id = record {
  id = id;
  tenant_id = caller.tenant_id;
  class_id = dto.class_id;
  teacher_id = caller.sub;
  title = dto.title;
  description = dto.description;
  due_date = dto.due_date;
  is_deleted = false;
}

module _ (D : Classbook) (E : Enrolment) where
  abbrev pub task_inserted :
      Coursework D → (String → Task) → Reply String × D.Tasks.Db → Result Task × Coursework D
  task_inserted s make (found id, db) = (ok (make id), record s { tasks = db })
  task_inserted s make (failed, db) = (err HttpError.bad_request, record s { tasks = db })

  abbrev pub insert_task : CreateHomeworkDto → JwtPayload → Action (Coursework D) Task
  insert_task dto caller s =
      task_inserted s (new_task dto caller) (D.Tasks.insert (new_task dto caller) s.tasks)

  unfoldable pub create_task : CreateHomeworkDto → JwtPayload → Action (Coursework D) Task
  create_task dto caller =
      require (has_ids caller dto.class_id) HttpError.bad_request
      >> (require (is_staff caller.role) HttpError.forbidden
          >> (require (not (is_teacher caller.role) || teaches E dto.class_id) HttpError.forbidden
              >> insert_task dto caller))

  abbrev pub row_updated :
      HttpError
      → Coursework D
      → Reply Submission × D.Submissions.Db
      → Result Submission × Coursework D
  row_updated e s (found r, db) = (ok r, record s { submissions = db })
  row_updated e s (failed, db) = (err e, record s { submissions = db })

  abbrev pub row_inserted :
      Coursework D
      → (String → Submission)
      → Reply String × D.Submissions.Db
      → Result Submission × Coursework D
  row_inserted s make (found id, db) = (ok (make id), record s { submissions = db })
  row_inserted s make (failed, db) = (err HttpError.bad_request, record s { submissions = db })

  -- The earlier submission, whose query may fail, is written over; else one is added.
  abbrev pub upsert_submission :
      String
      → SubmitHomeworkDto
      → JwtPayload
      → ℕ
      → Reply (Option Submission)
      → Action (Coursework D) Submission
  upsert_submission homework dto caller now (found (some old)) s =
      row_updated HttpError.bad_request s
        (D.Submissions.update_single (λ r. str_eq r.id old.id) (resubmitted dto now) s.submissions)
  upsert_submission homework dto caller now _ s =
      row_inserted s (new_submission homework dto caller now)
        (D.Submissions.insert (new_submission homework dto caller now) s.submissions)

  abbrev pub write_submission :
      String → SubmitHomeworkDto → JwtPayload → ℕ → Action (Coursework D) Submission
  write_submission homework dto caller now s =
      upsert_submission homework dto caller now
        (D.Submissions.maybe_single (is_own_submission homework caller) s.submissions) s

  abbrev pub submit_found :
      String
      → SubmitHomeworkDto
      → JwtPayload
      → ℕ
      → Reply (Option Task)
      → Action (Coursework D) Submission
  submit_found homework dto caller now (found (some t)) =
      require (is_class (student_class_id E.student_class) t.class_id) HttpError.forbidden
      >> write_submission homework dto caller now
  submit_found homework dto caller now _ = throw HttpError.not_found

  unfoldable pub submit_task :
      String → SubmitHomeworkDto → JwtPayload → ℕ → Action (Coursework D) Submission
  submit_task homework dto caller now s =
      (require (has_ids caller homework) HttpError.bad_request
          >> (require (role_eq caller.role UserRole.student) HttpError.forbidden
              >> submit_found homework dto caller now
                  (D.Tasks.maybe_single (is_open_task homework caller) s.tasks)))
        s

  abbrev pub teaches_task : Reply (Option Task) → Result (Unit {0})
  teaches_task (found (some t)) = if teaches E t.class_id then ok tt else err HttpError.forbidden
  teaches_task _ = err HttpError.not_found

  abbrev pub teaches_submission :
      JwtPayload → Coursework D → Reply (Option Submission) → Result (Unit {0})
  teaches_submission caller s (found (some r)) =
      teaches_task (D.Tasks.maybe_single (is_task r.homework_id caller) s.tasks)
  teaches_submission caller s _ = err HttpError.not_found

  -- A teacher grades the submissions of the classes assigned.
  abbrev pub may_grade : String → JwtPayload → Action (Coursework D) (Unit {0})
  may_grade id caller s =
      if is_teacher caller.role
      then (
        teaches_submission caller s
            (D.Submissions.maybe_single (is_submission id caller) s.submissions),
        s,
      )
      else (ok tt, s)

  abbrev pub write_grade :
      String → GradeHomeworkDto → JwtPayload → ℕ → Action (Coursework D) Submission
  write_grade id dto caller now s =
      row_updated HttpError.not_found s
        (D.Submissions.update_single (is_submission id caller) (with_grade dto now) s.submissions)

  unfoldable pub grade_submission :
      String → GradeHomeworkDto → JwtPayload → ℕ → Action (Coursework D) Submission
  grade_submission id dto caller now =
      require (has_ids caller id) HttpError.bad_request
      >> (require (is_staff caller.role) HttpError.forbidden
          >> (may_grade id caller >> write_grade id dto caller now))
