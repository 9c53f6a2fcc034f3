-- ===== src/Homework/Tests.antt =====
-- Submissions and grades on tables held in memory (apps/api/src/modules/homework/homework.service.ts).
use edu_lanka.Prelude.{String, ◌≡◌, refl, false, none, some, [], ◌∷◌}
use edu_lanka.Text.{trim}
use edu_lanka.Http.{ok, err, HttpError}
use edu_lanka.Postgrest.{found}
use edu_lanka.PostgrestMemory.{memory_table, at_most_one, update_one, found-ne-failed}
use edu_lanka.User.{UserRole, JwtPayload, role_eq}
use edu_lanka.Uuid.{is_uuid}
use edu_lanka.Attendance.{get_teacher_class_ids}
use edu_lanka.Homework.{
  submitted, graded, Submission, Task, SubmitHomeworkDto, GradeHomeworkDto, Classbook, Enrolment,
  Coursework, submit_task, grade_submission,
}
use edu_lanka.Homework.Submitted.{IsSubmitted, submit_task-IsSubmitted}
use edu_lanka.Homework.Graded.{IsGraded, grade_submission-IsGraded}

abbrev classbook : Classbook
classbook = record { Tasks = memory_table (λ t. t.id); Submissions = memory_table (λ s. s.id) }

abbrev enrolment : Enrolment
enrolment = record {
  assignments = record { teacher_of = found (some "t1"); classes_of = λ t. found ("7A" ∷ []) };
  student_class = found (some (some "7A"));
}

abbrev school : String
school = "11111111-1111-1111-1111-111111111111"

abbrev essay : String
essay = "22222222-2222-2222-2222-222222222222"

abbrev nimal : JwtPayload
nimal = record {
  sub = "33333333-3333-3333-3333-333333333333";
  tenant_id = school;
  role = UserRole.student;
}

abbrev kamala : JwtPayload
kamala = record {
  sub = "44444444-4444-4444-4444-444444444444";
  tenant_id = school;
  role = UserRole.teacher;
}

abbrev task : Task
task = record {
  id = essay;
  tenant_id = school;
  class_id = "7A";
  teacher_id = kamala.sub;
  title = "Essay";
  description = "On rain";
  due_date = "2026-12-01";
  is_deleted = false;
}

abbrev answer : Submission
answer = record {
  id = "55555555-5555-5555-5555-555555555555";
  tenant_id = school;
  homework_id = essay;
  student_id = nimal.sub;
  content = some "Rain falls.";
  submitted_at = 5;
  status = graded;
  grade = some "C";
  feedback = none;
  client_uuid = none;
  updated_at = 6;
}

abbrev coursework : Coursework classbook
coursework = record {
  tasks = record { stored = task ∷ []; ids = [] };
  submissions = record { stored = answer ∷ []; ids = [] };
}

abbrev again : SubmitHomeworkDto
again = record { content = some "It rains."; client_uuid = none }

-- A new text keeps the old grade.
submitted_again :
    (submit_task classbook enrolment essay again nimal 9 coursework).0
    ≡ ok (record answer {
      content = some "It rains.";
      submitted_at = 9;
      status = submitted;
      updated_at = 9;
    })
unfolding submit_task is_uuid trim role_eq at_most_one update_one
submitted_again = refl

submit_task-IsSubmitted_example :
    IsSubmitted classbook enrolment essay again nimal 9 coursework
      (submit_task classbook enrolment essay again nimal 9 coursework)
unfolding at_most_one
submit_task-IsSubmitted_example =
    submit_task-IsSubmitted classbook enrolment essay again nimal 9 coursework
      (λ h. found-ne-failed h)

abbrev better : GradeHomeworkDto
better = record { grade = "B"; feedback = none; status = none }

-- A teacher of another class does not grade.
of_another_class :
    (grade_submission classbook
      (record enrolment {
        assignments = record {
          teacher_of = found (some "t1");
          classes_of = λ t. found ("8B" ∷ []);
        };
      })
      answer.id
      better
      kamala
      9
      coursework).0
    ≡ err HttpError.forbidden
unfolding grade_submission is_uuid trim at_most_one get_teacher_class_ids
of_another_class = refl

grade_submission-IsGraded_example :
    IsGraded classbook enrolment answer.id better kamala 9 coursework
      (grade_submission classbook enrolment answer.id better kamala 9 coursework)
grade_submission-IsGraded_example =
    grade_submission-IsGraded classbook enrolment answer.id better kamala 9 coursework
