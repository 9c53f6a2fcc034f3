-- ===== src/Homework/Graded.antt =====
-- What a grade leaves (apps/api/src/modules/homework/homework.service.ts).
use mathlib.Core.Path.{subst}
use edu_lanka.Prelude.{
  ℕ, String, ◌≡◌, refl, sym, ap, ◌∙◌, inl, inr, Bool, true, false, Option, none, some, [], ◌∷◌,
  select, modify, modify-only, Bool-cases,
}
use edu_lanka.Http.{Result, ok, err, HttpError, resume, ◌>>◌, require}
use edu_lanka.Http.Cases.{require-cases}
use edu_lanka.Postgrest.{Reply, found, failed}
use edu_lanka.User.{JwtPayload, is_teacher}
use edu_lanka.Homework.{
  SubmissionStatus, Submission, Task, GradeHomeworkDto, Classbook, Enrolment, Coursework, has_ids,
  is_staff, teaches, is_task, is_submission, with_grade, row_updated, teaches_task,
  teaches_submission, may_grade, write_grade, grade_submission,
}

module _ (D : Classbook) (E : Enrolment) (id : String) (dto : GradeHomeworkDto)
    (caller : JwtPayload) (now : ℕ) where
  -- The submission is of a task of a class that the caller teaches.
  abbrev pub IsAssigned : Coursework D → Type 0
  IsAssigned s =
      (r : Submission) × (t : Task) × (select (is_submission id caller)
          (D.Submissions.rows s.submissions)
        ≡ r ∷ [])
      × (select (is_task r.homework_id caller) (D.Tasks.rows s.tasks) ≡ t ∷ [])
      × (teaches E t.class_id ≡ true)

  -- A submission with the grade of the request; feedback and status are those of the request, or the
  -- feedback there was, and graded.
  pub record HasGrade (old r : Submission) : Type 0 where
    pub grade : r.grade ≡ some dto.grade
    pub feedback : (f : String) → dto.feedback ≡ some f → r.feedback ≡ some f
    pub kept_feedback : dto.feedback ≡ none → r.feedback ≡ old.feedback
    pub status : (t : SubmissionStatus) → dto.status ≡ some t → r.status ≡ t
    pub is_graded : dto.status ≡ none → r.status ≡ SubmissionStatus.graded
    pub updated_at : r.updated_at ≡ now
    pub same_key :
        (r.id ≡ old.id)
        × (r.tenant_id ≡ old.tenant_id)
        × (r.homework_id ≡ old.homework_id)
        × (r.student_id ≡ old.student_id)
    pub same_answer :
        (r.content ≡ old.content)
        × (r.submitted_at ≡ old.submitted_at)
        × (r.client_uuid ≡ old.client_uuid)

  with_grade-HasGrade : (old : Submission) → HasGrade old (with_grade dto now old)
  with_grade-HasGrade old = record {
    grade = refl;
    feedback = λ f e. rw e refl;
    kept_feedback = λ e. rw e refl;
    status = λ t e. rw e refl;
    is_graded = λ e. rw e refl;
    updated_at = refl;
    same_key = (refl, refl, refl, refl);
    same_answer = (refl, refl, refl);
  }

  -- The one submission with the id in the tenant has been replaced by a graded one.
  abbrev pub HasGraded : Coursework D → Submission → Coursework D → Type 0
  HasGraded s r s' =
      (old : Submission) × (select (is_submission id caller) (D.Submissions.rows s.submissions)
        ≡ old ∷ [])
      × HasGrade old r
      × (D.Submissions.rows s'.submissions
          ≡ modify (is_submission id caller) (λ x. r) (D.Submissions.rows s.submissions))

  -- What a call answers and leaves.
  abbrev pub IsGraded : Coursework D → Result Submission × Coursework D → Type 0
  IsGraded s (ok r, s') =
      (is_staff caller.role ≡ true)
      × (is_teacher caller.role ≡ true → IsAssigned s)
      × HasGraded s r s'
  IsGraded s (err e, s') = D.Submissions.rows s'.submissions ≡ D.Submissions.rows s.submissions

  row_updated-IsGraded :
      (s : Coursework D) (x : Reply Submission × D.Submissions.Db)
      → is_staff caller.role ≡ true
      → (is_teacher caller.role ≡ true → IsAssigned s)
      → D.Submissions.update_single (is_submission id caller) (with_grade dto now) s.submissions ≡ x
      → IsGraded s (row_updated D E HttpError.not_found s x)
  row_updated-IsGraded s (found r, db) a b e =
      let (old, one, r_is, rows) =
        D.Submissions.update_single_found (is_submission id caller) (with_grade dto now)
          s.submissions r (ap (λ z. z.0) e) in
      let replaced =
        ap (λ z. D.Submissions.rows z.1) (sym e)
        ∙ rows
        ∙ modify-only (is_submission id caller) (with_grade dto now) old
            (D.Submissions.rows s.submissions) one in
      (
        a,
        b,
        subst
            (λ z.
              (o : Submission) × (select (is_submission id caller)
                  (D.Submissions.rows s.submissions)
                ≡ o ∷ [])
              × HasGrade o z
              × (D.Submissions.rows db
                  ≡ modify (is_submission id caller) (λ x. z) (D.Submissions.rows s.submissions)))
            (sym r_is) (old, one, with_grade-HasGrade old, replaced),
      )
  row_updated-IsGraded s (failed, db) a b e =
      ap (λ z. D.Submissions.rows z.1) (sym e)
      ∙ D.Submissions.update_single_failed (is_submission id caller) (with_grade dto now)
          s.submissions (ap (λ z. z.0) e)

  -- A check of the teacher that throws, or has found a class that the caller teaches.
  HasChecked : Coursework D → Result (Unit {0}) → Type 0
  HasChecked s (ok u) = IsAssigned s
  HasChecked s (err e) = Unit

  teaches_task-HasChecked :
      (s : Coursework D) (r : Submission) (x : Reply (Option Task))
      → select (is_submission id caller) (D.Submissions.rows s.submissions) ≡ r ∷ []
      → D.Tasks.maybe_single (is_task r.homework_id caller) s.tasks ≡ x
      → HasChecked s (teaches_task D E x)
  unfolding HasChecked
  teaches_task-HasChecked s r failed one e = tt
  teaches_task-HasChecked s r (found none) one e = tt
  teaches_task-HasChecked s r (found (some t)) one e = elim (Bool-cases (teaches E t.class_id)) [
    | inl k ↦
        rw k (r, t, one, D.Tasks.maybe_single_some (is_task r.homework_id caller) s.tasks t e, k)
    | inr k ↦ rw k tt
  ]

  teaches_submission-HasChecked :
      (s : Coursework D) (x : Reply (Option Submission))
      → D.Submissions.maybe_single (is_submission id caller) s.submissions ≡ x
      → HasChecked s (teaches_submission D E caller s x)
  unfolding HasChecked
  teaches_submission-HasChecked s failed e = tt
  teaches_submission-HasChecked s (found none) e = tt
  teaches_submission-HasChecked s (found (some r)) e =
      teaches_task-HasChecked s r _
        (D.Submissions.maybe_single_some (is_submission id caller) s.submissions r e) refl

  checked-IsGraded :
      (s : Coursework D) (x : Result (Unit {0}))
      → is_staff caller.role ≡ true
      → HasChecked s x
      → IsGraded s (resume (λ u. write_grade D E id dto caller now) (x, s))
  unfolding HasChecked
  checked-IsGraded s (ok u) a b = row_updated-IsGraded s _ a (λ t. b) refl
  checked-IsGraded s (err e) a b = refl

  may_grade-IsGraded :
      (s : Coursework D)
      → is_staff caller.role ≡ true
      → IsGraded s ((may_grade D E id caller >> write_grade D E id dto caller now) s)
  may_grade-IsGraded s a = elim (Bool-cases (is_teacher caller.role)) [
    | inl t ↦ rw t (checked-IsGraded s _ a (teaches_submission-HasChecked s _ refl))
    | inr t ↦
        rw t
          (row_updated-IsGraded s _ a (λ k. absurd (let bad : true ≡ false = sym k ∙ t in cc)) refl)
  ]

  staff-IsGraded :
      (s : Coursework D) (staff : Bool)
      → is_staff caller.role ≡ staff
      → IsGraded s (
          (require staff HttpError.forbidden
              >> (may_grade D E id caller >> write_grade D E id dto caller now))
            s)
  staff-IsGraded s true a = may_grade-IsGraded s a
  staff-IsGraded s false a = refl

  -- Whatever `gradeSubmission` answers: when it gives a submission, the caller is a teacher or an
  -- administrator, a teacher of the class of the submission's task, and the one submission with the id in
  -- the tenant has got the grade, the feedback if any and the status or graded, while its answer and all
  -- others are as before; when it throws, the submissions are as
  -- before.
  pub grade_submission-IsGraded :
      (s : Coursework D) → IsGraded s (grade_submission D E id dto caller now s)
  unfolding grade_submission
  grade_submission-IsGraded s =
      require-cases (IsGraded s) (has_ids caller id) HttpError.bad_request _ s refl
        (staff-IsGraded s _ refl)
