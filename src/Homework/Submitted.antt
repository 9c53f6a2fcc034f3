-- ===== src/Homework/Submitted.antt =====
-- What a submission leaves (apps/api/src/modules/homework/homework.service.ts).
use mathlib.Core.List.{append-nil}
use edu_lanka.Prelude.{
  ℕ, String, ◌≡◌, ◌≢◌, refl, sym, ap, ◌∙◌, ◌⊎◌, inl, inr, Bool, true, false, not, Option, none,
  some, [], ◌∷◌, ◌++◌, select, modify, In, In-select, select-In, select-modify, modify-none,
  select-append, Bool-cases, str_eq, str_eq_refl,
}
use edu_lanka.Http.{Result, ok, err, HttpError, ◌>>◌, require}
use edu_lanka.Http.Cases.{require-cases}
use edu_lanka.Postgrest.{Reply, found, failed}
use edu_lanka.User.{UserRole, JwtPayload, role_eq}
use edu_lanka.Homework.{
  Submission, Task, SubmitHomeworkDto, Classbook, Enrolment, Coursework, has_ids, is_open_task,
  is_own_submission, student_class_id, is_class, resubmitted, new_submission, row_updated,
  row_inserted, upsert_submission, write_submission, submit_found, submit_task,
}

module _ (D : Classbook) (E : Enrolment) (homework : String) (dto : SubmitHomeworkDto)
    (caller : JwtPayload) (now : ℕ) where
  abbrev own : Submission → Bool
  own = is_own_submission homework caller

  -- The caller's submission is the one that is answered, made from the earlier one or new; all others
  -- are as before.
  abbrev pub HasSubmitted : D.Submissions.Db → D.Submissions.Db → Submission → Type 0
  HasSubmitted db db' r =
      (select (is_own_submission homework caller) (D.Submissions.rows db') ≡ r ∷ [])
      × (select (λ x. not (is_own_submission homework caller x)) (D.Submissions.rows db')
          ≡ select (λ x. not (is_own_submission homework caller x)) (D.Submissions.rows db))
      × (((old : Submission) × (select (is_own_submission homework caller) (D.Submissions.rows db)
              ≡ old ∷ [])
            × (r ≡ resubmitted dto now old))
          ⊎ ((id : String) × (select (is_own_submission homework caller) (D.Submissions.rows db)
                ≡ [])
              × (r ≡ new_submission homework dto caller now id)))

  -- What a submission answers and leaves.
  abbrev pub IsSubmitted : Coursework D → Result Submission × Coursework D → Type 0
  IsSubmitted s (ok r, s') =
      (role_eq caller.role UserRole.student ≡ true)
      × ((t : Task) × (select (is_open_task homework caller) (D.Tasks.rows s.tasks) ≡ t ∷ [])
          × (is_class (student_class_id E.student_class) t.class_id ≡ true))
      × HasSubmitted s.submissions s'.submissions r
  IsSubmitted s (err e, s') = D.Submissions.rows s'.submissions ≡ D.Submissions.rows s.submissions

  module _ (db : D.Submissions.Db) (old old' : Submission)
      (one : select own (D.Submissions.rows db) ≡ old ∷ [])
      (same_id : select (λ r. str_eq r.id old.id) (D.Submissions.rows db) ≡ old' ∷ []) where
    found-old : In old (D.Submissions.rows db) × (own old ≡ true)
    found-old =
        let m : In old (select own (D.Submissions.rows db)) = rw one (inl refl) in
        In-select own old (D.Submissions.rows db) m

    -- A row with the id of the earlier submission is that submission.
    is-old : (x : Submission) → In x (D.Submissions.rows db) → str_eq x.id old.id ≡ true → x ≡ old'
    is-old x m e =
        let k : In x (old' ∷ []) =
          rw same_id at (select-In (λ r. str_eq r.id old.id) x (D.Submissions.rows db) m e) in
        elim k [ inl same ↦ same | inr bad ↦ absurd bad ]

    old-same : old ≡ old'
    old-same = is-old old found-old.0 (str_eq_refl old.id)

    others :
        (x : Submission)
        → In x (select (λ y. not (own y)) (D.Submissions.rows db))
        → str_eq x.id old.id ≡ false
    others x m = elim (Bool-cases (str_eq x.id old.id)) [
      | inl e ↦
          let (there, foreign) = In-select (λ y. not (own y)) x (D.Submissions.rows db) m in
          let same : x ≡ old = is-old x there e ∙ sym old-same in
          let own_too : own x ≡ true = ap own same ∙ found-old.1 in
          let bad : false ≡ true = rw own_too at foreign in absurd (cc)
      | inr e ↦ e
    ]

  updated-HasSubmitted :
      (db db' : D.Submissions.Db) (old old' r : Submission)
      → select own (D.Submissions.rows db) ≡ old ∷ []
      → select (λ x. str_eq x.id old.id) (D.Submissions.rows db) ≡ old' ∷ []
      → r ≡ resubmitted dto now old'
      → D.Submissions.rows db'
        ≡ modify (λ x. str_eq x.id old.id) (resubmitted dto now) (D.Submissions.rows db)
      → HasSubmitted db db' r
  updated-HasSubmitted db db' old old' r one same_id e rows =
      let q = λ (x : Submission). str_eq x.id old.id in
      let f = resubmitted dto now in
      let r_is : r ≡ f old = e ∙ ap f (sym (old-same db old old' one same_id)) in
      (
        ap (select own) rows
            ∙ select-modify own q f (D.Submissions.rows db) (λ x. refl)
            ∙ rw (one, str_eq_refl old.id) (ap (λ z. z ∷ []) (sym r_is)),
        ap (select (λ x. not (own x))) rows
            ∙ select-modify (λ x. not (own x)) q f (D.Submissions.rows db) (λ x. refl)
            ∙ modify-none (λ x. not (own x)) q f (select (λ x. not (own x)) (D.Submissions.rows db))
                (others db old old' one same_id),
        inl (old, one, r_is),
      )

  inserted-HasSubmitted :
      (db db' : D.Submissions.Db) (id : String)
      → select own (D.Submissions.rows db) ≡ []
      → D.Submissions.rows db'
        ≡ D.Submissions.rows db ++ new_submission homework dto caller now id ∷ []
      → HasSubmitted db db' (new_submission homework dto caller now id)
  inserted-HasSubmitted db db' id none_yet rows =
      let new = new_submission homework dto caller now id in
      let is_own : own new ≡ true =
        rw (str_eq_refl caller.tenant_id, str_eq_refl homework, str_eq_refl caller.sub) refl in
      (
        ap (select own) rows
            ∙ select-append own (D.Submissions.rows db) new
            ∙ rw (none_yet, is_own) refl,
        ap (select (λ x. not (own x))) rows
            ∙ select-append (λ x. not (own x)) (D.Submissions.rows db) new
            ∙ rw is_own (append-nil (select (λ x. not (own x)) (D.Submissions.rows db))),
        inr (id, none_yet, refl),
      )

  -- What the write answers and leaves.
  abbrev IsWritten : Coursework D → Result Submission × Coursework D → Type 0
  IsWritten s (ok r, s') = HasSubmitted s.submissions s'.submissions r
  IsWritten s (err e, s') = D.Submissions.rows s'.submissions ≡ D.Submissions.rows s.submissions

  row_updated-IsWritten :
      (s : Coursework D) (old : Submission) (x : Reply Submission × D.Submissions.Db)
      → select own (D.Submissions.rows s.submissions) ≡ old ∷ []
      → D.Submissions.update_single (λ r. str_eq r.id old.id) (resubmitted dto now) s.submissions
        ≡ x
      → IsWritten s (row_updated D E HttpError.bad_request s x)
  row_updated-IsWritten s old (found r, db) one e =
      let (old', same_id, r_is, rows) =
        D.Submissions.update_single_found (λ x. str_eq x.id old.id) (resubmitted dto now)
          s.submissions r (ap (λ z. z.0) e) in
      updated-HasSubmitted s.submissions db old old' r one same_id r_is
        (ap (λ z. D.Submissions.rows z.1) (sym e) ∙ rows)
  row_updated-IsWritten s old (failed, db) one e =
      ap (λ z. D.Submissions.rows z.1) (sym e)
      ∙ D.Submissions.update_single_failed (λ x. str_eq x.id old.id) (resubmitted dto now)
          s.submissions (ap (λ z. z.0) e)

  row_inserted-IsWritten :
      (s : Coursework D) (x : Reply String × D.Submissions.Db)
      → select own (D.Submissions.rows s.submissions) ≡ []
      → D.Submissions.insert (new_submission homework dto caller now) s.submissions ≡ x
      → IsWritten s (row_inserted D E s (new_submission homework dto caller now) x)
  row_inserted-IsWritten s (found id, db) none_yet e =
      inserted-HasSubmitted s.submissions db id none_yet (
        ap (λ z. D.Submissions.rows z.1) (sym e)
        ∙ D.Submissions.insert_found (new_submission homework dto caller now) s.submissions id
            (ap (λ z. z.0) e))
  row_inserted-IsWritten s (failed, db) none_yet e =
      ap (λ z. D.Submissions.rows z.1) (sym e)
      ∙ D.Submissions.insert_failed (new_submission homework dto caller now) s.submissions
          (ap (λ z. z.0) e)

  upsert_submission-IsWritten :
      (s : Coursework D) (x : Reply (Option Submission))
      → D.Submissions.maybe_single own s.submissions ≡ x
      → x ≢ failed
      → IsWritten s (upsert_submission D E homework dto caller now x s)
  upsert_submission-IsWritten s (found (some old)) e f =
      row_updated-IsWritten s old _ (D.Submissions.maybe_single_some own s.submissions old e) refl
  upsert_submission-IsWritten s (found none) e f =
      row_inserted-IsWritten s _ (D.Submissions.maybe_single_none own s.submissions e) refl
  upsert_submission-IsWritten s failed e f = absurd (f refl)

  written-IsSubmitted :
      (s : Coursework D) (t : Task) (x : Result Submission × Coursework D)
      → role_eq caller.role UserRole.student ≡ true
      → select (is_open_task homework caller) (D.Tasks.rows s.tasks) ≡ t ∷ []
      → is_class (student_class_id E.student_class) t.class_id ≡ true
      → IsWritten s x
      → IsSubmitted s x
  written-IsSubmitted s t (ok r, s') a b c h = (a, (t, b, c), h)
  written-IsSubmitted s t (err e, s') a b c h = h

  in_class-IsSubmitted :
      (s : Coursework D) (t : Task) (member : Bool)
      → is_class (student_class_id E.student_class) t.class_id ≡ member
      → role_eq caller.role UserRole.student ≡ true
      → select (is_open_task homework caller) (D.Tasks.rows s.tasks) ≡ t ∷ []
      → D.Submissions.maybe_single own s.submissions ≢ failed
      → IsSubmitted s
          ((require member HttpError.forbidden >> write_submission D E homework dto caller now) s)
  in_class-IsSubmitted s t true c a b f =
      written-IsSubmitted s t _ a b c (upsert_submission-IsWritten s _ refl f)
  in_class-IsSubmitted s t false c a b f = refl

  submit_found-IsSubmitted :
      (s : Coursework D) (x : Reply (Option Task))
      → D.Tasks.maybe_single (is_open_task homework caller) s.tasks ≡ x
      → role_eq caller.role UserRole.student ≡ true
      → D.Submissions.maybe_single own s.submissions ≢ failed
      → IsSubmitted s (submit_found D E homework dto caller now x s)
  submit_found-IsSubmitted s failed e a f = refl
  submit_found-IsSubmitted s (found none) e a f = refl
  submit_found-IsSubmitted s (found (some t)) e a f =
      in_class-IsSubmitted s t _ refl a
        (D.Tasks.maybe_single_some (is_open_task homework caller) s.tasks t e) f

  student-IsSubmitted :
      (s : Coursework D) (student : Bool)
      → role_eq caller.role UserRole.student ≡ student
      → D.Submissions.maybe_single own s.submissions ≢ failed
      → IsSubmitted s (
          (require student HttpError.forbidden
              >> submit_found D E homework dto caller now
                  (D.Tasks.maybe_single (is_open_task homework caller) s.tasks))
            s)
  student-IsSubmitted s true a f = submit_found-IsSubmitted s _ refl a f
  student-IsSubmitted s false a f = refl

  -- If the query for the caller's earlier submission is answered, then whatever `submitTask` answers:
  -- when it gives a submission, the caller is a student, the one task with the id in the tenant, not
  -- deleted, is of the student's class, and of the submissions the caller has for the task there is this
  -- one now, the earlier one changed or, if there was none, a new one, while all others are as before;
  -- when it throws, the submissions are as before.
  pub submit_task-IsSubmitted :
      (s : Coursework D)
      → D.Submissions.maybe_single (is_own_submission homework caller) s.submissions ≢ failed
      → IsSubmitted s (submit_task D E homework dto caller now s)
  unfolding submit_task
  submit_task-IsSubmitted s f =
      require-cases (IsSubmitted s) (has_ids caller homework) HttpError.bad_request _ s refl
        (student-IsSubmitted s _ refl f)
