-- ===== src/Marks/Entering.antt =====
-- What a mark that has been entered has passed
-- (apps/api/src/modules/student-marks/student-marks.service.ts).
use mathlib.Core.Path.{subst}
use edu_lanka.Prelude.{
  ℕ, String, ◌≡◌, refl, sym, ap, ◌⊎◌, inl, inr, Bool, true, false, not, Option, none, some, [], ◌∷◌,
  ◌++◌, select, modify, Bool-cases, str_eq, str_eq_iff, arith,
}
use edu_lanka.Http.{Result, ok, err, HttpError, Action, resume, ◌>>◌, require}
use edu_lanka.Postgrest.{Reply, found, failed}
use edu_lanka.User.{JwtPayload, is_teacher}
use edu_lanka.Uuid.{is_uuid, get_tenant_client}
use edu_lanka.Marks.{
  Mark, Finalization, TermKey, CreateMarkDto, Registry, Stores, Gradebook, data_of, year_or,
  may_enter, is_of_term, is_mark_of, graded, new_mark, teacher_assigned, assignment_found, in_class,
  require_assigned, require_enrolled, is_locked, require_open, mark_written, write_mark, term_key,
  upsert_mark,
}

resume-ok :
    {S B : Type 0} (k : Action S B) (x : Result (Unit {0}) × S) (s s' : S) (b : B)
    → x.1 ≡ s
    → resume (λ _. k) x ≡ (ok b, s')
    → (x.0 ≡ ok tt) × (k s ≡ (ok b, s'))
resume-ok k (ok a, t) s s' b e h = (refl, subst (λ z. k z ≡ (ok b, s')) e h)
resume-ok k (err x, t) s s' b e h = cc

-- A check that keeps the state has passed if the whole has succeeded.
pub step-ok :
    {S B : Type 0} (check : Action S (Unit {0})) (k : Action S B) (s s' : S) (b : B)
    → (check s).1 ≡ s
    → (check >> k) s ≡ (ok b, s')
    → ((check s).0 ≡ ok tt) × (k s ≡ (ok b, s'))
step-ok check k s s' b e h = resume-ok k (check s) s s' b e h

pub require-state : {S : Type 0} (b : Bool) (e : HttpError) (s : S) → (require b e s).1 ≡ s
require-state true e s = refl
require-state false e s = refl

pub require-ok :
    {S : Type 0} (b : Bool) (e : HttpError) (s : S) → (require b e s).0 ≡ ok tt → b ≡ true
require-ok true e s h = refl
require-ok false e s h = cc

data_of-some : {A : Type 0} (r : Reply (Option A)) (a : A) → data_of r ≡ some a → r ≡ found (some a)
data_of-some failed a h = cc
data_of-some (found o) a h = ap found h

assignment_found-ok :
    (o : Option String) (x : Unit {0}) → assignment_found o ≡ ok x → (a : String) × (o ≡ some a)
assignment_found-ok none x h = cc
assignment_found-ok (some a) x h = (a, refl)

in_class-ok :
    (class : String) (o : Option String) (x : Unit {0}) → in_class class o ≡ ok x → o ≡ some class
in_class-ok class none x h = cc
in_class-ok class (some c) x h = elim (Bool-cases (str_eq c class)) [
  | inl e ↦ ap some ((str_eq_iff c class).0 e)
  | inr e ↦ let k : err HttpError.forbidden ≡ ok x = rw e at h in cc
]

not-true : (b : Bool) → not b ≡ true → b ≡ false
not-true b h = ground arith

module _ (D : Stores) (reg : Registry) where
  -- The user's role may enter marks; a teacher has a profile that is assigned to the class; the
  -- student is in the class.
  pub record IsAuthorized (dto : CreateMarkDto) (caller : JwtPayload) : Type 0 where
    pub role : may_enter caller.role ≡ true
    pub assigned :
        is_teacher caller.role ≡ true
        → (t a : String) × (reg.teacher_of caller.sub ≡ found (some t))
          × (reg.assignment_of t dto.class_id ≡ found (some a))
    pub enrolled : reg.class_of dto.student_id ≡ found (some dto.class_id)

  teacher_assigned-ok :
      (o : Option String) (class : String) (x : Unit {0})
      → teacher_assigned D reg o class ≡ ok x
      → (t a : String) × (o ≡ some t) × (reg.assignment_of t class ≡ found (some a))
  unfolding teacher_assigned
  teacher_assigned-ok none class x h = cc
  teacher_assigned-ok (some t) class x h =
      let (a, e) = assignment_found-ok _ x h in (t, a, refl, data_of-some _ a e)

  require_assigned-ok :
      (caller : JwtPayload) (class : String) (s : Gradebook D) (x : Unit {0})
      → (require_assigned D reg caller class s).0 ≡ ok x
      → is_teacher caller.role ≡ true
      → (t a : String) × (reg.teacher_of caller.sub ≡ found (some t))
        × (reg.assignment_of t class ≡ found (some a))
  unfolding require_assigned
  require_assigned-ok caller class s x h teaches =
      let k : teacher_assigned D reg (data_of (reg.teacher_of caller.sub)) class ≡ ok x =
        rw teaches at h in
      let (t, a, e, f) = teacher_assigned-ok _ class x k in (t, a, data_of-some _ t e, f)

  pub require_assigned-state :
      (caller : JwtPayload) (class : String) (s : Gradebook D)
      → (require_assigned D reg caller class s).1 ≡ s
  unfolding require_assigned
  require_assigned-state caller class s = refl

  abbrev pub term_reply : TermKey → Gradebook D → Reply (Option Finalization)
  term_reply k s = D.Finalizations.maybe_single (is_of_term k) s.finalizations

  -- The mark that a success has written, and the tables after it.
  pub record Entered (dto : CreateMarkDto) (caller : JwtPayload) (year : ℕ) (m : Mark)
      (s s' : Gradebook D) : Type 0 where
    pub authorized : IsAuthorized dto caller
    pub not_seen_locked :
        is_locked D reg (data_of (term_reply (term_key D reg caller dto.class_id year dto.term) s))
        ≡ false
    pub same_finalizations : s'.finalizations ≡ s.finalizations
    pub stored :
        ((old : Mark) × (select
              (is_mark_of caller.tenant_id year dto)
              (D.Marks.rows s.student_marks)
            ≡ old ∷ [])
          × (m ≡ graded dto old)
          × (D.Marks.rows s'.student_marks
              ≡ modify
                  (is_mark_of caller.tenant_id year dto)
                  (graded dto)
                  (D.Marks.rows s.student_marks)))
        ⊎ ((id : String) × (select
                (is_mark_of caller.tenant_id year dto)
                (D.Marks.rows s.student_marks)
              ≡ [])
            × (m ≡ new_mark caller.tenant_id year dto id)
            × (D.Marks.rows s'.student_marks ≡ D.Marks.rows s.student_marks ++ m ∷ []))

  mark_written-ok :
      (s s' : Gradebook D) (reply : Reply Mark) (db : D.Marks.Db) (m : Mark)
      → mark_written D reg s (reply, db) ≡ (ok m, s')
      → (reply ≡ found m) × (s' ≡ record s { student_marks = db })
  mark_written-ok s s' failed db m h = cc
  mark_written-ok s s' (found x) db m h = (
    let e : ok x ≡ ok m = ap (λ q. q.0) h in let same : x ≡ m = ground arith in ap found same,
    sym (ap (λ q. q.1) h),
  )

  pub upsert_mark_ok :
      (dto : CreateMarkDto) (caller : JwtPayload) (this_year : ℕ) (s s' : Gradebook D) (m : Mark)
      → upsert_mark D reg dto caller this_year s ≡ (ok m, s')
      → Entered dto caller (year_or dto.academic_year this_year) m s s'
  unfolding upsert_mark require_assigned require_enrolled require_open write_mark
  upsert_mark_ok dto caller this_year s s' m h =
      let year = year_or dto.academic_year this_year in
      let key = term_key D reg caller dto.class_id year dto.term in
      let locked = is_locked D reg (data_of (term_reply key s)) in
      let write = write_mark D reg caller.tenant_id year dto in
      let check_open = require_open D reg key in
      let check_enrolled = require_enrolled D reg dto in
      let check_assigned = require_assigned D reg caller dto.class_id in
      let checks = check_assigned >> (check_enrolled >> (check_open >> write)) in
      let (role, h0) =
        step-ok (require (may_enter caller.role) HttpError.forbidden)
          (get_tenant_client caller.tenant_id >> checks) s s' m
          (require-state (may_enter caller.role) HttpError.forbidden s) h in
      let (_, h1) =
        step-ok (get_tenant_client caller.tenant_id) checks s s' m
          (require-state (is_uuid caller.tenant_id) HttpError.bad_request s) h0 in
      let (assigned, h2) =
        step-ok check_assigned (check_enrolled >> (check_open >> write)) s s' m refl h1 in
      let (enrolled, h3) = step-ok check_enrolled (check_open >> write) s s' m refl h2 in
      let (is_open, h4) =
        step-ok check_open write s s' m (require-state (not locked) HttpError.forbidden s) h3 in
      let (reply, db) =
        D.Marks.upsert (is_mark_of caller.tenant_id year dto) (graded dto)
          (new_mark caller.tenant_id year dto) s.student_marks in
      let (replied, after) = mark_written-ok s s' reply db m h4 in
      record {
        authorized = record {
          role = require-ok (may_enter caller.role) HttpError.forbidden s role;
          assigned = require_assigned-ok caller dto.class_id s tt assigned;
          enrolled = data_of-some _ dto.class_id (in_class-ok dto.class_id _ tt enrolled);
        };
        not_seen_locked = not-true locked (require-ok (not locked) HttpError.forbidden s is_open);
        same_finalizations = ap (λ x. x.finalizations) after;
        stored = rw after (
            D.Marks.upsert_found (is_mark_of caller.tenant_id year dto) (graded dto)
              (new_mark caller.tenant_id year dto) s.student_marks m replied);
      }
