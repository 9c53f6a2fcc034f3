-- ===== src/Marks.antt =====
-- `StudentMarksService` (apps/api/src/modules/student-marks/student-marks.service.ts): marks, and the
-- finalization of a term. The tables that the service only reads are the replies to its queries.
pub mod Entering
mod Tests
pub mod Terms
pub mod Writes
pub mod Locking
use edu_lanka.Prelude.{
  ℕ, ◌&&◌, ◌||◌, String, Bool, true, false, not, Option, none, some, List, [], ◌∷◌, leb, ◌==◌,
  str_eq, if◌then◌else◌,
}
use edu_lanka.Http.{Result, ok, err, HttpError, Action, ◌>>=◌, ◌>>◌, return, throw, require}
use edu_lanka.Postgrest.{Reply, found, failed, Table}
use edu_lanka.User.{JwtPayload, UserRole, is_admin, is_teacher}
use edu_lanka.Uuid.{get_tenant_client}

pub record Mark : Type 0 where
  pub id : String
  pub tenant_id : String
  pub student_id : String
  pub class_id : String
  pub subject : String
  pub term : ℕ
  pub academic_year : ℕ
  pub marks : ℕ
  pub total_score : ℕ
  pub grade : String

pub record Finalization : Type 0 where
  pub id : String
  pub tenant_id : String
  pub class_id : String
  pub academic_year : ℕ
  pub term : ℕ
  pub is_finalized : Bool
  pub finalized_at : Option ℕ
  pub finalized_by : Option String
  pub reopened_at : Option ℕ
  pub reopened_by : Option String
  pub updated_at : ℕ

-- The columns that a finalization is found by.
pub record TermKey : Type 0 where
  pub tenant_id : String
  pub class_id : String
  pub academic_year : ℕ
  pub term : ℕ

-- `CreateMarkDto`; an academic year of 0 stands for a missing one.
pub record CreateMarkDto : Type 0 where
  pub student_id : String
  pub class_id : String
  pub subject : String
  pub term : ℕ
  pub academic_year : ℕ
  pub marks : ℕ

-- The ids that the queries of `teachers` by user, of `class_teachers` by teacher and class, and of
-- `parents` by user and student give, and the class and the user of a student.
pub record Registry : Type 0 where
  pub teacher_of : String → Reply (Option String)
  pub assignment_of : String → String → Reply (Option String)
  pub parent_link : String → String → Reply (Option String)
  pub class_of : String → Reply (Option String)
  pub user_of : String → Reply (Option String)

-- The tables that the service writes.
pub record Stores : Type 1 where
  pub Finalizations : Table Finalization
  pub Marks : Table Mark

pub record Gradebook (D : Stores) : Type 0 where
  pub finalizations : D.Finalizations.Db
  pub student_marks : D.Marks.Db

-- `const { data } = ...`: the error is dropped.
abbrev pub data_of {ℓ} : {A : Type ℓ} → Reply (Option A) → Option A
data_of failed = none
data_of (found o) = o

abbrev pub or_throw {ℓ} : {A : Type ℓ} → Option A → HttpError → Result A
or_throw none e = err e
or_throw (some a) e = ok a

-- `dto.academicYear || new Date().getFullYear()`.
abbrev pub year_or : ℕ → ℕ → ℕ
year_or year this_year = if year == 0 then this_year else year

unfoldable pub letter_grade : ℕ → String
letter_grade marks =
    if leb 75 marks
    then "A"
    else if leb 65 marks
    then "B"
    else if leb 50 marks
    then "C"
    else if leb 35 marks
    then "S"
    else "W"

abbrev pub may_enter : UserRole → Bool
may_enter r = is_teacher r || is_admin r

abbrev pub is_of_term : TermKey → Finalization → Bool
is_of_term k f =
    str_eq f.tenant_id k.tenant_id
    && str_eq f.class_id k.class_id
    && f.academic_year == k.academic_year
    && f.term == k.term

-- `onConflict: 'tenant_id, student_id, academic_year, term, subject'`.
abbrev pub is_mark_of : String → ℕ → CreateMarkDto → Mark → Bool
is_mark_of tenant year dto m =
    str_eq m.tenant_id tenant
    && str_eq m.student_id dto.student_id
    && m.academic_year == year
    && m.term == dto.term
    && str_eq m.subject dto.subject

-- The columns that the upsert of a mark writes, over a stored row or as a new one.
abbrev pub graded : CreateMarkDto → Mark → Mark
graded dto m = record m {
  class_id = dto.class_id;
  marks = dto.marks;
  total_score = dto.marks;
  grade = letter_grade dto.marks;
}

abbrev pub new_mark : String → ℕ → CreateMarkDto → String → Mark
new_mark tenant year dto id = record {
  id = id;
  tenant_id = tenant;
  student_id = dto.student_id;
  class_id = dto.class_id;
  subject = dto.subject;
  term = dto.term;
  academic_year = year;
  marks = dto.marks;
  total_score = dto.marks;
  grade = letter_grade dto.marks;
}

abbrev pub finalized : ℕ → String → Finalization → Finalization
finalized now by f = record f {
  is_finalized = true;
  finalized_at = some now;
  finalized_by = some by;
  updated_at = now;
}

abbrev pub new_finalization : TermKey → ℕ → String → String → Finalization
new_finalization k now by id = record {
  id = id;
  tenant_id = k.tenant_id;
  class_id = k.class_id;
  academic_year = k.academic_year;
  term = k.term;
  is_finalized = true;
  finalized_at = some now;
  finalized_by = some by;
  reopened_at = none;
  reopened_by = none;
  updated_at = now;
}

abbrev pub reopened : ℕ → String → Finalization → Finalization
reopened now by f = record f {
  is_finalized = false;
  reopened_at = some now;
  reopened_by = some by;
  updated_at = now;
}

abbrev pub assignment_found : Option String → Result (Unit {0})
assignment_found none = err HttpError.forbidden
assignment_found (some _) = ok tt

-- The student exists and is in the class.
abbrev pub in_class : String → Option String → Result (Unit {0})
in_class class none = err HttpError.not_found
in_class class (some c) = if str_eq c class then ok tt else err HttpError.forbidden

module _ (D : Stores) (reg : Registry) where
  -- A teacher must be assigned to the class; other roles are not looked up.
  pub teacher_assigned : Option String → String → Result (Unit {0})
  teacher_assigned none class = err HttpError.not_found
  teacher_assigned (some t) class = assignment_found (data_of (reg.assignment_of t class))

  pub require_assigned : JwtPayload → String → Action (Gradebook D) (Unit {0})
  unfolding teacher_assigned
  require_assigned caller class s = (
    if is_teacher caller.role
        then teacher_assigned (data_of (reg.teacher_of caller.sub)) class
        else ok tt,
    s,
  )

  pub require_enrolled : CreateMarkDto → Action (Gradebook D) (Unit {0})
  require_enrolled dto s = (in_class dto.class_id (data_of (reg.class_of dto.student_id)), s)

  -- `finalization?.is_finalized`.
  abbrev pub is_locked : Option Finalization → Bool
  is_locked none = false
  is_locked (some f) = f.is_finalized

  pub require_open : TermKey → Action (Gradebook D) (Unit {0})
  require_open k s =
      require
        (not (is_locked (data_of (D.Finalizations.maybe_single (is_of_term k) s.finalizations))))
        HttpError.forbidden s

  abbrev pub mark_written : Gradebook D → Reply Mark × D.Marks.Db → Result Mark × Gradebook D
  mark_written s (failed, db) = (err HttpError.internal_error, record s { student_marks = db })
  mark_written s (found m, db) = (ok m, record s { student_marks = db })

  pub write_mark : String → ℕ → CreateMarkDto → Action (Gradebook D) Mark
  write_mark tenant year dto s = mark_written s (
      D.Marks.upsert (is_mark_of tenant year dto) (graded dto) (new_mark tenant year dto)
        s.student_marks)

  abbrev pub term_key : JwtPayload → String → ℕ → ℕ → TermKey
  term_key caller class year term = record {
    tenant_id = caller.tenant_id;
    class_id = class;
    academic_year = year;
    term = term;
  }

  unfoldable pub upsert_mark : CreateMarkDto → JwtPayload → ℕ → Action (Gradebook D) Mark
  unfolding require_assigned require_enrolled require_open write_mark
  upsert_mark dto caller this_year = do
    require (may_enter caller.role) HttpError.forbidden
    get_tenant_client caller.tenant_id
    require_assigned caller dto.class_id
    require_enrolled dto
    require_open (term_key caller dto.class_id (year_or dto.academic_year this_year) dto.term)
    write_mark caller.tenant_id (year_or dto.academic_year this_year) dto

  abbrev pub term_written :
      {A : Type 0} → Gradebook D → Reply A × D.Finalizations.Db → Result (Unit {0}) × Gradebook D
  term_written s (failed, db) = (err HttpError.internal_error, record s { finalizations = db })
  term_written s (found _, db) = (ok tt, record s { finalizations = db })

  pub write_finalization : TermKey → ℕ → String → Action (Gradebook D) (Unit {0})
  write_finalization k now by s = term_written s (
      D.Finalizations.upsert (is_of_term k) (finalized now by) (new_finalization k now by)
        s.finalizations)

  unfoldable pub finalize_term :
      String → ℕ → ℕ → JwtPayload → ℕ → ℕ → Action (Gradebook D) (Unit {0})
  unfolding require_assigned write_finalization
  finalize_term class term year caller this_year now = do
    require (may_enter caller.role) HttpError.forbidden
    get_tenant_client caller.tenant_id
    require_assigned caller class
    write_finalization (term_key caller class (year_or year this_year) term) now caller.sub

  -- No row is not an error.
  pub write_reopening : TermKey → ℕ → String → Action (Gradebook D) (Unit {0})
  write_reopening k now by s =
      term_written s (D.Finalizations.update_maybe (is_of_term k) (reopened now by) s.finalizations)

  unfoldable pub reopen_term : String → ℕ → ℕ → JwtPayload → ℕ → ℕ → Action (Gradebook D) (Unit {0})
  unfolding write_reopening
  reopen_term class term year caller this_year now = do
    require (is_admin caller.role) HttpError.forbidden
    get_tenant_client caller.tenant_id
    write_reopening (term_key caller class (year_or year this_year) term) now caller.sub
