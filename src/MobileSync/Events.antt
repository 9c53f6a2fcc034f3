-- ===== src/MobileSync/Events.antt =====
-- What an event of attendance from a device does
-- (apps/api/src/modules/mobile/mobile-sync.service.ts).
use mathlib.Core.Path.{subst}
use edu_lanka.Prelude.{
  ℕ, String, ◌≡◌, ◌≢◌, refl, sym, ap, ◌∙◌, Bool, true, false, ◌&&◌, Option, none, some, str_eq,
  if◌then◌else◌,
}
use edu_lanka.Http.{Result, ok, err}
use edu_lanka.Postgrest.{failed, Table}
use edu_lanka.MobileSync.{
  Row, Student, Server, cell_of, is_at, clamped, merge, then_applied, apply_event, sync_student,
  sync_attendance,
}
use edu_lanka.MobileSync.Merging.{IsKeyed, mark_at}
use edu_lanka.MobileSync.Order.{IsMerged, merge-IsMerged}

module _ (T : Table Row) (id_is_key : (r : Row) → T.key r ≡ r.id) where
  apply_event-attendance :
      (event : Option String) (s : Server T) → (apply_event T event s).attendance ≡ s.attendance
  apply_event-attendance none s = refl
  apply_event-attendance (some id) s = refl

  then_applied-ok :
      (event : Option String) (x : Result (Unit {0}) × Server T) (s' : Server T)
      → then_applied T event x ≡ (ok tt, s')
      → (x ≡ (ok tt, x.1)) × (x.1.attendance ≡ s'.attendance)
  then_applied-ok event (ok u, s) s' h =
      (refl, sym (apply_event-attendance event s) ∙ ap (λ z. z.1.attendance) h)
  then_applied-ok event (err e, s) s' h = absurd (let bad : err e ≡ ok tt = ap (λ z. z.0) h in cc)

  active-IsMerged :
      (answers : Bool) (tenant caller class student date : String) (period : ℕ) (status : String)
      (marked_at now : ℕ) (event : Option String) (r : Student) (s s' : Server T) (b : Bool)
      → b ≡ true
      → (if b
          then then_applied T event (
              merge T answers
                (cell_of tenant class student date period r)
                caller
                status
                (clamped marked_at now)
                s)
          else (ok tt, apply_event T event s))
        ≡ (ok tt, s')
      → IsKeyed (T.rows s.attendance)
      → T.maybe_single (is_at (cell_of tenant class student date period r)) s.attendance ≢ failed
      → IsMerged T id_is_key
          (cell_of tenant class student date period r)
          status
          (clamped marked_at now)
          (mark_at (cell_of tenant class student date period r) (T.rows s.attendance))
          s'.attendance
  active-IsMerged answers tenant caller class student date period status marked_at now event r s s'
        true e h k n =
      let cell = cell_of tenant class student date period r in
      let x = merge T answers cell caller status (clamped marked_at now) s in
      let (a, same) = then_applied-ok event x s' h in
      subst
        (IsMerged T id_is_key cell status (clamped marked_at now)
          (mark_at cell (T.rows s.attendance)))
        same
        (merge-IsMerged T id_is_key answers cell caller status (clamped marked_at now) s x.1 k n a)
  active-IsMerged answers tenant caller class student date period status marked_at now event r s s'
        false e h k n =
      absurd (let bad : false ≡ true = e in cc)

  -- An event that was not applied before, with its class, student and date, for an active student of
  -- the class, that succeeds after an answered query for the student's row of that date and period, in a
  -- table whose ids are unique: the row then has the later of the mark that stood there, if any, and the
  -- event's, whose time counts as at most a minute after the server's; and ids stay unique.
  pub sync_attendance-IsMerged :
      (answers : Bool) (tenant caller class student date : String) (period : ℕ) (status : String)
      (marked_at now : ℕ) (event : Option String) (students : String → Option Student) (r : Student)
      (s s' : Server T)
      → students student ≡ some r
      → (str_eq r.class_id class && r.is_active) ≡ true
      → IsKeyed (T.rows s.attendance)
      → T.maybe_single (is_at (cell_of tenant class student date period r)) s.attendance ≢ failed
      → sync_attendance T answers tenant caller false event
          (record {
            class_id = some class;
            student_id = some student;
            date = some date;
            period = period;
            status = status;
            marked_at = marked_at;
          })
          now
          students
          s
        ≡ (ok tt, s')
      → IsMerged T id_is_key
          (cell_of tenant class student date period r)
          status
          (clamped marked_at now)
          (mark_at (cell_of tenant class student date period r) (T.rows s.attendance))
          s'.attendance
  unfolding sync_attendance
  sync_attendance-IsMerged answers tenant caller class student date period status marked_at now
        event students r s s' f b k n h =
      active-IsMerged answers tenant caller class student date period status marked_at now event r s
        s' (str_eq r.class_id class && r.is_active) b
        (subst
          (λ o.
            sync_student T answers tenant caller event
              (record {
                class_id = some class;
                student_id = some student;
                date = some date;
                period = period;
                status = status;
                marked_at = marked_at;
              })
              class student date now o s
            ≡ (ok tt, s'))
          f h)
        k n
