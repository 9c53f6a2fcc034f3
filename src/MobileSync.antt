-- ===== src/MobileSync.antt =====
-- The attendance of `appendSyncEvent` (apps/api/src/modules/mobile/mobile-sync.service.ts): what an
-- event from a device that was offline does to the table, once the event is stored.
pub mod Merging
pub mod Order
pub mod Events
mod Tests
use edu_lanka.Prelude.{
  ℕ, ◌+◌, String, Bool, true, false, not, ◌&&◌, Option, none, some, List, [], ◌∷◌, ◌++◌, ltb, ◌==◌,
  min, str_eq, if◌then◌else◌,
}
use edu_lanka.Http.{Result, ok, err, HttpError}
use edu_lanka.Postgrest.{Reply, found, failed, Table}

-- A row of `attendance`. A missing time counts as 0, and the status is what the device sent.
pub record Row : Type 0 where
  pub id : String
  pub tenant_id : String
  pub class_id : String
  pub student_id : String
  pub date : String
  pub period : ℕ
  pub status : String
  pub marked_at : ℕ
  pub marked_by : String

-- The payload of an event, with the defaults that the code puts in; times are in milliseconds. The
-- class, the student and the date are `none` if they are missing or empty.
pub record Payload : Type 0 where
  pub class_id : Option String
  pub student_id : Option String
  pub date : Option String
  pub period : ℕ
  pub status : String
  pub marked_at : ℕ

-- The columns that a row is found by.
pub record Cell : Type 0 where
  pub tenant_id : String
  pub class_id : String
  pub student_id : String
  pub date : String
  pub period : ℕ

-- The row of `students` that the query by either id gives.
pub record Student : Type 0 where
  pub user_id : String
  pub class_id : String
  pub is_active : Bool

pub record Resolution : Type 0 where
  pub client_status : String
  pub server_status : String
  pub client_wins : Bool

pub record Server (T : Table Row) : Type 0 where
  pub attendance : T.Db
  pub conflicts_log : List Resolution
  -- The events that are marked as applied.
  pub applied : List String

-- The cell of an event: the student's user id, if there is one.
abbrev pub cell_of : String → String → String → String → ℕ → Student → Cell
cell_of tenant class student date period r = record {
  tenant_id = tenant;
  class_id = class;
  student_id = if str_eq r.user_id "" then student else r.user_id;
  date = date;
  period = period;
}

abbrev pub is_at : Cell → Row → Bool
is_at c r =
    str_eq r.tenant_id c.tenant_id
    && str_eq r.class_id c.class_id
    && str_eq r.student_id c.student_id
    && str_eq r.date c.date
    && r.period == c.period

abbrev pub has_id : String → Row → Bool
has_id id r = str_eq r.id id

-- A device's clock is at most a minute ahead.
abbrev pub clamped : ℕ → ℕ → ℕ
clamped client_time server_now = min client_time (server_now + 60000)

abbrev pub marked : String → String → ℕ → ℕ → Row → Row
marked caller status period at r = record r {
  status = status;
  period = period;
  marked_at = at;
  marked_by = caller;
}

abbrev pub new_row : Cell → String → String → ℕ → String → Row
new_row c caller status at id = record {
  id = id;
  tenant_id = c.tenant_id;
  class_id = c.class_id;
  student_id = c.student_id;
  date = c.date;
  period = c.period;
  status = status;
  marked_at = at;
  marked_by = caller;
}

module _ (T : Table Row) where
  abbrev pub logged : Bool → Resolution → Server T → Server T
  logged true e s = record s { conflicts_log = s.conflicts_log ++ e ∷ [] }
  logged false e s = s

  -- The log of a row with another status; a failed insert is dropped.
  abbrev pub log_conflict : Bool → Row → String → ℕ → Server T → Server T
  log_conflict answers old status at s =
      if str_eq old.status status
      then s
      else logged answers
          (record {
            client_status = status;
            server_status = old.status;
            client_wins = ltb old.marked_at at;
          })
          s

  abbrev pub set_attendance : T.Db → Server T → Server T
  set_attendance db s = record s { attendance = db }

  abbrev pub updated : Server T → Reply (Unit {0}) × T.Db → Result (Unit {0}) × Server T
  updated s (found u, db) = (ok tt, set_attendance db s)
  updated s (failed, db) = (err HttpError.internal_error, set_attendance db s)

  abbrev pub inserted : Server T → Reply String × T.Db → Result (Unit {0}) × Server T
  inserted s (found id, db) = (ok tt, set_attendance db s)
  inserted s (failed, db) = (err HttpError.internal_error, set_attendance db s)

  abbrev pub merge_wins :
      Cell → String → String → ℕ → Row → Bool → Server T → Result (Unit {0}) × Server T
  merge_wins c caller status at old true s =
      updated s (T.update (has_id old.id) (marked caller status c.period at) s.attendance)
  merge_wins c caller status at old false s = (ok tt, s)

  -- The row that is found. An error of the query counts as no row.
  abbrev pub merge_found :
      Bool
      → Cell
      → String
      → String
      → ℕ
      → Reply (Option Row)
      → Server T
      → Result (Unit {0}) × Server T
  merge_found answers c caller status at (found (some old)) s =
      merge_wins c caller status at old (ltb old.marked_at at)
        (log_conflict answers old status at s)
  merge_found answers c caller status at _ s =
      inserted s (T.insert (new_row c caller status at) s.attendance)

  unfoldable pub merge : Bool → Cell → String → String → ℕ → Server T → Result (Unit {0}) × Server T
  merge answers c caller status at s =
      merge_found answers c caller status at (T.maybe_single (is_at c) s.attendance) s

  abbrev pub apply_event : Option String → Server T → Server T
  apply_event none s = s
  apply_event (some id) s = record s { applied = s.applied ++ id ∷ [] }

  abbrev pub then_applied :
      Option String → Result (Unit {0}) × Server T → Result (Unit {0}) × Server T
  then_applied event (ok u, s) = (ok u, apply_event event s)
  then_applied event (err e, s) = (err e, s)

  -- The student's row decides: an event for one who is not an active student of the class is dropped.
  abbrev pub sync_student :
      Bool
      → String
      → String
      → Option String
      → Payload
      → String
      → String
      → String
      → ℕ
      → Option Student
      → Server T
      → Result (Unit {0}) × Server T
  sync_student answers tenant caller event p class student date now none s =
      (ok tt, apply_event event s)
  sync_student answers tenant caller event p class student date now (some r) s =
      let cell = cell_of tenant class student date p.period r in
      let applied =
        then_applied event (merge answers cell caller p.status (clamped p.marked_at now) s) in
      if str_eq r.class_id class && r.is_active then applied else (ok tt, apply_event event s)

  abbrev pub sync_payload :
      Bool
      → String
      → String
      → Option String
      → Payload
      → Option String
      → Option String
      → Option String
      → ℕ
      → (String → Option Student)
      → Server T
      → Result (Unit {0}) × Server T
  sync_payload answers tenant caller event p (some class) (some student) (some date) now students
        s =
      sync_student answers tenant caller event p class student date now (students student) s
  sync_payload answers tenant caller event p _ _ _ now students s = (ok tt, s)

  -- For an event of attendance: whether it was applied before, the id of the stored event, the payload,
  -- the clock, and the reply of `students`.
  unfoldable pub sync_attendance :
      Bool
      → String
      → String
      → Bool
      → Option String
      → Payload
      → ℕ
      → (String → Option Student)
      → Server T
      → Result (Unit {0}) × Server T
  unfolding merge
  sync_attendance answers tenant caller true event p now students s = (ok tt, s)
  sync_attendance answers tenant caller false event p now students s =
      sync_payload answers tenant caller event p p.class_id p.student_id p.date now students s
