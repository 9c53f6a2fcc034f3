-- ===== src/Attendance/Recording/Stored.antt =====
-- What a roll call that has been saved has checked and written
-- (apps/api/src/modules/attendance/attendance.service.ts).
use mathlib.Core.Path.{subst}
use edu_lanka.Prelude.{
  ℕ, String, ◌≡◌, refl, sym, ap, ◌∙◌, inl, inr, Bool, true, not, none, some, List, [], ◌∷◌, map,
  length, length-map, select, All, Bool-cases,
}
use edu_lanka.JsMap.{JsMap, get-nil}
use edu_lanka.Http.{Result, ok, err, HttpError}
use edu_lanka.Postgrest.{Reply, found, failed}
use edu_lanka.User.{JwtPayload}
use edu_lanka.Attendance.{Assignments, assert_class_access, by_student, or_empty}
use edu_lanka.Attendance.Recording.Mapping.{IsStudent, known-some, user_map-cases}
use edu_lanka.Attendance.Recording.{
  RecordItem, RecordAttendanceDto, Enrolled, user_map, is_known, new_row, conflicts, RollTable,
  Rolls, with_conflicts, saved, write_rows, record_known, record_given, record_allowed,
  record_attendance,
}

all_known :
    (m : JsMap String) (rs : List RecordItem)
    → select (λ r. not (is_known m r)) rs ≡ []
    → All (λ r. is_known m r ≡ true) rs
all_known m [] h = tt
all_known m (r ∷ rs) h = elim (Bool-cases (is_known m r)) [
  | inl e ↦ (e, all_known m rs (rw e at h))
  | inr e ↦ absurd (let bad : r ∷ select (λ x. not (is_known m x)) rs ≡ [] = rw e at h in cc)
]

All-map :
    {A B : Type 0} (P : B → Type 0) (f : A → B) (xs : List A)
    → All P (map f xs)
    → All (λ x. P (f x)) xs
All-map P f [] h = tt
All-map P f (x ∷ xs) h = (h.0, All-map P f xs h.1)

All-both :
    {A : Type 0} (P Q : A → Type 0) (xs : List A) → All P xs → All Q xs → All (λ x. P x × Q x) xs
All-both P Q [] h k = tt
All-both P Q (x ∷ xs) h k = ((h.0, k.0), All-both P Q xs h.1 k.1)

All-impl :
    {A : Type 0} (P Q : A → Type 0) (xs : List A) → ((x : A) → P x → Q x) → All P xs → All Q xs
All-impl P Q [] f h = tt
All-impl P Q (x ∷ xs) f h = (f x h.0, All-impl P Q xs f h.1)

module _ (T : RollTable) where
  saved-ok :
      (s s' : Rolls T) (x : Reply ℕ × T.Db) (n : ℕ)
      → saved T s x ≡ (ok n, s')
      → (x.0 ≡ found n) × (x.1 ≡ s'.attendance)
  saved-ok s s' (found k, db) n h =
      let same : ok k ≡ ok n = ap (λ z. z.0) h in
      let same_number : k ≡ n = cc in (ap found same_number, ap (λ z. z.1.attendance) h)
  saved-ok s s' (failed, db) n h =
      absurd (let bad : err HttpError.internal_error ≡ ok n = ap (λ z. z.0) h in cc)

  -- What is known of a row that has been saved, by the map of ids.
  abbrev IsMapped : String → RecordAttendanceDto → JsMap String → ℕ → T.Db → RecordItem → Type 0
  IsMapped tenant dto m now db r =
      (is_known m r ≡ true)
      × (T.cell tenant dto.class_id (new_row dto m now r).student_id dto.date dto.period db
          ≡ some (new_row dto m now r))

  written :
      (tenant : String) (dto : RecordAttendanceDto) (answers : Bool) (now : ℕ) (m : JsMap String)
      (s s' : Rolls T) (n : ℕ)
      → write_rows T tenant dto answers (map (new_row dto m now) dto.records) s ≡ (ok n, s')
      → (n ≡ length dto.records)
        × All
            (λ r.
              T.cell tenant dto.class_id
                (new_row dto m now r).student_id
                dto.date
                dto.period
                s'.attendance
              ≡ some (new_row dto m now r))
            dto.records
  written tenant dto answers now m s s' n h =
      let rows = map (new_row dto m now) dto.records in
      let existing =
        T.select_cells tenant dto.class_id dto.date dto.period (map (λ r. r.student_id) rows)
          s.attendance in
      let logged =
        with_conflicts T answers (conflicts (by_student [] (or_empty existing)) rows) s in
      let (e, f) =
        saved-ok logged s' (T.upsert_rows tenant dto.class_id rows logged.attendance) n h in
      let (k, all) = T.upsert_rows_found tenant dto.class_id rows logged.attendance n e in
      (
        k ∙ length-map (new_row dto m now) dto.records,
        subst
            (λ db.
              All
                (λ r.
                  T.cell tenant dto.class_id (new_row dto m now r).student_id dto.date dto.period db
                  ≡ some (new_row dto m now r))
                dto.records)
            f
            (All-map
              (λ r.
                T.cell tenant dto.class_id r.student_id r.date r.period
                  (T.upsert_rows tenant dto.class_id rows logged.attendance).1
                ≡ some r)
              (new_row dto m now) dto.records all),
      )

  known-IsMapped :
      (tenant : String) (dto : RecordAttendanceDto) (answers : Bool) (now : ℕ) (m : JsMap String)
      (unknown : List RecordItem) (s s' : Rolls T) (n : ℕ)
      → select (λ r. not (is_known m r)) dto.records ≡ unknown
      → record_known T tenant dto answers now m unknown s ≡ (ok n, s')
      → (n ≡ length dto.records) × All (IsMapped tenant dto m now s'.attendance) dto.records
  known-IsMapped tenant dto answers now m [] s s' n e h =
      let (k, all) = written tenant dto answers now m s s' n h in
      (
        k,
        All-both (λ r. is_known m r ≡ true)
            (λ r.
              T.cell tenant dto.class_id (new_row dto m now r).student_id dto.date dto.period
                s'.attendance
              ≡ some (new_row dto m now r))
            dto.records (all_known m dto.records e) all,
      )
  known-IsMapped tenant dto answers now m (r ∷ rs) s s' n e h =
      absurd (let bad : err HttpError.bad_request ≡ ok n = ap (λ z. z.0) h in cc)

  given-IsMapped :
      (tenant : String) (dto : RecordAttendanceDto) (answers : Bool) (now : ℕ)
      (students : List Enrolled) (rs : List RecordItem) (s s' : Rolls T) (n : ℕ)
      → record_given T tenant dto answers now (found students) rs s ≡ (ok n, s')
      → (n ≡ length dto.records)
        × All (IsMapped tenant dto (user_map [] students) now s'.attendance) dto.records
  given-IsMapped tenant dto answers now students [] s s' n h =
      absurd (let bad : err HttpError.bad_request ≡ ok n = ap (λ z. z.0) h in cc)
  given-IsMapped tenant dto answers now students (r ∷ rs) s s' n h =
      let m = user_map [] students in
      known-IsMapped tenant dto answers now m (select (λ r. not (is_known m r)) dto.records) s s' n
        refl h

  -- A record has been saved: it is of an active student of the class, and the cell of the student's user
  -- holds its status and the time of the call.
  abbrev pub IsRecorded :
      String → RecordAttendanceDto → List Enrolled → ℕ → T.Db → RecordItem → Type 0
  IsRecorded tenant dto students now db r =
      (e : Enrolled) × IsStudent students r.student_id e
      × (T.cell tenant dto.class_id e.user_id dto.date dto.period db
          ≡ some (record {
            student_id = e.user_id;
            date = dto.date;
            period = dto.period;
            status = r.status;
            marked_at = now;
          }))

  mapped-IsRecorded :
      (tenant : String) (dto : RecordAttendanceDto) (students : List Enrolled) (now : ℕ) (db : T.Db)
      (r : RecordItem)
      → IsMapped tenant dto (user_map [] students) now db r
      → IsRecorded tenant dto students now db r
  mapped-IsRecorded tenant dto students now db r (known, stored) =
      let (w, e) = known-some (user_map [] students) r known in
      elim (user_map-cases [] students r.student_id w e) [
        | inl (d, i, u) ↦
            let written : T.cell tenant dto.class_id w dto.date dto.period db
                ≡ some (record {
                  student_id = w;
                  date = dto.date;
                  period = dto.period;
                  status = r.status;
                  marked_at = now;
                }) =
              rw e at stored in
            (
              d,
              i,
              subst
                  (λ x.
                    T.cell tenant dto.class_id x dto.date dto.period db
                    ≡ some (record {
                      student_id = x;
                      date = dto.date;
                      period = dto.period;
                      status = r.status;
                      marked_at = now;
                    }))
                  (sym u) written,
            )
        | inr bad ↦ absurd (let none_is : none ≡ some w = sym (get-nil r.student_id) ∙ bad in cc)
      ]

  -- A roll call that succeeds, for a class whose active students were found, was allowed to the caller;
  -- each of its records is of one of these students, by the id of its row or of its user, and the cell of
  -- that user holds the status given and the time of the call; and it tells their number.
  pub record_attendance-stored :
      (A : Assignments) (caller : JwtPayload) (dto : RecordAttendanceDto) (students : List Enrolled)
      (answers : Bool) (now : ℕ) (s s' : Rolls T) (n : ℕ)
      → record_attendance T A caller dto (found students) answers now s ≡ (ok n, s')
      → (assert_class_access A caller dto.class_id ≡ ok tt)
        × (n ≡ length dto.records)
        × All (IsRecorded caller.tenant_id dto students now s'.attendance) dto.records
  unfolding record_attendance
  record_attendance-stored A caller dto students answers now s s' n h =
      go (assert_class_access A caller dto.class_id) h
    where
      go :
          (x : Result (Unit {0}))
          → record_allowed T caller.tenant_id dto answers now (found students) s x ≡ (ok n, s')
          → (x ≡ ok tt)
            × (n ≡ length dto.records)
            × All (IsRecorded caller.tenant_id dto students now s'.attendance) dto.records
      go (ok u) k =
          let (e, all) =
            given-IsMapped caller.tenant_id dto answers now students dto.records s s' n k in
          (
            refl,
            e,
            All-impl (IsMapped caller.tenant_id dto (user_map [] students) now s'.attendance)
                (IsRecorded caller.tenant_id dto students now s'.attendance) dto.records
                (mapped-IsRecorded caller.tenant_id dto students now s'.attendance) all,
          )
      go (err e) k = absurd (let bad : err e ≡ ok n = ap (λ z. z.0) k in cc)
