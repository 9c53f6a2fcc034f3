-- ===== src/MobileSync/Tests.antt =====
-- Events of two devices for one student (apps/api/src/modules/mobile/mobile-sync.service.ts).
use edu_lanka.Prelude.{ℕ, String, ◌≡◌, refl, sym, ◌∙◌, true, false, some, [], ◌∷◌, inl, inr, arith}
use edu_lanka.Postgrest.{Table}
use edu_lanka.PostgrestMemory.{memory_table, at_most_one, found-ne-failed}
use edu_lanka.MobileSync.{Row, Cell, Student, Server, cell_of, new_row, merge, sync_attendance}
use edu_lanka.MobileSync.Merging.{IsKeyed, mark_at}
use edu_lanka.MobileSync.Order.{IsMerged, merge-order}
use edu_lanka.MobileSync.Events.{sync_attendance-IsMerged}

abbrev table : Table Row
table = memory_table (λ r. r.id)

abbrev nimal : Student
nimal = record { user_id = "u-1"; class_id = "7-A"; is_active = true }

abbrev cell : Cell
cell = cell_of "royal" "7-A" "s-1" "2026-05-04" 1 nimal

abbrev marked_present : Row
marked_present = new_row cell "t-1" "PRESENT" 100 "a-1"

abbrev server : Server table
server = record {
  attendance = record { stored = marked_present ∷ []; ids = "a-2" ∷ [] };
  conflicts_log = [];
  applied = [];
}

one-IsKeyed : (r : Row) → IsKeyed (r ∷ [])
one-IsKeyed r a b (inl e) (inl f) h = e ∙ sym f
one-IsKeyed r a b (inl e) (inr m) h = absurd m
one-IsKeyed r a b (inr m) j h = absurd m

abbrev synced : Server table
synced =
    (sync_attendance table true "royal" "t-2" false (some "e-1")
      (record {
        class_id = some "7-A";
        student_id = some "s-1";
        date = some "2026-05-04";
        period = 1;
        status = "ABSENT";
        marked_at = 90000000;
      })
      200 (λ id. some nimal) server).1

sync_attendance-IsMerged_example :
    IsMerged table (λ r. refl) cell "ABSENT" 60200 (some ("PRESENT", 100)) synced.attendance
unfolding sync_attendance merge at_most_one
sync_attendance-IsMerged_example =
    sync_attendance-IsMerged table (λ r. refl) true "royal" "t-2" "7-A" "s-1" "2026-05-04" 1
      "ABSENT" 90000000 200 (some "e-1") (λ id. some nimal) nimal server synced refl refl
      (one-IsKeyed marked_present) (λ h. found-ne-failed h) refl

abbrev after : String → String → ℕ → Server table → Server table
after by status at s = (merge table true cell by status at s).1

merge-order_example :
    mark_at cell (after "t-3" "LATE" 400 (after "t-2" "ABSENT" 300 server)).attendance.stored
    ≡ mark_at cell (after "t-2" "ABSENT" 300 (after "t-3" "LATE" 400 server)).attendance.stored
unfolding merge at_most_one
merge-order_example =
    merge-order table (λ r. refl) cell "t-2" "t-3" "ABSENT" "LATE" 300 400 true server
      (after "t-2" "ABSENT" 300 server) (after "t-3" "LATE" 400 (after "t-2" "ABSENT" 300 server))
      (after "t-3" "LATE" 400 server) (after "t-2" "ABSENT" 300 (after "t-3" "LATE" 400 server))
      (λ e. absurd (let bad : ⊥ = ground arith in bad)) (one-IsKeyed marked_present)
      (λ h. found-ne-failed h) refl (λ h. found-ne-failed h) refl refl (λ h. found-ne-failed h) refl
