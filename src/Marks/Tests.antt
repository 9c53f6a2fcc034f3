-- ===== src/Marks/Tests.antt =====
-- The marks of one class (apps/api/src/modules/student-marks/student-marks.service.ts).
use edu_lanka.Prelude.{◌≡◌, refl, inl, true, none, some, List, [], ◌∷◌}
use edu_lanka.Http.{ok}
use edu_lanka.Postgrest.{found}
use edu_lanka.PostgrestMemory.{memory_table, at_most_one, upsert_one, insert_with}
use edu_lanka.Text.{trim}
use edu_lanka.User.{JwtPayload, UserRole}
use edu_lanka.Uuid.{is_uuid}
use edu_lanka.Marks.{
  Mark, CreateMarkDto, Registry, Stores, Gradebook, upsert_mark, finalize_term, reopen_term,
}
use edu_lanka.Marks.Locking.{Call, enter, reopen, after, run, IsRefused, finalized_term_frozen}

abbrev stores : Stores
stores = record { Finalizations = memory_table (λ f. f.id); Marks = memory_table (λ m. m.id) }

abbrev reg : Registry
reg = record {
  teacher_of = λ u. found (some "t-1");
  assignment_of = λ t c. found (some "ct-1");
  parent_link = λ u s. found none;
  class_of = λ s. found (some "10-A");
  user_of = λ s. found (some "u-7");
}

abbrev teacher : JwtPayload
teacher = record {
  sub = "u-1";
  tenant_id = "aaaaaaaa-0000-4000-8000-000000000001";
  role = UserRole.teacher;
}

abbrev maths : CreateMarkDto
maths = record {
  student_id = "s-1";
  class_id = "10-A";
  subject = "maths";
  term = 1;
  academic_year = 0;
  marks = 66;
}

abbrev empty : Gradebook stores
empty = record {
  finalizations = record { stored = []; ids = "f-1" ∷ [] };
  student_marks = record { stored = []; ids = "m-1" ∷ [] };
}

abbrev entered_mark : Mark
entered_mark = record {
  id = "m-1";
  tenant_id = "aaaaaaaa-0000-4000-8000-000000000001";
  student_id = "s-1";
  class_id = "10-A";
  subject = "maths";
  term = 1;
  academic_year = 2026;
  marks = 66;
  total_score = 66;
  grade = "B";
}

abbrev entered_book : Gradebook stores
entered_book = record {
  finalizations = record { stored = []; ids = "f-1" ∷ [] };
  student_marks = record { stored = entered_mark ∷ []; ids = [] };
}

abbrev final_book : Gradebook stores
final_book = record {
  finalizations = record {
    stored =
        record {
          id = "f-1";
          tenant_id = "aaaaaaaa-0000-4000-8000-000000000001";
          class_id = "10-A";
          academic_year = 2026;
          term = 1;
          is_finalized = true;
          finalized_at = some 9;
          finalized_by = some "u-1";
          reopened_at = none;
          reopened_by = none;
          updated_at = 9;
        }
        ∷ [];
    ids = [];
  };
  student_marks = record { stored = entered_mark ∷ []; ids = [] };
}

finalize_runs :
    finalize_term stores reg "10-A" 1 0 teacher 2026 9 entered_book ≡ (ok tt, final_book)
unfolding finalize_term is_uuid trim at_most_one upsert_one insert_with
finalize_runs = refl

abbrev calls : List (Call stores reg)
calls = enter maths teacher 2026 ∷ reopen "10-A" 1 0 teacher 2026 10 ∷ []

finalized_term_frozen_example :
    IsRefused stores reg maths teacher 2026 (run stores reg calls final_book)
unfolding run after is_uuid trim upsert_mark reopen_term at_most_one
finalized_term_frozen_example =
    finalized_term_frozen stores reg "10-A" 1 0 teacher 2026 9 entered_book final_book calls maths
      teacher 2026 finalize_runs (tt, (inl refl, tt)) refl (λ e. cc)
