-- ===== src/Users/Creation/Tests.antt =====
-- Imports on accounts and tables held in memory (apps/api/src/modules/users/users.service.ts).
use edu_lanka.Prelude.{String, ◌≡◌, refl, Option, none, some, List, [], ◌∷◌}
use edu_lanka.Text.{Text, codes, trim, same}
use edu_lanka.Http.{ok, err, HttpError}
use edu_lanka.Postgrest.{found}
use edu_lanka.PostgrestMemory.{insert_with}
use edu_lanka.User.{UserRole, JwtPayload, role_eq}
use edu_lanka.Accounts.{add_user, People}
use edu_lanka.Accounts.Memory.{stores, people}
use edu_lanka.Users.Roles.{resolve_role}
use edu_lanka.Uuid.{is_uuid}
use edu_lanka.Users.Creation.{ImportRow, Tenants, validated, create, import_rows, bulk_import_users}
use edu_lanka.Users.Creation.Imported.{IsImported, bulk_import_users-IsImported}

abbrev no_mapping : Text → Option Text
no_mapping t = none

principal_role : resolve_role no_mapping (codes " Principal ") ≡ some UserRole.school_admin
unfolding resolve_role trim same
principal_role = refl

no_role : resolve_role no_mapping (codes "prefect") ≡ none
unfolding resolve_role trim same
no_role = refl

abbrev mapping : Text → Option Text
mapping t = some (codes " student ")

mapped : resolve_role mapping (codes "prefect") ≡ some UserRole.student
unfolding resolve_role trim same
mapped = refl

abbrev row : String → String → ImportRow
row name role = record {
  full_name = name;
  email = some "a@royal.lk";
  phone_number = none;
  role = some role;
  custom_role = none;
  password = "secret 123";
  admission_no = "ADM-1";
  class_id = none;
}

abbrev principal : JwtPayload
principal = record {
  sub = "kamala";
  tenant_id = "aaaaaaaa-0000-4000-8000-000000000001";
  role = UserRole.school_admin;
}

abbrev tenants : Tenants
tenants = record { plan_of = λ t. some "COMMUNITY"; active_students = λ t. found 74 }

abbrev rows : List ImportRow
rows = row "Nimal" "pupil" ∷ row "" "pupil" ∷ row "Amara" "teacher" ∷ []

abbrev before : People stores
before = people ("a1" ∷ "a2" ∷ []) ("u1" ∷ []) []

-- The second row has no name, and the table refuses the third.
two_fail :
    (bulk_import_users stores tenants no_mapping rows principal before).0
    ≡ ok (record { total_rows = 3; imported = ("a1", "u1") ∷ []; errors = 2 ∷ 3 ∷ [] })
unfolding bulk_import_users is_uuid validated resolve_role trim same import_rows create add_user
    insert_with role_eq
two_fail = refl

-- One student too many for the cap.
over_cap :
    bulk_import_users stores
      (record tenants { active_students = λ t. found 75 })
      no_mapping
      rows
      principal
      before
    ≡ (err HttpError.forbidden, before)
unfolding bulk_import_users is_uuid validated resolve_role trim same role_eq
over_cap = refl

bulk_import_users-IsImported_example :
    IsImported stores
      (λ uid db. refl)
      rows
      before
      (bulk_import_users stores tenants no_mapping rows principal before)
bulk_import_users-IsImported_example =
    bulk_import_users-IsImported stores (λ uid db. refl) tenants no_mapping rows principal before
