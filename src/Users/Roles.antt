-- ===== src/Users/Roles.antt =====
-- `UsersService.resolveRole` (apps/api/src/modules/users/users.service.ts): the role that a text of an
-- imported row stands for.
use edu_lanka.Prelude.{
  String, Bool, true, false, Option, none, some, List, [], ◌∷◌, any, if◌then◌else◌,
}
use edu_lanka.Text.{Text, codes, to_lower, to_upper, trim, same}
use edu_lanka.User.{UserRole}

abbrev pub is_one_of : Text → List String → Bool
is_one_of t names = any (λ n. same t (codes n)) names

-- `Object.values(UserRole)`.
abbrev pub role_named : Text → Option UserRole
role_named t =
    if same t (codes "STUDENT")
    then some UserRole.student
    else if same t (codes "TEACHER")
    then some UserRole.teacher
    else if same t (codes "PARENT")
    then some UserRole.parent
    else if same t (codes "SCHOOL_ADMIN")
    then some UserRole.school_admin
    else if same t (codes "ZONAL_OFFICER")
    then some UserRole.zonal_officer
    else if same t (codes "MOE_OFFICER")
    then some UserRole.moe_officer
    else if same t (codes "SUPER_ADMIN")
    then some UserRole.super_admin
    else if same t (codes "INDEPENDENT_LEARNER")
    then some UserRole.independent_learner
    else none

abbrev pub standard_role : Text → Option UserRole
standard_role t =
    if is_one_of t ("student" ∷ "pupil" ∷ "learner" ∷ [])
    then some UserRole.student
    else if is_one_of t ("teacher" ∷ "instructor" ∷ "faculty" ∷ "educator" ∷ "staff" ∷ [])
    then some UserRole.teacher
    else if is_one_of t ("parent" ∷ "guardian" ∷ "father" ∷ "mother" ∷ "caregiver" ∷ [])
    then some UserRole.parent
    else if is_one_of t
        ("school_admin" ∷ "admin" ∷ "administrator" ∷ "principal" ∷ "vice_principal" ∷ [])
    then some UserRole.school_admin
    else none

abbrev pub is_blank_text : Text → Bool
is_blank_text [] = true
is_blank_text (c ∷ t) = false

-- A value of the custom mapping that is there and not empty.
abbrev pub or_mapped : Option Text → Option Text → Option Text
or_mapped none other = other
or_mapped (some []) other = other
or_mapped (some (c ∷ t)) other = some (c ∷ t)

abbrev pub or_standard : Option UserRole → Option UserRole → Option UserRole
or_standard none other = other
or_standard (some r) other = some r

abbrev pub mapped_role : Option Text → Option UserRole
mapped_role none = none
mapped_role (some t) = role_named (to_upper (trim t))

-- The role that a text stands for, by the school's own names first; nothing where the code throws.
unfoldable pub resolve_role : (Text → Option Text) → Text → Option UserRole
resolve_role custom raw =
    let t = trim raw in
    if is_blank_text t
    then none
    else or_standard (mapped_role (or_mapped (or_mapped (custom t) (custom (to_lower t))) none))
        (standard_role (to_lower t))
