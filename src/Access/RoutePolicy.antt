-- ===== src/Access/RoutePolicy.antt =====
-- `RolesGuard` and `TenantGuard` (apps/api/src/common/guards). The roles of a route are an argument:
-- the framework reads them from the decorators.
use mathlib.Core.Path.{subst}
use edu_lanka.Prelude.{
  String, ◌≡◌, refl, ◌↔◌, ◌⊎◌, inl, inr, Bool, true, not, ◌&&◌, Option, none, some, List, [], ◌∷◌,
  any, any-In, In, Bool-cases, str_eq, str_eq_iff, if◌then◌else◌, arith,
}
use edu_lanka.Http.{Result, ok, err, HttpError}
use edu_lanka.User.{UserRole, JwtPayload, role_eq, role_eq_iff, is_super_admin, super_admin}

unfoldable pub allows_role : List UserRole → Option JwtPayload → Result Bool
allows_role [] user = ok true
allows_role (r ∷ rs) none = err HttpError.forbidden
allows_role (r ∷ rs) (some u) =
    if any (λ x. role_eq x u.role) (r ∷ rs) then ok true else err HttpError.forbidden

-- The header `x-tenant-id`: absent or empty, given once, or repeated.
pub data TenantHeader : Type 0 where
  absent repeated : TenantHeader
  given : String → TenantHeader

unfoldable pub allows_tenant : TenantHeader → Option JwtPayload → Result Bool
allows_tenant header none = err HttpError.forbidden
allows_tenant absent (some u) = ok true
allows_tenant repeated (some u) = err HttpError.forbidden
allows_tenant (given t) (some u) =
    if not (str_eq t u.tenant_id) && not (is_super_admin u.role)
    then err HttpError.forbidden
    else ok true

super_admin_iff : (r : UserRole) → (is_super_admin r ≡ true) ↔ (r ≡ super_admin)
super_admin_iff UserRole.student = ground arith
super_admin_iff UserRole.parent = ground arith
super_admin_iff UserRole.teacher = ground arith
super_admin_iff UserRole.school_admin = ground arith
super_admin_iff UserRole.zonal_officer = ground arith
super_admin_iff UserRole.moe_officer = ground arith
super_admin_iff UserRole.super_admin = ground arith
super_admin_iff UserRole.independent_learner = ground arith

-- Of two guards in a row, the second is asked if the first lets the request pass.
abbrev pub both_allow : Result Bool → Result Bool → Result Bool
both_allow (err e) r = err e
both_allow (ok _) r = r

both_allow-ok :
    (a b : Result Bool) → both_allow a b ≡ ok true → ((x : Bool) × (a ≡ ok x)) × (b ≡ ok true)
both_allow-ok (err e) b h = cc
both_allow-ok (ok x) b h = ((x, refl), h)

allows_role_iff :
    (roles : List UserRole) (u : JwtPayload)
    → ((x : Bool) × (allows_role roles (some u) ≡ ok x)) ↔ ((roles ≡ []) ⊎ In u.role roles)
unfolding allows_role
allows_role_iff [] u = (λ h. inl refl, λ h. (true, refl))
allows_role_iff (r ∷ rs) u =
    let (to, from) = any-In (λ x. role_eq x u.role) (r ∷ rs) in
    (
      λ (x, h). elim (Bool-cases (any (λ x. role_eq x u.role) (r ∷ rs))) [
        | inl e ↦
            let (y, m, k) = to e in inr (subst (λ z. In z (r ∷ rs)) ((role_eq_iff y u.role).0 k) m)
        | inr e ↦ let k : err HttpError.forbidden ≡ ok x = rw e at h in cc
      ],
      λ h. elim h [
        | inl e ↦ let k : (r ∷ rs) ≡ [] = e in cc
        | inr m ↦ (true, rw (from (u.role, m, (role_eq_iff u.role u.role).1 refl)))
      ],
    )

allows_tenant_iff :
    (t : String) (u : JwtPayload)
    → (allows_tenant (given t) (some u) ≡ ok true) ↔ ((t ≡ u.tenant_id) ⊎ (u.role ≡ super_admin))
unfolding allows_tenant
allows_tenant_iff t u =
    let (same_to, same_from) = str_eq_iff t u.tenant_id in
    let (admin_to, admin_from) = super_admin_iff u.role in
    (
      λ h. elim (Bool-cases (str_eq t u.tenant_id)) [
        | inl e ↦ inl (same_to e)
        | inr e ↦ elim (Bool-cases (is_super_admin u.role)) [
          | inl a ↦ inr (admin_to a)
          | inr a ↦ let k : err HttpError.forbidden ≡ ok true = rw (e, a) at h in cc
        ]
      ],
      λ h. elim h [
        | inl e ↦ rw (same_from e)
        | inr e ↦ elim (Bool-cases (str_eq t u.tenant_id)) [
          | inl k ↦ rw k
          | inr k ↦ rw (k, admin_from e)
        ]
      ],
    )

-- A signed-in user passes both guards with a header that names one tenant exactly when its role is
-- one of the route's, if the route lists any, and the tenant is its own or the user is a super admin.
pub guards_pass_iff :
    (roles : List UserRole) (t : String) (u : JwtPayload)
    → (both_allow (allows_role roles (some u)) (allows_tenant (given t) (some u)) ≡ ok true)
      ↔ (((roles ≡ []) ⊎ In u.role roles) × ((t ≡ u.tenant_id) ⊎ (u.role ≡ super_admin)))
guards_pass_iff roles t u =
    let (role_to, role_from) = allows_role_iff roles u in
    let (tenant_to, tenant_from) = allows_tenant_iff t u in
    (
      λ h.
          let (a, b) =
            both_allow-ok (allows_role roles (some u)) (allows_tenant (given t) (some u)) h in
          (role_to a, tenant_to b),
      λ (a, b). let (x, e) = role_from a in rw e (tenant_from b),
    )
