-- ===== src/User.antt =====
-- The signed-in user (packages/shared-types/src/auth.types.ts): `UserRole` and `JwtPayload`.
use edu_lanka.Prelude.{
  ℕ, zero, suc, ◌==◌, ◌≡◌, ◌↔◌, refl, sym, ap, ◌∙◌, arith, String, Bool, true, false,
}

pub data UserRole : Type 0 where
  student parent teacher school_admin zonal_officer moe_officer super_admin independent_learner :
      UserRole

-- The claims that the services read.
pub record JwtPayload : Type 0 where
  pub sub : String
  pub tenant_id : String
  pub role : UserRole

-- The place of a role in the enumeration.
role_index : UserRole → ℕ
role_index student = 0
role_index parent = 1
role_index teacher = 2
role_index school_admin = 3
role_index zonal_officer = 4
role_index moe_officer = 5
role_index super_admin = 6
role_index independent_learner = 7

role_at : ℕ → UserRole
role_at zero = student
role_at (suc zero) = parent
role_at (suc (suc zero)) = teacher
role_at (suc (suc (suc zero))) = school_admin
role_at (suc (suc (suc (suc zero)))) = zonal_officer
role_at (suc (suc (suc (suc (suc zero))))) = moe_officer
role_at (suc (suc (suc (suc (suc (suc zero)))))) = super_admin
role_at _ = independent_learner

role_at-role_index : (r : UserRole) → role_at (role_index r) ≡ r
unfolding role_at role_index
role_at-role_index student = refl
role_at-role_index parent = refl
role_at-role_index teacher = refl
role_at-role_index school_admin = refl
role_at-role_index zonal_officer = refl
role_at-role_index moe_officer = refl
role_at-role_index super_admin = refl
role_at-role_index independent_learner = refl

-- `===` on roles.
unfoldable pub role_eq : UserRole → UserRole → Bool
unfolding role_index
role_eq a b = role_index a == role_index b

pub role_eq_iff : (a b : UserRole) → (role_eq a b ≡ true) ↔ (a ≡ b)
unfolding role_eq
role_eq_iff a b = (
  λ h.
      let same_index : role_index a ≡ role_index b = ground arith in
      sym (role_at-role_index a) ∙ ap role_at same_index ∙ role_at-role_index b,
  λ e. rw e (let same_index : (role_index b == role_index b) ≡ true = ground arith in same_index),
)

abbrev pub is_super_admin : UserRole → Bool
is_super_admin super_admin = true
is_super_admin _ = false

abbrev pub is_teacher : UserRole → Bool
is_teacher teacher = true
is_teacher _ = false

-- Schools' administrators and the platform's.
abbrev pub is_admin : UserRole → Bool
is_admin school_admin = true
is_admin super_admin = true
is_admin _ = false
