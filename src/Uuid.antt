-- ===== src/Uuid.antt =====
-- `assertUuid` and the check of `getTenantClient` (apps/api/src/modules/supabase/supabase.service.ts).
use edu_lanka.Prelude.{
  ℕ, zero, suc, String, Bool, true, false, ◌||◌, Option, none, some, [], ◌∷◌, ◌==◌, if◌then◌else◌,
}
use edu_lanka.Http.{HttpError, Action, require}
use edu_lanka.Text.{Text, codes, between, trim}

abbrev is_hex : ℕ → Bool
is_hex c = between 48 57 c || between 97 102 c || between 65 70 c

-- The text after so many hexadecimal digits.
abbrev after_hex : ℕ → Text → Option Text
after_hex zero t = some t
after_hex (suc n) [] = none
after_hex (suc n) (c ∷ t) = if is_hex c then after_hex n t else none

abbrev after_dash : Option Text → Option Text
after_dash none = none
after_dash (some []) = none
after_dash (some (c ∷ t)) = if c == 45 then some t else none

abbrev then_hex : ℕ → Option Text → Option Text
then_hex n none = none
then_hex n (some t) = after_hex n t

abbrev at_end : Option Text → Bool
at_end (some []) = true
at_end _ = false

-- 8-4-4-4-12 hexadecimal digits.
unfoldable pub is_uuid : String → Bool
unfolding trim
is_uuid id = at_end (
    then_hex 12 (
      after_dash (
        then_hex 4 (
          after_dash
            (then_hex 4 (after_dash (then_hex 4 (after_dash (after_hex 8 (trim (codes id)))))))))))

-- `getTenantClient`, which asserts that the tenant is a UUID.
abbrev pub get_tenant_client : {S : Type 0} → String → Action S (Unit {0})
get_tenant_client tenant = require (is_uuid tenant) HttpError.bad_request
