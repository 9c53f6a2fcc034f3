-- ===== src/Access/Tests.antt =====
-- The guards on single requests (apps/api/src/common/guards).
use edu_lanka.Prelude.{
  ◌+◌, ◌≡◌, refl, ◌↔◌, ◌⊎◌, String, true, false, Option, none, some, [], ◌∷◌, ◌++◌, In, arith,
}
use edu_lanka.JsMap
use edu_lanka.Text.{Text, codes, trim, same, starts_with, includes, before}
use edu_lanka.Http.{ok}
use edu_lanka.Postgrest.{Reply, Table, found}
use edu_lanka.PostgrestMemory.{Memory, memory_table}
use edu_lanka.User.{JwtPayload, UserRole}
use edu_lanka.Billing.Invoice.{Invoice, issued, overdue}
use edu_lanka.Billing.LockCache.{Billing}
use edu_lanka.Billing.Lifecycle.{grace_period_ms}
use edu_lanka.Billing.LockStatus.Grace.{IsPastGrace}
use edu_lanka.Access.Semver.{
  Version, Comparison, parse_semver, compare_semver, compare_semver_iff, Precedes,
}
use edu_lanka.Access.AccountLock.{
  Request, exempt_prefixes, question_mark, slash, is_read, is_below, is_exempt, without_final_slash,
  normalized_path, resolved_user, request_tenant, can_activate,
}
use edu_lanka.Access.AccountLock.Refusals.{
  IsGuarded, IsRefused, IsRefused-iff, query_ignored, is_exempt_iff,
}
use edu_lanka.Access.AppVersion
use edu_lanka.Access.AppVersion.{
  VersionRow, MobileRequest, skips_check, header_is, is_mobile_client,
}
use edu_lanka.Access.AppVersion.Versions.{passes_iff, docs_suffix_passes, version_text}
use edu_lanka.Access.RoutePolicy.{allows_role, allows_tenant, given, both_allow, guards_pass_iff}

abbrev old_invoice : Invoice
old_invoice = record {
  id = "a";
  tenant_id = "royal";
  billing_month = "2026-06";
  plan = "STARTER";
  active_student_count = 300;
  base_fee_lkr = 5000;
  per_student_fee_lkr = 10;
  sms_count = 0;
  sms_overage_charge_lkr = 0;
  total_amount_lkr = 7700;
  status = issued;
  created_at = some 0;
  updated_at = 9;
}

abbrev table : Table Invoice
table = memory_table (λ r. r.id)

abbrev late : Billing (Memory Invoice)
late = record { snapshots = record { stored = old_invoice ∷ []; ids = [] }; lock_status_cache = [] }

abbrev head : JwtPayload
head = record { sub = "u-1"; tenant_id = "royal"; role = UserRole.school_admin }

abbrev no_tokens : Text → Option JwtPayload
no_tokens token = none

abbrev enrol : Request
enrol = record {
  method = codes "POST";
  url = codes "/api/v1/students";
  user = some head;
  authorization = none;
  context_tenant_id = some "royal";
}

IsRefused-iff_example : IsRefused table no_tokens enrol (grace_period_ms + 1) late ↔ (
    IsGuarded no_tokens enrol
    × ((r : Invoice) × In r (old_invoice ∷ [])
        × (r.tenant_id ≡ "royal")
        × ((r.status ≡ issued) ⊎ (r.status ≡ overdue))
        × IsPastGrace (grace_period_ms + 1) r))
unfolding JsMap.get request_tenant resolved_user
IsRefused-iff_example =
    IsRefused-iff table no_tokens enrol "royal" (grace_period_ms + 1) late (old_invoice ∷ []) refl
      tt refl

enrol-IsGuarded : IsGuarded no_tokens enrol
unfolding is_read is_exempt is_below normalized_path same starts_with before without_final_slash
    resolved_user
enrol-IsGuarded = record { writes = refl; not_exempt = refl; no_bypass = refl }

no_mark : ¬ In question_mark (codes "/api")
no_mark m = ground (arith, m)

query_ignored_case :
    can_activate table no_tokens
      (record enrol { url = codes "/api" ++ question_mark ∷ codes "ref=/billing" })
      5
      late
    ≡ can_activate table no_tokens (record enrol { url = codes "/api" }) 5 late
query_ignored_case =
    query_ignored table no_tokens enrol (codes "/api") (codes "ref=/billing") 5 late no_mark

is_exempt_iff_case : (is_exempt (codes "/api/v1/billing/pay") ≡ true) ↔ (
    (prefix : Text) × In prefix exempt_prefixes
    × ((codes "/api/v1/billing/pay" ≡ prefix)
        ⊎ ((rest : Text) × (codes "/api/v1/billing/pay" ≡ (prefix ++ slash ∷ []) ++ rest))))
is_exempt_iff_case = is_exempt_iff (codes "/api/v1/billing/pay")

below_billing : is_exempt (codes "/api/v1/billing/pay") ≡ true
unfolding is_exempt is_below same starts_with
below_billing = refl

not_below_billing : is_exempt (codes "/api/v1/billings") ≡ false
unfolding is_exempt is_below same starts_with
not_below_billing = refl

parses : parse_semver (codes " v1.12.3") ≡ some (1, 12, 3)
unfolding parse_semver trim
parses = refl

parses_nine : parse_semver (codes "1.9.0") ≡ some (1, 9, 0)
unfolding parse_semver trim
parses_nine = refl

compare_semver_iff_case :
    ((compare_semver (codes " v1.12.3") (codes "1.9.0") ≡ ok Comparison.less)
      ↔ Precedes (1, 12, 3) (1, 9, 0))
    × ((compare_semver (codes " v1.12.3") (codes "1.9.0") ≡ ok Comparison.same)
        ↔ (◌≡◌ {A = Version} (1, 12, 3) (1, 9, 0)))
    × ((compare_semver (codes " v1.12.3") (codes "1.9.0") ≡ ok Comparison.greater)
        ↔ Precedes (1, 9, 0) (1, 12, 3))
compare_semver_iff_case =
    compare_semver_iff (codes " v1.12.3") (codes "1.9.0") (1, 12, 3) (1, 9, 0) parses parses_nine

abbrev sync_call : MobileRequest
sync_call = record {
  path = codes "/api/v1/mobile/sync";
  client_version = some (codes "1.12.3");
  platform_header = some (codes "iOS");
}

abbrev at_least : VersionRow
at_least = record { min_version = codes "1.9.0" }

abbrev rows : String → Reply (Option VersionRow)
rows p = found (some at_least)

passes_iff_example :
    ((AppVersion.can_activate rows sync_call 7 []).0 ≡ ok true)
    ↔ ((v : Version) × (parse_semver (version_text sync_call) ≡ some v) × ¬ Precedes v (1, 9, 0))
unfolding JsMap.get skips_check is_mobile_client header_is includes starts_with same
passes_iff_example =
    passes_iff rows sync_call 7 [] at_least (1, 9, 0) (refl, refl) tt refl parses_nine

guards_pass_iff_case :
    (both_allow
        (allows_role (UserRole.school_admin ∷ []) (some head))
        (allows_tenant (given "royal") (some head))
      ≡ ok true)
    ↔ (((UserRole.school_admin ∷ [] ≡ []) ⊎ In UserRole.school_admin (UserRole.school_admin ∷ []))
        × (("royal" ≡ head.tenant_id) ⊎ (head.role ≡ UserRole.super_admin)))
guards_pass_iff_case = guards_pass_iff (UserRole.school_admin ∷ []) "royal" head

docs_suffix_passes_case :
    AppVersion.can_activate rows
      (record sync_call { path = codes "/api/v1/mobile/sync?x=" ++ codes "/docs" })
      7
      []
    ≡ (ok true, [])
docs_suffix_passes_case = docs_suffix_passes rows sync_call 7 [] (codes "/api/v1/mobile/sync?x=")
