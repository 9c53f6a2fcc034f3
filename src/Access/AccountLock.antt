-- ===== src/Access/AccountLock.antt =====
-- `AccountLockGuard` (apps/api/src/common/guards/account-lock.guard.ts) and its theorems in
-- Refusals. The check of a token
-- (jsonwebtoken) is a parameter: what `verify` or `decode` gives, or nothing if it throws.
pub mod Refusals
use edu_lanka.Prelude.{
  ℕ, String, Bool, true, false, ◌||◌, Option, none, some, List, [], ◌∷◌, ◌++◌, map, any, str_eq,
  if◌then◌else◌, ltb, length, drop,
}
use edu_lanka.Text.{Text, codes, same, starts_with, before, to_lower, to_upper, trim}
use edu_lanka.Http.{Result, ok, err, HttpError}
use edu_lanka.Postgrest.{Table}
use edu_lanka.User.{JwtPayload, is_super_admin}
use edu_lanka.Billing.Invoice.{Invoice}
use edu_lanka.Billing.LockCache.{Billing, LockStatus}
use edu_lanka.Billing.LockStatus.{check_tenant_invoice_status}

-- What the guard reads of a request. An empty method counts as a missing one.
pub record Request : Type 0 where
  pub method : Text
  pub url : Text
  pub user : Option JwtPayload
  pub authorization : Option Text
  pub context_tenant_id : Option String

abbrev pub exempt_prefixes : List Text
exempt_prefixes = map codes (
    "/api/v1/auth" ∷ "/auth" ∷ "/api/v1/health" ∷ "/health" ∷ "/api/v1/billing" ∷ "/billing"
    ∷ "/api/v1/docs" ∷ "/docs" ∷ "/api-docs" ∷ "/api/v1/tenants/disaster-mode"
    ∷ "/tenants/disaster-mode" ∷ "/api/v1/sms" ∷ "/sms" ∷ "/api/v1/mobile/test-disaster-push"
    ∷ "/api/v1/mobile/emergency-contacts" ∷ "/api/v1/mobile/shelters" ∷ "/api/v1/mobile/sync-events"
    ∷ "/mobile/sync-events" ∷ "/api/v1/sync" ∷ [])

abbrev pub slash : ℕ
slash = 47

abbrev pub question_mark : ℕ
question_mark = 63

abbrev pub read_methods : List Text
read_methods = map codes ("GET" ∷ "HEAD" ∷ "OPTIONS" ∷ [])

-- `(request.method || 'GET').toUpperCase()` is one of the read-only methods.
unfoldable pub is_read : Text → Bool
unfolding same
is_read [] = true
is_read (c ∷ m) = any (same (to_upper (c ∷ m))) read_methods

-- The path without a final slash, unless it is one.
unfoldable pub without_final_slash : Text → Text
without_final_slash [] = []
without_final_slash (c ∷ []) = c ∷ []
without_final_slash (c ∷ d ∷ t) = c ∷ cut d t
  where
    cut : ℕ → Text → Text
    cut d [] = if same (d ∷ []) (slash ∷ []) then [] else d ∷ []
    cut d (e ∷ t) = d ∷ cut e t

unfoldable pub normalized_path : Text → Text
unfolding without_final_slash
normalized_path url = without_final_slash (to_lower (before question_mark url))

unfoldable pub is_below : Text → Text → Bool
unfolding same starts_with
is_below path prefix = same path prefix || starts_with path (prefix ++ slash ∷ [])

unfoldable pub is_exempt : Text → Bool
unfolding is_below
is_exempt path = any (is_below path) exempt_prefixes

abbrev pub bearer : Text
bearer = codes "Bearer "

module _ (verify : Text → Option JwtPayload) where
  unfoldable pub token_user : Option Text → Option JwtPayload
  unfolding starts_with trim
  token_user none = none
  token_user (some header) =
      if starts_with header bearer then verify (trim (drop 7 header)) else none

  -- `request.user`, or the user of the token.
  unfoldable pub resolved_user : Request → Option JwtPayload
  unfolding token_user
  resolved_user req = elim req.user [ some u ↦ some u | none ↦ token_user req.authorization ]

abbrev pub bypasses : Option JwtPayload → Bool
bypasses none = false
bypasses (some u) = is_super_admin u.role

-- An empty text is no tenant.
abbrev pub non_empty : String → Option String
non_empty t = if str_eq t "" then none else some t

abbrev pub user_tenant : Option JwtPayload → Option String
user_tenant none = none
user_tenant (some u) = non_empty u.tenant_id

-- `request.tenantContext?.tenantId || user?.tenantId`.
unfoldable pub request_tenant : Option String → Option JwtPayload → Option String
request_tenant none u = user_tenant u
request_tenant (some t) u = if str_eq t "" then user_tenant u else some t

module _ (T : Table Invoice) (verify : Text → Option JwtPayload) where
  abbrev pub decide : LockStatus × Billing T.Db → Result Bool × Billing T.Db
  decide (status, s) =
      if status.is_account_locked then (err HttpError.forbidden, s) else (ok true, s)

  pub check_tenant : Option String → ℕ → Billing T.Db → Result Bool × Billing T.Db
  check_tenant none now s = (ok true, s)
  check_tenant (some t) now s = decide (check_tenant_invoice_status T t now s)

  unfoldable pub can_activate : Request → ℕ → Billing T.Db → Result Bool × Billing T.Db
  unfolding check_tenant is_read is_exempt normalized_path resolved_user request_tenant
  can_activate req now s =
      let user = resolved_user verify req in
      let checked = check_tenant (request_tenant req.context_tenant_id user) now s in
      if is_read req.method
      then (ok true, s)
      else if is_exempt (normalized_path req.url)
      then (ok true, s)
      else if bypasses user
      then (ok true, s)
      else checked
