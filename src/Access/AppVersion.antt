-- ===== src/Access/AppVersion.antt =====
-- `AppVersionGuard` (apps/api/src/common/guards/app-version.guard.ts), and its theorems in
-- Versions. The newest row of `mobile_app_versions` for a platform is a parameter, as the reply of its query.
pub mod Versions
use edu_lanka.Prelude.{
  ℕ, ◌+◌, ◌≤◌, ◌<◌, ◌≡◌, refl, ap, sym, ◌∙◌, ◌↔◌, ◌⊎◌, inl, inr, String, Bool, true, false, ◌||◌,
  not, Option, none, some, List, [], ◌∷◌, ltb, if◌then◌else◌, arith,
}
use edu_lanka.JsMap
use edu_lanka.JsMap.{JsMap}
use edu_lanka.Text.{Text, codes, same, includes, to_lower, trim}
use edu_lanka.Http.{Result, ok, err, HttpError}
use edu_lanka.Postgrest.{Reply, found, failed}
use edu_lanka.Access.Semver.{
  Version, Comparison, less, parse_semver, compare_semver, compare_semver_iff, Precedes,
}

-- `min_version` of a row; the other columns only go into the answer's text.
pub record VersionRow : Type 0 where
  pub min_version : Text

pub record VersionCacheEntry : Type 0 where
  pub ver_row : Option VersionRow
  pub expires_at : ℕ

abbrev pub VersionCache : Type 0
VersionCache = JsMap VersionCacheEntry

abbrev pub cache_ttl_ms : ℕ
cache_ttl_ms = 60000

-- The header `x-client-version`, or else `x-app-version`, is `client_version`.
pub record MobileRequest : Type 0 where
  pub path : Text
  pub client_version : Option Text
  pub platform_header : Option Text

unfoldable pub skips_check : Text → Bool
unfolding includes
skips_check path =
    includes path (codes "/mobile/version")
    || includes path (codes "/mobile/public-key")
    || includes path (codes "/health")
    || includes path (codes "/docs")

unfoldable pub header_is : Option Text → Text → Bool
unfolding same
header_is none name = false
header_is (some h) name = same (to_lower h) name

-- An absent or an empty header.
abbrev pub is_given : Option Text → Bool
is_given none = false
is_given (some []) = false
is_given (some (_ ∷ _)) = true

unfoldable pub is_mobile_client : MobileRequest → Bool
unfolding header_is includes
is_mobile_client req =
    header_is req.platform_header (codes "android")
    || header_is req.platform_header (codes "ios")
    || includes req.path (codes "/mobile/")
    || is_given req.client_version

abbrev pub text_or_empty : Option Text → Text
text_or_empty none = []
text_or_empty (some t) = t

abbrev pub row_or_none : Reply (Option VersionRow) → Option VersionRow
row_or_none failed = none
row_or_none (found row) = row

abbrev pub platform : MobileRequest → String
platform req = if header_is req.platform_header (codes "ios") then "ios" else "android"

-- A comparison that throws makes the guard throw.
abbrev pub verdict : Result Comparison → Result Bool
verdict (err e) = err e
verdict (ok Comparison.less) = err HttpError.upgrade_required
verdict (ok Comparison.same) = ok true
verdict (ok Comparison.greater) = ok true

unfoldable pub judge : Text → Option VersionRow → Result Bool
unfolding compare_semver
judge v none = ok true
judge v (some row) = judge_min v row.min_version
  where
    judge_min : Text → Text → Result Bool
    judge_min v [] = ok true
    judge_min v (c ∷ m) = verdict (compare_semver v (c ∷ m))

module _ (newest : String → Reply (Option VersionRow)) where
  -- The row of the platform: from the cache while it lives, or read and cached.
  pub fresh_row : String → ℕ → VersionCache → Option VersionRow × VersionCache
  fresh_row p now cache =
      let row = row_or_none (newest p) in
      (row, JsMap.set p (record { ver_row = row; expires_at = now + cache_ttl_ms }) cache)

  unfoldable pub cached_row :
      Option VersionCacheEntry → String → ℕ → VersionCache → Option VersionRow × VersionCache
  unfolding fresh_row
  cached_row none p now cache = fresh_row p now cache
  cached_row (some e) p now cache =
      if ltb now e.expires_at then (e.ver_row, cache) else fresh_row p now cache

  pub check_min : Text → String → ℕ → VersionCache → Result Bool × VersionCache
  unfolding cached_row judge
  check_min v p now cache =
      let (row, cache') = cached_row (JsMap.get p cache) p now cache in (judge v row, cache')

  pub check_version : Option Version → Text → String → ℕ → VersionCache → Result Bool × VersionCache
  unfolding check_min
  check_version none v p now cache = (err HttpError.upgrade_required, cache)
  check_version (some _) v p now cache = check_min v p now cache

  unfoldable pub can_activate : MobileRequest → ℕ → VersionCache → Result Bool × VersionCache
  unfolding check_version skips_check is_mobile_client trim parse_semver
  can_activate req now cache =
      let v = trim (text_or_empty req.client_version) in
      let checked = check_version (parse_semver v) v (platform req) now cache in
      if skips_check req.path
      then (ok true, cache)
      else if not (is_mobile_client req)
      then (ok true, cache)
      else if not (is_given (some v))
      then (err HttpError.upgrade_required, cache)
      else checked
