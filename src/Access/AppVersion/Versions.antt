-- ===== src/Access/AppVersion/Versions.antt =====
-- Which versions of the mobile client are served (apps/api/src/common/guards/app-version.guard.ts).
use edu_lanka.Prelude.{
  ℕ, ◌≤◌, ◌≡◌, refl, ap, sym, ◌∙◌, ◌↔◌, inl, inr, String, Bool, true, false, not, ◌||◌, ◌++◌,
  Option, none, some, [], ◌∷◌, if◌then◌else◌, Option-cases, arith,
}
use edu_lanka.JsMap
use edu_lanka.Text.{Text, codes, includes, includes-append, trim}
use edu_lanka.Http.{ok, err, HttpError}
use edu_lanka.Postgrest.{Reply, found}
use edu_lanka.Access.Semver.{
  Version, Comparison, less, compare_parts, zip_parts, parse_semver, parse_semver-nil,
  compare_semver-ok, compare_semver_iff, Precedes,
}
use edu_lanka.Access.AppVersion.{
  VersionRow, VersionCacheEntry, VersionCache, MobileRequest, skips_check, is_mobile_client,
  is_given, text_or_empty, platform, verdict, judge, fresh_row, cached_row, check_min,
  check_version, can_activate,
}

verdict_iff : (c : Comparison) → (verdict (ok c) ≡ ok true) ↔ ¬ (ok c ≡ ok less)
verdict_iff Comparison.less = (λ h. cc, λ h. absurd (h refl))
verdict_iff Comparison.same = (λ h e. cc, λ h. refl)
verdict_iff Comparison.greater = (λ h e. cc, λ h. refl)

judge_iff :
    (t : Text) (row : VersionRow) (v m : Version)
    → parse_semver t ≡ some v
    → parse_semver row.min_version ≡ some m
    → (judge t (some row) ≡ ok true) ↔ ¬ Precedes v m
unfolding judge
judge_iff t row v m p q = go row.min_version q
  where
    go :
        (u : Text)
        → parse_semver u ≡ some m
        → (judge t (some (record { min_version = u })) ≡ ok true) ↔ ¬ Precedes v m
    go [] k = let k' = sym parse_semver-nil ∙ k in cc
    go (c ∷ u) k =
        let e = compare_semver-ok t (c ∷ u) v m p k in
        let (to, from) = (compare_semver_iff t (c ∷ u) v m p k).0 in
        let (ok_to, ok_from) = verdict_iff (compare_parts (zip_parts v m)) in
        rw e (λ h b. ok_to h (sym e ∙ from b), λ h. ok_from (λ l. h (to (e ∙ l))))

both_ways : {A : Type 0} (b : Bool) (x : A) → (if b then x else x) ≡ x
both_ways true x = refl
both_ways false x = refl

or_true : (a b c d : Bool) → d ≡ true → (a || b || c || d) ≡ true
or_true true b c d h = ground arith
or_true false b c d h = ground arith

-- No entry of the cache, or one that has expired.
abbrev pub IsStale : ℕ → Option VersionCacheEntry → Type 0
IsStale now none = Unit
IsStale now (some e) = e.expires_at ≤ now

-- The version that the client names.
abbrev pub version_text : MobileRequest → Text
version_text req = trim (text_or_empty req.client_version)

module _ (newest : String → Reply (Option VersionRow)) where
  cached_row-stale :
      (o : Option VersionCacheEntry) (p : String) (now : ℕ) (cache : VersionCache)
      → IsStale now o
      → cached_row newest o p now cache ≡ fresh_row newest p now cache
  unfolding cached_row
  cached_row-stale none p now cache h = refl
  cached_row-stale (some e) p now cache h = ground arith

  check_min-stale :
      (v : Text) (p : String) (now : ℕ) (cache : VersionCache) (row : VersionRow)
      → IsStale now (JsMap.get p cache)
      → newest p ≡ found (some row)
      → (check_min newest v p now cache).0 ≡ judge v (some row)
  unfolding check_min fresh_row
  check_min-stale v p now cache row stale e =
      rw (cached_row-stale (JsMap.get p cache) p now cache stale, e)

  -- A request of the mobile client that is not for an exempt path.
  abbrev pub IsChecked : MobileRequest → Type 0
  IsChecked req = (skips_check req.path ≡ false) × (is_mobile_client req ≡ true)

  check_version-unparsed :
      (req : MobileRequest) (now : ℕ) (cache : VersionCache)
      → IsChecked req
      → parse_semver (version_text req) ≡ none
      → can_activate newest req now cache ≡ (err HttpError.upgrade_required, cache)
  unfolding can_activate check_version
  check_version-unparsed req now cache (h, k) e =
      rw (h, k, e) (both_ways (not (is_given (some (version_text req)))) _)

  given : (t : Text) (v : Version) → parse_semver t ≡ some v → is_given (some t) ≡ true
  given [] v e = let k = sym parse_semver-nil ∙ e in cc
  given (c ∷ t) v e = refl

  check_version-parsed :
      (req : MobileRequest) (now : ℕ) (cache : VersionCache) (v : Version)
      → IsChecked req
      → parse_semver (version_text req) ≡ some v
      → can_activate newest req now cache
        ≡ check_min newest (version_text req) (platform req) now cache
  unfolding can_activate check_version
  check_version-parsed req now cache v (h, k) e = rw (h, k, given (version_text req) v e, e)

  -- Of the mobile client's requests, except those for an exempt path, with no live cache entry and a
  -- newest row whose minimal version parses, those and only those pass that name a version which
  -- parses and does not precede the minimal one.
  pub passes_iff :
      (req : MobileRequest) (now : ℕ) (cache : VersionCache) (row : VersionRow) (m : Version)
      → IsChecked req
      → IsStale now (JsMap.get (platform req) cache)
      → newest (platform req) ≡ found (some row)
      → parse_semver row.min_version ≡ some m
      → ((can_activate newest req now cache).0 ≡ ok true)
        ↔ ((v : Version) × (parse_semver (version_text req) ≡ some v) × ¬ Precedes v m)
  passes_iff req now cache row m checked stale e q =
      elim (Option-cases (parse_semver (version_text req))) [
        | inl bad ↦
            let refused = check_version-unparsed req now cache checked bad in
            (
              λ h. let k : err HttpError.upgrade_required ≡ ok true = rw refused at h in cc,
              λ (v, p, _). let k = sym p ∙ bad in cc,
            )
        | inr (v, p) ↦
            let judged =
              ap (λ x. x.0) (check_version-parsed req now cache v checked p)
              ∙ check_min-stale (version_text req) (platform req) now cache row stale e in
            (
              λ h. (v, p, (judge_iff (version_text req) row v m p q).0 (sym judged ∙ h)),
              λ (w, p', late). judged ∙ (judge_iff (version_text req) row w m p' q).1 late,
            )
      ]

  -- Whatever the version is, a request passes once its URL ends with `/docs`, be it in the query.
  pub docs_suffix_passes :
      (req : MobileRequest) (now : ℕ) (cache : VersionCache) (url : Text)
      → can_activate newest (record req { path = url ++ codes "/docs" }) now cache
        ≡ (ok true, cache)
  unfolding can_activate skips_check
  docs_suffix_passes req now cache url = rw (
      or_true (includes (url ++ codes "/docs") (codes "/mobile/version"))
        (includes (url ++ codes "/docs") (codes "/mobile/public-key"))
        (includes (url ++ codes "/docs") (codes "/health")) _ (includes-append url (codes "/docs")))
