-- ===== src/Plans/Tiers.antt =====
-- The tiers of schools include each other (apps/api/src/modules/tenant/plan-features.service.ts).
use edu_lanka.Prelude.{
  String, ◌≡◌, refl, sym, ◌∙◌, inl, inr, Bool, true, false, ◌&&◌, some, [], ◌∷◌, ◌++◌, Bool-cases,
  if◌then◌else◌, str_eq,
}
use edu_lanka.Text.{same}
use edu_lanka.Plans.{
  Features, community_features, starter_features, growth_features, institutional_features,
  starter_added, growth_added, institutional_added, default_plan_features, cached_features,
  is_feature_enabled, has_feature,
}

has_feature-append :
    (fs gs : Features) (f : String) → has_feature fs f ≡ true → has_feature (fs ++ gs) f ≡ true
has_feature-append [] gs f h = let bad : false ≡ true = h in absurd (cc)
has_feature-append (g ∷ fs) gs f h = elim (Bool-cases (str_eq f g)) [
  | inl e ↦ rw e refl
  | inr e ↦ rw e (has_feature-append fs gs f (rw e at h))
]

-- A list without the old names of chat says itself what is enabled.
by_list : (b c : Bool) (x : Bool) → (if b && false then c else x) ≡ x
by_list true c x = refl
by_list false c x = refl

abbrev enabled : String → String → Bool
enabled plan f = is_feature_enabled default_plan_features (some plan) f

module _ (f : String) where
  community : enabled "COMMUNITY" f ≡ has_feature community_features f
  unfolding is_feature_enabled cached_features same
  community = by_list (str_eq f "chat") false (has_feature community_features f)

  starter : enabled "STARTER" f ≡ has_feature starter_features f
  unfolding is_feature_enabled cached_features same
  starter = by_list (str_eq f "chat") true (has_feature starter_features f)

  growth : enabled "GROWTH" f ≡ has_feature growth_features f
  unfolding is_feature_enabled cached_features same
  growth = by_list (str_eq f "chat") true (has_feature growth_features f)

  institutional : enabled "INSTITUTIONAL" f ≡ has_feature institutional_features f
  unfolding is_feature_enabled cached_features same
  institutional = by_list (str_eq f "chat") true (has_feature institutional_features f)

  -- With the features that the service starts with, a feature that is enabled on a tier of the schools is
  -- enabled on the next: COMMUNITY, STARTER, GROWTH, INSTITUTIONAL.
  pub is_feature_enabled-tiers :
      (is_feature_enabled default_plan_features (some "COMMUNITY") f ≡ true
        → is_feature_enabled default_plan_features (some "STARTER") f ≡ true)
      × (is_feature_enabled default_plan_features (some "STARTER") f ≡ true
          → is_feature_enabled default_plan_features (some "GROWTH") f ≡ true)
      × (is_feature_enabled default_plan_features (some "GROWTH") f ≡ true
          → is_feature_enabled default_plan_features (some "INSTITUTIONAL") f ≡ true)
  is_feature_enabled-tiers = (
    λ h. starter ∙ has_feature-append community_features starter_added f (sym community ∙ h),
    λ h. growth ∙ has_feature-append starter_features growth_added f (sym starter ∙ h),
    λ h. institutional ∙ has_feature-append growth_features institutional_added f (sym growth ∙ h),
  )
