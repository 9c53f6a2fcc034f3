-- ===== src/Plans/Tests.antt =====
-- Features and questions on the plans of the service
-- (apps/api/src/modules/tenant/plan-features.service.ts).
use edu_lanka.Prelude.{◌≤◌, ◌≡◌, refl, true, false, none, some, [], ◌∷◌, arith}
use edu_lanka.Text.{same}
use edu_lanka.Postgrest.{found}
use edu_lanka.RedisMemory.{memory_redis, empty_redis}
use edu_lanka.Plans.{
  default_plan_features, cached_features, set_features, is_feature_enabled, refresh_cache,
  assert_individual_ai_quota,
}
use edu_lanka.Plans.Questions.{questions, questions-bound}
use edu_lanka.Plans.Tiers.{is_feature_enabled-tiers}

no_plan : is_feature_enabled default_plan_features none "chat" ≡ false
unfolding is_feature_enabled cached_features same
no_plan = refl

lower_case : is_feature_enabled default_plan_features (some "starter") "chat" ≡ true
unfolding is_feature_enabled cached_features same
lower_case = refl

-- A row of the table replaces the features of its plan.
replaced :
    is_feature_enabled
      (refresh_cache 60000
        (found ((record { code = "growth"; features = some ("full_chat" ∷ []) }) ∷ []))
        (record { plans = default_plan_features; last_cache_update = 0 })).plans
      (some "GROWTH")
      "chat"
    ≡ true
unfolding is_feature_enabled cached_features set_features same
replaced = refl

tiers_of_chat :
    (is_feature_enabled default_plan_features (some "COMMUNITY") "chat" ≡ true
      → is_feature_enabled default_plan_features (some "STARTER") "chat" ≡ true)
    × (is_feature_enabled default_plan_features (some "STARTER") "chat" ≡ true
        → is_feature_enabled default_plan_features (some "GROWTH") "chat" ≡ true)
    × (is_feature_enabled default_plan_features (some "GROWTH") "chat" ≡ true
        → is_feature_enabled default_plan_features (some "INSTITUTIONAL") "chat" ≡ true)
tiers_of_chat = is_feature_enabled-tiers "chat"

-- Six questions from six in the morning on: five are let through.
five_of_six :
    (questions memory_redis "amara" "2026-11-26" "2026-11" default_plan_features
      (21600 ∷ 21601 ∷ 21602 ∷ 21603 ∷ 21604 ∷ 86399 ∷ [])
      empty_redis).0
    ≡ 5
unfolding assert_individual_ai_quota is_feature_enabled cached_features same
five_of_six = refl

questions-bound_example :
    (questions memory_redis "amara" "2026-11-26" "2026-11" default_plan_features
      (21600 ∷ 21601 ∷ 21602 ∷ 21603 ∷ 21604 ∷ 86399 ∷ [])
      empty_redis).0
    ≤ 5
questions-bound_example =
    questions-bound memory_redis "amara" "2026-11-26" "2026-11" default_plan_features 0
      (21600 ∷ 21601 ∷ 21602 ∷ 21603 ∷ 21604 ∷ 86399 ∷ []) empty_redis refl
      (
        (omega arith, omega arith),
        (
          (omega arith, omega arith),
          (
            (omega arith, omega arith),
            (
              (omega arith, omega arith),
              ((omega arith, omega arith), ((omega arith, omega arith), tt)),
            ),
          ),
        ),
      )
