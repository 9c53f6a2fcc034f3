-- ===== src/Plans.antt =====
-- The features of the plans, and the quota of an independent learner's questions to the assistant
-- (apps/api/src/modules/tenant/plan-features.service.ts). A cached list of features is a list of names;
-- days and months are the texts that the keys hold.
pub mod Questions
pub mod Tiers
mod Tests
use edu_lanka.Prelude.{
  ℕ, ◌+◌, ◌-◌, ◌*◌, String, Bool, true, false, not, ◌&&◌, ◌||◌, Option, none, some, List, [], ◌∷◌,
  ◌++◌, any, leb, ltb, ◌==◌, str_eq, if◌then◌else◌,
}
use edu_lanka.Http.{Result, ok, err, HttpError, Action, ◌>>=◌, ◌>>◌, return, throw, require}
use edu_lanka.Postgrest.{Reply, found, failed}
use edu_lanka.Text.{Text, codes, to_upper, same}
use edu_lanka.Redis.{Redis, Value, number, expire, Key, ai_daily, ai_monthly_tokens}
use edu_lanka.Auth.{plan_or_community}

abbrev pub Features : Type 0
Features = List String

abbrev pub community_features : Features
community_features = "static_report_cards" ∷ "school_notices" ∷ []

-- What each tier adds to the one below.
abbrev pub starter_added : Features
starter_added =
    "chat" ∷ "targeted_notices" ∷ "disaster_mode" ∷ "twilio_sms" ∷ "blogs_school" ∷ "offline_sync"
    ∷ []

abbrev pub starter_features : Features
starter_features = community_features ++ starter_added

abbrev pub growth_added : Features
growth_added = "blogs_platform" ∷ "video_hosting" ∷ "paper_hub" ∷ "ai_assistant" ∷ []

abbrev pub growth_features : Features
growth_features = starter_features ++ growth_added

abbrev pub institutional_added : Features
institutional_added =
    "early_warning" ∷ "exam_prediction" ∷ "teacher_analytics" ∷ "smart_timetable" ∷ []

abbrev pub institutional_features : Features
institutional_features = growth_features ++ institutional_added

abbrev pub free_features : Features
free_features = "ai_assistant" ∷ "paper_hub" ∷ []

abbrev pub pro_features : Features
pro_features = free_features ++ "offline_sync" ∷ "video_hosting" ∷ []

abbrev pub premium_features : Features
premium_features = pro_features ++ "early_warning" ∷ "exam_prediction" ∷ []

-- A `Map` from the names of plans, in capitals.
abbrev pub PlanCache : Type 0
PlanCache = List (Text × Features)

-- The cache as the constructor fills it.
abbrev pub default_plan_features : PlanCache
default_plan_features =
    (codes "COMMUNITY", community_features)
    ∷ (codes "STARTER", starter_features)
    ∷ (codes "GROWTH", growth_features)
    ∷ (codes "INSTITUTIONAL", institutional_features)
    ∷ (codes "FREE_INDIVIDUAL", free_features)
    ∷ (codes "INDIVIDUAL_PRO", pro_features)
    ∷ (codes "INDIVIDUAL_PREMIUM", premium_features)
    ∷ []

unfoldable pub cached_features : Text → PlanCache → Option Features
cached_features plan [] = none
cached_features plan ((p, fs) ∷ rest) = if same p plan then some fs else cached_features plan rest

unfoldable pub set_features : Text → Features → PlanCache → PlanCache
set_features plan fs [] = (plan, fs) ∷ []
set_features plan fs ((p, gs) ∷ rest) =
    if same p plan then (p, fs) ∷ rest else (p, gs) ∷ set_features plan fs rest

abbrev pub has_feature : Features → String → Bool
has_feature fs f = any (str_eq f) fs

abbrev pub or_features : Option Features → Features → Features
or_features none other = other
or_features (some fs) other = fs

abbrev pub normalized_plan : Option String → Text
normalized_plan plan = to_upper (codes (plan_or_community plan))

abbrev pub features_of : PlanCache → Text → Features
features_of cache plan =
    or_features (cached_features plan cache)
      (or_features (cached_features plan default_plan_features) [])

-- The names `basic_chat` and `full_chat` stand for chat.
unfoldable pub is_feature_enabled : PlanCache → Option String → String → Bool
unfolding cached_features
is_feature_enabled cache plan feature =
    let name = normalized_plan plan in
    let fs = features_of cache name in
    if str_eq feature "chat" && (has_feature fs "basic_chat" || has_feature fs "full_chat")
    then not (same name (codes "COMMUNITY"))
    else has_feature fs feature

abbrev pub assert_feature : {S : Type 0} → PlanCache → Option String → String → Action S (Unit {0})
assert_feature cache plan feature =
    require (is_feature_enabled cache plan feature) HttpError.forbidden

-- The plan of a tenant; a failed query is that of a community school.
abbrev pub get_tenant_plan : Reply (Option (Option String)) → String → String
get_tenant_plan (found (some plan)) tenant =
    if str_eq tenant "" then "COMMUNITY" else plan_or_community plan
get_tenant_plan _ tenant = "COMMUNITY"

abbrev pub assert_tenant_feature :
    {S : Type 0}
    → PlanCache
    → Reply (Option (Option String))
    → String
    → String
    → Action S (Unit {0})
assert_tenant_feature cache reply tenant feature =
    assert_feature cache (some (get_tenant_plan reply tenant)) feature

-- A row of `plans`: its code, and its features if they are a list.
pub record PlanRow : Type 0 where
  pub code : String
  pub features : Option Features

pub record FeatureCache : Type 0 where
  pub plans : PlanCache
  pub last_cache_update : ℕ

abbrev pub with_row : PlanRow → PlanCache → PlanCache
with_row r cache = added r.code r.features
  where
    added : String → Option Features → PlanCache
    added code none = cache
    added code (some fs) =
        if str_eq code "" then cache else set_features (to_upper (codes code)) fs cache

abbrev pub with_rows : List PlanRow → PlanCache → PlanCache
with_rows [] cache = cache
with_rows (r ∷ rs) cache = with_rows rs (with_row r cache)

-- At most once a minute (60,000 milliseconds).
abbrev pub refresh_cache : ℕ → Reply (List PlanRow) → FeatureCache → FeatureCache
refresh_cache now reply c = if ltb now (c.last_cache_update + 60000) then c else refreshed reply
  where
    refreshed : Reply (List PlanRow) → FeatureCache
    refreshed failed = c
    refreshed (found rs) = record { plans = with_rows rs c.plans; last_cache_update = now }

-- The tokens of a month; the free plan counts questions by the day instead.
pub data LearnerQuota : Type 0 where
  daily : ℕ → LearnerQuota
  monthly_tokens : ℕ → LearnerQuota

abbrev pub individual_plan_quota : String → Option LearnerQuota
individual_plan_quota plan =
    if str_eq plan "FREE_INDIVIDUAL"
    then some (daily 5)
    else if str_eq plan "INDIVIDUAL_PRO"
    then some (monthly_tokens 20000)
    else if str_eq plan "INDIVIDUAL_PREMIUM"
    then some (monthly_tokens 60000)
    else none

-- `current ? parseInt(current, 10) : 0`.
abbrev pub used : Option Value → ℕ
used (some (number n)) = n
used _ = 0

module _ (R : Redis) where
  abbrev pub answered_or_thrown : Bool × R.Db → Result (Unit {0}) × R.Db
  answered_or_thrown (true, db) = (ok tt, db)
  answered_or_thrown (false, db) = (err HttpError.thrown, db)

  -- The first question of a day starts its counter's 86,400 seconds.
  abbrev pub counted_question : Key → ℕ → Reply ℕ × R.Db → Result (Unit {0}) × R.Db
  counted_question key now (failed, db) = (err HttpError.thrown, db)
  counted_question key now (found n, db) =
      if n == 1 then answered_or_thrown (R.exec now (expire key 86400) db) else (ok tt, db)

  abbrev pub within_daily : Key → ℕ → ℕ → Reply (Option Value) → R.Db → Result (Unit {0}) × R.Db
  within_daily key limit now failed db = (err HttpError.thrown, db)
  within_daily key limit now (found v) db =
      if leb limit (used v)
      then (err HttpError.forbidden, db)
      else counted_question key now (R.incr now key db)

  abbrev pub within_monthly : ℕ → Reply (Option Value) → R.Db → Result (Unit {0}) × R.Db
  within_monthly limit failed db = (err HttpError.thrown, db)
  within_monthly limit (found v) db =
      if leb limit (used v) then (err HttpError.forbidden, db) else (ok tt, db)

  abbrev pub assert_quota :
      String → String → String → ℕ → Option LearnerQuota → Action R.Db (Unit {0})
  assert_quota user today month now none db = (err HttpError.forbidden, db)
  assert_quota user today month now (some (daily limit)) db =
      within_daily (ai_daily user today) limit now (R.read now (ai_daily user today) db) db
  assert_quota user today month now (some (monthly_tokens limit)) db =
      within_monthly limit (R.read now (ai_monthly_tokens user month) db) db

  unfoldable pub assert_individual_ai_quota :
      PlanCache → String → String → String → String → ℕ → Action R.Db (Unit {0})
  unfolding is_feature_enabled
  assert_individual_ai_quota cache plan user today month now db =
      if is_feature_enabled cache (some plan) "ai_assistant"
      then assert_quota user today month now (individual_plan_quota plan) db
      else (err HttpError.forbidden, db)
