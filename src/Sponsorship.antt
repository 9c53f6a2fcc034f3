-- ===== src/Sponsorship.antt =====
-- `SponsorshipService` (apps/api/src/modules/billing/sponsorship.service.ts): the monthly pools and the
-- grants that draw on them. Amounts of a pool are in tenths of a rupee, so that a tenth of a profit in
-- whole rupees is exact.
pub mod Pools
mod Tests
use edu_lanka.Prelude.{
  ℕ, ◌+◌, ◌-◌, String, Bool, true, false, not, ◌&&◌, Option, none, some, List, [], ◌∷◌, ◌++◌, map,
  length, any, ltb, leb, ◌==◌, str_eq, if◌then◌else◌,
}
use edu_lanka.Http.{Result, ok, err, HttpError, Action, ◌>>=◌, ◌>>◌, return, throw, require}
use edu_lanka.Postgrest.{Reply, found, failed, Table}
use edu_lanka.User.{JwtPayload, is_super_admin}

-- A month's net profit in rupees.
pub data NetProfit : Type 0 where
  gain loss : ℕ → NetProfit

pub record Pool : Type 0 where
  pub id : String
  pub period_month : String
  pub net_profit : NetProfit
  pub pool_amount : ℕ
  pub remaining : ℕ

pub data Beneficiary : Type 0 where
  school independent_learner : Beneficiary

pub record AwardGrantDto : Type 0 where
  pub beneficiary_type : Beneficiary
  pub beneficiary_id : String
  pub from_plan : String
  pub to_plan : String
  pub expires_at : Option ℕ
  pub pool_id : Option String
  pub estimated_cost : ℕ

pub record Grant : Type 0 where
  pub id : String
  pub pool_id : Option String
  pub beneficiary_type : Beneficiary
  pub beneficiary_id : String
  pub from_plan : String
  pub to_plan : String
  pub expires_at : ℕ
  pub granted_by : String
  pub estimated_cost : ℕ
  pub is_active : Bool

pub data GrantEvent : Type 0 where
  granted manual_revoke expired : String → GrantEvent

pub record Funds : Type 1 where
  pub Pools : Table Pool
  pub Grants : Table Grant

-- The tables and the audit events.
pub record Sponsorship (D : Funds) : Type 0 where
  pub pools : D.Pools.Db
  pub grants : D.Grants.Db
  pub events : List GrantEvent

-- The replies to the queries for a learner and for a tenant, whether an event is stored, and whether
-- the database function `increment_pool_remaining` is answered.
pub record Surroundings : Type 0 where
  pub learner : String → Reply (Option String)
  pub tenant : String → Reply (Option String)
  pub events_stored : Bool
  pub increment_answers : Bool

-- `Math.max(0, netProfitLkr * 0.10)`.
unfoldable pub pool_amount_of : NetProfit → ℕ
pool_amount_of (gain p) = p
pool_amount_of (loss p) = 0

abbrev pub is_of_month : String → Pool → Bool
is_of_month month p = str_eq p.period_month month

abbrev pub has_pool_id : String → Pool → Bool
has_pool_id id p = str_eq p.id id

abbrev pub has_grant_id : String → Grant → Bool
has_grant_id id g = str_eq g.id id

-- The query reads the columns `id` and `remaining_lkr` only, so that the previous pool amount is 0.
abbrev pub prev_pool_amount : ℕ
prev_pool_amount = 0

abbrev pub recalculated : NetProfit → ℕ → Pool → Pool
recalculated profit remaining p = record p {
  net_profit = profit;
  pool_amount = pool_amount_of profit;
  remaining = remaining + pool_amount_of profit - prev_pool_amount;
}

abbrev pub new_pool : String → NetProfit → String → Pool
new_pool month profit id = record {
  id = id;
  period_month = month;
  net_profit = profit;
  pool_amount = pool_amount_of profit;
  remaining = pool_amount_of profit;
}

-- `const { data } = ...`: the error is dropped.
abbrev pub data_of {ℓ} : {A : Type ℓ} → Reply (Option A) → Option A
data_of failed = none
data_of (found o) = o

abbrev pub new_grant : AwardGrantDto → ℕ → String → String → Grant
new_grant dto expires_at by id = record {
  id = id;
  pool_id = dto.pool_id;
  beneficiary_type = dto.beneficiary_type;
  beneficiary_id = dto.beneficiary_id;
  from_plan = dto.from_plan;
  to_plan = dto.to_plan;
  expires_at = expires_at;
  granted_by = by;
  estimated_cost = dto.estimated_cost;
  is_active = true;
}

abbrev pub deducted : ℕ → Pool → Pool
deducted remaining p = record p { remaining = remaining }

abbrev pub deactivated : Grant → Grant
deactivated g = record g { is_active = false }

abbrev pub is_expired : ℕ → Grant → Bool
is_expired now g = g.is_active && ltb g.expires_at now

module _ (D : Funds) (w : Surroundings) where
  abbrev pub guard_super_admin : JwtPayload → Action (Sponsorship D) (Unit {0})
  guard_super_admin caller = require (is_super_admin caller.role) HttpError.forbidden

  abbrev pub pool_updated : Sponsorship D → Reply Pool × D.Pools.Db → Result Pool × Sponsorship D
  pool_updated s (failed, db) = (err HttpError.internal_error, record s { pools = db })
  pool_updated s (found p, db) = (ok p, record s { pools = db })

  abbrev pub pool_inserted :
      (String → Pool) → Sponsorship D → Reply String × D.Pools.Db → Result Pool × Sponsorship D
  pool_inserted make s (failed, db) = (err HttpError.internal_error, record s { pools = db })
  pool_inserted make s (found id, db) = (ok (make id), record s { pools = db })

  unfoldable pub write_pool : String → NetProfit → Option Pool → Action (Sponsorship D) Pool
  write_pool month profit none s =
      pool_inserted (new_pool month profit) s (D.Pools.insert (new_pool month profit) s.pools)
  write_pool month profit (some p) s =
      pool_updated s
        (D.Pools.update_single (has_pool_id p.id) (recalculated profit p.remaining) s.pools)

  unfoldable pub calculate_monthly_pool :
      String → NetProfit → JwtPayload → Action (Sponsorship D) Pool
  unfolding write_pool
  calculate_monthly_pool month profit caller s =
      (guard_super_admin caller
          >> write_pool month profit (data_of (D.Pools.maybe_single (is_of_month month) s.pools)))
        s

  abbrev pub is_future : Option ℕ → ℕ → Bool
  is_future none now = false
  is_future (some t) now = ltb now t

  abbrev pub is_present : Option String → Bool
  is_present none = false
  is_present (some _) = true

  abbrev pub beneficiary_of : Beneficiary → String → Option String
  beneficiary_of school id = data_of (w.tenant id)
  beneficiary_of independent_learner id = data_of (w.learner id)

  abbrev pub pool_charged :
      Sponsorship D → Reply (Unit {0}) × D.Pools.Db → Result (Unit {0}) × Sponsorship D
  pool_charged s (failed, db) = (err HttpError.internal_error, record s { pools = db })
  pool_charged s (found _, db) = (ok tt, record s { pools = db })

  abbrev pub charge_pool : String → ℕ → Option Pool → Action (Sponsorship D) (Unit {0})
  charge_pool id cost none s = (err HttpError.not_found, s)
  charge_pool id cost (some p) s =
      let charged =
        pool_charged s (D.Pools.update (has_pool_id id) (deducted (p.remaining - cost)) s.pools) in
      if ltb p.remaining cost then (err HttpError.bad_request, s) else charged

  -- The deduction, if a pool and a positive cost are given.
  unfoldable pub deduct : Option String → ℕ → Action (Sponsorship D) (Unit {0})
  deduct none cost s = (ok tt, s)
  deduct (some id) cost s =
      let charged =
        charge_pool id cost (data_of (D.Pools.maybe_single (has_pool_id id) s.pools)) s in
      if ltb 0 cost then charged else (ok tt, s)

  abbrev pub with_event : GrantEvent → Sponsorship D → Sponsorship D
  with_event e s = if w.events_stored then record s { events = s.events ++ e ∷ [] } else s

  abbrev pub grant_inserted :
      (String → Grant) → Sponsorship D → Reply String × D.Grants.Db → Result Grant × Sponsorship D
  grant_inserted make s (failed, db) = (err HttpError.internal_error, record s { grants = db })
  grant_inserted make s (found id, db) =
      (ok (make id), with_event (granted id) (record s { grants = db }))

  unfoldable pub insert_grant : AwardGrantDto → Option ℕ → String → Action (Sponsorship D) Grant
  insert_grant dto none by s = (err HttpError.bad_request, s)
  insert_grant dto (some t) by s =
      grant_inserted (new_grant dto t by) s (D.Grants.insert (new_grant dto t by) s.grants)

  unfoldable pub award_grant : AwardGrantDto → JwtPayload → ℕ → Action (Sponsorship D) Grant
  unfolding deduct insert_grant
  award_grant dto caller now = do
    guard_super_admin caller
    require (is_future dto.expires_at now) HttpError.bad_request
    require (is_present (beneficiary_of dto.beneficiary_type dto.beneficiary_id))
        HttpError.not_found
    deduct dto.pool_id dto.estimated_cost
    insert_grant dto dto.expires_at caller.sub

  -- The database adds the cost to the pool; a failure is only logged.
  abbrev pub restore_pool : Option String → ℕ → Sponsorship D → Sponsorship D
  restore_pool none cost s = s
  restore_pool (some id) cost s =
      let added =
        (D.Pools.update (has_pool_id id) (λ p. record p { remaining = p.remaining + cost })
          s.pools).1 in
      if ltb 0 cost && w.increment_answers then record s { pools = added } else s

  abbrev pub grant_revoked :
      Grant → Sponsorship D → Reply Grant × D.Grants.Db → Result Grant × Sponsorship D
  grant_revoked g s (failed, db) = (err HttpError.internal_error, record s { grants = db })
  grant_revoked g s (found row, db) = (
    ok row,
    with_event (manual_revoke g.id)
        (restore_pool g.pool_id g.estimated_cost (record s { grants = db })),
  )

  unfoldable pub revoke_found : String → Reply (Option Grant) → Action (Sponsorship D) Grant
  revoke_found id failed s = (err HttpError.not_found, s)
  revoke_found id (found none) s = (err HttpError.not_found, s)
  revoke_found id (found (some g)) s =
      let revoked =
        grant_revoked g s (D.Grants.update_single (has_grant_id id) deactivated s.grants) in
      if not g.is_active then (err HttpError.bad_request, s) else revoked

  pub revoke_grant : String → JwtPayload → Action (Sponsorship D) Grant
  unfolding revoke_found
  revoke_grant id caller s =
      (guard_super_admin caller
          >> revoke_found id (D.Grants.maybe_single (has_grant_id id) s.grants))
        s

  abbrev pub grants_expired :
      List Grant → Sponsorship D → Reply (Unit {0}) × D.Grants.Db → ℕ × Sponsorship D
  grants_expired gs s (failed, db) = (0, record s { grants = db })
  grants_expired gs s (found _, db) =
      let t : Sponsorship D = record s { grants = db } in
      (
        length gs,
        if w.events_stored then record t { events = t.events ++ map (λ g. expired g.id) gs } else t,
      )

  unfoldable pub expire : Reply (List Grant) → Sponsorship D → ℕ × Sponsorship D
  expire failed s = (0, s)
  expire (found []) s = (0, s)
  expire (found (g ∷ gs)) s =
      let ids = map (λ x. x.id) (g ∷ gs) in
      grants_expired (g ∷ gs) s (D.Grants.update (λ x. any (str_eq x.id) ids) deactivated s.grants)

  pub process_expired_grants : ℕ → Sponsorship D → ℕ × Sponsorship D
  unfolding expire
  process_expired_grants now s = expire (D.Grants.select_all (is_expired now) s.grants) s
