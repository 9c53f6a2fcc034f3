-- ===== src/Sponsorship/Tests.antt =====
-- A pool and a grant (apps/api/src/modules/billing/sponsorship.service.ts).
use edu_lanka.Prelude.{◌+◌, ◌≡◌, refl, true, none, some, [], ◌∷◌, modify, arith}
use edu_lanka.Http.{ok, err, HttpError}
use edu_lanka.Postgrest.{found}
use edu_lanka.PostgrestMemory.{memory_table, at_most_one, update_one, insert_with}
use edu_lanka.User.{JwtPayload, UserRole}
use edu_lanka.Sponsorship.{
  Funds, Sponsorship, Surroundings, Pool, NetProfit, AwardGrantDto, Beneficiary, has_pool_id,
  recalculated, pool_amount_of, calculate_monthly_pool, write_pool, award_grant, deduct,
  insert_grant,
}
use edu_lanka.Sponsorship.Pools.{recalculation_adds, failed_grant_charges, IsChargedOnly}

abbrev funds : Funds
funds = record { Pools = memory_table (λ p. p.id); Grants = memory_table (λ g. g.id) }

abbrev around : Surroundings
around = record {
  learner = λ i. found none;
  tenant = λ i. found (some i);
  events_stored = true;
  increment_answers = true;
}

abbrev root : JwtPayload
root = record { sub = "u-0"; tenant_id = ""; role = UserRole.super_admin }

abbrev june : Pool
june = record {
  id = "p-1";
  period_month = "2026-06-01";
  net_profit = NetProfit.gain 5000;
  pool_amount = 5000;
  remaining = 5000;
}

-- No id is left for a new grant.
abbrev start : Sponsorship funds
start = record {
  pools = record { stored = june ∷ []; ids = [] };
  grants = record { stored = []; ids = [] };
  events = [];
}

abbrev june_again : Pool
june_again = record june { remaining = 10000 }

abbrev again : Sponsorship funds
again = record start { pools = record { stored = june_again ∷ []; ids = [] } }

recalculated_once :
    calculate_monthly_pool funds around "2026-06-01" (NetProfit.gain 5000) root start
    ≡ (ok june_again, again)
unfolding calculate_monthly_pool write_pool at_most_one update_one pool_amount_of
recalculated_once = refl

recalculation_adds_example :
    (june_again.remaining ≡ june.remaining + pool_amount_of (NetProfit.gain 5000))
    × (june_again.pool_amount ≡ pool_amount_of (NetProfit.gain 5000))
    × (again.pools.stored
        ≡ modify (has_pool_id "p-1") (recalculated (NetProfit.gain 5000) 5000) (june ∷ []))
unfolding at_most_one
recalculation_adds_example =
    recalculation_adds funds around "2026-06-01" (NetProfit.gain 5000) root start again june
      june_again refl refl recalculated_once

abbrev upgrade : AwardGrantDto
upgrade = record {
  beneficiary_type = Beneficiary.school;
  beneficiary_id = "royal";
  from_plan = "STARTER";
  to_plan = "GROWTH";
  expires_at = some 90;
  pool_id = some "p-1";
  estimated_cost = 2000;
}

-- What the failed award leaves.
abbrev charged_only : Sponsorship funds
charged_only = record start {
  pools = record { stored = (record june { remaining = 3000 }) ∷ []; ids = [] };
}

award_fails :
    award_grant funds around upgrade root 5 start ≡ (err HttpError.internal_error, charged_only)
unfolding award_grant deduct insert_grant at_most_one insert_with
award_fails = refl

failed_grant_charges_example : IsChargedOnly funds around upgrade "p-1" june start charged_only
unfolding at_most_one
failed_grant_charges_example =
    failed_grant_charges funds around upgrade root 5 "p-1" june start charged_only award_fails refl
      (omega arith) refl refl
