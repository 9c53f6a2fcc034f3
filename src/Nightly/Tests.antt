-- ===== src/Nightly/Tests.antt =====
-- The nightly job on one paid invoice (apps/api/src/modules/billing/billing.processor.ts).
use edu_lanka.Prelude.{◌≡◌, refl, true, none, some, [], ◌∷◌}
use edu_lanka.Http.{ok}
use edu_lanka.Postgrest.{found, Table}
use edu_lanka.PostgrestMemory.{Memory, memory_table}
use edu_lanka.Billing.Invoice.{Invoice, paid}
use edu_lanka.Billing.Snapshots.{Sources, Tenant, Plan, SmsLog, SmsQuota}
use edu_lanka.Sponsorship.{Funds, Surroundings}
use edu_lanka.Nightly.{Night, process, ignored}

abbrev settled : Invoice
settled = record {
  id = "a";
  tenant_id = "royal";
  billing_month = "2026-06";
  plan = "STARTER";
  active_student_count = 300;
  base_fee_lkr = 5000;
  per_student_fee_lkr = 10;
  sms_count = 0;
  sms_overage_charge_lkr = 0;
  total_amount_lkr = 7700;
  status = paid;
  created_at = some 0;
  updated_at = 9;
}

abbrev table : Table Invoice
table = memory_table (λ r. r.id)

abbrev funds : Funds
funds = record { Pools = memory_table (λ p. p.id); Grants = memory_table (λ g. g.id) }

abbrev around : Surroundings
around = record {
  learner = λ i. found none;
  tenant = λ i. found (some i);
  events_stored = true;
  increment_answers = true;
}

abbrev sources : Sources
sources = record {
  Tenants = memory_table (λ (t : Tenant). t.id);
  Plans = memory_table (λ (p : Plan). p.code);
  SmsLogs = memory_table (λ (l : SmsLog). l.tenant_id);
  SmsQuotas = memory_table (λ (q : SmsQuota). q.tenant_id);
  tenants = record {
    stored = record { id = "royal"; plan = "STARTER"; is_active = true } ∷ [];
    ids = [];
  };
  plans = record { stored = []; ids = [] };
  sms_logs = record { stored = []; ids = [] };
  sms_quotas = record { stored = []; ids = [] };
  student_counts = found [];
  rpc_counts = found [];
}

abbrev night : Night (Memory Invoice) funds
night = record {
  billing = record {
    snapshots = record { stored = settled ∷ []; ids = "b" ∷ [] };
    lock_status_cache = [];
  };
  sponsorship = record {
    pools = record { stored = []; ids = [] };
    grants = record { stored = []; ids = [] };
    events = [];
  };
}

-- A job of another name does nothing.
other_job :
    process table funds around sources "2026-06" 0 30 31 none "send-reminders" night
    ≡ (ok ignored, night)
unfolding process
other_job = refl
