-- ===== src/Billing/LockStatus/Grace.antt =====
-- When a tenant is locked (apps/api/src/modules/billing/billing.service.ts).
use mathlib.Core.Path.{subst}
use edu_lanka.Prelude.{
  ℕ, ◌+◌, ◌<◌, ◌≤◌, ◌≡◌, ◌↔◌, refl, ap, ◌⊎◌, inl, inr, String, true, false, Option, none, some,
  List, [], ◌∷◌, In, ltb, In-select, select-In, &&-true, str_eq_iff, Bool-cases, if◌then◌else◌,
  arith,
}
use edu_lanka.JsMap
use edu_lanka.Postgrest.{Reply, found, failed, Table}
use edu_lanka.Billing.Invoice.{Invoice, BillingStatus, draft, issued, paid, overdue, is_unpaid}
use edu_lanka.Billing.LockCache.{Billing, CacheEntry}
use edu_lanka.Billing.Lifecycle.{grace_period_ms}
use edu_lanka.Billing.LockStatus.{
  invoice_time, oldest_created, policy_status, good_standing, is_unpaid_of, rows_or_none,
  fresh_status, cached_or_fresh, check_tenant_invoice_status, lock_cache_ttl_ms,
}

abbrev IsOlder : ℕ → ℕ → List Invoice → Type 0
IsOlder g now rs = (r : Invoice) × In r rs × (invoice_time r + g < now)

IsOlder-cons :
    (g now t oldest : ℕ) (x : Invoice) (rs : List Invoice)
    → let least = if ltb (invoice_time x) t then invoice_time x else t in
      ((oldest + g < now) ↔ ((least + g < now) ⊎ IsOlder g now rs))
      → (oldest + g < now) ↔ ((t + g < now) ⊎ IsOlder g now (x ∷ rs))
IsOlder-cons g now t oldest x rs (to, from) = (
  λ h. elim (to h) [
    | inl k ↦ elim (Bool-cases (ltb (invoice_time x) t)) [
      | inl e ↦ inr (x, inl refl, rw e at k)
      | inr e ↦ inl (rw e at k)
    ]
    | inr (r, m, k) ↦ inr (r, inr m, k)
  ],
  elim [
    | inl h ↦ from (inl (ground arith))
    | inr (r, inl e, h) ↦ from (inl (let k : invoice_time x + g < now = rw e at h in ground arith))
    | inr (r, inr m, h) ↦ from (inr (r, m, h))
  ],
)

-- The oldest time is before a limit if the first or one of the others is.
oldest_created-lt_iff :
    (g now t : ℕ) (rs : List Invoice)
    → (oldest_created t rs + g < now) ↔ ((t + g < now) ⊎ IsOlder g now rs)
unfolding oldest_created
oldest_created-lt_iff g now t [] = (λ h. inl h, elim [ inl h ↦ h | inr (r, m, h) ↦ absurd m ])
oldest_created-lt_iff g now t (x ∷ rs) =
    IsOlder-cons g now t _ x rs
      (oldest_created-lt_iff g now (if ltb (invoice_time x) t then invoice_time x else t) rs)

-- An unpaid invoice whose grace period has run out.
abbrev pub IsPastGrace : ℕ → Invoice → Type 0
IsPastGrace now r = invoice_time r + grace_period_ms < now

locked_iff :
    (tenant : String) (now : ℕ) (rs : List Invoice)
    → ((policy_status tenant now rs).is_account_locked ≡ true)
      ↔ ((r : Invoice) × In r rs × IsPastGrace now r)
unfolding policy_status
locked_iff tenant now [] = (λ h. cc, λ h. absurd h.1)
locked_iff tenant now (r ∷ rs) =
    let (to, from) = oldest_created-lt_iff grace_period_ms now (invoice_time r) rs in
    (
      λ h. elim (to (ground arith)) [ inl k ↦ (r, inl refl, k) | inr (q, m, k) ↦ (q, inr m, k) ],
      λ h.
          let k = from (elim h.1 [ inl e ↦ inl (rw e at h.2) | inr m ↦ inr (h.0, m, h.2) ]) in
          ground arith,
    )

is_unpaid_iff : (st : BillingStatus) → (is_unpaid st ≡ true) ↔ ((st ≡ issued) ⊎ (st ≡ overdue))
is_unpaid_iff issued = ground arith
is_unpaid_iff draft = ground arith
is_unpaid_iff paid = ground arith
is_unpaid_iff overdue = ground arith

-- No entry of the cache, or one that has expired.
abbrev pub IsStale : ℕ → Option CacheEntry → Type 0
IsStale now none = Unit
IsStale now (some e) = e.expires_at ≤ now

module _ (T : Table Invoice) where
  stale-fresh :
      (tenant : String) (now : ℕ) (s : Billing T.Db) (o : Option CacheEntry)
      → IsStale now o
      → cached_or_fresh T o tenant now s ≡ fresh_status T tenant now s
  unfolding cached_or_fresh
  stale-fresh tenant now s none h = refl
  stale-fresh tenant now s (some e) h = ground arith

  check-stale :
      (tenant : String) (now : ℕ) (s : Billing T.Db) (reply : Reply (List Invoice))
      → IsStale now (JsMap.get tenant s.lock_status_cache)
      → T.select_all (is_unpaid_of tenant) s.snapshots ≡ reply
      → (check_tenant_invoice_status T tenant now s).0
        ≡ policy_status tenant now (rows_or_none reply)
  unfolding check_tenant_invoice_status fresh_status
  check-stale tenant now s reply stale e =
      rw (stale-fresh tenant now s (JsMap.get tenant s.lock_status_cache) stale)
        (ap (λ r. policy_status tenant now (rows_or_none r)) e)

  -- With no live cache entry and an answered query, a tenant is locked exactly when one of its
  -- ISSUED or OVERDUE invoices was created more than fourteen days ago.
  pub check_locked_iff :
      (tenant : String) (now : ℕ) (s : Billing T.Db) (rs : List Invoice)
      → IsStale now (JsMap.get tenant s.lock_status_cache)
      → T.select_all (is_unpaid_of tenant) s.snapshots ≡ found rs
      → ((check_tenant_invoice_status T tenant now s).0.is_account_locked ≡ true) ↔ (
          (r : Invoice) × In r (T.rows s.snapshots)
          × (r.tenant_id ≡ tenant)
          × ((r.status ≡ issued) ⊎ (r.status ≡ overdue))
          × IsPastGrace now r)
  check_locked_iff tenant now s rs stale answered =
      let status = check-stale tenant now s (found rs) stale answered in
      let listed = T.select_all_found (is_unpaid_of tenant) s.snapshots rs answered in
      let (to, from) = locked_iff tenant now rs in
      (
        λ h.
            let (r, m, old) = to (rw status at h) in
            let (stored, passes) =
              In-select (is_unpaid_of tenant) r (T.rows s.snapshots) (subst (In r) listed m) in
            let (t, u) = &&-true _ _ passes in
            (r, stored, (str_eq_iff r.tenant_id tenant).0 t, (is_unpaid_iff r.status).0 u, old),
        λ (r, stored, t, u, old).
            let passes : is_unpaid_of tenant r ≡ true =
              rw ((str_eq_iff r.tenant_id tenant).1 t) ((is_unpaid_iff r.status).1 u) in
            let m = select-In (is_unpaid_of tenant) r (T.rows s.snapshots) stored passes in
            rw status (from (r, rw listed m, old)),
      )

  -- A failed query counts as good standing.
  pub check_failed :
      (tenant : String) (now : ℕ) (s : Billing T.Db)
      → IsStale now (JsMap.get tenant s.lock_status_cache)
      → T.select_all (is_unpaid_of tenant) s.snapshots ≡ failed
      → (check_tenant_invoice_status T tenant now s).0.is_account_locked ≡ false
  unfolding policy_status good_standing
  check_failed tenant now s stale e = rw (check-stale tenant now s failed stale e)

  -- Within sixty seconds of a computed status the same status is given again, whatever has happened
  -- to the table.
  check_cached :
      (tenant : String) (now later : ℕ) (s : Billing T.Db) (db : T.Db)
      → IsStale now (JsMap.get tenant s.lock_status_cache)
      → later < now + lock_cache_ttl_ms
      → let (status, s') = check_tenant_invoice_status T tenant now s in
        check_tenant_invoice_status T tenant later (record s' { snapshots = db })
        ≡ (status, record s' { snapshots = db })
  unfolding check_tenant_invoice_status fresh_status cached_or_fresh
  check_cached tenant now later s db stale h =
      rw (stale-fresh tenant now s (JsMap.get tenant s.lock_status_cache) stale, JsMap.get-set_self)
        (ground arith)
