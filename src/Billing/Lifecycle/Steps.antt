-- ===== src/Billing/Lifecycle/Steps.antt =====
-- Each transition moves the rows along the status graph
-- (apps/api/src/modules/billing/billing.service.ts).
use edu_lanka.Prelude.{
  ℕ, String, ◌≡◌, refl, ◌∙◌, ◌⊎◌, inl, inr, Bool, true, &&-true, Option, none, some, List, [], ◌∷◌,
  In, select, modify, select-In, arith,
}
use edu_lanka.Http.{Result, ok, err, resume}
use edu_lanka.Postgrest.{Reply, found, failed, Table}
use edu_lanka.Billing.Invoice.{
  Invoice, BillingStatus, draft, issued, paid, overdue, is_draft, has_id,
}
use edu_lanka.Billing.LockCache.{Billing, clear_tenant_lock_cache}
use edu_lanka.Billing.Evolution.{
  moved, Transition, issue, pay, pay_late, Grows, Grows-refl, Grows-of_modify,
}
use edu_lanka.Billing.Lifecycle.{
  with_status, found_row, fetch_invoice, write_status, written, issue_existing, issue_invoice,
  pay_existing, mark_invoice_paid,
}

module _ (T : Table Invoice) where
  abbrev pub rows_of : Billing T.Db → List Invoice
  rows_of s = T.rows s.snapshots

  -- An update changes the rows that the filters pass, or none.
  updated_rows :
      (p : Invoice → Bool) (f : Invoice → Invoice) (db : T.Db) (r : Reply Invoice)
      → (T.update_single p f db).0 ≡ r
      → (T.rows (T.update_single p f db).1 ≡ T.rows db)
        ⊎ (T.rows (T.update_single p f db).1 ≡ modify p f (T.rows db))
  updated_rows p f db failed e = inl (T.update_single_failed p f db e)
  updated_rows p f db (found r) e = let (_, _, _, k) = T.update_single_found p f db r e in inr k

  written-rows :
      (tenant : String) (s : Billing T.Db) (r : Reply Invoice) (db : T.Db)
      → rows_of (written T tenant s (r, db)).1 ≡ T.rows db
  unfolding written clear_tenant_lock_cache
  written-rows tenant s failed db = refl
  written-rows tenant s (found r) db = refl

  written-Grows :
      (st : BillingStatus) (now : ℕ) (p : Invoice → Bool) (existing : Invoice) (s : Billing T.Db)
      → ((r : Invoice) → In r (rows_of s) → p r ≡ true → Transition r.status st)
      → Grows (rows_of s) (rows_of (write_status T st now p existing s).1)
  unfolding write_status
  written-Grows st now p existing s h =
      let (reply, db) = T.update_single p (with_status st now) s.snapshots in
      rw (written-rows existing.tenant_id s reply db)
        (elim (updated_rows p (with_status st now) s.snapshots reply refl) [
          | inl kept ↦ rw kept (Grows-refl (rows_of s))
          | inr changed ↦ rw changed (
              Grows-of_modify p (with_status st now) (rows_of s) (λ r. refl)
                (λ r m e. moved (h r m e) refl))
        ])

  -- `fetch_invoice` gives the one row of the id.
  pub fetch_found :
      (id : String) (s : Billing T.Db) (reply : Reply (Option Invoice)) (r : Invoice)
      → T.maybe_single (has_id id) s.snapshots ≡ reply
      → found_row reply ≡ ok r
      → select (has_id id) (rows_of s) ≡ r ∷ []
  unfolding found_row
  fetch_found id s failed r e h = cc
  fetch_found id s (found none) r e h = cc
  fetch_found id s (found (some q)) r e h =
      T.maybe_single_some (has_id id) s.snapshots r (e ∙ ground arith)

  issue_existing-Grows :
      (id : String) (now : ℕ) (existing : Invoice) (st : BillingStatus) (s : Billing T.Db)
      → Grows (rows_of s) (rows_of (issue_existing T id now existing st s).1)
  unfolding issue_existing
  issue_existing-Grows id now existing draft s =
      written-Grows issued now _ existing s λ r m e. of_draft r.status (&&-true _ _ e).1
    where
      of_draft : (st : BillingStatus) → is_draft st ≡ true → Transition st issued
      of_draft draft h = issue
      of_draft issued h = cc
      of_draft paid h = cc
      of_draft overdue h = cc
  issue_existing-Grows id now existing issued s = Grows-refl _
  issue_existing-Grows id now existing paid s = Grows-refl _
  issue_existing-Grows id now existing overdue s = Grows-refl _

  pub issue_invoice-Grows :
      (id : String) (now : ℕ) (s : Billing T.Db)
      → Grows (rows_of s) (rows_of (issue_invoice T id now s).1)
  unfolding issue_invoice fetch_invoice
  issue_invoice-Grows id now s = go (found_row (T.maybe_single (has_id id) s.snapshots))
    where
      go :
          (r : Result Invoice)
          → Grows (rows_of s) (
              rows_of
                (resume (λ existing. issue_existing T id now existing existing.status) (r, s)).1)
      go (err e) = Grows-refl _
      go (ok existing) = issue_existing-Grows id now existing existing.status s

  pub only_row :
      (id : String) (s : Billing T.Db) (existing r : Invoice)
      → select (has_id id) (rows_of s) ≡ existing ∷ []
      → In r (rows_of s)
      → has_id id r ≡ true
      → r ≡ existing
  only_row id s existing r one m h =
      let k : In r (existing ∷ []) = rw one at (select-In (has_id id) r (rows_of s) m h) in
      elim k [ inl e ↦ e | inr e ↦ absurd e ]

  pay_existing-Grows :
      (id : String) (now : ℕ) (existing : Invoice) (st : BillingStatus) (s : Billing T.Db)
      → existing.status ≡ st
      → select (has_id id) (rows_of s) ≡ existing ∷ []
      → Grows (rows_of s) (rows_of (pay_existing T id now existing st s).1)
  unfolding pay_existing
  pay_existing-Grows id now existing paid s e one = Grows-refl _
  pay_existing-Grows id now existing draft s e one = Grows-refl _
  pay_existing-Grows id now existing issued s e one =
      written-Grows paid now (has_id id) existing s
        λ r m h. rw (only_row id s existing r one m h, e) pay
  pay_existing-Grows id now existing overdue s e one =
      written-Grows paid now (has_id id) existing s
        λ r m h. rw (only_row id s existing r one m h, e) pay_late

  pub mark_invoice_paid-Grows :
      (id : String) (now : ℕ) (s : Billing T.Db)
      → Grows (rows_of s) (rows_of (mark_invoice_paid T id now s).1)
  unfolding mark_invoice_paid fetch_invoice
  mark_invoice_paid-Grows id now s = go (found_row (T.maybe_single (has_id id) s.snapshots)) refl
    where
      go :
          (r : Result Invoice)
          → found_row (T.maybe_single (has_id id) s.snapshots) ≡ r
          → Grows (rows_of s) (
              rows_of
                (resume (λ existing. pay_existing T id now existing existing.status) (r, s)).1)
      go (err e) h = Grows-refl _
      go (ok existing) h =
          pay_existing-Grows id now existing existing.status s refl
            (fetch_found id s _ existing refl h)
