-- ===== src/Billing/Lifecycle/Outcomes.antt =====
-- What the callers of `issueInvoice` and `markInvoicePaid` are told
-- (apps/api/src/modules/billing/billing.service.ts).
use edu_lanka.Prelude.{
  ℕ, String, ◌≡◌, ◌≢◌, refl, sym, ap, ◌∙◌, ◌⊎◌, inl, inr, Bool, true, ◌&&◌, &&-true, none, some, [],
  ◌∷◌, select, modify, In-select, str_eq_refl,
}
use edu_lanka.JsMap
use edu_lanka.Http.{Result, ok, err, resume}
use edu_lanka.Postgrest.{Reply, found, failed, Table}
use edu_lanka.Billing.Invoice.{
  Invoice, BillingStatus, draft, issued, paid, overdue, is_draft, has_id,
}
use edu_lanka.Billing.LockCache.{Billing, clear_tenant_lock_cache}
use edu_lanka.Billing.Lifecycle.{
  with_status, found_row, fetch_invoice, write_status, written, issue_existing, issue_invoice,
  pay_existing, mark_invoice_paid,
}
use edu_lanka.Billing.Lifecycle.Steps.{rows_of, fetch_found, only_row}

ok-injective : {a b : Invoice} → ok a ≡ ok b → b ≡ a
ok-injective h = cc

module _ (T : Table Invoice) where
  -- The invoice of the id was `old`; it is given back with the new status, which is also what has
  -- become of the rows that the filters pass; the tenant has no cached status any more.
  pub record Written (p : Invoice → Bool) (st : BillingStatus) (now : ℕ) (old row : Invoice)
      (s s' : Billing T.Db) : Type 0 where
    pub given : row ≡ with_status st now old
    pub stored : rows_of T s' ≡ modify p (with_status st now) (rows_of T s)
    pub uncached : JsMap.get old.tenant_id s'.lock_status_cache ≡ none

  written-eq-ok :
      (tenant : String) (s s' : Billing T.Db) (reply : Reply Invoice) (db : T.Db) (row : Invoice)
      → written T tenant s (reply, db) ≡ (ok row, s')
      → (reply ≡ found row)
        × (s' ≡ clear_tenant_lock_cache (some tenant) (record s { snapshots = db }))
  unfolding written
  written-eq-ok tenant s s' failed db row e = cc
  written-eq-ok tenant s s' (found q) db row e =
      (ap found (sym (ok-injective (ap (λ x. x.0) e))), sym (ap (λ x. x.1) e))

  write_status-Written :
      (st : BillingStatus) (now : ℕ) (p : Invoice → Bool) (old row : Invoice) (s s' : Billing T.Db)
      → ((r : Invoice) → select p (rows_of T s) ≡ r ∷ [] → r ≡ old)
      → write_status T st now p old s ≡ (ok row, s')
      → Written p st now old row s s'
  unfolding write_status clear_tenant_lock_cache
  write_status-Written st now p old row s s' only e =
      let (reply, db) = T.update_single p (with_status st now) s.snapshots in
      let (h, after) = written-eq-ok old.tenant_id s s' reply db row e in
      let (r, one, g, stored) = T.update_single_found p (with_status st now) s.snapshots row h in
      record {
        given = g ∙ ap (with_status st now) (only r one);
        stored = ap (rows_of T) after ∙ stored;
        uncached = rw (after, JsMap.get-delete, str_eq_refl old.tenant_id);
      }

  select_only :
      (id : String) (p : Invoice → Bool) (old : Invoice) (s : Billing T.Db)
      → select (has_id id) (rows_of T s) ≡ old ∷ []
      → ((r : Invoice) → p r ≡ true → has_id id r ≡ true)
      → (r : Invoice) → select p (rows_of T s) ≡ r ∷ []
      → r ≡ old
  select_only id p old s one narrow r e =
      let (m, h) = In-select p r (rows_of T s) (rw e (inl refl)) in
      only_row T id s old r one m (narrow r h)

  abbrev pub is_draft_of : String → Invoice → Bool
  is_draft_of id r = has_id id r && is_draft r.status

  -- The one invoice of the id was a draft, and is issued now.
  pub record Issued (id : String) (now : ℕ) (row : Invoice) (s s' : Billing T.Db) : Type 0 where
    pub old : Invoice
    pub unique : select (has_id id) (rows_of T s) ≡ old ∷ []
    pub was_draft : old.status ≡ draft
    pub result : Written (is_draft_of id) issued now old row s s'

  issue_existing-Issued :
      (id : String) (now : ℕ) (old row : Invoice) (st : BillingStatus) (s s' : Billing T.Db)
      → old.status ≡ st
      → select (has_id id) (rows_of T s) ≡ old ∷ []
      → issue_existing T id now old st s ≡ (ok row, s')
      → Issued id now row s s'
  unfolding issue_existing
  issue_existing-Issued id now old row draft s s' h one k = record {
    old = old;
    unique = one;
    was_draft = h;
    result =
        write_status-Written issued now (is_draft_of id) old row s s'
          (select_only id (is_draft_of id) old s one (λ r e. (&&-true _ _ e).0)) k;
  }
  issue_existing-Issued id now old row issued s s' h one k = cc
  issue_existing-Issued id now old row paid s s' h one k = cc
  issue_existing-Issued id now old row overdue s s' h one k = cc

  -- A success of `issue_invoice` means that the invoice of the id was a draft and is issued now: it
  -- is given back with the new status, the table holds it with that status and is otherwise
  -- unchanged, and the tenant's cached lock status is gone.
  pub issue_invoice_ok :
      (id : String) (now : ℕ) (s s' : Billing T.Db) (row : Invoice)
      → issue_invoice T id now s ≡ (ok row, s')
      → Issued id now row s s'
  unfolding issue_invoice fetch_invoice
  issue_invoice_ok id now s s' row e =
      go (found_row (T.maybe_single (has_id id) s.snapshots)) refl e
    where
      go :
          (r : Result Invoice)
          → found_row (T.maybe_single (has_id id) s.snapshots) ≡ r
          → resume (λ old. issue_existing T id now old old.status) (r, s) ≡ (ok row, s')
          → Issued id now row s s'
      go (err x) h k = cc
      go (ok old) h k =
          issue_existing-Issued id now old row old.status s s' refl
            (fetch_found T id s _ old refl h) k

  -- The one invoice of the id is given back: a paid one as it is, with nothing changed, and an
  -- issued or overdue one as paid.
  pub record Settled (id : String) (now : ℕ) (row : Invoice) (s s' : Billing T.Db) : Type 0 where
    pub old : Invoice
    pub unique : select (has_id id) (rows_of T s) ≡ old ∷ []
    pub was_final : old.status ≢ draft
    pub result :
        ((old.status ≡ paid) × (row ≡ old) × (s' ≡ s))
        ⊎ ((old.status ≢ paid) × Written (has_id id) paid now old row s s')

  pay_existing-Settled :
      (id : String) (now : ℕ) (old row : Invoice) (st : BillingStatus) (s s' : Billing T.Db)
      → old.status ≡ st
      → select (has_id id) (rows_of T s) ≡ old ∷ []
      → pay_existing T id now old st s ≡ (ok row, s')
      → Settled id now row s s'
  unfolding pay_existing
  pay_existing-Settled id now old row paid s s' h one k = record {
    old = old;
    unique = one;
    was_final = rw h (λ e. cc);
    result = inl (h, ok-injective (ap (λ x. x.0) k), ap (λ x. x.1) (sym k));
  }
  pay_existing-Settled id now old row draft s s' h one k = cc
  pay_existing-Settled id now old row issued s s' h one k = record {
    old = old;
    unique = one;
    was_final = rw h (λ e. cc);
    result = inr (
      rw h (λ e. cc),
      write_status-Written paid now (has_id id) old row s s'
          (select_only id (has_id id) old s one (λ r e. e)) k,
    );
  }
  pay_existing-Settled id now old row overdue s s' h one k = record {
    old = old;
    unique = one;
    was_final = rw h (λ e. cc);
    result = inr (
      rw h (λ e. cc),
      write_status-Written paid now (has_id id) old row s s'
          (select_only id (has_id id) old s one (λ r e. e)) k,
    );
  }

  -- A success of `mark_invoice_paid` means that the invoice of the id was not a draft. One that was
  -- paid already is given back and nothing changes; otherwise it is paid now: it is given back with
  -- the new status, the table holds it with that status and is otherwise unchanged, and the tenant's
  -- cached lock status is gone.
  pub mark_invoice_paid_ok :
      (id : String) (now : ℕ) (s s' : Billing T.Db) (row : Invoice)
      → mark_invoice_paid T id now s ≡ (ok row, s')
      → Settled id now row s s'
  unfolding mark_invoice_paid fetch_invoice
  mark_invoice_paid_ok id now s s' row e =
      go (found_row (T.maybe_single (has_id id) s.snapshots)) refl e
    where
      go :
          (r : Result Invoice)
          → found_row (T.maybe_single (has_id id) s.snapshots) ≡ r
          → resume (λ old. pay_existing T id now old old.status) (r, s) ≡ (ok row, s')
          → Settled id now row s s'
      go (err x) h k = cc
      go (ok old) h k =
          pay_existing-Settled id now old row old.status s s' refl (fetch_found T id s _ old refl h)
            k
