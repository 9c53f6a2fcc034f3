-- ===== src/Billing/Lifecycle/Overdue.antt =====
-- The nightly transition to OVERDUE (apps/api/src/modules/billing/billing.service.ts).
use edu_lanka.Prelude.{
  ℕ, String, ◌≡◌, refl, ◌⊎◌, inl, inr, true, &&-true, List, [], ◌∷◌, In, map, select, modify,
  In-select, modify-In_changed, length, Bool-cases, str_eq, str_eq_iff, arith,
}
use edu_lanka.Http.{Result, ok, err, resume}
use edu_lanka.Postgrest.{Reply, found, failed, Table}
use edu_lanka.Pagination.{fetch_all_rows, fetch_all_rows_rows}
use edu_lanka.Billing.Invoice.{
  Invoice, BillingStatus, draft, issued, paid, overdue, is_issued, has_id_in,
}
use edu_lanka.Billing.LockCache.{Billing, clear_tenant_lock_cache}
use edu_lanka.Billing.Evolution.{
  moved, Transition, lapse, Grows, Grows-refl, Grows-of_modify, HasDistinctIds,
}
use edu_lanka.Billing.Lifecycle.{
  with_status, is_due, overdue_written, transition_overdue, process_overdue_invoices,
}
use edu_lanka.Billing.Lifecycle.Steps.{rows_of}

of_issued : (st : BillingStatus) → is_issued st ≡ true → st ≡ issued
of_issued issued h = refl
of_issued draft h = cc
of_issued paid h = cc
of_issued overdue h = cc

-- A row of a listed id has the id of a listed row.
has_id_in-In :
    (x : Invoice) (rs : List Invoice)
    → has_id_in (map (λ i. i.id) rs) x ≡ true
    → (r : Invoice) × In r rs × (x.id ≡ r.id)
has_id_in-In x [] h = cc
has_id_in-In x (r ∷ rs) h = elim (Bool-cases (str_eq x.id r.id)) [
  | inl e ↦ (r, inl refl, (str_eq_iff x.id r.id).0 e)
  | inr e ↦ let (q, m, k) = has_id_in-In x rs (ground arith) in (q, inr m, k)
]

module _ (T : Table Invoice) where
  overdue_rows :
      (now : ℕ) (ids : List String) (db : T.Db) (r : Reply (Unit {0}))
      → (T.update (has_id_in ids) (with_status overdue now) db).0 ≡ r
      → let after = T.rows (T.update (has_id_in ids) (with_status overdue now) db).1 in
        (after ≡ T.rows db) ⊎ (after ≡ modify (has_id_in ids) (with_status overdue now) (T.rows db))
  overdue_rows now ids db failed e = inl (T.update_failed _ _ db e)
  overdue_rows now ids db (found tt) e = inr (T.update_found _ _ db e)

  overdue_written-rows :
      (n : ℕ) (s : Billing T.Db) (r : Reply (Unit {0})) (db : T.Db)
      → rows_of T (overdue_written T n s (r, db)).1 ≡ T.rows db
  unfolding overdue_written clear_tenant_lock_cache
  overdue_written-rows n s failed db = refl
  overdue_written-rows n s (found u) db = refl

  -- Rows that were issued when they were read, if nothing has changed since.
  pub transition_overdue-Grows :
      (now : ℕ) (rs : List Invoice) (s : Billing T.Db)
      → HasDistinctIds (rows_of T s)
      → ((r : Invoice) → In r rs → In r (rows_of T s) × (r.status ≡ issued))
      → Grows (rows_of T s) (rows_of T (transition_overdue T now rs s).1)
  unfolding transition_overdue
  transition_overdue-Grows now [] s d h = Grows-refl _
  transition_overdue-Grows now (r ∷ rs) s d h =
      let ids = map (λ (i : Invoice). i.id) (r ∷ rs) in
      let (reply, db) = T.update (has_id_in ids) (with_status overdue now) s.snapshots in
      rw (overdue_written-rows _ s reply db) (elim (overdue_rows now ids s.snapshots reply refl) [
        | inl kept ↦ rw kept (Grows-refl (rows_of T s))
        | inr changed ↦ rw changed (
            Grows-of_modify (has_id_in ids) (with_status overdue now) (rows_of T s) (λ x. refl)
              (λ x m e. moved (lapses x m (has_id_in-In x (r ∷ rs) e)) refl))
      ])
    where
      lapses :
          (x : Invoice)
          → In x (rows_of T s)
          → ((q : Invoice) × In q (r ∷ rs) × (x.id ≡ q.id))
          → Transition x.status overdue
      lapses x m (q, mq, e) =
          let (stored, st) = h q mq in let eq : x ≡ q = d x q m stored e in rw (eq, st) lapse

  pub process_overdue_invoices-Grows :
      (now : ℕ) (s : Billing T.Db)
      → HasDistinctIds (rows_of T s)
      → Grows (rows_of T s) (rows_of T (process_overdue_invoices T now s).1)
  unfolding process_overdue_invoices
  process_overdue_invoices-Grows now s d = go (fetch_all_rows T (is_due now) s.snapshots) refl
    where
      go :
          (r : Result (List Invoice))
          → fetch_all_rows T (is_due now) s.snapshots ≡ r
          → Grows (rows_of T s) (rows_of T (resume (transition_overdue T now) (r, s)).1)
      go (err e) h = Grows-refl _
      go (ok rs) h = transition_overdue-Grows now rs s d λ r m.
          let k : In r (select (is_due now) (rows_of T s)) =
            rw (fetch_all_rows_rows T (is_due now) s.snapshots h) at m in
          let (stored, due) = In-select (is_due now) r (rows_of T s) k in
          (stored, of_issued r.status (&&-true _ _ due).0)

  overdue_written-ok :
      (n : ℕ) (s : Billing T.Db) (r : Reply (Unit {0})) (db : T.Db)
      → (overdue_written T n s (r, db)).0 ≡ ok n
      → r ≡ found tt
  unfolding overdue_written
  overdue_written-ok n s failed db e = cc
  overdue_written-ok n s (found tt) db e = refl

  -- The second half of the pass asks for ids alone: if an invoice that the first half has read as
  -- issued is paid before the second half runs, and the update succeeds, the paid invoice is in the
  -- table as OVERDUE afterwards.
  pub transition_overdue_reverts_payment :
      (now : ℕ) (read : Invoice) (rs : List Invoice) (s : Billing T.Db) (r : Invoice)
      → In r (rows_of T s)
      → r.status ≡ paid
      → r.id ≡ read.id
      → (transition_overdue T now (read ∷ rs) s).0
        ≡ ok (length (map (λ (i : Invoice). i.id) (read ∷ rs)))
      → In (with_status overdue now r) (rows_of T (transition_overdue T now (read ∷ rs) s).1)
  unfolding transition_overdue
  transition_overdue_reverts_payment now read rs s r m st same e =
      let ids = map (λ (i : Invoice). i.id) (read ∷ rs) in
      let (reply, db) = T.update (has_id_in ids) (with_status overdue now) s.snapshots in
      let done : reply ≡ found tt = overdue_written-ok _ s reply db e in
      let listed : has_id_in ids r ≡ true = rw ((str_eq_iff r.id read.id).1 same) in
      rw
        (
          overdue_written-rows _ s reply db,
          T.update_found (has_id_in ids) (with_status overdue now) s.snapshots done,
        )
        (modify-In_changed (has_id_in ids) (with_status overdue now) r (rows_of T s) m listed)
