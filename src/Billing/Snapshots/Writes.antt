-- ===== src/Billing/Snapshots/Writes.antt =====
-- What the nightly pass does to the stored invoices
-- (apps/api/src/modules/billing/billing.service.ts).
use edu_lanka.Prelude.{
  ℕ, String, ◌≡◌, ◌≢◌, refl, ◌∙◌, ◌⊎◌, inl, inr, true, false, &&-true, &&-false_right, Option, none,
  some, List, [], ◌∷◌, ◌++◌, In, modify, Bool-cases, append-In_left, All, modify-In,
}
use edu_lanka.JsMap
use edu_lanka.Http.{Result, ok, err}
use edu_lanka.Postgrest.{Reply, found, failed, Table}
use edu_lanka.Billing.Invoice.{Invoice, BillingStatus, draft, issued, paid, overdue, is_draft}
use edu_lanka.Billing.LockCache.{Billing}
use edu_lanka.Billing.Evolution.{
  redrafted, Grows, Grows-refl, Grows-of_modify, Grows-of_append, History, start, step,
  History-trans,
}
use edu_lanka.Billing.Snapshots.{
  Tenant, Snapshot, Reads, Sources, redraft, new_draft, is_draft_of, updated, inserted,
  write_snapshot, write_all, compute_snapshot, write_results, generate_billing_snapshots,
}

of_is_draft : (st : BillingStatus) → is_draft st ≡ true → st ≡ draft
of_is_draft draft h = refl
of_is_draft issued h = cc
of_is_draft paid h = cc
of_is_draft overdue h = cc

module _ (T : Table Invoice) (keyed : (r : Invoice) → T.key r ≡ r.id) where
  updated-db :
      (x : Snapshot) (id : String) (r : Reply (Unit {0})) (db : T.Db)
      → (updated T x id (r, db)).1 ≡ db
  unfolding updated
  updated-db x id failed db = refl
  updated-db x id (found u) db = refl

  inserted-db : (x : Snapshot) (r : Reply String) (db : T.Db) → (inserted T x (r, db)).1 ≡ db
  unfolding inserted
  inserted-db x failed db = refl
  inserted-db x (found id) db = refl

  redraft_rows :
      (now : ℕ) (x : Snapshot) (id : String) (db : T.Db) (r : Reply (Unit {0}))
      → (T.update (is_draft_of id) (redraft now x) db).0 ≡ r
      → let after = T.rows (T.update (is_draft_of id) (redraft now x) db).1 in
        (after ≡ T.rows db) ⊎ (after ≡ modify (is_draft_of id) (redraft now x) (T.rows db))
  redraft_rows now x id db failed e = inl (T.update_failed _ _ db e)
  redraft_rows now x id db (found tt) e = inr (T.update_found _ _ db e)

  -- A new draft under an id that no row has.
  insert_rows :
      (now : ℕ) (x : Snapshot) (db : T.Db) (r : Reply String)
      → (T.insert (new_draft now x) db).0 ≡ r
      → let after = T.rows (T.insert (new_draft now x) db).1 in
        (after ≡ T.rows db)
        ⊎ ((id : String) × (after ≡ T.rows db ++ new_draft now x id ∷ [])
            × All (λ r. r.id ≢ id) (T.rows db))
  insert_rows now x db failed e = inl (T.insert_failed _ db e)
  insert_rows now x db (found id) e =
      inr (id, T.insert_found _ db id e, by_id (T.rows db) (T.insert_fresh _ db id e))
    where
      by_id : (rs : List Invoice) → All (λ r. T.key r ≢ id) rs → All (λ r. r.id ≢ id) rs
      by_id [] h = tt
      by_id (q ∷ qs) (h, hs) = (λ k. h (keyed q ∙ k), by_id qs hs)

  -- One tenant's write changes nothing, recomputes drafts, or adds a draft under a fresh id.
  abbrev Drafted : ℕ → Snapshot → List Invoice → List Invoice → Type 0
  Drafted now x before after =
      (after ≡ before)
      ⊎ ((id : String) × (after ≡ modify (is_draft_of id) (redraft now x) before))
      ⊎ ((id : String) × (after ≡ before ++ new_draft now x id ∷ []) × All (λ r. r.id ≢ id) before)

  write_snapshot-Drafted :
      (now : ℕ) (x : Snapshot) (o : Option Invoice) (db : T.Db)
      → Drafted now x (T.rows db) (T.rows (write_snapshot T now x o db).1)
  unfolding write_snapshot
  write_snapshot-Drafted now x none db =
      let (reply, db') = T.insert (new_draft now x) db in
      rw (inserted-db x reply db')
        (elim (insert_rows now x db reply refl) [ inl e ↦ inl e | inr e ↦ inr (inr e) ])
  write_snapshot-Drafted now x (some e) db = elim (Bool-cases (is_draft e.status)) [
    | inl h ↦
        let (reply, db') = T.update (is_draft_of e.id) (redraft now x) db in
        rw (h, updated-db x e.id reply db')
          (elim (redraft_rows now x e.id db reply refl) [
            | inl k ↦ inl k
            | inr k ↦ inr (inl (e.id, k))
          ])
    | inr h ↦ rw h (inl refl)
  ]

  Drafted-Grows :
      (now : ℕ) (x : Snapshot) (before after : List Invoice)
      → Drafted now x before after
      → Grows before after
  Drafted-Grows now x before after (inl e) = rw e (Grows-refl before)
  Drafted-Grows now x before after (inr (inl (id, e))) = rw e (
      Grows-of_modify (is_draft_of id) (redraft now x) before (λ r. refl)
        λ r m t. let st = of_is_draft r.status (&&-true _ _ t).1 in redrafted st st refl refl refl)
  Drafted-Grows now x before after (inr (inr (id, e, fresh))) =
      rw e (Grows-of_append (new_draft now x id) before refl fresh)

  -- An invoice that is no draft stays as it is.
  Drafted-keeps :
      (now : ℕ) (x : Snapshot) (before after : List Invoice) (r : Invoice)
      → Drafted now x before after
      → is_draft r.status ≡ false
      → In r before
      → In r after
  Drafted-keeps now x before after r (inl e) final m = rw e m
  Drafted-keeps now x before after r (inr (inl (id, e))) final m =
      rw e (modify-In (is_draft_of id) (redraft now x) r before m (&&-false_right _ _ final))
  Drafted-keeps now x before after r (inr (inr (id, e, fresh))) final m =
      rw e (append-In_left r before _ m)

  write_all-History :
      (i : Reads) (ts : List Tenant) (db : T.Db)
      → History (T.rows db) (T.rows (write_all T i ts db).1)
  unfolding write_all
  write_all-History i [] db = start
  write_all-History i (t ∷ ts) db =
      let o = JsMap.get t.id i.existing in
      History-trans
        (step start (
          Drafted-Grows i.now (compute_snapshot i t) _ _
            (write_snapshot-Drafted i.now (compute_snapshot i t) o db)))
        (write_all-History i ts (write_snapshot T i.now (compute_snapshot i t) o db).1)

  write_all_keeps :
      (i : Reads) (ts : List Tenant) (db : T.Db) (r : Invoice)
      → is_draft r.status ≡ false
      → In r (T.rows db)
      → In r (T.rows (write_all T i ts db).1)
  unfolding write_all
  write_all_keeps i [] db r final m = m
  write_all_keeps i (t ∷ ts) db r final m = write_all_keeps i ts _ r final (
      Drafted-keeps i.now (compute_snapshot i t) _ _ r
        (write_snapshot-Drafted i.now (compute_snapshot i t) (JsMap.get t.id i.existing) db) final
        m)

module _ (T : Table Invoice) (from : Sources) (month : String) (begin end now : ℕ)
    (price : Option ℕ) where
  abbrev pub after_generate : Billing T.Db → Billing T.Db
  after_generate s = (generate_billing_snapshots T from month begin end now price s).1

  write_results-History :
      (keyed : (r : Invoice) → T.key r ≡ r.id) (reads : Result (Reads × List Tenant))
      (s : Billing T.Db)
      → History (T.rows s.snapshots) (T.rows (write_results T from reads s).1.snapshots)
  unfolding write_results
  write_results-History keyed (err e) s = start
  write_results-History keyed (ok (i, ts)) s = write_all-History T keyed i ts s.snapshots

  -- The pass is a chain of steps of the status graph.
  pub generate-History :
      (keyed : (r : Invoice) → T.key r ≡ r.id) (s : Billing T.Db)
      → History (T.rows s.snapshots) (T.rows (after_generate s).snapshots)
  unfolding generate_billing_snapshots
  generate-History keyed s = write_results-History keyed _ s

  final_status : (st : BillingStatus) → st ≢ draft → is_draft st ≡ false
  final_status draft h = absurd (h refl)
  final_status issued h = refl
  final_status paid h = refl
  final_status overdue h = refl

  write_results_keeps :
      (keyed : (r : Invoice) → T.key r ≡ r.id) (reads : Result (Reads × List Tenant))
      (s : Billing T.Db) (r : Invoice)
      → r.status ≢ draft
      → In r (T.rows s.snapshots)
      → In r (T.rows (write_results T from reads s).1.snapshots)
  unfolding write_results
  write_results_keeps keyed (err e) s r final m = m
  write_results_keeps keyed (ok (i, ts)) s r final m =
      write_all_keeps T keyed i ts s.snapshots r (final_status r.status final) m

  -- The nightly pass overwrites no invoice that has been issued: whatever its reads and writes
  -- answer, an invoice that is ISSUED, PAID or OVERDUE is in the table afterwards as it was.
  pub generate_keeps_final :
      (keyed : (r : Invoice) → T.key r ≡ r.id) (s : Billing T.Db) (r : Invoice)
      → r.status ≢ draft
      → In r (T.rows s.snapshots)
      → In r (T.rows (after_generate s).snapshots)
  unfolding generate_billing_snapshots
  generate_keeps_final keyed s r final m = write_results_keeps keyed _ s r final m
