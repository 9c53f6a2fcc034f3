-- ===== src/Billing/Evolution.antt =====
-- What may happen to the rows of `billing_snapshots`: the status graph of an invoice
-- (DRAFT to ISSUED to PAID, with OVERDUE in between), as a relation on the rows before and after.
use mathlib.Core.List.{append-nil}
use edu_lanka.Prelude.{
  ◌≡◌, refl, ◌∙◌, sym, ◌⊎◌, inl, inr, Bool, List, [], ◌∷◌, ◌++◌, All, In, Pointwise, Pointwise-refl,
  Pointwise-In, Pointwise-modify, In-modify, In-append, All-In, modify, arith, append-In_left, true,
  ◌≢◌,
}
use edu_lanka.Billing.Invoice.{Invoice, BillingStatus, draft, issued, paid, overdue}

pub data Transition : BillingStatus → BillingStatus → Type 0 where
  issue : Transition draft issued
  pay : Transition issued paid
  pay_late : Transition overdue paid
  lapse : Transition issued overdue

-- A row stays as it is, moves along the graph with nothing else changed but its time stamp, or is
-- computed anew while it is a draft.
pub data Evolves (r q : Invoice) : Type 0 where
  same : q ≡ r → Evolves r q
  moved :
      Transition r.status q.status
      → q ≡ record r { status = q.status; updated_at = q.updated_at }
      → Evolves r q
  redrafted :
      r.status ≡ draft
      → q.status ≡ draft
      → q.id ≡ r.id
      → q.tenant_id ≡ r.tenant_id
      → q.billing_month ≡ r.billing_month
      → Evolves r q

-- `id` is the primary key.
abbrev pub HasDistinctIds : List Invoice → Type 0
HasDistinctIds rs = (x y : Invoice) → In x rs → In y rs → x.id ≡ y.id → x ≡ y

-- The rows evolve one by one, rows that are added are drafts, and ids stay distinct.
pub record Grows (rs qs : List Invoice) : Type 0 where
  pub kept : List Invoice
  pub added : List Invoice
  pub split : qs ≡ kept ++ added
  pub evolved : Pointwise Evolves rs kept
  pub drafts : All (λ q. q.status ≡ draft) added
  pub keys : HasDistinctIds rs → HasDistinctIds qs

pub Grows-refl : (rs : List Invoice) → Grows rs rs
Grows-refl rs = record {
  kept = rs;
  added = [];
  split = sym (append-nil rs);
  evolved = Pointwise-refl Evolves rs (λ x. same refl);
  drafts = tt;
  keys = λ d. d;
}

Transition-ne-paid : {a b : BillingStatus} → Transition a b → a ≢ paid
Transition-ne-paid issue e = cc
Transition-ne-paid pay e = cc
Transition-ne-paid pay_late e = cc
Transition-ne-paid lapse e = cc

Evolves-paid : (r q : Invoice) → r.status ≡ paid → Evolves r q → q ≡ r
Evolves-paid r q h (same e) = e
Evolves-paid r q h (moved t e) = absurd (Transition-ne-paid t h)
Evolves-paid r q h (redrafted e _ _ _ _) = cc

-- A paid invoice stays in the table as it is.
pub Grows-paid :
    (r : Invoice) (rs qs : List Invoice) → r.status ≡ paid → Grows rs qs → In r rs → In r qs
Grows-paid r rs qs h g m = rw g.split (
    append-In_left r g.kept g.added
      (Pointwise-In Evolves r rs g.kept g.evolved (λ q. Evolves-paid r q h) m))

pub modify-HasDistinctIds :
    (p : Invoice → Bool) (f : Invoice → Invoice) (rs : List Invoice)
    → ((r : Invoice) → (f r).id ≡ r.id)
    → HasDistinctIds rs
    → HasDistinctIds (modify p f rs)
modify-HasDistinctIds p f rs keep d x y mx my e =
    let (a, ia, ea) = In-modify p f x rs mx in
    let (b, ib, eb) = In-modify p f y rs my in
    let u : x.id ≡ a.id = ground (arith, ea, keep a) in
    let v : y.id ≡ b.id = ground (arith, eb, keep b) in
    let same : a ≡ b = d a b ia ib (sym u ∙ e ∙ v) in cc

pub Grows-of_modify :
    (p : Invoice → Bool) (f : Invoice → Invoice) (rs : List Invoice)
    → ((r : Invoice) → (f r).id ≡ r.id)
    → ((r : Invoice) → In r rs → p r ≡ true → Evolves r (f r))
    → Grows rs (modify p f rs)
Grows-of_modify p f rs keep h = record {
  kept = modify p f rs;
  added = [];
  split = sym (append-nil (modify p f rs));
  evolved = Pointwise-modify Evolves p f rs (λ x. same refl) h;
  drafts = tt;
  keys = modify-HasDistinctIds p f rs keep;
}

pub append-HasDistinctIds :
    (q : Invoice) (rs : List Invoice)
    → All (λ r. r.id ≢ q.id) rs
    → HasDistinctIds rs
    → HasDistinctIds (rs ++ q ∷ [])
append-HasDistinctIds q rs fresh d x y mx my e =
    cases (In-append x rs (q ∷ []) mx) (In-append y rs (q ∷ []) my)
  where
    cases : In x rs ⊎ In x (q ∷ []) → In y rs ⊎ In y (q ∷ []) → x ≡ y
    cases (inl a) (inl b) = d x y a b e
    cases (inl a) (inr (inl b)) = absurd (All-In (λ r. r.id ≢ q.id) rs x fresh a (rw (← b) e))
    cases (inr (inl a)) (inl b) = absurd (All-In (λ r. r.id ≢ q.id) rs y fresh b (rw (← a) (sym e)))
    cases (inr (inl a)) (inr (inl b)) = cc
    cases a (inr (inr b)) = absurd b
    cases (inr (inr a)) b = absurd a

-- A new draft under a fresh id.
pub Grows-of_append :
    (q : Invoice) (rs : List Invoice)
    → q.status ≡ draft
    → All (λ r. r.id ≢ q.id) rs
    → Grows rs (rs ++ q ∷ [])
Grows-of_append q rs st fresh = record {
  kept = rs;
  added = q ∷ [];
  split = refl;
  evolved = Pointwise-refl Evolves rs (λ x. same refl);
  drafts = (st, tt);
  keys = append-HasDistinctIds q rs fresh;
}

-- A chain of such steps.
pub data History (rs : List Invoice) : List Invoice → Type 0 where
  start : History rs rs
  step : {qs ts : List Invoice} → History rs qs → Grows qs ts → History rs ts

pub History-trans : {rs qs ts : List Invoice} → History rs qs → History qs ts → History rs ts
History-trans h start = h
History-trans h (step k g) = step (History-trans h k) g

pub History-paid :
    {rs qs : List Invoice} (r : Invoice) → r.status ≡ paid → History rs qs → In r rs → In r qs
History-paid r h start m = m
History-paid r h (step {qs} {ts} k g) m = Grows-paid r qs ts h g (History-paid r h k m)

pub History-HasDistinctIds :
    {rs qs : List Invoice} → History rs qs → HasDistinctIds rs → HasDistinctIds qs
History-HasDistinctIds start d = d
History-HasDistinctIds (step k g) d = g.keys (History-HasDistinctIds k d)
