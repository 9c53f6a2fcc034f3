-- ===== src/Access/AccountLock/Refusals.antt =====
-- Which requests `AccountLockGuard` refuses (apps/api/src/common/guards/account-lock.guard.ts).
use mathlib.Core.Path.{subst}
use edu_lanka.Prelude.{
  ℕ, String, Bool, true, false, ◌≡◌, refl, sym, ◌∙◌, ◌↔◌, ◌⊎◌, inl, inr, Option, none, some, List,
  [], ◌∷◌, ◌++◌, any-In, In, Bool-cases, if◌then◌else◌, arith,
}
use edu_lanka.JsMap
use edu_lanka.Text.{Text, same, same_iff, starts_with_iff, before-append}
use edu_lanka.Http.{Result, ok, err, HttpError}
use edu_lanka.Postgrest.{Table, found}
use edu_lanka.User.{JwtPayload}
use edu_lanka.Billing.Invoice.{Invoice, issued, overdue}
use edu_lanka.Billing.LockCache.{Billing}
use edu_lanka.Billing.LockStatus.{check_tenant_invoice_status, is_unpaid_of}
use edu_lanka.Billing.LockStatus.Grace.{IsStale, IsPastGrace, check_locked_iff}
use edu_lanka.Access.AccountLock.{
  Request, exempt_prefixes, slash, question_mark, is_read, normalized_path, is_below, is_exempt,
  resolved_user, bypasses, request_tenant, check_tenant, can_activate,
}

-- The request writes, is not for an exempt path, and its user is no super admin.
pub record IsGuarded (verify : Text → Option JwtPayload) (req : Request) : Type 0 where
  pub writes : is_read req.method ≡ false
  pub not_exempt : is_exempt (normalized_path req.url) ≡ false
  pub no_bypass : bypasses (resolved_user verify req) ≡ false

-- The tenant that the request is for.
abbrev pub tenant_of : (Text → Option JwtPayload) → Request → Option String
tenant_of verify req = request_tenant req.context_tenant_id (resolved_user verify req)

some-injective : {a b : String} → some a ≡ some b → a ≡ b
some-injective h = cc

-- A chain of three reasons to let a request pass.
gates_shut :
    {S : Type 0} (a b c : Bool) (s : S) (checked : Result Bool × S)
    → (if a
        then (ok true, s)
        else if b
        then (ok true, s)
        else if c
        then (ok true, s)
        else checked).0
      ≡ err HttpError.forbidden
    → (a ≡ false) × (b ≡ false) × (c ≡ false) × (checked.0 ≡ err HttpError.forbidden)
gates_shut true b c s checked h = cc
gates_shut false true c s checked h = cc
gates_shut false false true s checked h = cc
gates_shut false false false s checked h = (refl, refl, refl, h)

module _ (T : Table Invoice) (verify : Text → Option JwtPayload) where
  abbrev pub IsRefused : Request → ℕ → Billing T.Db → Type 0
  IsRefused req now s = (can_activate T verify req now s).0 ≡ err HttpError.forbidden

  check_tenant-refused :
      (o : Option String) (now : ℕ) (s : Billing T.Db)
      → ((check_tenant T verify o now s).0 ≡ err HttpError.forbidden) ↔ (
          (t : String) × (o ≡ some t)
          × ((check_tenant_invoice_status T t now s).0.is_account_locked ≡ true))
  unfolding check_tenant
  check_tenant-refused none now s = (λ h. cc, λ (t, e, h). cc)
  check_tenant-refused (some t) now s = (
    λ h. (t, refl, ground arith),
    λ (u, e, h).
        let k : (check_tenant_invoice_status T t now s).0.is_account_locked ≡ true = cc in rw k,
  )

  refused-IsGuarded :
      (req : Request) (now : ℕ) (s : Billing T.Db)
      → IsRefused req now s
      → IsGuarded verify req
        × ((check_tenant T verify (tenant_of verify req) now s).0 ≡ err HttpError.forbidden)
  unfolding can_activate
  refused-IsGuarded req now s h =
      let (writes, not_exempt, no_bypass, refused) =
        gates_shut (is_read req.method) (is_exempt (normalized_path req.url))
          (bypasses (resolved_user verify req)) s
          (check_tenant T verify (tenant_of verify req) now s) h in
      (record { writes = writes; not_exempt = not_exempt; no_bypass = no_bypass }, refused)

  guarded-checked :
      (req : Request) (now : ℕ) (s : Billing T.Db)
      → IsGuarded verify req
      → can_activate T verify req now s ≡ check_tenant T verify (tenant_of verify req) now s
  unfolding can_activate
  guarded-checked req now s g = rw (g.writes, g.not_exempt, g.no_bypass)

  -- With no live cache entry and an answered query, a request is refused exactly when it writes, is
  -- not for an exempt path, comes from no super admin and is for a tenant one of whose ISSUED or
  -- OVERDUE invoices was created more than fourteen days ago.
  pub IsRefused-iff :
      (req : Request) (t : String) (now : ℕ) (s : Billing T.Db) (rs : List Invoice)
      → tenant_of verify req ≡ some t
      → IsStale now (JsMap.get t s.lock_status_cache)
      → T.select_all (is_unpaid_of t) s.snapshots ≡ found rs
      → IsRefused req now s ↔ (
          IsGuarded verify req
          × ((r : Invoice) × In r (T.rows s.snapshots)
              × (r.tenant_id ≡ t)
              × ((r.status ≡ issued) ⊎ (r.status ≡ overdue))
              × IsPastGrace now r))
  IsRefused-iff req t now s rs e stale answered =
      let (to, from) = check_locked_iff T t now s rs stale answered in
      let (checked, unchecked) = check_tenant-refused (tenant_of verify req) now s in
      (
        λ h.
            let (g, k) = refused-IsGuarded req now s h in
            let (u, f, locked) = checked k in
            let same_tenant : u ≡ t = some-injective (sym f ∙ e) in
            (
              g,
              to (
                  subst (λ v. (check_tenant_invoice_status T v now s).0.is_account_locked ≡ true)
                    same_tenant locked),
            ),
        λ (g, late). rw (guarded-checked req now s g) (unchecked (t, e, from late)),
      )

-- The query of a request does not matter to the path that is compared with the exempt ones.
normalized_path-query :
    (path query : Text)
    → ¬ In question_mark path
    → normalized_path (path ++ question_mark ∷ query) ≡ normalized_path path
unfolding normalized_path
normalized_path-query path query h = rw (before-append question_mark path query h)

-- Two requests that differ in the query only are decided alike.
pub query_ignored :
    (T : Table Invoice) (verify : Text → Option JwtPayload) (req : Request) (path query : Text)
    (now : ℕ) (s : Billing T.Db)
    → ¬ In question_mark path
    → can_activate T verify (record req { url = path ++ question_mark ∷ query }) now s
      ≡ can_activate T verify (record req { url = path }) now s
unfolding can_activate
query_ignored T verify req path query now s h = rw (normalized_path-query path query h)

is_below_iff :
    (path prefix : Text)
    → (is_below path prefix ≡ true)
      ↔ ((path ≡ prefix) ⊎ ((rest : Text) × (path ≡ (prefix ++ slash ∷ []) ++ rest)))
unfolding is_below
is_below_iff path prefix =
    let (to, from) = same_iff path prefix in
    let (to', from') = starts_with_iff path (prefix ++ slash ∷ []) in
    (
      λ h. elim (Bool-cases (same path prefix)) [
        | inl e ↦ inl (to e)
        | inr e ↦ inr (to' (rw e at h))
      ],
      λ h. elim h [
        | inl e ↦ rw (from e)
        | inr r ↦ elim (Bool-cases (same path prefix)) [ inl e ↦ rw e | inr e ↦ rw e (from' r) ]
      ],
    )

-- A path is exempt exactly when it is one of the listed prefixes, or one of them followed by a slash
-- and anything: a prefix that ends within a segment does not count.
pub is_exempt_iff :
    (path : Text)
    → (is_exempt path ≡ true) ↔ (
        (prefix : Text) × In prefix exempt_prefixes
        × ((path ≡ prefix) ⊎ ((rest : Text) × (path ≡ (prefix ++ slash ∷ []) ++ rest))))
unfolding is_exempt
is_exempt_iff path =
    let (to, from) = any-In (is_below path) exempt_prefixes in
    (
      λ h. let (p, m, k) = to h in (p, m, (is_below_iff path p).0 k),
      λ (p, m, k). from (p, m, (is_below_iff path p).1 k),
    )
