-- ===== src/Sponsorship/Pools.antt =====
-- What the pools hold (apps/api/src/modules/billing/sponsorship.service.ts).
use edu_lanka.Prelude.{
  ℕ, ◌+◌, ◌-◌, ◌≤◌, ◌<◌, ◌≡◌, refl, sym, ap, ◌∙◌, inl, inr, String, true, false, Option, none, some,
  [], ◌∷◌, select, modify, modify-only, ltb, Bool-cases, arith,
}
use edu_lanka.Http.{Result, ok, err, HttpError, resume, ◌>>◌}
use edu_lanka.Postgrest.{Reply, found, failed}
use edu_lanka.User.{JwtPayload, is_super_admin}
use edu_lanka.Http.Cases.{require-cases}
use edu_lanka.Sponsorship.{
  Grant, grant_inserted, Funds, Sponsorship, Surroundings, Pool, NetProfit, AwardGrantDto,
  pool_amount_of, is_of_month, has_pool_id, recalculated, new_grant, deducted, pool_updated,
  beneficiary_of, is_future, is_present, write_pool, calculate_monthly_pool, deduct, insert_grant,
  award_grant,
}

minus_none : (n : ℕ) → n - 0 ≡ n
minus_none n = omega arith

module _ (D : Funds) (w : Surroundings) where
  pool_updated-ok :
      (s s' : Sponsorship D) (reply : Reply Pool) (db : D.Pools.Db) (q : Pool)
      → pool_updated D w s (reply, db) ≡ (ok q, s')
      → (reply ≡ found q) × (s' ≡ record s { pools = db })
  pool_updated-ok s s' failed db q h = cc
  pool_updated-ok s s' (found p) db q h = (
    let e : ok p ≡ ok q = ap (λ x. x.0) h in let same : p ≡ q = ground arith in ap found same,
    sym (ap (λ x. x.1) h),
  )

  -- When the query for the pool of a month finds one, whose id is unique, each successful recalculation adds the whole of the new amount to what
  -- remains, whatever amount the pool had before.
  pub recalculation_adds :
      (month : String) (profit : NetProfit) (caller : JwtPayload) (s s' : Sponsorship D)
      (old q : Pool)
      → D.Pools.maybe_single (is_of_month month) s.pools ≡ found (some old)
      → select (has_pool_id old.id) (D.Pools.rows s.pools) ≡ old ∷ []
      → calculate_monthly_pool D w month profit caller s ≡ (ok q, s')
      → (q.remaining ≡ old.remaining + pool_amount_of profit)
        × (q.pool_amount ≡ pool_amount_of profit)
        × (D.Pools.rows s'.pools
            ≡ modify
                (has_pool_id old.id)
                (recalculated profit old.remaining)
                (D.Pools.rows s.pools))
  unfolding calculate_monthly_pool write_pool
  recalculation_adds month profit caller s s' old q e one h =
      elim (Bool-cases (is_super_admin caller.role)) [
        | inl admin ↦
            let update =
              D.Pools.update_single (has_pool_id old.id) (recalculated profit old.remaining)
                s.pools in
            let k : pool_updated D w s update ≡ (ok q, s') = rw (admin, e) at h in
            let (replied, next) = pool_updated-ok s s' update.0 update.1 q k in
            let (r, sel, made, stored) =
              D.Pools.update_single_found (has_pool_id old.id) (recalculated profit old.remaining)
                s.pools q replied in
            (
              ap (λ p. p.remaining) made ∙ minus_none (old.remaining + pool_amount_of profit),
              ap (λ p. p.pool_amount) made,
              ap (λ t. D.Pools.rows t.pools) next ∙ stored,
            )
        | inr other ↦
            let k : ◌≡◌ {A = Result Pool × Sponsorship D} (err HttpError.forbidden, s) (ok q, s') =
              rw other at h in
            let z = ap (λ x. x.0) k in cc
      ]

  deduct_charged :
      (id : String) (cost : ℕ) (p : Pool) (s : Sponsorship D)
      → ltb 0 cost ≡ true
      → ltb p.remaining cost ≡ false
      → D.Pools.maybe_single (has_pool_id id) s.pools ≡ found (some p)
      → (D.Pools.update (has_pool_id id) (deducted (p.remaining - cost)) s.pools).0 ≡ found tt
      → deduct D w (some id) cost s ≡ (
        ok tt,
        record s {
          pools = (D.Pools.update (has_pool_id id) (deducted (p.remaining - cost)) s.pools).1;
        },
      )
  unfolding deduct
  deduct_charged id cost p s positive enough read charged = rw (positive, read, enough, charged)

  deduct_refused :
      (id : String) (cost : ℕ) (p : Pool) (s : Sponsorship D)
      → ltb 0 cost ≡ true
      → ltb p.remaining cost ≡ true
      → D.Pools.maybe_single (has_pool_id id) s.pools ≡ found (some p)
      → deduct D w (some id) cost s ≡ (err HttpError.bad_request, s)
  unfolding deduct
  deduct_refused id cost p s positive low read = rw (positive, read, low)

  -- The pool that the grant was to be paid from has its cost less, and no grant has been added.
  abbrev pub IsChargedOnly : AwardGrantDto → String → Pool → Sponsorship D → Sponsorship D → Type 0
  IsChargedOnly dto id p s s' =
      (dto.estimated_cost ≤ p.remaining)
      × (D.Pools.rows s'.pools
          ≡ modify (has_pool_id id) (λ q. record p { remaining = p.remaining - dto.estimated_cost })
              (D.Pools.rows s.pools))
      × (D.Grants.rows s'.grants ≡ D.Grants.rows s.grants)

  insert_grant-lost :
      (dto : AwardGrantDto) (o : Option ℕ) (by : String) (s s' : Sponsorship D)
      → insert_grant D w dto o by s ≡ (err HttpError.internal_error, s')
      → (s'.pools ≡ s.pools) × (D.Grants.rows s'.grants ≡ D.Grants.rows s.grants)
  unfolding insert_grant
  insert_grant-lost dto none by s s' h = absurd (
      let bad : ◌≡◌ {A = Result Grant} (err HttpError.bad_request) (err HttpError.internal_error) =
        ap (λ x. x.0) h in
      cc)
  insert_grant-lost dto (some t) by s s' h =
      inserted-lost (D.Grants.insert (new_grant dto t by) s.grants) refl h
    where
      inserted-lost :
          (x : Reply String × D.Grants.Db)
          → D.Grants.insert (new_grant dto t by) s.grants ≡ x
          → grant_inserted D w (new_grant dto t by) s x ≡ (err HttpError.internal_error, s')
          → (s'.pools ≡ s.pools) × (D.Grants.rows s'.grants ≡ D.Grants.rows s.grants)
      inserted-lost (failed, db) e k = (
        ap (λ x. x.1.pools) (sym k),
        ap (λ x. D.Grants.rows x.1.grants) (sym k)
            ∙ ap (λ x. D.Grants.rows x.1) (sym e)
            ∙ D.Grants.insert_failed (new_grant dto t by) s.grants (ap (λ x. x.0) e),
      )
      inserted-lost (found g, db) e k = absurd (
          let bad : ok (new_grant dto t by g) ≡ err HttpError.internal_error = ap (λ x. x.0) k in
          cc)

  -- If awarding a grant with a positive cost on a pool fails as an internal error, although the pool was
  -- found and its update was answered, then the pool could pay and has been charged all the same: its
  -- remaining amount is lower by the cost, all else of it and all other pools are as before, and no grant
  -- has been added.
  pub failed_grant_charges :
      (dto : AwardGrantDto) (caller : JwtPayload) (now : ℕ) (id : String) (p : Pool)
      (s s' : Sponsorship D)
      → award_grant D w dto caller now s ≡ (err HttpError.internal_error, s')
      → dto.pool_id ≡ some id
      → 0 < dto.estimated_cost
      → D.Pools.maybe_single (has_pool_id id) s.pools ≡ found (some p)
      → (D.Pools.update (has_pool_id id) (deducted (p.remaining - dto.estimated_cost)) s.pools).0
        ≡ found tt
      → IsChargedOnly dto id p s s'
  unfolding award_grant
  failed_grant_charges dto caller now id p s s' h pool positive read charged =
      let P : Result Grant × Sponsorship D → Type 0 =
        λ x. x ≡ (err HttpError.internal_error, s') → IsChargedOnly dto id p s s' in
      let insert = insert_grant D w dto dto.expires_at caller.sub in
      require-cases P (is_super_admin caller.role) HttpError.forbidden _ s (λ k. absurd (cc))
        (require-cases P (is_future D w dto.expires_at now) HttpError.bad_request _ s
          (λ k. absurd (cc))
          (require-cases P
            (is_present D w (beneficiary_of D w dto.beneficiary_type dto.beneficiary_id))
            HttpError.not_found (deduct D w dto.pool_id dto.estimated_cost >> insert) s
            (λ k. absurd (cc))
            (λ k.
              after_deduct (
                ap (λ o. resume (λ _. insert) (deduct D w o dto.estimated_cost s)) (sym pool)
                ∙ k))))
        h
    where
      after_deduct :
          resume
              (λ _. insert_grant D w dto dto.expires_at caller.sub)
              (deduct D w (some id) dto.estimated_cost s)
            ≡ (err HttpError.internal_error, s')
          → IsChargedOnly dto id p s s'
      after_deduct k =
          let cost = dto.estimated_cost in
          let is_positive : ltb 0 cost ≡ true = ground arith in
          let update = D.Pools.update (has_pool_id id) (deducted (p.remaining - cost)) s.pools in
          let paid : Sponsorship D = record s { pools = update.1 } in
          elim (Bool-cases (ltb p.remaining cost)) [
            | inl low ↦
                let short : deduct D w (some id) cost s ≡ (err HttpError.bad_request, s) =
                  deduct_refused id cost p s is_positive low read in
                absurd (
                  let bad : ◌≡◌ {A = Result Grant} (err HttpError.bad_request)
                      (err HttpError.internal_error) =
                    ap (λ x. (resume (λ _. insert_grant D w dto dto.expires_at caller.sub) x).0)
                      (sym short)
                    ∙ ap (λ x. x.0) k in
                  cc)
            | inr enough ↦
                let charge = deduct_charged id cost p s is_positive enough read charged in
                let (pools, grants) = insert_grant-lost dto dto.expires_at caller.sub paid s' (
                  ap (resume (λ _. insert_grant D w dto dto.expires_at caller.sub)) (sym charge)
                  ∙ k) in
                let only = D.Pools.maybe_single_some (has_pool_id id) s.pools p read in
                (
                  ground arith,
                  ap (λ x. D.Pools.rows x) pools
                      ∙ D.Pools.update_found (has_pool_id id) (deducted (p.remaining - cost))
                          s.pools charged
                      ∙ modify-only (has_pool_id id) (deducted (p.remaining - cost)) p
                          (D.Pools.rows s.pools) only,
                  grants,
                )
          ]
