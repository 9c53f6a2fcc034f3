-- ===== src/Marks/Locking.antt =====
-- A finalized term stays locked (apps/api/src/modules/student-marks/student-marks.service.ts).
use mathlib.Core.Path.{subst}
use edu_lanka.Prelude.{
  ℕ, String, ◌≡◌, ◌≢◌, refl, sym, ap, ◌∙◌, ◌⊎◌, inl, inr, Bool, true, false, not, Option, none,
  some, List, [], ◌∷◌, In, All, select-In, In-select,
}
use edu_lanka.Http.{ok, HttpError, Action, ◌>>◌, require}
use edu_lanka.Postgrest.{Reply, found, failed}
use edu_lanka.User.{JwtPayload, is_admin}
use edu_lanka.Uuid.{is_uuid, get_tenant_client}
use edu_lanka.Marks.{
  Mark, Finalization, TermKey, CreateMarkDto, Registry, Stores, require_enrolled, require_open,
  write_mark, mark_written, Gradebook, data_of, year_or, may_enter, is_of_term, finalized,
  new_finalization, require_assigned, is_locked, term_written, write_finalization, write_reopening,
  term_key, upsert_mark, finalize_term, reopen_term,
}
use edu_lanka.Marks.Entering.{
  upsert_mark_ok, term_reply, step-ok, require_assigned-state, require-state,
}
use edu_lanka.Marks.Terms.{IsFinalized, overwritten-IsFinalized, added-IsFinalized}
use edu_lanka.Marks.Writes.{
  step-after, finalizations_of, write_finalization-IsFinalized, write_reopening-IsFinalized,
}

module _ (D : Stores) (reg : Registry) where
  -- The calls of the service that write, with their clock readings.
  pub data Call : Type 0 where
    enter : CreateMarkDto → JwtPayload → ℕ → Call
    finalize reopen : String → ℕ → ℕ → JwtPayload → ℕ → ℕ → Call

  -- The state after a call, whether it returns or throws.
  unfoldable pub after : Call → Gradebook D → Gradebook D
  after (enter dto caller this_year) s = (upsert_mark D reg dto caller this_year s).1
  after (finalize class term year caller this_year now) s =
      (finalize_term D reg class term year caller this_year now s).1
  after (reopen class term year caller this_year now) s =
      (reopen_term D reg class term year caller this_year now s).1

  unfoldable pub run : List Call → Gradebook D → Gradebook D
  run [] s = s
  run (c ∷ cs) s = run cs (after c s)

  -- The call is no administrator's reopening of the term.
  abbrev pub NotReopening : TermKey → Call → Type 0
  NotReopening k (enter dto caller this_year) = Unit
  NotReopening k (finalize class term year caller this_year now) = Unit
  NotReopening k (reopen class term year caller this_year now) =
      (is_admin caller.role ≡ false)
      ⊎ (term_key D reg caller class (year_or year this_year) term ≢ k)

  abbrev pub Locked : TermKey → Gradebook D → Type 0
  Locked k s = IsFinalized k (finalizations_of D reg s)

  require-Locked :
      {B : Type 0} (k : TermKey) (b : Bool) (rest : Action (Gradebook D) B) (s : Gradebook D)
      → Locked k s
      → (b ≡ true → Locked k (rest s).1)
      → Locked k ((require b HttpError.forbidden >> rest) s).1
  require-Locked k true rest s h step = step refl
  require-Locked k false rest s h step = h

  -- The checks of the role and of the tenant's id keep the state.
  role-and-tenant :
      {B : Type 0} (P : Gradebook D → Type 0) (may : Bool) (tenant : String)
      (rest : Action (Gradebook D) B) (s : Gradebook D)
      → P s
      → P (rest s).1
      → P ((require may HttpError.forbidden >> (get_tenant_client tenant >> rest)) s).1
  role-and-tenant P may tenant rest s here there =
      step-after P (require may HttpError.forbidden) (get_tenant_client tenant >> rest) s
        (require-state may HttpError.forbidden s) here
        (step-after P (get_tenant_client tenant) rest s
          (require-state (is_uuid tenant) HttpError.bad_request s) here there)

  upsert_mark-finalizations :
      (dto : CreateMarkDto) (caller : JwtPayload) (this_year : ℕ) (s : Gradebook D)
      → (upsert_mark D reg dto caller this_year s).1.finalizations ≡ s.finalizations
  unfolding upsert_mark require_assigned require_enrolled require_open write_mark
  upsert_mark-finalizations dto caller this_year s =
      let year = year_or dto.academic_year this_year in
      let write = write_mark D reg caller.tenant_id year dto in
      let key = term_key D reg caller dto.class_id year dto.term in
      let check_open = require_open D reg key in
      let check_enrolled = require_enrolled D reg dto in
      let check_assigned = require_assigned D reg caller dto.class_id in
      let P : Gradebook D → Type 0 = λ t. t.finalizations ≡ s.finalizations in
      let checks = check_assigned >> (check_enrolled >> (check_open >> write)) in
      role-and-tenant P (may_enter caller.role) caller.tenant_id checks s refl (
        step-after P check_assigned (check_enrolled >> (check_open >> write)) s refl refl (
          step-after P check_enrolled (check_open >> write) s refl refl (
            step-after P check_open write s
              (require-state (not (is_locked D reg (data_of (term_reply D reg key s))))
                HttpError.forbidden s)
              refl (mark_written-finalizations s _ _))))
    where
      mark_written-finalizations :
          (s : Gradebook D) (reply : Reply Mark) (db : D.Marks.Db)
          → (mark_written D reg s (reply, db)).1.finalizations ≡ s.finalizations
      mark_written-finalizations s failed db = refl
      mark_written-finalizations s (found m) db = refl

  after-Locked :
      (k : TermKey) (c : Call) (s : Gradebook D)
      → NotReopening k c
      → Locked k s
      → Locked k (after c s)
  unfolding after finalize_term reopen_term
  after-Locked k (enter dto caller this_year) s n h =
      subst (λ db. IsFinalized k (D.Finalizations.rows db))
        (sym (upsert_mark-finalizations dto caller this_year s)) h
  after-Locked k (finalize class term year caller this_year now) s n h =
      let j = term_key D reg caller class (year_or year this_year) term in
      let write = write_finalization D reg j now caller.sub in
      role-and-tenant (Locked k) (may_enter caller.role) caller.tenant_id
        (require_assigned D reg caller class >> write) s h
        (step-after (Locked k) (require_assigned D reg caller class) write s
          (require_assigned-state D reg caller class s) h
          (write_finalization-IsFinalized D reg k j now caller.sub s h))
  after-Locked k (reopen class term year caller this_year now) s n h =
      let j = term_key D reg caller class (year_or year this_year) term in
      let write = write_reopening D reg j now caller.sub in
      require-Locked k (is_admin caller.role) (get_tenant_client caller.tenant_id >> write) s h
        (λ admin. elim n [
          | inl other ↦ absurd (let bad : true ≡ false = sym admin ∙ other in cc)
          | inr other ↦
              step-after (Locked k) (get_tenant_client caller.tenant_id) write s
                (require-state (is_uuid caller.tenant_id) HttpError.bad_request s) h
                (write_reopening-IsFinalized D reg k j now caller.sub s other h)
        ])

  run-Locked :
      (k : TermKey) (cs : List Call) (s : Gradebook D)
      → All (NotReopening k) cs
      → Locked k s
      → Locked k (run cs s)
  unfolding run
  run-Locked k [] s n h = h
  run-Locked k (c ∷ cs) s n h = run-Locked k cs (after c s) n.1 (after-Locked k c s n.0 h)

  term_written-ok :
      {A : Type 0} (s s' : Gradebook D) (reply : Reply A) (db : D.Finalizations.Db)
      → term_written D reg s (reply, db) ≡ (ok tt, s')
      → (a : A) × (reply ≡ found a) × (s' ≡ record s { finalizations = db })
  term_written-ok s s' failed db h = cc
  term_written-ok s s' (found a) db h = (a, refl, sym (ap (λ q. q.1) h))

  -- A successful finalization puts the term's finalization in force.
  write_finalization-Locked :
      (k : TermKey) (now : ℕ) (by : String) (s s' : Gradebook D)
      → write_finalization D reg k now by s ≡ (ok tt, s')
      → Locked k s'
  unfolding write_finalization
  write_finalization-Locked k now by s s' e =
      let p = is_of_term k in
      let f = finalized now by in
      let make = new_finalization k now by in
      let (reply, db) = D.Finalizations.upsert p f make s.finalizations in
      let (r, replied, next) = term_written-ok s s' reply db e in
      rw next (elim (D.Finalizations.upsert_found p f make s.finalizations r replied) [
        | inl (old, one, _, stored) ↦
            subst (IsFinalized k) (sym stored)
              (overwritten-IsFinalized k now by old (finalizations_of D reg s) one)
        | inr (id, nothing, made, stored) ↦
            subst (IsFinalized k) (sym stored)
              (added-IsFinalized k now by id r (finalizations_of D reg s) nothing made)
      ])

  locked :
      (k : TermKey) (s : Gradebook D) (reply : Reply (Option Finalization))
      → term_reply D reg k s ≡ reply
      → reply ≢ failed
      → Locked k s
      → is_locked D reg (data_of reply) ≡ true
  locked k s failed e answered h = absurd (answered refl)
  locked k s (found none) e answered h =
      let empty = D.Finalizations.maybe_single_none (is_of_term k) s.finalizations e in
      absurd (
        subst (In h.row) empty
          (select-In (is_of_term k) h.row (finalizations_of D reg s) h.stored h.of_term))
  locked k s (found (some f)) e answered h =
      let one = D.Finalizations.maybe_single_some (is_of_term k) s.finalizations f e in
      let (m, t) = In-select (is_of_term k) f (finalizations_of D reg s) (rw one (inl refl)) in
      h.in_force f m t

  -- The entry is refused and changes nothing.
  abbrev pub IsRefused : CreateMarkDto → JwtPayload → ℕ → Gradebook D → Type 0
  IsRefused dto caller this_year s =
      ((m : Mark) → (upsert_mark D reg dto caller this_year s).0 ≢ ok m)
      × ((upsert_mark D reg dto caller this_year s).1 ≡ s)

  locked-IsRefused :
      (dto : CreateMarkDto) (caller : JwtPayload) (this_year : ℕ) (s : Gradebook D)
      → is_locked D reg (
          data_of (
            term_reply D reg
              (term_key D reg caller dto.class_id (year_or dto.academic_year this_year) dto.term)
              s))
        ≡ true
      → IsRefused dto caller this_year s
  unfolding upsert_mark require_assigned require_enrolled require_open
  locked-IsRefused dto caller this_year s h =
      let year = year_or dto.academic_year this_year in
      let write = write_mark D reg caller.tenant_id year dto in
      let check_open = require_open D reg (term_key D reg caller dto.class_id year dto.term) in
      let check_enrolled = require_enrolled D reg dto in
      let check_assigned = require_assigned D reg caller dto.class_id in
      let P : Gradebook D → Type 0 = λ t. t ≡ s in
      (
        λ m e.
            let entered =
              upsert_mark_ok D reg dto caller this_year s
                (upsert_mark D reg dto caller this_year s).1 m
                (ap (λ r. (r, (upsert_mark D reg dto caller this_year s).1)) e) in
            let bad = sym h ∙ entered.not_seen_locked in cc,
        role-and-tenant P (may_enter caller.role) caller.tenant_id
            (check_assigned >> (check_enrolled >> (check_open >> write))) s refl
            (step-after P check_assigned (check_enrolled >> (check_open >> write)) s refl refl
              (step-after P check_enrolled (check_open >> write) s refl refl (rw h refl))),
      )

  -- Once a term is finalized, and whatever calls follow except an administrator's reopening of that
  -- term, no caller can enter a mark for it: as long as the query for the finalization is answered,
  -- the entry throws and changes nothing.
  pub finalized_term_frozen :
      (class : String) (term year : ℕ) (caller : JwtPayload) (this_year now : ℕ)
      (s s' : Gradebook D) (cs : List Call) (dto : CreateMarkDto) (by : JwtPayload) (that_year : ℕ)
      → finalize_term D reg class term year caller this_year now s ≡ (ok tt, s')
      → All (NotReopening (term_key D reg caller class (year_or year this_year) term)) cs
      → term_key D reg by dto.class_id (year_or dto.academic_year that_year) dto.term
        ≡ term_key D reg caller class (year_or year this_year) term
      → term_reply D reg (term_key D reg caller class (year_or year this_year) term) (run cs s')
        ≢ failed
      → IsRefused dto by that_year (run cs s')
  unfolding finalize_term
  finalized_term_frozen class term year caller this_year now s s' cs dto by that_year e kept same
        answered =
      let k = term_key D reg caller class (year_or year this_year) term in
      let write = write_finalization D reg k now caller.sub in
      let assigned = require_assigned D reg caller class >> write in
      let (_, e0) =
        step-ok (require (may_enter caller.role) HttpError.forbidden)
          (get_tenant_client caller.tenant_id >> assigned) s s' tt
          (require-state (may_enter caller.role) HttpError.forbidden s) e in
      let (_, e1) =
        step-ok (get_tenant_client caller.tenant_id) assigned s s' tt
          (require-state (is_uuid caller.tenant_id) HttpError.bad_request s) e0 in
      let (_, e2) =
        step-ok (require_assigned D reg caller class) write s s' tt
          (require_assigned-state D reg caller class s) e1 in
      let h = run-Locked k cs s' kept (write_finalization-Locked k now caller.sub s s' e2) in
      locked-IsRefused dto by that_year (run cs s')
        (rw same (locked k (run cs s') _ refl answered h))
