-- ===== src/Marks/Writes.antt =====
-- Writes that keep a finalized term finalized
-- (apps/api/src/modules/student-marks/student-marks.service.ts).
use mathlib.Core.Path.{subst}
use edu_lanka.Prelude.{ℕ, String, ◌≡◌, ◌≢◌, refl, sym, ap, ◌∙◌, inl, inr, Option, none, some, List}
use edu_lanka.Http.{Result, ok, err, Action, resume, ◌>>◌}
use edu_lanka.Postgrest.{Reply, found, failed}
use edu_lanka.Marks.{
  Finalization, TermKey, Registry, Stores, Gradebook, is_of_term, finalized, new_finalization,
  reopened, term_written, write_finalization, write_reopening,
}
use edu_lanka.Marks.Terms.{IsFinalized, is_of_term_unique, modify-IsFinalized, append-IsFinalized}

-- After a check that keeps the state, a property holds if it holds now and after the rest.
pub step-after :
    {S B : Type 0} (P : S → Type 0) (check : Action S (Unit {0})) (k : Action S B) (s : S)
    → (check s).1 ≡ s
    → P s
    → P (k s).1
    → P ((check >> k) s).1
step-after {S = S} P check k s same here there = go (check s) same
  where
    go : (x : Result (Unit {0}) × S) → x.1 ≡ s → P (resume (λ _. k) x).1
    go (ok a, t) e = subst (λ z. P (k z).1) (sym e) there
    go (err x, t) e = subst P (sym e) here

module _ (D : Stores) (reg : Registry) where
  abbrev pub finalizations_of : Gradebook D → List Finalization
  finalizations_of s = D.Finalizations.rows s.finalizations

  -- What becomes of the finalizations when a write of them has been answered.
  term_written-rows :
      {A : Type 0} (P : List Finalization → Type 0) (s : Gradebook D) (reply : Reply A)
      (db : D.Finalizations.Db)
      → (reply ≡ failed → P (D.Finalizations.rows db))
      → ((a : A) → reply ≡ found a → P (D.Finalizations.rows db))
      → P (finalizations_of (term_written D reg s (reply, db)).1)
  term_written-rows P s failed db bad good = bad refl
  term_written-rows P s (found a) db bad good = good a refl

  pub write_finalization-IsFinalized :
      (k j : TermKey) (now : ℕ) (by : String) (s : Gradebook D)
      → IsFinalized k (finalizations_of s)
      → IsFinalized k (finalizations_of (write_finalization D reg j now by s).1)
  unfolding write_finalization
  write_finalization-IsFinalized k j now by s h =
      let p = is_of_term j in
      let f = finalized now by in
      let make = new_finalization j now by in
      term_written-rows (IsFinalized k) s _ _
        (λ e.
          subst (IsFinalized k) (sym (D.Finalizations.upsert_failed p f make s.finalizations e)) h)
        (λ r e. elim (D.Finalizations.upsert_found p f make s.finalizations r e) [
          | inl (old, _, _, stored) ↦
              subst (IsFinalized k) (sym stored)
                (modify-IsFinalized k p f (finalizations_of s) (λ r. refl) (λ r _ _. refl) h)
          | inr (id, _, made, stored) ↦
              subst (IsFinalized k) (sym stored)
                (append-IsFinalized k (finalizations_of s) r (λ _. ap (λ x. x.is_finalized) made) h)
        ])

  pub write_reopening-IsFinalized :
      (k j : TermKey) (now : ℕ) (by : String) (s : Gradebook D)
      → j ≢ k
      → IsFinalized k (finalizations_of s)
      → IsFinalized k (finalizations_of (write_reopening D reg j now by s).1)
  unfolding write_reopening
  write_reopening-IsFinalized k j now by s other h =
      let p = is_of_term j in
      let f = reopened now by in
      term_written-rows (IsFinalized k) s _ _
        (λ e.
          subst (IsFinalized k) (sym (D.Finalizations.update_maybe_failed p f s.finalizations e)) h)
        (λ o e. answered o e)
    where
      answered :
          (o : Option Finalization)
          → (D.Finalizations.update_maybe (is_of_term j) (reopened now by) s.finalizations).0
            ≡ found o
          → IsFinalized k (
              D.Finalizations.rows
                (D.Finalizations.update_maybe (is_of_term j) (reopened now by) s.finalizations).1)
      answered none e =
          let (_, kept) =
            D.Finalizations.update_maybe_none (is_of_term j) (reopened now by) s.finalizations e in
          subst (IsFinalized k) (sym kept) h
      answered (some x) e =
          let (_, _, _, stored) =
            D.Finalizations.update_maybe_some (is_of_term j) (reopened now by) s.finalizations x
              e in
          subst (IsFinalized k) (sym stored) (
            modify-IsFinalized k (is_of_term j) (reopened now by) (finalizations_of s) (λ r. refl)
              (λ r q t. absurd (other (sym (is_of_term_unique j r q) ∙ is_of_term_unique k r t))) h)
