-- ===== src/MobileSync/Order.antt =====
-- Merging marks of one cell: the order in which devices come online does not matter
-- (apps/api/src/modules/mobile/mobile-sync.service.ts).
use mathlib.Core.Path.{subst}
use edu_lanka.Prelude.{
  ℕ, String, ◌≡◌, ◌≢◌, refl, sym, ap, ◌∙◌, inl, inr, Bool, true, false, Option, none, some, List,
  [], ◌∷◌, select, All, Bool-cases, ltb, str_eq, if◌then◌else◌, arith,
}
use edu_lanka.Http.{ok, err, HttpError}
use edu_lanka.Postgrest.{Reply, found, failed, Table}
use edu_lanka.MobileSync.{
  Row, Cell, Server, is_at, has_id, marked, new_row, log_conflict, logged, updated, inserted,
  merge_wins, merge_found, merge,
}
use edu_lanka.MobileSync.Merging.{
  IsKeyed, mark_of, mark_at, later_mark, modified-mark_at, modified-IsKeyed, added-IsKeyed,
  added-mark_at,
}

module _ (T : Table Row) (id_is_key : (r : Row) → T.key r ≡ r.id) where
  -- The rows after a merge, and the mark that stands at the cell.
  abbrev pub IsMerged : Cell → String → ℕ → Option (String × ℕ) → T.Db → Type 0
  IsMerged c status at before db =
      IsKeyed (T.rows db) × (mark_at c (T.rows db) ≡ later_mark status at before)

  updated-ok :
      (s s' : Server T) (x : Reply (Unit {0}) × T.Db)
      → updated T s x ≡ (ok tt, s')
      → (x.0 ≡ found tt) × (x.1 ≡ s'.attendance)
  updated-ok s s' (found u, db) h = (refl, ap (λ z. z.1.attendance) h)
  updated-ok s s' (failed, db) h =
      absurd (let bad : err HttpError.internal_error ≡ ok tt = ap (λ z. z.0) h in cc)

  inserted-ok :
      (s s' : Server T) (x : Reply String × T.Db)
      → inserted T s x ≡ (ok tt, s')
      → (id : String) × (x.0 ≡ found id) × (x.1 ≡ s'.attendance)
  inserted-ok s s' (found id, db) h = (id, refl, ap (λ z. z.1.attendance) h)
  inserted-ok s s' (failed, db) h =
      absurd (let bad : err HttpError.internal_error ≡ ok tt = ap (λ z. z.0) h in cc)

  log_conflict-attendance :
      (answers : Bool) (old : Row) (status : String) (at : ℕ) (s : Server T)
      → (log_conflict T answers old status at s).attendance ≡ s.attendance
  log_conflict-attendance answers old status at s = elim (Bool-cases (str_eq old.status status)) [
    | inl e ↦ rw e
    | inr e ↦ rw e (either answers)
  ]
    where
      either :
          (b : Bool)
          → (logged T b
              (record {
                client_status = status;
                server_status = old.status;
                client_wins = ltb old.marked_at at;
              })
              s).attendance
            ≡ s.attendance
      either true = refl
      either false = refl

  module _ (c : Cell) (caller status : String) (at : ℕ) where
    wins-IsMerged :
        (old : Row) (b : Bool) (s s' : Server T)
        → IsKeyed (T.rows s.attendance)
        → select (is_at c) (T.rows s.attendance) ≡ old ∷ []
        → merge_wins T c caller status at old b s ≡ (ok tt, s')
        → IsKeyed (T.rows s'.attendance)
          × (mark_at c (T.rows s'.attendance)
              ≡ (if b then some (status, at) else some (old.status, old.marked_at)))
    wins-IsMerged old true s s' k e h =
        let (f, g) =
          updated-ok s s' (T.update (has_id old.id) (marked caller status c.period at) s.attendance)
            h in
        let rows =
          T.update_found (has_id old.id) (marked caller status c.period at) s.attendance f in
        subst (λ db. IsKeyed (T.rows db) × (mark_at c (T.rows db) ≡ some (status, at))) g
          (subst (λ rs. IsKeyed rs × (mark_at c rs ≡ some (status, at))) (sym rows)
            (
              modified-IsKeyed c caller status at old.id (T.rows s.attendance) k,
              modified-mark_at c caller status at (T.rows s.attendance) old k e,
            ))
    wins-IsMerged old false s s' k e h =
        subst
          (λ db. IsKeyed (T.rows db) × (mark_at c (T.rows db) ≡ some (old.status, old.marked_at)))
          (ap (λ z. z.1.attendance) h) (k, ap mark_of e)

    found-IsMerged :
        (answers : Bool) (r : Reply (Option Row)) (s s' : Server T)
        → T.maybe_single (is_at c) s.attendance ≡ r
        → r ≢ failed
        → IsKeyed (T.rows s.attendance)
        → merge_found T answers c caller status at r s ≡ (ok tt, s')
        → IsMerged c status at (mark_at c (T.rows s.attendance)) s'.attendance
    found-IsMerged answers failed s s' e n k h = absurd (n refl)
    found-IsMerged answers (found none) s s' e n k h =
        let empty = T.maybe_single_none (is_at c) s.attendance e in
        let (id, f, g) = inserted-ok s s' (T.insert (new_row c caller status at) s.attendance) h in
        let rows = T.insert_found (new_row c caller status at) s.attendance id f in
        let fresh = T.insert_fresh (new_row c caller status at) s.attendance id f in
        let fresh_ids = with_ids (T.rows s.attendance) id fresh in
        subst (IsMerged c status at (mark_at c (T.rows s.attendance))) g (
          subst
            (λ rs.
              IsKeyed rs × (mark_at c rs ≡ later_mark status at (mark_at c (T.rows s.attendance))))
            (sym rows)
            (
              added-IsKeyed c caller status at id (T.rows s.attendance) k fresh_ids,
              added-mark_at c caller status at id (T.rows s.attendance) empty
                  ∙ sym (ap (λ xs. later_mark status at (mark_of xs)) empty),
            ))
      where
        with_ids :
            (rs : List Row) (id : String) → All (λ r. T.key r ≢ id) rs → All (λ r. r.id ≢ id) rs
        with_ids [] id h = tt
        with_ids (r ∷ rs) id h = ((λ e. h.0 (id_is_key r ∙ e)), with_ids rs id h.1)
    found-IsMerged answers (found (some old)) s s' e n k h =
        let one = T.maybe_single_some (is_at c) s.attendance old e in
        let s1 = log_conflict T answers old status at s in
        let same = log_conflict-attendance answers old status at s in
        let (a, b) =
          wins-IsMerged old (ltb old.marked_at at) s1 s'
            (subst (λ db. IsKeyed (T.rows db)) (sym same) k)
            (ap (λ db. select (is_at c) (T.rows db)) same ∙ one) h in
        (a, b ∙ sym (ap (λ xs. later_mark status at (mark_of xs)) one))

  -- A merge that succeeds after an answered query, in a table whose ids are unique, keeps the ids
  -- unique, and leaves at its cell the later of the mark that stood there, if any, and the new one.
  pub merge-IsMerged :
      (answers : Bool) (c : Cell) (caller status : String) (at : ℕ) (s s' : Server T)
      → IsKeyed (T.rows s.attendance)
      → T.maybe_single (is_at c) s.attendance ≢ failed
      → merge T answers c caller status at s ≡ (ok tt, s')
      → IsMerged c status at (mark_at c (T.rows s.attendance)) s'.attendance
  unfolding merge
  merge-IsMerged answers c caller status at s s' k n h =
      found-IsMerged c caller status at answers (T.maybe_single (is_at c) s.attendance) s s' refl n
        k h

-- Two marks of different times can be put in either order.
later_mark_comm :
    (p q : String) (t u : ℕ) (o : Option (String × ℕ))
    → t ≢ u
    → later_mark p t (later_mark q u o) ≡ later_mark q u (later_mark p t o)
later_mark_comm p q t u none d = ground (arith, d)
later_mark_comm p q t u (some (s, w)) d = ground (arith, d)

module _ (T : Table Row) (id_is_key : (r : Row) → T.key r ≡ r.id) where
  -- Two marks of one cell with different times, merged in either order into the same table, whose ids
  -- are unique, with every query answered and every write done, leave the same status and time at the
  -- cell, whoever sent them.
  pub merge-order :
      (c : Cell) (p_by q_by p q : String) (t u : ℕ) (answers : Bool) (s s1 s2 r1 r2 : Server T)
      → t ≢ u
      → IsKeyed (T.rows s.attendance)
      → T.maybe_single (is_at c) s.attendance ≢ failed
      → merge T answers c p_by p t s ≡ (ok tt, s1)
      → T.maybe_single (is_at c) s1.attendance ≢ failed
      → merge T answers c q_by q u s1 ≡ (ok tt, s2)
      → merge T answers c q_by q u s ≡ (ok tt, r1)
      → T.maybe_single (is_at c) r1.attendance ≢ failed
      → merge T answers c p_by p t r1 ≡ (ok tt, r2)
      → mark_at c (T.rows s2.attendance) ≡ mark_at c (T.rows r2.attendance)
  merge-order c p_by q_by p q t u answers s s1 s2 r1 r2 d k n a n1 a' b m1 b' =
      let (k1, e1) = merge-IsMerged T id_is_key answers c p_by p t s s1 k n a in
      let (_, e2) = merge-IsMerged T id_is_key answers c q_by q u s1 s2 k1 n1 a' in
      let (l1, f1) = merge-IsMerged T id_is_key answers c q_by q u s r1 k n b in
      let (_, f2) = merge-IsMerged T id_is_key answers c p_by p t r1 r2 l1 m1 b' in
      e2
      ∙ ap (later_mark q u) e1
      ∙ sym (later_mark_comm p q t u (mark_at c (T.rows s.attendance)) d)
      ∙ sym (ap (later_mark p t) f1)
      ∙ sym f2
