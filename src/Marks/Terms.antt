-- ===== src/Marks/Terms.antt =====
-- Finalizations of one term in the table `term_finalizations`
-- (apps/api/src/modules/student-marks/student-marks.service.ts).
use mathlib.Core.Path.{subst}
use edu_lanka.Prelude.{
  ℕ, String, ◌≡◌, refl, sym, ap, ◌∙◌, inl, inr, Bool, true, false, ◌&&◌, List, [], ◌∷◌, ◌++◌,
  select, modify, In, select-In, In-select, In-modify, modify-In, modify-In_changed, In-append,
  append-In_left, Bool-cases, str_eq, str_eq_iff, str_eq_refl, ◌==◌, if◌then◌else◌, arith,
}
use edu_lanka.Marks.{Finalization, TermKey, is_of_term, finalized, new_finalization}

-- The term has a finalization, and each finalization of it is in force.
pub record IsFinalized (k : TermKey) (rows : List Finalization) : Type 0 where
  pub row : Finalization
  pub stored : In row rows
  pub of_term : is_of_term k row ≡ true
  pub in_force : (r : Finalization) → In r rows → is_of_term k r ≡ true → r.is_finalized ≡ true

four_true :
    (a b c d : Bool) → (a && b && c && d) ≡ true → (a ≡ true) × (b ≡ true) × (c ≡ true) × (d ≡ true)
four_true true true true true h = (refl, refl, refl, refl)
four_true false b c d h = ground arith
four_true true false c d h = ground arith
four_true true true false d h = ground arith
four_true true true true false h = cc

==-true : (m n : ℕ) → (m == n) ≡ true → m ≡ n
==-true m n h = ground arith

-- The term that a row is of.
abbrev pub term_of : Finalization → TermKey
term_of f = record {
  tenant_id = f.tenant_id;
  class_id = f.class_id;
  academic_year = f.academic_year;
  term = f.term;
}

pub is_of_term_unique : (k : TermKey) (f : Finalization) → is_of_term k f ≡ true → term_of f ≡ k
is_of_term_unique k f h =
    let (a, b, c, d) =
      four_true (str_eq f.tenant_id k.tenant_id) (str_eq f.class_id k.class_id)
        (f.academic_year == k.academic_year) (f.term == k.term) h in
    let t = (str_eq_iff f.tenant_id k.tenant_id).0 a in
    let u = (str_eq_iff f.class_id k.class_id).0 b in
    let v = ==-true f.academic_year k.academic_year c in
    let w = ==-true f.term k.term d in rw (t, u, v, w)

-- Rewriting rows of the term as finalized ones leaves it finalized.
pub modify-IsFinalized :
    (k : TermKey) (p : Finalization → Bool) (f : Finalization → Finalization)
    (rows : List Finalization)
    → ((r : Finalization) → is_of_term k (f r) ≡ is_of_term k r)
    → ((r : Finalization) → p r ≡ true → is_of_term k r ≡ true → (f r).is_finalized ≡ true)
    → IsFinalized k rows
    → IsFinalized k (modify p f rows)
modify-IsFinalized k p f rows same good h = record {
  row = if p h.row then f h.row else h.row;
  stored = elim (Bool-cases (p h.row)) [
    | inl e ↦ rw e (modify-In_changed p f h.row rows h.stored e)
    | inr e ↦ rw e (modify-In p f h.row rows h.stored e)
  ];
  of_term = elim (Bool-cases (p h.row)) [
    | inl e ↦ rw e (same h.row ∙ h.of_term)
    | inr e ↦ rw e h.of_term
  ];
  in_force = λ b m t.
      let (a, i, e) = In-modify p f b rows m in
      elim (Bool-cases (p a)) [
        | inl q ↦
            let b_is : b ≡ f a = rw q at e in
            let t' : is_of_term k a ≡ true = sym (same a) ∙ sym (ap (is_of_term k) b_is) ∙ t in
            ap (λ x. x.is_finalized) b_is ∙ good a q t'
        | inr q ↦
            let b_is : b ≡ a = rw q at e in
            ap (λ x. x.is_finalized) b_is ∙ h.in_force a i (sym (ap (is_of_term k) b_is) ∙ t)
      ];
}

-- The one row of the term is overwritten as finalized.
pub overwritten-IsFinalized :
    (k : TermKey) (now : ℕ) (by : String) (old : Finalization) (rows : List Finalization)
    → select (is_of_term k) rows ≡ old ∷ []
    → IsFinalized k (modify (is_of_term k) (finalized now by) rows)
overwritten-IsFinalized k now by old rows one =
    let (m, t) = In-select (is_of_term k) old rows (rw one (inl refl)) in
    record {
      row = finalized now by old;
      stored = modify-In_changed (is_of_term k) (finalized now by) old rows m t;
      of_term = t;
      in_force = λ b mb tb.
          let (a, i, e) = In-modify (is_of_term k) (finalized now by) b rows mb in
          elim (Bool-cases (is_of_term k a)) [
            | inl q ↦ let b_is : b ≡ finalized now by a = rw q at e in ap (λ x. x.is_finalized) b_is
            | inr q ↦
                let b_is : b ≡ a = rw q at e in
                let bad : true ≡ false = sym tb ∙ ap (is_of_term k) b_is ∙ q in cc
          ];
    }

is_of_term-new :
    (k : TermKey) (now : ℕ) (by id : String) → is_of_term k (new_finalization k now by id) ≡ true
is_of_term-new k now by id = rw (str_eq_refl k.tenant_id, str_eq_refl k.class_id) (ground arith)

In-last : {A : Type 0} (a : A) (xs : List A) → In a (xs ++ a ∷ [])
In-last a [] = inl refl
In-last a (x ∷ xs) = inr (In-last a xs)

-- A finalized row is added for a term that had none.
pub added-IsFinalized :
    (k : TermKey) (now : ℕ) (by id : String) (r : Finalization) (rows : List Finalization)
    → select (is_of_term k) rows ≡ []
    → r ≡ new_finalization k now by id
    → IsFinalized k (rows ++ r ∷ [])
added-IsFinalized k now by id r rows nothing made = record {
  row = r;
  stored = In-last r rows;
  of_term = ap (is_of_term k) made ∙ is_of_term-new k now by id;
  in_force = λ b m t. elim (In-append b rows (r ∷ []) m) [
    | inl i ↦ absurd (subst (In b) nothing (select-In (is_of_term k) b rows i t))
    | inr (inl e) ↦ ap (λ x. x.is_finalized) (e ∙ made)
    | inr (inr bad) ↦ absurd bad
  ];
}

pub append-IsFinalized :
    (k : TermKey) (rows : List Finalization) (r : Finalization)
    → (is_of_term k r ≡ true → r.is_finalized ≡ true)
    → IsFinalized k rows
    → IsFinalized k (rows ++ r ∷ [])
append-IsFinalized k rows r good h = record {
  row = h.row;
  stored = append-In_left h.row rows (r ∷ []) h.stored;
  of_term = h.of_term;
  in_force = λ b m t. elim (In-append b rows (r ∷ []) m) [
    | inl i ↦ h.in_force b i t
    | inr (inl e) ↦ ap (λ x. x.is_finalized) e ∙ good (sym (ap (is_of_term k) e) ∙ t)
    | inr (inr bad) ↦ absurd bad
  ];
}
