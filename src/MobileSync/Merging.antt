-- ===== src/MobileSync/Merging.antt =====
-- The later mark wins (apps/api/src/modules/mobile/mobile-sync.service.ts).
use mathlib.Core.Path.{subst}
use edu_lanka.Prelude.{
  ℕ, String, ◌≡◌, ◌≢◌, refl, sym, ap, ◌∙◌, inl, inr, Bool, true, Option, none, some, List, [], ◌∷◌,
  ◌++◌, select, modify, All, All-In, In, In-append, In-select, In-modify, Bool-cases, ltb, ◌==◌,
  str_eq_iff, str_eq_refl, if◌then◌else◌, arith,
}
use edu_lanka.MobileSync.{Row, Cell, is_at, has_id, marked, new_row}

select-append :
    {A : Type 0} (p : A → Bool) (xs ys : List A) → select p (xs ++ ys) ≡ select p xs ++ select p ys
select-append p [] ys = refl
select-append p (x ∷ xs) ys = elim (Bool-cases (p x)) [
  | inl e ↦ rw (e, select-append p xs ys)
  | inr e ↦ rw (e, select-append p xs ys)
]

-- Changing rows that stay where they are found.
select-modify :
    {A : Type 0} (q p : A → Bool) (f : A → A) (xs : List A)
    → ((x : A) → In x xs → p x ≡ true → (q x ≡ true) × (q (f x) ≡ true))
    → select q (modify p f xs) ≡ modify p f (select q xs)
select-modify q p f [] h = refl
select-modify q p f (x ∷ xs) h =
    let rest = select-modify q p f xs (λ y i. h y (inr i)) in
    elim (Bool-cases (p x)) [
      | inl e ↦ let (a, b) = h x (inl refl) e in rw (e, a, b, rest, e)
      | inr e ↦ elim (Bool-cases (q x)) [ inl k ↦ rw (e, k, rest, e) | inr k ↦ rw (e, k, rest) ]
    ]

-- Ids are a primary key.
abbrev pub IsKeyed : List Row → Type 0
IsKeyed rows = (a b : Row) → In a rows → In b rows → a.id ≡ b.id → a ≡ b

same_period : (p : ℕ) → (p == p) ≡ true
same_period p = ground arith

new_row-is_at :
    (c : Cell) (caller status : String) (at : ℕ) (id : String)
    → is_at c (new_row c caller status at id) ≡ true
new_row-is_at c caller status at id =
    rw
      (
        str_eq_refl c.tenant_id,
        str_eq_refl c.class_id,
        str_eq_refl c.student_id,
        str_eq_refl c.date,
        same_period c.period,
      )
      refl

marked-stays :
    (c : Cell) (caller status : String) (at : ℕ) (r : Row)
    → is_at c r ≡ true
    → is_at c (marked caller status c.period at r) ≡ true
marked-stays c caller status at r h = ground (arith, h)

-- The status and the time that stand at a cell.
abbrev pub mark_of : List Row → Option (String × ℕ)
mark_of [] = none
mark_of (r ∷ rs) = some (r.status, r.marked_at)

abbrev pub mark_at : Cell → List Row → Option (String × ℕ)
mark_at c rows = mark_of (select (is_at c) rows)

-- The later mark of the two; the older one on a tie.
abbrev pub later_mark : String → ℕ → Option (String × ℕ) → Option (String × ℕ)
later_mark status at none = some (status, at)
later_mark status at (some (s, t)) = if ltb t at then some (status, at) else some (s, t)

in_select :
    (c : Cell) (rows : List Row) (old : Row)
    → select (is_at c) rows ≡ old ∷ []
    → In old rows × (is_at c old ≡ true)
in_select c rows old h = In-select (is_at c) old rows (subst (λ xs. In old xs) (sym h) (inl refl))

module _ (c : Cell) (caller status : String) (at : ℕ) where
  pub modified-mark_at :
      (rows : List Row) (old : Row)
      → IsKeyed rows
      → select (is_at c) rows ≡ old ∷ []
      → mark_at c (modify (has_id old.id) (marked caller status c.period at) rows)
        ≡ some (status, at)
  modified-mark_at rows old k h =
      let (i, q) = in_select c rows old h in
      let stays =
        select-modify (is_at c) (has_id old.id) (marked caller status c.period at) rows (λ x m p.
          let same : x ≡ old = k x old m i ((str_eq_iff x.id old.id).0 p) in
          let here : is_at c x ≡ true = rw same q in
          (here, marked-stays c caller status at x here)) in
      ap mark_of (stays ∙ ap (modify (has_id old.id) (marked caller status c.period at)) h)
      ∙ rw (str_eq_refl old.id) refl

  pub modified-IsKeyed :
      (id : String) (rows : List Row)
      → IsKeyed rows
      → IsKeyed (modify (has_id id) (marked caller status c.period at) rows)
  modified-IsKeyed id rows k a b i j e =
      let (x, m, f) = In-modify (has_id id) (marked caller status c.period at) a rows i in
      let (y, n, g) = In-modify (has_id id) (marked caller status c.period at) b rows j in
      let same : x ≡ y =
        k x y m n (sym (kept_id x) ∙ sym (ap (λ r. r.id) f) ∙ e ∙ ap (λ r. r.id) g ∙ kept_id y) in
      f ∙ ap (λ r. if has_id id r then marked caller status c.period at r else r) same ∙ sym g
    where
      kept_id :
          (r : Row) → (if has_id id r then marked caller status c.period at r else r).id ≡ r.id
      kept_id r = elim (Bool-cases (has_id id r)) [ inl e ↦ rw e | inr e ↦ rw e ]

  pub added-IsKeyed :
      (id : String) (rows : List Row)
      → IsKeyed rows
      → All (λ r. r.id ≢ id) rows
      → IsKeyed (rows ++ new_row c caller status at id ∷ [])
  added-IsKeyed id rows k fresh a b i j e =
      elim (In-append a rows (new_row c caller status at id ∷ []) i) [
        | inl m ↦ elim (In-append b rows (new_row c caller status at id ∷ []) j) [
          | inl n ↦ k a b m n e
          | inr n ↦ elim n [
            | inl g ↦ absurd (All-In (λ r. r.id ≢ id) rows a fresh m (e ∙ ap (λ r. r.id) g))
            | inr z ↦ absurd z
          ]
        ]
        | inr m ↦ elim m [
          | inl f ↦ elim (In-append b rows (new_row c caller status at id ∷ []) j) [
            | inl n ↦ absurd (All-In (λ r. r.id ≢ id) rows b fresh n (sym e ∙ ap (λ r. r.id) f))
            | inr n ↦ elim n [ inl g ↦ f ∙ sym g | inr z ↦ absurd z ]
          ]
          | inr z ↦ absurd z
        ]
      ]

  pub added-mark_at :
      (id : String) (rows : List Row)
      → select (is_at c) rows ≡ []
      → mark_at c (rows ++ new_row c caller status at id ∷ []) ≡ some (status, at)
  added-mark_at id rows h =
      ap mark_of (select-append (is_at c) rows (new_row c caller status at id ∷ []))
      ∙ rw (h, new_row-is_at c caller status at id) refl
