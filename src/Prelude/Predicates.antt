-- ===== src/Prelude/Predicates.antt =====
-- Predicates and relations on lists by recursion.
use mathlib.Core.Path.{◌≡◌, refl, sym, ap, ◌∙◌}
use mathlib.Core.Logic.{◌↔◌, ◌⊎◌, inl, inr}
use mathlib.Core.Bool.{Bool, true, false}
use mathlib.Core.List.{List, [], ◌∷◌, ◌++◌}
use edu_lanka.Prelude.Lists.{select, modify, any}
use edu_lanka.Prelude.Tests.{Bool-cases, if◌then◌else◌}

abbrev pub All {ℓ κ} : {A : Type ℓ} → (A → Type κ) → List A → Type κ
All P [] = Unit
All P (x ∷ xs) = P x × All P xs

-- The element stands in the list.
abbrev pub In : {A : Type 0} → A → List A → Type 0
In a [] = ⊥
In a (x ∷ xs) = (a ≡ x) ⊎ In a xs

-- Two lists of one length, related element by element.
abbrev pub Pointwise : {A : Type 0} → (A → A → Type 0) → List A → List A → Type 0
Pointwise R [] [] = Unit
Pointwise R [] (y ∷ ys) = ⊥
Pointwise R (x ∷ xs) [] = ⊥
Pointwise R (x ∷ xs) (y ∷ ys) = R x y × Pointwise R xs ys

pub All-append {ℓ κ} :
    {A : Type ℓ} (P : A → Type κ) (xs ys : List A) → All P xs → All P ys → All P (xs ++ ys)
All-append P [] ys hx hy = hy
All-append P (x ∷ xs) ys hx hy = (hx.0, All-append P xs ys hx.1 hy)

module _ {A : Type 0} where
  pub All-In : (P : A → Type 0) (xs : List A) (a : A) → All P xs → In a xs → P a
  All-In P (x ∷ xs) a h (inl e) = rw e h.0
  All-In P (x ∷ xs) a h (inr m) = All-In P xs a h.1 m
  All-In P [] a h m = absurd m

  pub In-append : (a : A) (xs ys : List A) → In a (xs ++ ys) → In a xs ⊎ In a ys
  In-append a [] ys m = inr m
  In-append a (x ∷ xs) ys (inl e) = inl (inl e)
  In-append a (x ∷ xs) ys (inr m) = elim (In-append a xs ys m) [
    | inl h ↦ inl (inr h)
    | inr h ↦ inr h
  ]

  -- What `select` keeps stands in the list and passes the test.
  pub In-select : (p : A → Bool) (a : A) (xs : List A) → In a (select p xs) → In a xs × (p a ≡ true)
  In-select p a (x ∷ xs) m = elim (Bool-cases (p x)) [
    | inl e ↦ elim (let k : In a (x ∷ select p xs) = rw e at m in k) [
      | inl f ↦ (inl f, rw f e)
      | inr k ↦ let (i, h) = In-select p a xs k in (inr i, h)
    ]
    | inr e ↦ let (i, h) = In-select p a xs (rw e at m) in (inr i, h)
  ]
  In-select p a [] m = absurd m

  pub Pointwise-modify :
      (R : A → A → Type 0) (p : A → Bool) (f : A → A) (xs : List A)
      → ((x : A) → R x x)
      → ((x : A) → In x xs → p x ≡ true → R x (f x))
      → Pointwise R xs (modify p f xs)
  Pointwise-modify R p f [] same h = tt
  Pointwise-modify R p f (x ∷ xs) same h = (
    elim (Bool-cases (p x)) [ inl e ↦ rw e (h x (inl refl) e) | inr e ↦ rw e (same x) ],
    Pointwise-modify R p f xs same (λ y m e. h y (inr m) e),
  )

module _ {A : Type 0} where
  pub select-In : (p : A → Bool) (a : A) (xs : List A) → In a xs → p a ≡ true → In a (select p xs)
  select-In p a [] m h = m
  select-In p a (x ∷ xs) (inl e) h = let k : p x ≡ true = rw e at h in rw k (inl e)
  select-In p a (x ∷ xs) (inr m) h = elim (Bool-cases (p x)) [
    | inl e ↦ rw e (inr (select-In p a xs m h))
    | inr e ↦ rw e (select-In p a xs m h)
  ]

  pub In-modify :
      (p : A → Bool) (f : A → A) (b : A) (xs : List A)
      → In b (modify p f xs)
      → (a : A) × In a xs × (b ≡ (if p a then f a else a))
  In-modify p f b [] m = absurd m
  In-modify p f b (x ∷ xs) (inl e) = (x, inl refl, e)
  In-modify p f b (x ∷ xs) (inr m) = let (a, i, e) = In-modify p f b xs m in (a, inr i, e)

  pub Pointwise-refl : (R : A → A → Type 0) (xs : List A) → ((x : A) → R x x) → Pointwise R xs xs
  Pointwise-refl R [] h = tt
  Pointwise-refl R (x ∷ xs) h = (h x, Pointwise-refl R xs h)

  -- An element that is related to itself only stays in the list.
  pub Pointwise-In :
      (R : A → A → Type 0) (a : A) (xs ys : List A)
      → Pointwise R xs ys
      → ((b : A) → R a b → b ≡ a)
      → In a xs
      → In a ys
  Pointwise-In R a (x ∷ xs) (y ∷ ys) (r, rs) h (inl e) = inl (sym (h y (rw e r)))
  Pointwise-In R a (x ∷ xs) (y ∷ ys) (r, rs) h (inr m) = inr (Pointwise-In R a xs ys rs h m)
  Pointwise-In R a [] ys r h m = absurd m
  Pointwise-In R a (x ∷ xs) [] r h m = absurd r

  pub append-In_left : (a : A) (xs ys : List A) → In a xs → In a (xs ++ ys)
  append-In_left a (x ∷ xs) ys (inl e) = inl e
  append-In_left a (x ∷ xs) ys (inr m) = inr (append-In_left a xs ys m)
  append-In_left a [] ys m = absurd m

  -- What the test does not pass stays in the list.
  pub modify-In :
      (p : A → Bool) (f : A → A) (a : A) (xs : List A)
      → In a xs
      → p a ≡ false
      → In a (modify p f xs)
  modify-In p f a (x ∷ xs) (inl e) h = let k : p x ≡ false = rw e at h in rw k (inl e)
  modify-In p f a (x ∷ xs) (inr m) h = inr (modify-In p f a xs m h)
  modify-In p f a [] m h = absurd m

  pub modify-nothing :
      (p : A → Bool) (f g : A → A) (xs : List A) → select p xs ≡ [] → modify p f xs ≡ modify p g xs
  modify-nothing p f g [] h = refl
  modify-nothing p f g (x ∷ xs) h = elim (Bool-cases (p x)) [
    | inl e ↦ absurd (let bad : x ∷ select p xs ≡ [] = rw e at h in cc)
    | inr e ↦
        let rest : select p xs ≡ [] = rw e at h in
        rw e (ap (λ ys. x ∷ ys) (modify-nothing p f g xs rest))
  ]

  -- A change of the only element that passes puts one element in its place.
  pub modify-only :
      (p : A → Bool) (f : A → A) (a : A) (xs : List A)
      → select p xs ≡ a ∷ []
      → modify p f xs ≡ modify p (λ x. f a) xs
  modify-only p f a [] h = refl
  modify-only p f a (x ∷ xs) h = elim (Bool-cases (p x)) [
    | inl e ↦
        let one : x ∷ select p xs ≡ a ∷ [] = rw e at h in
        let same : x ≡ a = cc in
        let rest : select p xs ≡ [] = cc in
        rw e (
          ap (λ y. f y ∷ modify p f xs) same
          ∙ ap (λ ys. f a ∷ ys) (modify-nothing p f (λ y. f a) xs rest))
    | inr e ↦
        let rest : select p xs ≡ a ∷ [] = rw e at h in
        rw e (ap (λ ys. x ∷ ys) (modify-only p f a xs rest))
  ]

  -- What the test passes stands in the list changed.
  pub modify-In_changed :
      (p : A → Bool) (f : A → A) (a : A) (xs : List A)
      → In a xs
      → p a ≡ true
      → In (f a) (modify p f xs)
  modify-In_changed p f a (x ∷ xs) (inl e) h = let k : p x ≡ true = rw e at h in rw k (inl (rw e))
  modify-In_changed p f a (x ∷ xs) (inr m) h = inr (modify-In_changed p f a xs m h)
  modify-In_changed p f a [] m h = absurd m

pub any-In :
    {A : Type 0} (p : A → Bool) (xs : List A)
    → (any p xs ≡ true) ↔ ((x : A) × In x xs × (p x ≡ true))
any-In p [] = (λ h. cc, λ (x, m, h). absurd m)
any-In p (x ∷ xs) =
    let (to, from) = any-In p xs in
    (
      λ h. elim (Bool-cases (p x)) [
        | inl e ↦ (x, inl refl, e)
        | inr e ↦ let (y, m, k) = to (rw e at h) in (y, inr m, k)
      ],
      λ (y, m, h). elim m [
        | inl e ↦ let k : p x ≡ true = rw e at h in rw k
        | inr m ↦
            let k = from (y, m, h) in elim (Bool-cases (p x)) [ inl e ↦ rw e | inr e ↦ rw e k ]
      ],
    )

module _ {A : Type 0} (p q : A → Bool) (f : A → A) where
  -- A change that keeps a test may be made before or after the selection by it.
  pub select-modify :
      (xs : List A)
      → ((x : A) → p (f x) ≡ p x)
      → select p (modify q f xs) ≡ modify q f (select p xs)
  select-modify [] h = refl
  select-modify (x ∷ xs) h = elim (Bool-cases (p x)) [
    | inl e ↦ elim (Bool-cases (q x)) [
      | inl k ↦ let e' = h x ∙ e in rw (k, e', e, k, select-modify xs h) refl
      | inr k ↦ rw (k, e, k, select-modify xs h) refl
    ]
    | inr e ↦ elim (Bool-cases (q x)) [
      | inl k ↦ let e' = h x ∙ e in rw (k, e', e, select-modify xs h) refl
      | inr k ↦ rw (k, e, select-modify xs h) refl
    ]
  ]

  pub modify-none : (xs : List A) → ((x : A) → In x xs → q x ≡ false) → modify q f xs ≡ xs
  modify-none [] h = refl
  modify-none (x ∷ xs) h = rw (h x (inl refl), modify-none xs (λ y m. h y (inr m))) refl

module _ {A : Type 0} (p : A → Bool) where
  pub select-append :
      (xs : List A) (x : A) → select p (xs ++ x ∷ []) ≡ select p xs ++ select p (x ∷ [])
  select-append [] x = refl
  select-append (y ∷ xs) x = elim (Bool-cases (p y)) [
    | inl e ↦ rw (e, select-append xs x) refl
    | inr e ↦ rw (e, select-append xs x) refl
  ]
