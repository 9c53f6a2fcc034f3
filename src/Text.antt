-- ===== src/Text.antt =====
-- Texts as lists of character codes, where the program looks into them: `toLowerCase` and `toUpperCase`
-- on ASCII letters, `trim`, `includes`, `startsWith`, and the part before a separator.
use Prim.Native.Char.{code}
use mathlib.Core.List.{append-nil}
use edu_lanka.Prelude.{
  ℕ, ◌+◌, ◌-◌, ◌≡◌, refl, sym, Bool-cases, ◌↔◌, String, Bool, true, false, ◌&&◌, ◌||◌, List, [],
  ◌∷◌, ◌++◌, leb, ◌==◌, if◌then◌else◌, In, inl, inr, arith,
}

abbrev pub Text : Type 0
Text = List ℕ

abbrev pub codes : String → Text
codes String.[] = []
codes (String.◌∷◌ c s) = code c ∷ codes s

abbrev pub between : ℕ → ℕ → ℕ → Bool
between low high c = leb low c && leb c high

abbrev pub lower_code : ℕ → ℕ
lower_code c = if between 65 90 c then c + 32 else c

abbrev pub upper_code : ℕ → ℕ
upper_code c = if between 97 122 c then c - 32 else c

abbrev pub to_lower : Text → Text
to_lower [] = []
to_lower (c ∷ t) = lower_code c ∷ to_lower t

abbrev pub to_upper : Text → Text
to_upper [] = []
to_upper (c ∷ t) = upper_code c ∷ to_upper t

-- The white space and line ends of ECMAScript.
abbrev pub is_space : ℕ → Bool
is_space c =
    between 9 13 c
    || c == 32
    || c == 160
    || c == 5760
    || between 8192 8202 c
    || between 8232 8233 c
    || c == 8239
    || c == 8287
    || c == 12288
    || c == 65279

pub trim_start : Text → Text
trim_start [] = []
trim_start (c ∷ t) = if is_space c then trim_start t else c ∷ t

pub trim_end : Text → Text
trim_end [] = []
trim_end (c ∷ t) = keep c (trim_end t)
  where
    keep : ℕ → Text → Text
    keep c [] = if is_space c then [] else c ∷ []
    keep c (d ∷ u) = c ∷ d ∷ u

unfoldable pub trim : Text → Text
unfolding trim_start trim_end
trim t = trim_end (trim_start t)

unfoldable pub same : Text → Text → Bool
same [] [] = true
same [] (d ∷ u) = false
same (c ∷ t) [] = false
same (c ∷ t) (d ∷ u) = c == d && same t u

unfoldable pub starts_with : Text → Text → Bool
starts_with t [] = true
starts_with [] (p ∷ ps) = false
starts_with (c ∷ t) (p ∷ ps) = c == p && starts_with t ps

unfoldable pub includes : Text → Text → Bool
unfolding starts_with
includes [] p = starts_with [] p
includes (c ∷ t) p = starts_with (c ∷ t) p || includes t p

-- `split(c)[0]`.
unfoldable pub before : ℕ → Text → Text
before c [] = []
before c (d ∷ t) = if c == d then [] else d ∷ before c t

pub same_iff : (t u : Text) → (same t u ≡ true) ↔ (t ≡ u)
unfolding same
same_iff [] [] = (λ h. refl, λ h. refl)
same_iff [] (d ∷ u) = (λ h. cc, λ h. cc)
same_iff (c ∷ t) [] = (λ h. cc, λ h. cc)
same_iff (c ∷ t) (d ∷ u) = ground (arith, same_iff t u)

pub starts_with_iff : (t p : Text) → (starts_with t p ≡ true) ↔ ((rest : Text) × (t ≡ p ++ rest))
unfolding starts_with
starts_with_iff t [] = (λ h. (t, refl), λ h. refl)
starts_with_iff [] (p ∷ ps) = (λ h. cc, λ h. let (r, e) = h in cc)
starts_with_iff (c ∷ t) (p ∷ ps) = (
  λ h.
      let (rest, e) = (starts_with_iff t ps).0 (ground arith) in
      let k : c ≡ p = ground arith in (rest, rw (k, e)),
  λ (rest, e).
      let h : starts_with t ps ≡ true = (starts_with_iff t ps).1 (rest, ground arith) in
      ground arith,
)

-- What follows the first separator does not matter.
pub before-append : (c : ℕ) (t rest : Text) → ¬ In c t → before c (t ++ c ∷ rest) ≡ before c t
unfolding before
before-append c [] rest h = ground arith
before-append c (d ∷ t) rest h = ground (arith, before-append c t rest (λ m. h (inr m)))

pub starts_with_refl : (p : Text) → starts_with p p ≡ true
starts_with_refl p = (starts_with_iff p p).1 ([], sym (append-nil p))

-- A text stands in any text that ends with it.
pub includes-append : (t p : Text) → includes (t ++ p) p ≡ true
unfolding includes
includes-append [] [] = refl
includes-append [] (c ∷ p) = rw (starts_with_refl (c ∷ p))
includes-append (c ∷ t) p = elim (Bool-cases (starts_with (c ∷ t ++ p) p)) [
  | inl e ↦ rw e
  | inr e ↦ rw (e, includes-append t p)
]
