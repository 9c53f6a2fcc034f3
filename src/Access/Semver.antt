-- ===== src/Access/Semver.antt =====
-- Versions (apps/api/src/common/utils/semver.util.ts): `parseSemver` and `compareSemver`.
use edu_lanka.Prelude.{
  ℕ, ◌+◌, ◌-◌, ◌*◌, ◌<◌, ◌≡◌, refl, ap, ◌↔◌, ◌⊎◌, Bool, Option, none, some, List, [], ◌∷◌, ltb,
  ◌==◌, if◌then◌else◌, arith,
}
use edu_lanka.Http.{Result, ok, err, HttpError}
use edu_lanka.Text.{Text, trim, between}

abbrev pub Version : Type 0
Version = ℕ × ℕ × ℕ

abbrev pub is_digit : ℕ → Bool
is_digit c = between 48 57 c

-- `\d*` and what follows, the digits read as a decimal number after `n`.
pub digits : ℕ → Text → ℕ × Text
digits n [] = (n, [])
digits n (c ∷ t) = if is_digit c then digits (n * 10 + (c - 48)) t else (n, c ∷ t)

-- `(\d+)` with `parseInt`, and what follows.
pub number : Text → Option (ℕ × Text)
unfolding digits
number [] = none
number (c ∷ t) = if is_digit c then some (digits 0 (c ∷ t)) else none

-- `\.` and a number.
pub dot_number : Text → Option (ℕ × Text)
unfolding number
dot_number [] = none
dot_number (c ∷ t) = if c == 46 then number t else none

-- `v?`.
pub skip_v : Text → Text
skip_v [] = []
skip_v (c ∷ t) = if c == 118 then t else c ∷ t

abbrev pub at_end : Version → Text → Option Version
at_end v [] = some v
at_end v (_ ∷ _) = none

-- The match is anchored at both ends and digits are no dots, so it needs no second try.
pub parse_parts : Text → Option Version
unfolding number dot_number
parse_parts t = elim (number t) [
  | none ↦ none
  | some (a, u) ↦ elim (dot_number u) [
    | none ↦ none
    | some (b, v) ↦ elim (dot_number v) [ none ↦ none | some (c, w) ↦ at_end (a, b, c) w ]
  ]
]

unfoldable pub parse_semver : Text → Option Version
unfolding parse_parts skip_v trim
parse_semver t = parse_parts (skip_v (trim t))

-- The results -1, 0 and 1.
pub data Comparison : Type 0 where
  less same greater : Comparison

-- The loop over the three parts.
pub compare_parts : List (ℕ × ℕ) → Comparison
compare_parts [] = same
compare_parts ((a, b) ∷ rest) =
    let later = compare_parts rest in if ltb a b then less else if ltb b a then greater else later

abbrev pub zip_parts : Version → Version → List (ℕ × ℕ)
zip_parts (a, b, c) (x, y, z) = (a, x) ∷ (b, y) ∷ (c, z) ∷ []

-- The error of `compareSemver` is no HTTP exception.
abbrev pub compare_parsed : Option Version → Option Version → Result Comparison
compare_parsed (some v) (some w) = ok (compare_parts (zip_parts v w))
compare_parsed _ _ = err HttpError.thrown

unfoldable pub compare_semver : Text → Text → Result Comparison
unfolding parse_semver compare_parts
compare_semver v w = compare_parsed (parse_semver v) (parse_semver w)

-- The order of versions: by the first part that differs.
abbrev pub Precedes : Version → Version → Type 0
Precedes (a, b, c) (x, y, z) = (a < x) ⊎ ((a ≡ x) × (b < y)) ⊎ ((a ≡ x) × (b ≡ y) × (c < z))

compare_parts-less : (v w : Version) → (compare_parts (zip_parts v w) ≡ less) ↔ Precedes v w
unfolding compare_parts
compare_parts-less (a, b, c) (x, y, z) = ground arith

compare_parts-swap : (v w : Version) → (compare_parts (zip_parts v w) ≡ greater) ↔ Precedes w v
unfolding compare_parts
compare_parts-swap (a, b, c) (x, y, z) = ground arith

compare_parts-same : (v w : Version) → (compare_parts (zip_parts v w) ≡ same) ↔ (v ≡ w)
unfolding compare_parts
compare_parts-same (a, b, c) (x, y, z) = ground arith

-- On two versions that parse, the comparison answers `less`, `same` or `greater` exactly when the
-- first precedes the second, equals it, or follows it, where the first part that differs decides.
pub compare_semver_iff :
    (t u : Text) (v w : Version)
    → parse_semver t ≡ some v
    → parse_semver u ≡ some w
    → ((compare_semver t u ≡ ok less) ↔ Precedes v w)
      × ((compare_semver t u ≡ ok same) ↔ (v ≡ w))
      × ((compare_semver t u ≡ ok greater) ↔ Precedes w v)
unfolding compare_semver
compare_semver_iff t u v w p q =
    let (to, from) = compare_parts-less v w in
    let (to', from') = compare_parts-same v w in
    let (to'', from'') = compare_parts-swap v w in
    rw (p, q)
      (
        (λ h. to (ground arith), λ h. ap ok (from h)),
        (λ h. to' (ground arith), λ h. ap ok (from' h)),
        (λ h. to'' (ground arith), λ h. ap ok (from'' h)),
      )

pub compare_semver-ok :
    (t u : Text) (v w : Version)
    → parse_semver t ≡ some v
    → parse_semver u ≡ some w
    → compare_semver t u ≡ ok (compare_parts (zip_parts v w))
unfolding compare_semver
compare_semver-ok t u v w p q = rw (p, q)

pub parse_semver-nil : parse_semver [] ≡ none
unfolding parse_semver
parse_semver-nil = refl
