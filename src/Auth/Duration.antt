-- ===== src/Auth/Duration.antt =====
-- `parseDurationToSeconds` (apps/api/src/modules/auth/auth.service.ts), without the rounding of numbers
-- of more than 15 digits.
use edu_lanka.Prelude.{ℕ, ◌+◌, ◌-◌, ◌*◌, Bool, true, false, [], ◌∷◌, ◌==◌, if◌then◌else◌}
use edu_lanka.Text.{Text, between}

abbrev pub default_duration : ℕ
default_duration = 7 * 24 * 3600

abbrev is_digit : ℕ → Bool
is_digit c = between 48 57 c

-- The unit is one of s, m, h and d.
abbrev pub in_unit : ℕ → ℕ → ℕ
in_unit n c =
    if c == 115
    then n
    else if c == 109
    then n * 60
    else if c == 104
    then n * 3600
    else if c == 100
    then n * 86400
    else default_duration

-- The rest of the text, after the digits of a number; there must be one.
unfoldable pub after_digits : Bool → ℕ → Text → ℕ
after_digits some_digit n [] = default_duration
after_digits some_digit n (c ∷ []) = if some_digit then in_unit n c else default_duration
after_digits some_digit n (c ∷ d ∷ t) =
    if is_digit c then after_digits true (n * 10 + (c - 48)) (d ∷ t) else default_duration

unfoldable pub parse_duration_to_seconds : Text → ℕ
unfolding after_digits
parse_duration_to_seconds t = after_digits false 0 t
