-- ===== src/Http/Pure.antt =====
-- Chains of reads that may throw and change no state.
use edu_lanka.Http.{Result, ok, err}

infixl 5 ◌>>=◌
abbrev pub ◌>>=◌ {ℓ κ} : {A : Type ℓ} {B : Type κ} → Result A → (A → Result B) → Result B
ok a >>= k = k a
err e >>= k = err e
