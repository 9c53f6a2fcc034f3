-- ===== src/Http.antt =====
-- The exceptions of the API's services (@nestjs/common) as values, and service methods as actions
-- on a state that may throw. A throw keeps the changes made so far, as in the program.
pub mod Pure
pub mod Cases
use edu_lanka.Prelude.{Bool, true, false}

-- The exception classes; their texts are left out.
pub data HttpError : Type 0 where
  bad_request unauthorized forbidden not_found conflict : HttpError
  too_many_requests upgrade_required internal_error service_unavailable thrown : HttpError

pub data Result {ℓ} (A : Type ℓ) : Type ℓ where
  ok : A → Result A
  err : HttpError → Result A

abbrev pub Action : Type 0 → Type 0 → Type 0
Action S A = S → Result A × S

-- The rest of a method after one awaited step.
abbrev pub resume : {S A B : Type 0} → (A → Action S B) → Result A × S → Result B × S
resume k (ok a, s) = k a s
resume k (err e, s) = (err e, s)

infixl 5 ◌>>=◌ ◌>>◌
abbrev pub ◌>>=◌ : {S A B : Type 0} → Action S A → (A → Action S B) → Action S B
◌>>=◌ m k s = resume k (m s)

abbrev pub ◌>>◌ : {S B : Type 0} → Action S (Unit {0}) → Action S B → Action S B
◌>>◌ m k = m >>= λ _. k

abbrev pub return : {S A : Type 0} → A → Action S A
return a s = (ok a, s)

abbrev pub throw : {S A : Type 0} → HttpError → Action S A
throw e s = (err e, s)

-- `if (!test) throw e`.
abbrev pub require : {S : Type 0} → Bool → HttpError → Action S (Unit {0})
require true e = return tt
require false e = throw e
