-- ===== src/Http/Cases.antt =====
-- What holds of all outcomes of a method, from what holds of its steps.
use edu_lanka.Prelude.{Bool, true, false}
use edu_lanka.Http.{Result, ok, err, HttpError, Action, resume, ◌>>◌, require}

module _ {S A : Type 0} (P : Result A × S → Type 0) where
  -- A guard: its exception, or the rest.
  pub require-cases :
      (b : Bool) (e : HttpError) (k : Action S A) (s : S)
      → P (err e, s)
      → P (k s)
      → P ((require b e >> k) s)
  require-cases true e k s refused passed = passed
  require-cases false e k s refused passed = refused

  -- A step: what it throws, or the rest after its value.
  pub resume-cases :
      {B : Type 0} (Q : Result B × S → Type 0) (k : B → Action S A) (x : Result B × S)
      → Q x
      → ((b : B) (s : S) → Q (ok b, s) → P (k b s))
      → ((e : HttpError) (s : S) → Q (err e, s) → P (err e, s))
      → P (resume k x)
  resume-cases Q k (ok b, s) q f g = f b s q
  resume-cases Q k (err e, s) q f g = g e s q
