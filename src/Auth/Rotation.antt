-- ===== src/Auth/Rotation.antt =====
-- What a refresh token that has been exchanged has passed, and that it serves once
-- (apps/api/src/modules/auth/auth.service.ts).
use edu_lanka.Prelude.{
  ℕ, String, ◌≡◌, refl, ap, ◌∙◌, inl, inr, ◌⊎◌, Bool, true, false, Option, none, some, Bool-cases,
}
use edu_lanka.Http.{Result, ok, err, HttpError, resume, ◌>>=◌, ◌>>◌, require}
use edu_lanka.Marks.Entering.{step-ok, require-ok, require-state}
use edu_lanka.Postgrest.{Reply, found, failed}
use edu_lanka.Redis.{Redis, Value, live, rt}
use edu_lanka.Sessions.{is_refresh_token_valid, is_there, exists_reply}
use edu_lanka.Auth.{
  Claims, Jwt, TokenPair, AuthConfig, FreshIds, Directory, given_id, is_refresh, is_user_active,
  rotate, refresh_verified, refresh_decoded, refresh_tokens,
}

module _ (R : Redis) where
  -- A token without an entry is not valid, whether Redis answers or not.
  pub no_entry-invalid :
      (jti : String) (t : ℕ) (db : R.Db)
      → live t (R.entries db (rt jti)) ≡ none
      → is_refresh_token_valid R jti t db ≡ false
  unfolding is_refresh_token_valid
  no_entry-invalid jti t db h = go (R.read t (rt jti) db) (R.read_found t (rt jti) db)
    where
      go :
          (r : Reply (Option Value))
          → ((x : Option Value) → r ≡ found x → x ≡ live t (R.entries db (rt jti)))
          → exists_reply R r ≡ false
      go failed f = refl
      go (found v) f = ap is_there (f v refl ∙ h)

module _ (R : Redis) (J : Jwt) (conf : AuthConfig) where
  -- All that a refresh that has given a pair has passed.
  abbrev pub HasPassed : Directory → ℕ → String → R.Db → Claims → String → Type 0
  HasPassed D now token db c jti =
      (J.verify token now ≡ some c)
      × (is_refresh c.token_type ≡ true)
      × (given_id c.jti ≡ some jti)
      × (is_refresh_token_valid R jti now db ≡ true)
      × ((is_user_active R D c.sub c.role now db).0 ≡ ok true)

  rotate-ok :
      (D : Directory) (ids : FreshIds) (now : ℕ) (c : Claims) (jti : String)
      (x : Result Bool × R.Db) (p : TokenPair) (db' : R.Db)
      → resume (rotate R J conf D ids now c jti) x ≡ (ok p, db')
      → (x.0 ≡ ok true) × (rotate R J conf D ids now c jti true x.1 ≡ (ok p, db'))
  rotate-ok D ids now c jti (ok true, s) p db' h = (refl, h)
  rotate-ok D ids now c jti (ok false, s) p db' h =
      absurd (let bad : err HttpError.unauthorized ≡ ok p = ap (λ z. z.0) h in cc)
  rotate-ok D ids now c jti (err e, s) p db' h =
      absurd (let bad : err e ≡ ok p = ap (λ z. z.0) h in cc)

  verified-passed :
      (D : Directory) (ids : FreshIds) (now : ℕ) (c : Claims) (db : R.Db) (p : TokenPair)
      (db' : R.Db) (jti : String) (valid : Bool)
      → (require valid HttpError.unauthorized
            >> is_user_active R D c.sub c.role now
            >>= rotate R J conf D ids now c jti)
          db
        ≡ (ok p, db')
      → (valid ≡ true)
        × ((is_user_active R D c.sub c.role now db).0 ≡ ok true)
        × (rotate R J conf D ids now c jti true (is_user_active R D c.sub c.role now db).1
            ≡ (ok p, db'))
  verified-passed D ids now c db p db' jti true h =
      let (active, rotated) =
        rotate-ok D ids now c jti (is_user_active R D c.sub c.role now db) p db' h in
      (refl, active, rotated)
  verified-passed D ids now c db p db' jti false h =
      absurd (let bad : err HttpError.unauthorized ≡ ok p = ap (λ z. z.0) h in cc)

  id-passed :
      (D : Directory) (ids : FreshIds) (now : ℕ) (c : Claims) (db : R.Db) (p : TokenPair)
      (db' : R.Db) (o : Option String)
      → refresh_verified R J conf D ids now c o db ≡ (ok p, db')
      → (jti : String) × (o ≡ some jti)
        × (is_refresh_token_valid R jti now db ≡ true)
        × ((is_user_active R D c.sub c.role now db).0 ≡ ok true)
        × (rotate R J conf D ids now c jti true (is_user_active R D c.sub c.role now db).1
            ≡ (ok p, db'))
  unfolding refresh_verified
  id-passed D ids now c db p db' none h =
      absurd (let bad : err HttpError.unauthorized ≡ ok p = ap (λ z. z.0) h in cc)
  id-passed D ids now c db p db' (some jti) h =
      let (valid, active, rotated) =
        verified-passed D ids now c db p db' jti (is_refresh_token_valid R jti now db) h in
      (jti, refl, valid, active, rotated)

  decoded-passed :
      (D : Directory) (ids : FreshIds) (now : ℕ) (db : R.Db) (p : TokenPair) (db' : R.Db)
      (o : Option Claims)
      → refresh_decoded R J conf D ids now o db ≡ (ok p, db')
      → (c : Claims) × (jti : String) × ((o ≡ some c)
          × (is_refresh c.token_type ≡ true)
          × (given_id c.jti ≡ some jti)
          × (is_refresh_token_valid R jti now db ≡ true)
          × ((is_user_active R D c.sub c.role now db).0 ≡ ok true))
        × (rotate R J conf D ids now c jti true (is_user_active R D c.sub c.role now db).1
            ≡ (ok p, db'))
  decoded-passed D ids now db p db' none h =
      absurd (let bad : err HttpError.unauthorized ≡ ok p = ap (λ z. z.0) h in cc)
  decoded-passed D ids now db p db' (some c) h =
      let (typed, rest) =
        step-ok (require (is_refresh c.token_type) HttpError.unauthorized)
          (refresh_verified R J conf D ids now c (given_id c.jti)) db db' p
          (require-state (is_refresh c.token_type) HttpError.unauthorized db) h in
      let (jti, g, valid, active, rotated) = id-passed D ids now c db p db' (given_id c.jti) rest in
      (
        c,
        jti,
        (
          refl,
          require-ok (is_refresh c.token_type) HttpError.unauthorized db typed,
          g,
          valid,
          active,
        ),
        rotated,
      )

  -- A refresh that gives a pair was for a refresh token that verifies, with an id that is found in
  -- Redis, of a user who is active; the pair is what the rotation then gives.
  pub refresh_tokens-passed :
      (D : Directory) (ids : FreshIds) (now : ℕ) (token : String) (db : R.Db) (p : TokenPair)
      (db' : R.Db)
      → refresh_tokens R J conf D ids now token db ≡ (ok p, db')
      → (c : Claims) × (jti : String) × HasPassed D now token db c jti
        × (rotate R J conf D ids now c jti true (is_user_active R D c.sub c.role now db).1
            ≡ (ok p, db'))
  unfolding refresh_tokens
  refresh_tokens-passed D ids now token db p db' h =
      decoded-passed D ids now db p db' (J.verify token now) h

  -- A token whose id is not valid is refused, and nothing changes.
  pub decoded-refused :
      (D : Directory) (ids : FreshIds) (now : ℕ) (db : R.Db) (o : Option Claims)
      → ((c : Claims)
          → o ≡ some c
          → (given_id c.jti ≡ none)
            ⊎ ((jti : String) × (given_id c.jti ≡ some jti)
                × (is_refresh_token_valid R jti now db ≡ false)))
      → refresh_decoded R J conf D ids now o db ≡ (err HttpError.unauthorized, db)
  unfolding refresh_verified
  decoded-refused D ids now db none h = refl
  decoded-refused D ids now db (some c) h = elim (Bool-cases (is_refresh c.token_type)) [
    | inl e ↦ rw e (elim (h c refl) [ inl g ↦ rw g | inr (jti, g, k) ↦ rw (g, k) ])
    | inr e ↦ rw e
  ]
