-- ===== src/Sessions/Listing.antt =====
-- Every refresh token in force stands in its user's set, which lives at least as long: what
-- `revokeAllUserRefreshTokens` relies on (apps/api/src/modules/redis/redis.service.ts).
use mathlib.Core.Path.{subst}
use edu_lanka.Prelude.{
  ℕ, ◌+◌, ◌<◌, ◌≤◌, String, ◌≡◌, sym, ◌∙◌, ◌⊎◌, inl, inr, true, false, Option, none, some, List, In,
  str_eq, str_eq_iff, str_eq_refl, Bool-cases, Option-cases, arith,
}
use edu_lanka.Redis.{text, members, Entry, entry, Keyspace, applied_all, rt, user_rts}
use edu_lanka.Sessions.{store_commands}
use edu_lanka.Sessions.Keyspaces.{store-user_rts, IsTokenSet, IsAdded, added-IsAdded}

some_injective : {A : Type 0} {a b : A} → some a ≡ some b → a ≡ b
some_injective h = cc

-- The user's set holds the token id until a time.
abbrev pub IsListed : Keyspace → String → String → ℕ → Type 0
IsListed E jti u e =
    (ms : List String) × (until : ℕ) × (E (user_rts u) ≡ some (entry (members ms) (some until)))
    × In jti ms
    × (e ≤ until)

abbrev pub IsSession : ℕ → ℕ → Keyspace → String → Entry → Type 0
IsSession ttl now E jti en =
    (u : String) × (e : ℕ) × (en ≡ entry (text u) (some e))
    × (e ≤ now + ttl)
    × (now < e → IsListed E jti u e)

-- The set of a user holds no token id of another.
abbrev pub IsOwnSet : Keyspace → String → List String → Type 0
IsOwnSet E u ms =
    (jti v : String) (x : Option ℕ) → In jti ms → E (rt jti) ≡ some (entry (text v) x) → v ≡ u

abbrev pub IsWellFormed : ℕ → ℕ → Keyspace → Type 0
IsWellFormed ttl now E =
    ((jti : String) (en : Entry) → E (rt jti) ≡ some en → IsSession ttl now E jti en)
    × ((u : String) (en : Entry)
        → E (user_rts u) ≡ some en
        → (ms : List String) × (e : ℕ) × (en ≡ entry (members ms) (some e)) × IsOwnSet E u ms)

-- What `randomUUID` gives: an id that no key and no set holds.
abbrev pub IsFresh : Keyspace → String → Type 0
IsFresh E jti =
    (E (rt jti) ≡ none)
    × ((u : String) (ms : List String) (e : ℕ)
        → E (user_rts u) ≡ some (entry (members ms) (some e))
        → ¬ In jti ms)

pub later-IsWellFormed :
    (ttl now later : ℕ) (E : Keyspace)
    → now ≤ later
    → IsWellFormed ttl now E
    → IsWellFormed ttl later E
later-IsWellFormed ttl now later E l (a, b) = (
  λ jti en h.
      let (u, e, k, m, f) = a jti en h in
      (u, e, k, (let bound : e ≤ later + ttl = omega arith in bound), λ n. f (omega arith)),
  b,
)

module _ (ttl now : ℕ) (E : Keyspace) (w : IsWellFormed ttl now E) where
  pub set_of : (u : String) → IsTokenSet (E (user_rts u))
  set_of u = elim (Option-cases (E (user_rts u))) [
    | inl e ↦ inl e
    | inr (en, h) ↦ let (ms, e, k, own) = w.1 u en h in inr (ms, e, rw k at h)
  ]

  -- The keyspace after a refresh token has been stored.
  abbrev stored : String → String → Keyspace
  stored jti user = applied_all now (store_commands jti user ttl) E

  new_set :
      (jti user u : String)
      → str_eq user u ≡ true
      → IsAdded jti now (now + ttl) (E (user_rts u)) (stored jti user (user_rts u))
  new_set jti user u h =
      rw (store-user_rts E now jti user ttl u, h)
        (added-IsAdded jti now (now + ttl) (E (user_rts u)) (set_of u))

  other_set :
      (jti user u : String) → str_eq user u ≡ false → stored jti user (user_rts u) ≡ E (user_rts u)
  other_set jti user u h = rw (store-user_rts E now jti user ttl u, h)

  kept_listing :
      (jti user j u : String) (e : ℕ)
      → e ≤ now + ttl
      → now < e
      → IsListed E j u e
      → IsListed (stored jti user) j u e
  kept_listing jti user j u e m l (ms, until, h, i, k) = elim (Bool-cases (str_eq user u)) [
    | inl s ↦
        let (ns, g, _, _, keeps) = new_set jti user u s in
        (ns, now + ttl, g, keeps j ms until h (omega arith) i, m)
    | inr s ↦ (ms, until, other_set jti user u s ∙ h, i, k)
  ]

  stored-IsSession :
      (jti user j : String) (en : Entry)
      → stored jti user (rt j) ≡ some en
      → IsSession ttl now (stored jti user) j en
  stored-IsSession jti user j en h = elim (Bool-cases (str_eq jti j)) [
    | inl s ↦
        let (ns, g, i, _, _) = new_set jti user user (str_eq_refl user) in
        let h' : some (entry (text user) (some (now + ttl))) ≡ some en = rw s at h in
        let same : jti ≡ j = (str_eq_iff jti j).0 s in
        let listed = subst (λ z. In z ns) same i in
        (user, now + ttl, cc, omega arith, λ l. (ns, now + ttl, g, listed, omega arith))
    | inr s ↦
        let h' : E (rt j) ≡ some en = rw s at h in
        let (u, e, k, m, f) = w.0 j en h' in
        (u, e, k, m, λ l. kept_listing jti user j u e m l (f l))
  ]

  -- A token id of another user's is not the new one.
  stored_owner :
      (jti user u j v : String) (x : Option ℕ) (ms : List String)
      → IsFresh E jti
      → IsOwnSet E u ms
      → ((e : ℕ) × (E (user_rts u) ≡ some (entry (members ms) (some e))))
      → In j ms
      → stored jti user (rt j) ≡ some (entry (text v) x)
      → v ≡ u
  stored_owner jti user u j v x ms (_, no_set) own (e, g) i h = elim (Bool-cases (str_eq jti j)) [
    | inl s ↦ let same : jti ≡ j = (str_eq_iff jti j).0 s in absurd (no_set u ms e g (rw same i))
    | inr s ↦ own j v x i (rw s at h)
  ]

  -- What the user's own set holds after the new token is the user's.
  stored_own :
      (jti user u : String) (ms : List String)
      → IsFresh E jti
      → str_eq user u ≡ true
      → ((x : String)
          → In x ms
          → (x ≡ jti)
            ⊎ ((ns : List String) × (e : ℕ) × (E (user_rts u) ≡ some (entry (members ns) (some e)))
                × In x ns))
      → IsOwnSet (stored jti user) u ms
  stored_own jti user u ms fresh s from j v x i h = elim (Bool-cases (str_eq jti j)) [
    | inl t ↦
        let same : user ≡ u = (str_eq_iff user u).0 s in
        let h' : some (entry (text user) (some (now + ttl))) ≡ some (entry (text v) x) =
          rw t at h in
        let owner : user ≡ v = cc in sym owner ∙ same
    | inr t ↦ elim (from j i) [
      | inl k ↦ absurd (let bad : true ≡ false = sym ((str_eq_iff jti j).1 (sym k)) ∙ t in cc)
      | inr (ns, e, g, i') ↦
          let (ms', e', k, own) = w.1 u (entry (members ns) (some e)) g in
          let same : ns ≡ ms' = cc in own j v x (subst (λ z. In j z) same i') (rw t at h)
    ]
  ]

  pub store-IsWellFormed :
      (jti user : String) → IsFresh E jti → IsWellFormed ttl now (stored jti user)
  store-IsWellFormed jti user fresh = (stored-IsSession jti user, sets)
    where
      sets :
          (u : String) (en : Entry)
          → stored jti user (user_rts u) ≡ some en
          → (ms : List String) × (e : ℕ) × (en ≡ entry (members ms) (some e))
            × IsOwnSet (stored jti user) u ms
      sets u en h = elim (Bool-cases (str_eq user u)) [
        | inl s ↦
            let (ns, g, _, from, _) = new_set jti user u s in
            (ns, now + ttl, some_injective (sym h ∙ g), stored_own jti user u ns fresh s from)
        | inr s ↦
            let h' = sym (other_set jti user u s) ∙ h in
            let (ms, e, k, own) = w.1 u en h' in
            let g : E (user_rts u) ≡ some (entry (members ms) (some e)) = rw k at h' in
            (ms, e, k, λ j v x i r. stored_owner jti user u j v x ms fresh own (e, g) i r)
      ]

  -- Dropping entries, and members of sets that are no live token's, keeps the keyspace well formed.
  pub dropped-IsWellFormed :
      (F : Keyspace)
      → ((jti : String) (en : Entry)
          → F (rt jti) ≡ some en
          → (E (rt jti) ≡ some en)
            × ((u : String) (e : ℕ)
                → now < e
                → en ≡ entry (text u) (some e)
                → IsListed E jti u e
                → IsListed F jti u e))
      → ((u : String) (en : Entry)
          → F (user_rts u) ≡ some en
          → (ms ns : List String) × (e : ℕ) × (en ≡ entry (members ns) (some e))
            × (E (user_rts u) ≡ some (entry (members ms) (some e)))
            × ((x : String) → In x ns → In x ms))
      → IsWellFormed ttl now F
  dropped-IsWellFormed F keeps sets = (
    λ jti en h.
        let (g, list) = keeps jti en h in
        let (u, e, k, m, f) = w.0 jti en g in (u, e, k, m, λ l. list u e l k (f l)),
    λ u en h.
        let (ms, ns, e, k, g, sub) = sets u en h in
        let (ms', e', k', own) = w.1 u (entry (members ms) (some e)) g in
        let same : ms ≡ ms' = cc in
        (
          ns,
          e,
          k,
          λ j v x i r.
              own j v x (subst (λ z. In j z) same (sub j i)) (keeps j (entry (text v) x) r).0,
        ),
  )
