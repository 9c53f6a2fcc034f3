-- ===== src/Sessions/Owners.antt =====
-- What the refresh tokens of apps/api/src/modules/redis/redis.service.ts promise: a table of who owns
-- which token until when, in which revoking a user's tokens removes them all at once.
use mathlib.Core.Path.{subst}
use edu_lanka.Prelude.{
  ℕ, ◌+◌, ◌<◌, ◌≤◌, String, ◌≡◌, refl, sym, ◌∙◌, inl, inr, Bool, true, false, Option, none, some,
  any, In, any-In, ltb, if◌then◌else◌, str_eq, str_eq_iff, Bool-cases, Option-cases, arith,
}
use edu_lanka.Redis.{Value, text, members, entry, Keyspace, live, applied_all, rt, user_rts}
use edu_lanka.Sessions.{
  store_commands, revoke_commands, revoke_all_commands, members_of, given_text,
}
use edu_lanka.Sessions.Keyspaces.{revoke-rt, revoke_all-rt}
use edu_lanka.Sessions.Listing.{IsListed, IsWellFormed, IsFresh, store-IsWellFormed}
use edu_lanka.Sessions.Revoking.{members_of-live, revoke-IsWellFormed, revoke_all-IsWellFormed}

pub data Operation : Type 0 where
  store : String → String → Operation
  revoke revoke_all : String → Operation

-- The owner of a token id, and the time until which it is held.
abbrev pub Owners : Type 0
Owners = String → Option (String × ℕ)

abbrev pub not_of : String → Option (String × ℕ) → Option (String × ℕ)
not_of user none = none
not_of user (some (u, e)) = if str_eq u user then none else some (u, e)

abbrev pub specified : ℕ → ℕ → Operation → Owners → Owners
specified ttl now (store jti user) O j = if str_eq jti j then some (user, now + ttl) else O j
specified ttl now (revoke jti) O j = if str_eq jti j then none else O j
specified ttl now (revoke_all user) O j = not_of user (O j)

abbrev pub held : ℕ → Option (String × ℕ) → Option String
held t none = none
held t (some (u, e)) = if ltb t e then some u else none

abbrev pub text_value : Option Value → Option String
text_value (some (text s)) = some s
text_value _ = none

abbrev pub owner : Keyspace → ℕ → String → Option String
owner E t jti = text_value (live t (E (rt jti)))

-- The keyspace after an operation all of whose commands were answered.
abbrev pub after : ℕ → ℕ → Operation → Keyspace → Keyspace
after ttl now (store jti user) E = applied_all now (store_commands jti user ttl) E
after ttl now (revoke jti) E =
    applied_all now (revoke_commands jti (given_text (live now (E (rt jti))))) E
after ttl now (revoke_all user) E =
    applied_all now (revoke_all_commands user now (members_of (live now (E (user_rts user))))) E

-- A new token has a fresh id.
abbrev pub IsFreshFor : Keyspace → Operation → Type 0
IsFreshFor E (store jti user) = IsFresh E jti
IsFreshFor E _ = Unit

pub after-IsWellFormed :
    (ttl now : ℕ) (op : Operation) (E : Keyspace)
    → IsWellFormed ttl now E
    → IsFreshFor E op
    → IsWellFormed ttl now (after ttl now op E)
after-IsWellFormed ttl now (store jti user) E w f = store-IsWellFormed ttl now E w jti user f
after-IsWellFormed ttl now (revoke jti) E w f =
    revoke-IsWellFormed ttl now E w jti (given_text (live now (E (rt jti))))
after-IsWellFormed ttl now (revoke_all user) E w f = revoke_all-IsWellFormed ttl now E w user

module _ (ttl now : ℕ) (E : Keyspace) (w : IsWellFormed ttl now E) where
  owner_entry :
      (t : ℕ) (j v : String)
      → owner E t j ≡ some v
      → (e : ℕ) × (E (rt j) ≡ some (entry (text v) (some e))) × (t < e)
  owner_entry t j v h = elim (Option-cases (E (rt j))) [
    | inl n ↦ absurd (let bad : none ≡ some v = rw n at h in cc)
    | inr (en, g) ↦
        let (u, e, k, _, _) = w.0 j en g in
        let g' : E (rt j) ≡ some (entry (text u) (some e)) = rw k at g in
        elim (Bool-cases (ltb t e)) [
          | inl l ↦
              let same : some u ≡ some v = rw (g', l) at h in
              let same' : u ≡ v = cc in
              (e, subst (λ z. E (rt j) ≡ some (entry (text z) (some e))) same' g', ground arith)
          | inr l ↦ absurd (let bad : none ≡ some v = rw (g', l) at h in cc)
        ]
  ]

  -- A live token of the user's is among the ids read.
  owner_read :
      (t : ℕ) (j v : String)
      → now ≤ t
      → owner E t j ≡ some v
      → any (λ m. str_eq m j) (members_of (live now (E (user_rts v)))) ≡ true
  owner_read t j v l h =
      let (e, g, later) = owner_entry t j v h in
      let (u, e', k, _, listed) = w.0 j (entry (text v) (some e)) g in
      let same : v ≡ u = cc in
      let same_time : e ≡ e' = cc in
      members_of-live E now v j e (omega arith) (
        subst (λ z. IsListed E j z e) (sym same)
          (subst (λ z. IsListed E j u z) (sym same_time) (listed (omega arith))))

  -- An id read is the user's.
  read_owner :
      (t : ℕ) (j user v : String)
      → any (λ m. str_eq m j) (members_of (live now (E (user_rts user)))) ≡ true
      → owner E t j ≡ some v
      → v ≡ user
  read_owner t j user v s h = elim (Option-cases (E (user_rts user))) [
    | inl n ↦ absurd (let bad : false ≡ true = rw n at s in cc)
    | inr (en, g) ↦
        let (ms, e, k, own) = w.1 user en g in
        let g' : E (user_rts user) ≡ some (entry (members ms) (some e)) = rw k at g in
        elim (Bool-cases (ltb now e)) [
          | inl l ↦
              let s' : any (λ m. str_eq m j) ms ≡ true = rw (g', l) at s in
              let (m, i, d) = (any-In (λ m. str_eq m j) ms).0 s' in
              let (e2, r, _) = owner_entry t j v h in
              own j v (some e2) (subst (λ z. In z ms) ((str_eq_iff m j).0 d) i) r
          | inr l ↦ absurd (let bad : false ≡ true = rw (g', l) at s in cc)
        ]
  ]

  removed_held :
      (t : ℕ) (j user : String) (b : Bool) (o : Option (String × ℕ))
      → any (λ m. str_eq m j) (members_of (live now (E (user_rts user)))) ≡ b
      → now ≤ t
      → owner E t j ≡ held t o
      → text_value (live t (if b then none else E (rt j))) ≡ held t (not_of user o)
  removed_held t j user true none r l h = refl
  removed_held t j user true (some (u, e)) r l h = elim (Bool-cases (str_eq u user)) [
    | inl s ↦ rw s
    | inr s ↦ elim (Bool-cases (ltb t e)) [
      | inl k ↦
          let same : u ≡ user = read_owner t j user u r (rw k at h) in
          absurd (let bad : true ≡ false = sym ((str_eq_iff u user).1 same) ∙ s in cc)
      | inr k ↦ rw (s, k)
    ]
  ]
  removed_held t j user false none r l h = h
  removed_held t j user false (some (u, e)) r l h = elim (Bool-cases (str_eq u user)) [
    | inl s ↦ elim (Bool-cases (ltb t e)) [
      | inl k ↦
          let same : u ≡ user = (str_eq_iff u user).0 s in
          let h' : owner E t j ≡ some u = rw k at h in
          let seen = owner_read t j user l (subst (λ z. owner E t j ≡ some z) same h') in
          absurd (let bad : true ≡ false = sym seen ∙ r in cc)
      | inr k ↦ rw s (rw k at h)
    ]
    | inr s ↦ rw s h
  ]

  pub after-owner :
      (op : Operation) (O : Owners)
      → ((t : ℕ) → now ≤ t → (j : String) → owner E t j ≡ held t (O j))
      → (t : ℕ) → now ≤ t
      → (j : String) → owner (after ttl now op E) t j ≡ held t (specified ttl now op O j)
  after-owner (store jti user) O h t l j = elim (Bool-cases (str_eq jti j)) [
    | inl s ↦ elim (Bool-cases (ltb t (now + ttl))) [ inl k ↦ rw (s, k) | inr k ↦ rw (s, k) ]
    | inr s ↦ rw s (h t l j)
  ]
  after-owner (revoke jti) O h t l j =
      rw (revoke-rt E now jti (given_text (live now (E (rt jti)))) j)
        (elim (Bool-cases (str_eq jti j)) [ inl s ↦ rw s | inr s ↦ rw s (h t l j) ])
  after-owner (revoke_all user) O h t l j =
      rw (revoke_all-rt E now user (members_of (live now (E (user_rts user)))) j) (
        removed_held t j user (any (λ m. str_eq m j) (members_of (live now (E (user_rts user)))))
          (O j) refl l (h t l j))
