-- ===== src/Sessions/Revoking.antt =====
-- Revoking tokens keeps the sets of token ids complete
-- (apps/api/src/modules/redis/redis.service.ts).
use mathlib.Core.Path.{subst}
use edu_lanka.Prelude.{
  ℕ, ◌<◌, String, ◌≡◌, ◌≢◌, sym, ◌∙◌, inl, inr, true, false, Option, none, some, List, any, In,
  any-In, ltb, str_eq, str_eq_iff, str_eq_refl, Bool-cases, arith,
}
use edu_lanka.Redis.{
  members, Entry, entry, Keyspace, live, live_entry, removed, applied_all, rt, user_rts,
}
use edu_lanka.Sessions.{revoke_commands, revoke_all_commands, members_of}
use edu_lanka.Sessions.Keyspaces.{
  revoke-rt, revoke-user_rts, revoke_all-rt, revoke_all-user_rts, removed-In, removed-IsTokenSet,
}
use edu_lanka.Sessions.Listing.{IsListed, IsWellFormed, set_of, dropped-IsWellFormed}

-- A member of a live set is among what is read.
pub members_of-live :
    (E : Keyspace) (now : ℕ) (u jti : String) (e : ℕ)
    → now < e
    → IsListed E jti u e
    → any (λ m. str_eq m jti) (members_of (live now (E (user_rts u)))) ≡ true
members_of-live E now u jti e l (ms, until, g, i, k) =
    let still : ltb now until ≡ true = ground arith in
    rw (g, still) ((any-In (λ m. str_eq m jti) ms).1 (jti, i, str_eq_refl jti))

module _ (ttl now : ℕ) (E : Keyspace) (w : IsWellFormed ttl now E) where
  -- The keyspace after a token has been revoked.
  abbrev revoked : String → Option String → Keyspace
  revoked jti o = applied_all now (revoke_commands jti o) E

  kept_listing :
      (jti j u : String) (o : Option String) (e : ℕ)
      → now < e
      → str_eq jti j ≡ false
      → IsListed E j u e
      → IsListed (revoked jti o) j u e
  kept_listing jti j u none e l d listed = listed
  kept_listing jti j u (some owner) e l d (ms, until, g, i, k) =
      elim (Bool-cases (str_eq owner u)) [
        | inl s ↦
            let other : j ≢ jti =
              λ same. let bad : true ≡ false = sym ((str_eq_iff jti j).1 (sym same)) ∙ d in cc in
            let (ns, h, i') = removed-In jti j now until ms (omega arith) i other in
            (ns, until, rw (revoke-user_rts E now jti owner u, s, g) h, i', k)
        | inr s ↦ (ms, until, rw (revoke-user_rts E now jti owner u, s) g, i, k)
      ]

  -- A set after a revocation holds only what it held.
  abbrev IsSubset : Keyspace → String → Entry → Type 0
  IsSubset F u en =
      (ms ns : List String) × (e : ℕ) × (en ≡ entry (members ns) (some e))
      × (E (user_rts u) ≡ some (entry (members ms) (some e)))
      × ((x : String) → In x ns → In x ms)

  same_set : (u : String) (en : Entry) → E (user_rts u) ≡ some en → IsSubset E u en
  same_set u en h = let (ms, e, k, own) = w.1 u en h in (ms, ms, e, k, rw k at h, λ x i. i)

  revoked_set :
      (jti u : String) (o : Option String) (en : Entry)
      → revoked jti o (user_rts u) ≡ some en
      → IsSubset (revoked jti o) u en
  revoked_set jti u none en h = same_set u en h
  revoked_set jti u (some owner) en h = elim (Bool-cases (str_eq owner u)) [
    | inl s ↦
        let h' : removed jti (live_entry now (E (user_rts u))) ≡ some en =
          rw (revoke-user_rts E now jti owner u, s) at h in
        elim (set_of ttl now E w u) [
          | inl g ↦ absurd (let bad : none ≡ some en = rw g at h' in cc)
          | inr (ms, e, g) ↦
              let h'' : removed jti (live_entry now (some (entry (members ms) (some e))))
                  ≡ some en =
                rw g at h' in
              elim (removed-IsTokenSet jti now e ms) [
                | inl r ↦ absurd (let bad : none ≡ some en = sym r ∙ h'' in cc)
                | inr (ns, r, sub) ↦
                    let same : some en ≡ some (entry (members ns) (some e)) = sym h'' ∙ r in
                    (ms, ns, e, cc, g, sub)
              ]
        ]
    | inr s ↦ same_set u en (rw (revoke-user_rts E now jti owner u, s) at h)
  ]

  pub revoke-IsWellFormed :
      (jti : String) (o : Option String) → IsWellFormed ttl now (revoked jti o)
  revoke-IsWellFormed jti o =
      dropped-IsWellFormed ttl now E w (revoked jti o)
        (λ j en h. elim (Bool-cases (str_eq jti j)) [
          | inl s ↦ absurd (let bad : none ≡ some en = rw (revoke-rt E now jti o j, s) at h in cc)
          | inr s ↦ (
            rw (revoke-rt E now jti o j, s) at h,
            λ u e l k listed. kept_listing jti j u o e l s listed,
          )
        ])
        (λ u en h. revoked_set jti u o en h)

  -- The keyspace after all tokens of a user have been revoked.
  abbrev cleared : String → Keyspace
  cleared user =
      applied_all now (revoke_all_commands user now (members_of (live now (E (user_rts user))))) E

  abbrev read_of : String → List String
  read_of user = members_of (live now (E (user_rts user)))

  cleared_token :
      (user jti : String) (en : Entry)
      → cleared user (rt jti) ≡ some en
      → (E (rt jti) ≡ some en) × (any (λ m. str_eq m jti) (read_of user) ≡ false)
  cleared_token user jti en h = elim (Bool-cases (any (λ m. str_eq m jti) (read_of user))) [
    | inl s ↦
        absurd (
          let bad : none ≡ some en = rw (revoke_all-rt E now user (read_of user) jti, s) at h in cc)
    | inr s ↦ (rw (revoke_all-rt E now user (read_of user) jti, s) at h, s)
  ]

  pub revoke_all-IsWellFormed : (user : String) → IsWellFormed ttl now (cleared user)
  revoke_all-IsWellFormed user =
      dropped-IsWellFormed ttl now E w (cleared user)
        (λ j en h.
          let (g, unread) = cleared_token user j en h in
          (
            g,
            λ u e l k listed. elim (Bool-cases (str_eq user u)) [
              | inl s ↦
                  let same : u ≡ user = sym ((str_eq_iff user u).0 s) in
                  let seen =
                    members_of-live E now user j e l (subst (λ v. IsListed E j v e) same listed) in
                  absurd (let bad : true ≡ false = sym seen ∙ unread in cc)
              | inr s ↦ rw (revoke_all-user_rts E now user (read_of user) u, s) listed
            ],
          ))
        (λ u en h. elim (Bool-cases (str_eq user u)) [
          | inl s ↦ absurd (
              let bad : none ≡ some en =
                rw (revoke_all-user_rts E now user (read_of user) u, s) at h in
              cc)
          | inr s ↦ same_set u en (rw (revoke_all-user_rts E now user (read_of user) u, s) at h)
        ])
