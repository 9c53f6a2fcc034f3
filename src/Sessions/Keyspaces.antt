-- ===== src/Sessions/Keyspaces.antt =====
-- What the commands of the refresh tokens' methods leave under each key.
use edu_lanka.Prelude.{
  ℕ, ◌+◌, ◌<◌, String, ◌≡◌, ◌≢◌, refl, ◌⊎◌, inl, inr, true, false, not, Option, none, some, List,
  [], ◌∷◌, map, any, In, In-select, select-In, any-In, select, if◌then◌else◌, str_eq, str_eq_iff,
  str_eq_refl, Bool-cases, ltb, arith,
}
use edu_lanka.Redis.{
  members, Entry, entry, Keyspace, live_entry, with_member, as_set, added, removed, lasting,
  applied_all, rt, user_rts, key_eq,
}
use edu_lanka.Sessions.{store_commands, revoke_commands, revoke_all_commands}

any-map_rt :
    (j : String) (ms : List String)
    → any (λ k. key_eq k (rt j)) (map rt ms) ≡ any (λ m. str_eq m j) ms
any-map_rt j [] = refl
any-map_rt j (m ∷ ms) = rw (any-map_rt j ms)

any-map_user_rts :
    (u : String) (ms : List String) → any (λ k. key_eq k (user_rts u)) (map rt ms) ≡ false
any-map_user_rts u [] = refl
any-map_user_rts u (m ∷ ms) = any-map_user_rts u ms

module _ (E : Keyspace) (now : ℕ) where
  pub store-user_rts :
      (jti user : String) (ttl : ℕ) (u : String)
      → applied_all now (store_commands jti user ttl) E (user_rts u) ≡ (
          if str_eq user u
          then lasting (now + ttl) (live_entry now (added jti (live_entry now (E (user_rts u)))))
          else E (user_rts u))
  store-user_rts jti user ttl u = elim (Bool-cases (str_eq user u)) [
    | inl e ↦ let same : user ≡ u = (str_eq_iff user u).0 e in rw (same, str_eq_refl u)
    | inr e ↦ rw e
  ]

  pub revoke-rt :
      (jti : String) (o : Option String) (j : String)
      → applied_all now (revoke_commands jti o) E (rt j) ≡ (if str_eq jti j then none else E (rt j))
  revoke-rt jti none j = elim (Bool-cases (str_eq jti j)) [ inl e ↦ rw e | inr e ↦ rw e ]
  revoke-rt jti (some u) j = elim (Bool-cases (str_eq jti j)) [ inl e ↦ rw e | inr e ↦ rw e ]

  pub revoke-user_rts :
      (jti owner u : String)
      → applied_all now (revoke_commands jti (some owner)) E (user_rts u)
        ≡ (if str_eq owner u then removed jti (live_entry now (E (user_rts u))) else E (user_rts u))
  revoke-user_rts jti owner u = elim (Bool-cases (str_eq owner u)) [
    | inl e ↦ let same : owner ≡ u = (str_eq_iff owner u).0 e in rw (same, str_eq_refl u)
    | inr e ↦ rw e
  ]

  pub revoke_all-rt :
      (user : String) (ms : List String) (j : String)
      → applied_all now (revoke_all_commands user now ms) E (rt j)
        ≡ (if any (λ m. str_eq m j) ms then none else E (rt j))
  revoke_all-rt user [] j = refl
  revoke_all-rt user (m ∷ ms) j = rw (any-map_rt j ms)

  pub revoke_all-user_rts :
      (user : String) (ms : List String) (u : String)
      → applied_all now (revoke_all_commands user now ms) E (user_rts u)
        ≡ (if str_eq user u then none else E (user_rts u))
  revoke_all-user_rts user [] u = elim (Bool-cases (str_eq user u)) [ inl e ↦ rw e | inr e ↦ rw e ]
  revoke_all-user_rts user (m ∷ ms) u = elim (Bool-cases (str_eq user u)) [
    | inl e ↦ rw e
    | inr e ↦ rw (e, any-map_user_rts u ms)
  ]

-- A set of token ids that expires, or no set.
abbrev pub IsTokenSet : Option Entry → Type 0
IsTokenSet o =
    (o ≡ none) ⊎ ((ms : List String) × (e : ℕ) × (o ≡ some (entry (members ms) (some e))))

In-with_member : (m x : String) (ms : List String) → In x (with_member m ms) → (x ≡ m) ⊎ In x ms
In-with_member m x ms i = elim (Bool-cases (any (str_eq m) ms)) [
  | inl e ↦ inr (rw e at i)
  | inr e ↦ let k : In x (m ∷ ms) = rw e at i in k
]

with_member-In_self : (m : String) (ms : List String) → In m (with_member m ms)
with_member-In_self m ms = elim (Bool-cases (any (str_eq m) ms)) [
  | inl e ↦
      let (x, i, h) = (any-In (str_eq m) ms).0 e in
      let same : m ≡ x = (str_eq_iff m x).0 h in rw e (rw same i)
  | inr e ↦ rw e (inl refl)
]

with_member-In : (m x : String) (ms : List String) → In x ms → In x (with_member m ms)
with_member-In m x ms i = elim (Bool-cases (any (str_eq m) ms)) [
  | inl e ↦ rw e i
  | inr e ↦ rw e (inr i)
]

-- What the set holds after a token id has been added.
abbrev pub IsAdded : String → ℕ → ℕ → Option Entry → Option Entry → Type 0
IsAdded m now until o after =
    (ms : List String) × (after ≡ some (entry (members ms) (some until)))
    × In m ms
    × ((x : String)
        → In x ms
        → (x ≡ m)
          ⊎ ((ns : List String) × (e : ℕ) × (o ≡ some (entry (members ns) (some e))) × In x ns))
    × ((x : String) (ns : List String) (e : ℕ)
        → o ≡ some (entry (members ns) (some e))
        → now < e
        → In x ns
        → In x ms)

pub added-IsAdded :
    (m : String) (now until : ℕ) (o : Option Entry)
    → IsTokenSet o
    → IsAdded m now until o (lasting until (live_entry now (added m (live_entry now o))))
added-IsAdded m now until o (inl e) =
    rw e
      (m ∷ [], refl, inl refl, (λ x i. elim i [ inl k ↦ inl k | inr k ↦ absurd k ]), λ x ns e h. cc)
added-IsAdded m now until o (inr (ms, e, h)) = rw h (elim (Bool-cases (ltb now e)) [
  | inl k ↦
      rw (k, k)
        (
          with_member m ms,
          refl,
          with_member-In_self m ms,
          (λ x i. elim (In-with_member m x ms i) [ inl k ↦ inl k | inr k ↦ inr (ms, e, refl, k) ]),
          λ x ns e2 h l i. let same : ns ≡ ms = cc in with_member-In m x ms (rw same at i),
        )
  | inr k ↦ rw k (
    m ∷ [],
    refl,
    inl refl,
    (λ x i. elim i [ inl k ↦ inl k | inr k ↦ absurd k ]),
    λ x ns e2 h l i. let same : e ≡ e2 = cc in absurd (let late : ⊥ = ground arith in late),
  )
])

as_set-In :
    (e : Option ℕ) (x : String) (ms : List String)
    → In x ms
    → as_set e ms ≡ some (entry (members ms) e)
as_set-In e x [] i = absurd i
as_set-In e x (m ∷ ms) i = refl

-- A set that has lost a token id keeps the others.
pub removed-In :
    (m x : String) (now e : ℕ) (ms : List String)
    → now < e
    → In x ms
    → x ≢ m
    → (ns : List String) × (removed m (live_entry now (some (entry (members ms) (some e))))
        ≡ some (entry (members ns) (some e)))
      × In x ns
removed-In m x now e ms l i d =
    let k : ltb now e ≡ true = ground arith in
    let other : str_eq x m ≡ false = ground (arith, str_eq_iff x m) in
    let stays = select-In (λ y. not (str_eq y m)) x ms i (rw other) in
    (
      select (λ y. not (str_eq y m)) ms,
      rw k (as_set-In (some e) x (select (λ y. not (str_eq y m)) ms) stays),
      stays,
    )

pub removed-IsTokenSet :
    (m : String) (now e : ℕ) (ms : List String)
    → (removed m (live_entry now (some (entry (members ms) (some e)))) ≡ none)
      ⊎ ((ns : List String) × (removed m (live_entry now (some (entry (members ms) (some e))))
            ≡ some (entry (members ns) (some e)))
          × ((x : String) → In x ns → In x ms))
removed-IsTokenSet m now e ms = elim (Bool-cases (ltb now e)) [
  | inl k ↦ rw k (
      as_set-cases (select (λ y. not (str_eq y m)) ms)
        (λ x i. (In-select (λ y. not (str_eq y m)) x ms i).0))
  | inr k ↦ inl (rw k)
]
  where
    as_set-cases :
        (ns : List String)
        → ((x : String) → In x ns → In x ms)
        → (as_set (some e) ns ≡ none)
          ⊎ ((ps : List String) × (as_set (some e) ns ≡ some (entry (members ps) (some e)))
              × ((x : String) → In x ps → In x ms))
    as_set-cases [] f = inl refl
    as_set-cases (n ∷ ns) f = inr (n ∷ ns, refl, f)
