-- ===== src/Sessions/Tests.antt =====
-- The methods of apps/api/src/modules/redis/redis.service.ts on single requests.
use edu_lanka.Prelude.{
  String, ◌≡◌, refl, true, false, none, some, [], ◌∷◌, str_eq_iff, inl, inr, ◌<◌, arith,
}
use edu_lanka.PostgrestMemory.{found-ne-failed}
use edu_lanka.Redis.{members, entry, Keyspace, applied_all}
use edu_lanka.RedisMemory.{memory_redis, empty_redis}
use edu_lanka.Sessions.{
  store_commands, store_refresh_token, revoke_all_attempt, revoke_all_found, is_refresh_token_valid,
  is_token_revoked, revoke_all_user_refresh_tokens,
}
use edu_lanka.Sessions.Listing.{IsFresh}
use edu_lanka.Sessions.Owners.{store, specified}
use edu_lanka.Sessions.Refinement.{Reached, empty, next, is_refresh_token_valid_refines}
use edu_lanka.Sessions.ResetTokens.{
  issue_password_reset_nonce, is_password_reset_nonce_valid, issue_password_reset_nonce-newest,
  mark_token_revoked, is_token_string_revoked, mark_token_revoked-one_day,
}
use edu_lanka.Sessions.Races.{revoke_all_user_refresh_tokens-race}

empty-IsFresh : IsFresh empty_redis "a"
empty-IsFresh =
    (refl, λ u ms e h. absurd (let bad : none ≡ some (entry (members ms) (some e)) = h in cc))

-- A sign-in, and the revocation of all tokens of another user's.
abbrev signed_in : Keyspace
signed_in = applied_all 0 (store_commands "a" "nimal" 600) empty_redis

signed_in-Reached :
    Reached memory_redis 600 0 signed_in (specified 600 0 (store "a" "nimal") (λ j. none))
unfolding store_refresh_token
signed_in-Reached =
    next 0 0 empty_redis (λ j. none) (store "a" "nimal")
      (empty 0 empty_redis (λ j. refl) (λ u. refl)) (omega arith) empty-IsFresh refl

is_refresh_token_valid_refines_example :
    is_refresh_token_valid memory_redis "a" 599 signed_in ≡ true
is_refresh_token_valid_refines_example =
    is_refresh_token_valid_refines memory_redis 600 0 signed_in
      (specified 600 0 (store "a" "nimal") (λ j. none)) signed_in-Reached 599 (omega arith) "a"
      (λ h. found-ne-failed h)

issue_password_reset_nonce-newest_case :
    is_password_reset_nonce_valid memory_redis "nimal" "n-2" 3
      (issue_password_reset_nonce memory_redis "nimal" "n-2" 3600 2
        (issue_password_reset_nonce memory_redis "nimal" "n-1" 3600 1 empty_redis).1).1
    ≡ true
unfolding issue_password_reset_nonce
issue_password_reset_nonce-newest_case =
    issue_password_reset_nonce-newest memory_redis "nimal" "n-2" 3600 2
      (issue_password_reset_nonce memory_redis "nimal" "n-1" 3600 1 empty_redis).1 refl "n-2" 3
      (λ h. found-ne-failed h)

superseded_nonce :
    is_password_reset_nonce_valid memory_redis "nimal" "n-1" 3
      (issue_password_reset_nonce memory_redis "nimal" "n-2" 3600 2
        (issue_password_reset_nonce memory_redis "nimal" "n-1" 3600 1 empty_redis).1).1
    ≡ false
unfolding issue_password_reset_nonce is_password_reset_nonce_valid
superseded_nonce = refl

used_token_expires :
    is_token_string_revoked memory_redis "t" 86405
      (mark_token_revoked memory_redis "t" 5 empty_redis).1
    ≡ false
unfolding mark_token_revoked
used_token_expires =
    mark_token_revoked-one_day memory_redis "t" 5 empty_redis refl "t" 86405
      (λ h. found-ne-failed h) (λ h. found-ne-failed h)

revoke_all_user_refresh_tokens-race_example :
    is_refresh_token_valid memory_redis "b" 100
      (revoke_all_attempt memory_redis "nimal" 50
        (revoke_all_found memory_redis "nimal" 7
          (some (members ("a" ∷ [])))
          (store_refresh_token memory_redis "b" "nimal" 600 7 signed_in).1).1).1
    ≡ true
unfolding store_refresh_token revoke_all_attempt
revoke_all_user_refresh_tokens-race_example =
    revoke_all_user_refresh_tokens-race memory_redis "b" "nimal" 600 7 50 signed_in
      (some (members ("a" ∷ []))) (λ i. elim i [ inl e ↦ other e | inr k ↦ absurd k ]) refl refl
      refl 100 (let l : 100 < 607 = omega arith in l) (λ h. found-ne-failed h)
  where
    other : ◌≡◌ {A = String} "b" "a" → ⊥
    other e = absurd (let bad : false ≡ true = (str_eq_iff "b" "a").1 e in cc)

-- An access token of the second of the revocation is not revoked; an older one is.
revoked_before :
    is_token_revoked memory_redis "nimal"
      (some 49)
      60
      (revoke_all_user_refresh_tokens memory_redis "nimal" 50 signed_in)
    ≡ true
unfolding is_token_revoked revoke_all_user_refresh_tokens revoke_all_attempt
revoked_before = refl

revoked_same_second :
    is_token_revoked memory_redis "nimal"
      (some 50)
      60
      (revoke_all_user_refresh_tokens memory_redis "nimal" 50 signed_in)
    ≡ false
unfolding is_token_revoked revoke_all_user_refresh_tokens revoke_all_attempt
revoked_same_second = refl
