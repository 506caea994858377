-- ===== src/Auth/Expiry.antt =====
-- backend/src/auth/auth.service.ts: what the two times to live in the cache do not cover.
use mathlib.Core.Path.{subst}
use lendoor_stellar.Common.{
  ℕ, ◌+◌, ◌-◌, ◌<◌, ◌≡◌, refl, sym, ap, true, false, Option, none, some, [], ◌∷◌, ◌++◌, Text, ltb,
  min, ok, inl, inr, arith, Bool-cases,
}
use lendoor_stellar.Auth.{
  AccessToken, CacheManager, IsCache, AuthState, create_access_token, find_token, token_key,
  token_entry, used_entry, mark_used, new_token,
}
use lendoor_stellar.Wallet.{normalize_wallet}
use lendoor_stellar.Auth.SignIn.{
  SignIn, Checks, Claimed, claimed, check_siwe, check_siwe_nonce, check_siwe_signature,
  spend_siwe_nonce, issue_siwe_token, verify_siwe_and_issue_token, replay_key, is_plain_ecdsa,
  is_recovered,
}
use lendoor_stellar.Auth.Sessions.{validate_token}

no_time_left : (now : ℕ) → min (now - now) 10000 ≡ 0
no_time_left now = omega arith

not_past : (now : ℕ) → ltb now now ≡ false
not_past now = ground arith

module _ {C : Type 0} (cache : CacheManager C) (laws : IsCache cache) where
  -- A token that is validated at the very millisecond at which it expires, with no entry in the cache,
  -- is accepted, and is accepted at every later time by the entry that this leaves, which has no
  -- expiration.
  pub expiry_millisecond_sticks :
      (token : Text) (row : AccessToken) (now later : ℕ) (s : AuthState C)
      → cache.get s.cache (token_key token) now ≡ none
      → find_token token s.tokens ≡ some row
      → row.revoked_at ≡ none
      → row.expires_at ≡ some now
      → ((validate_token cache token now s).0 ≡ ok row.wallet_address)
        × ((validate_token cache token later (validate_token cache token now s).1).0
            ≡ ok row.wallet_address)
  unfolding validate_token
  expiry_millisecond_sticks token row now later s miss found valid expires = (
    rw (validate_token, miss, found, valid, expires, not_past now) refl,
    rw (validate_token, miss, found, valid, expires, not_past now, no_time_left now)
        (rw (laws.get_forever s.cache (token_key token) (token_entry row.wallet_address) now later)
          refl),
  )

-- A message of Lemon that was signed by the key of its address.
pub record IsSigned (checks : Checks) (input : SignIn) (claim : Claimed) (address wallet : Text)
    : Type 0 where
  pub parsed : claimed checks input.message ≡ ok claim
  pub lemon : claim.is_lemon ≡ true
  pub given : claim.address ≡ some address
  pub normal : normalize_wallet address ≡ ok wallet
  pub plain : is_plain_ecdsa input.signature ≡ true
  pub recovered :
      is_recovered (checks.recover_message_address input.message input.signature) claim.address
      ≡ true

plainly_signed :
    (checks : Checks) (now : ℕ) (input : SignIn) (claim : Claimed)
    → is_plain_ecdsa input.signature ≡ true
    → is_recovered (checks.recover_message_address input.message input.signature) claim.address
      ≡ true
    → check_siwe_signature checks now input claim ≡ ok tt
unfolding check_siwe_signature
plainly_signed checks now input claim plain recovered =
    elim (Bool-cases
      (checks.verify_siwe_message claim.chain input.message input.signature claim.address now)) [
        | inl v ↦ rw (check_siwe_signature, v) refl
        | inr v ↦ rw (check_siwe_signature, v, plain, recovered) refl
      ]

module _ {C : Type 0} (cache : CacheManager C) (laws : IsCache cache) (checks : Checks) where
  -- The state after a sign-in of Lemon.
  abbrev lemon_state : Text → ℕ → Claimed → Text → Text → AuthState C → AuthState C
  lemon_state drawn now claim address wallet s = record {
    nonces = mark_used claim.nonce s.nonces;
    tokens = s.tokens ++ (new_token drawn wallet now ∷ []);
    cache = cache.set s.cache (replay_key claim.nonce address) used_entry 600000 now;
  }

  free_nonce :
      (now : ℕ) (claim : Claimed) (address : Text) (s : AuthState C)
      → claim.is_lemon ≡ true
      → claim.address ≡ some address
      → cache.get s.cache (replay_key claim.nonce address) now ≡ none
      → check_siwe_nonce cache now claim s ≡ ok tt
  unfolding check_siwe_nonce
  free_nonce now claim address s lemon given free = rw (check_siwe_nonce, lemon, given, free) refl

  spent :
      (now : ℕ) (claim : Claimed) (address : Text) (s : AuthState C)
      → claim.is_lemon ≡ true
      → claim.address ≡ some address
      → spend_siwe_nonce cache now claim s ≡ record s {
        nonces = mark_used claim.nonce s.nonces;
        cache = cache.set s.cache (replay_key claim.nonce address) used_entry 600000 now;
      }
  unfolding spend_siwe_nonce
  spent now claim address s lemon given = rw (spend_siwe_nonce, lemon, given) refl

  created :
      (drawn : Text) (now : ℕ) (address wallet : Text) (s : AuthState C)
      → normalize_wallet address ≡ ok wallet
      → find_token drawn s.tokens ≡ none
      → create_access_token drawn address now s
        ≡ (ok drawn, record s { tokens = s.tokens ++ (new_token drawn wallet now ∷ []) })
  unfolding create_access_token
  created drawn now address wallet s normal new = rw (create_access_token, normal, new) refl

  issued :
      (drawn : Text) (now : ℕ) (to : Option Text) (address wallet : Text) (s : AuthState C)
      → to ≡ some address
      → normalize_wallet address ≡ ok wallet
      → find_token drawn s.tokens ≡ none
      → issue_siwe_token drawn now to s ≡ (
        ok (record { wallet = address; access_token = drawn }),
        record s { tokens = s.tokens ++ (new_token drawn wallet now ∷ []) },
      )
  issued drawn now to address wallet s given normal new =
      rw (given, created drawn now address wallet s normal new) refl

  passed_check :
      (now : ℕ) (input : SignIn) (claim : Claimed) (s : AuthState C)
      → claimed checks input.message ≡ ok claim
      → check_siwe_nonce cache now claim s ≡ ok tt
      → check_siwe_signature checks now input claim ≡ ok tt
      → check_siwe cache checks now input s ≡ ok claim
  unfolding check_siwe
  passed_check now input claim s parsed free signed = rw (check_siwe, parsed, free, signed) refl

  lemon_accepts :
      (drawn : Text) (now : ℕ) (input : SignIn) (claim : Claimed) (address wallet : Text)
      (s : AuthState C)
      → IsSigned checks input claim address wallet
      → cache.get s.cache (replay_key claim.nonce address) now ≡ none
      → find_token drawn s.tokens ≡ none
      → verify_siwe_and_issue_token cache checks drawn now input s ≡ (
        ok (record { wallet = address; access_token = drawn }),
        lemon_state drawn now claim address wallet s,
      )
  unfolding verify_siwe_and_issue_token
  lemon_accepts drawn now input claim address wallet s signed free new =
      let passed =
        passed_check now input claim s signed.parsed
          (free_nonce now claim address s signed.lemon signed.given free)
          (plainly_signed checks now input claim signed.plain signed.recovered) in
      rw (verify_siwe_and_issue_token, passed, spent now claim address s signed.lemon signed.given)
        (issued drawn now claim.address address wallet
          (record s {
            nonces = mark_used claim.nonce s.nonces;
            cache = cache.set s.cache (replay_key claim.nonce address) used_entry 600000 now;
          })
          signed.given signed.normal new)

  -- A sign-in of Lemon that the key of the address signed is accepted, and more than ten minutes after
  -- it the very same message and signature are accepted again, and sign in a second time.
  pub lemon_replays_after_ten_minutes :
      (drawn again : Text) (now later : ℕ) (input : SignIn) (claim : Claimed)
      (address wallet : Text) (s : AuthState C)
      → IsSigned checks input claim address wallet
      → cache.get s.cache (replay_key claim.nonce address) now ≡ none
      → find_token drawn s.tokens ≡ none
      → now + 600000 < later
      → find_token again (verify_siwe_and_issue_token cache checks drawn now input s).1.tokens
        ≡ none
      → ((verify_siwe_and_issue_token cache checks drawn now input s).0
          ≡ ok (record { wallet = address; access_token = drawn }))
        × ((verify_siwe_and_issue_token cache checks again later input
              (verify_siwe_and_issue_token cache checks drawn now input s).1).0
            ≡ ok (record { wallet = address; access_token = again }))
  lemon_replays_after_ten_minutes drawn again now later input claim address wallet s signed free new
        late other =
      let e = lemon_accepts drawn now input claim address wallet s signed free new in
      let after = lemon_state drawn now claim address wallet s in
      let gone =
        laws.get_gone s.cache (replay_key claim.nonce address) used_entry 600000 now later
          (omega arith) late in
      let new' = subst (λ r. find_token again r.1.tokens ≡ none) e other in
      (
        ap (λ r. r.0) e,
        subst
            (λ x.
              (verify_siwe_and_issue_token cache checks again later input x).0
              ≡ ok (record { wallet = address; access_token = again }))
            (sym (ap (λ r. r.1) e))
            (ap (λ r. r.0)
              (lemon_accepts again later input claim address wallet after signed gone new')),
      )
