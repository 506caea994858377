-- ===== src/Auth/Lemon.antt =====
-- backend/src/auth/auth.service.ts: the sign-in of the Lemon mini-app, whose nonces the table does
-- not know.
use mathlib.Core.Path.{subst}
use lendoor_stellar.Common.{
  ℕ, ◌+◌, ◌≤◌, ◌<◌, ◌≡◌, refl, sym, ◌∙◌, true, Option, none, some, List, [], ◌∷◌, Text, text_eq, ok,
  err, is_ok, inl, inr, arith, Bool-cases, eq_of_text_eq,
}
use lendoor_stellar.Auth.{
  CacheManager, IsCache, AuthState, create_access_token, after_check-passed, token_key, token_entry,
  used_entry, nonce_already_used,
}
use lendoor_stellar.Auth.SignIn.{
  SignIn, Checks, Claimed, claimed, check_siwe, check_siwe_nonce, spend_siwe_nonce,
  issue_siwe_token, verify_siwe_and_issue_token, replay_key,
}
use lendoor_stellar.Auth.Sessions.{cleanup_expired_auth, cache_ttl}
use lendoor_stellar.Auth.Calls.{nothing_late, Late, late_of, Call, step, run, draws, IsOrdered}
use lendoor_stellar.Auth.Changes.{
  Change, Changes-keep, step-Changes, add_nonce, spend_nonce, spend_entry, add_token, revoke,
  cache_token, put_used, revoke_only, evict, late_entry, clean, unchanged, after_answer,
  after_create,
}
use lendoor_stellar.Auth.Once.{same_claim, check_siwe-live}

-- The cache has the nonce for the address at every time before the end.
abbrev pub IsTaken : {C : Type 0} → CacheManager C → Text → Text → ℕ → AuthState C → Type 0
IsTaken cache nonce address end s =
    (at : ℕ) → at < end → cache.get s.cache (replay_key nonce address) at ≡ some used_entry

module _ {C : Type 0} (cache : CacheManager C) (laws : IsCache cache) where
  Change-IsTaken :
      (now begin : ℕ) (drawn nonce address : Text) (late : Late)
      → begin ≤ now
      → (s t : AuthState C) → Change cache now drawn late s t
      → IsTaken cache nonce address (begin + 600000) s
      → IsTaken cache nonce address (begin + 600000) t
  unfolding cleanup_expired_auth
  Change-IsTaken now begin drawn nonce address late le s _ add_nonce h = h
  Change-IsTaken now begin drawn nonce address late le s _ (spend_nonce spent) h = h
  Change-IsTaken now begin drawn nonce address late le s _ (spend_entry n a) h = λ at before.
      elim (Bool-cases (text_eq (replay_key n a) (replay_key nonce address))) [
        | inr other ↦
            laws.get_other s.cache (replay_key n a) (replay_key nonce address) used_entry 600000 now
              at other
            ∙ h at before
        | inl same ↦
            subst
              (λ k.
                cache.get (cache.set s.cache (replay_key n a) used_entry 600000 now) k at
                ≡ some used_entry)
              (eq_of_text_eq (replay_key n a) (replay_key nonce address) same)
              (laws.get_live s.cache (replay_key n a) used_entry 600000 now at
                (omega (arith, before, le)))
      ]
  Change-IsTaken now begin drawn nonce address late le s _ (add_token w new) h = h
  Change-IsTaken now begin drawn nonce address late le s _ (revoke token) h = λ at before.
      laws.get_other_deleted s.cache (token_key token) (replay_key nonce address) at refl
      ∙ h at before
  Change-IsTaken now begin drawn nonce address late le s _ (cache_token token row f x r) h =
      λ at before.
        laws.get_other s.cache (token_key token) (replay_key nonce address)
          (token_entry row.wallet_address) (cache_ttl now row) now at refl
        ∙ h at before
  Change-IsTaken now begin drawn nonce address late le s _ (put_used stored) h = h
  Change-IsTaken now begin drawn nonce address late le s _ (late_entry token row began e) h =
      λ at before.
        laws.get_other s.cache (token_key token) (replay_key nonce address)
          (token_entry row.wallet_address) (cache_ttl began row) now at refl
        ∙ h at before
  Change-IsTaken now begin drawn nonce address late le s _ (revoke_only token e) h = h
  Change-IsTaken now begin drawn nonce address late le s _ (evict token) h = λ at before.
      laws.get_other_deleted s.cache (token_key token) (replay_key nonce address) at refl
      ∙ h at before
  Change-IsTaken now begin drawn nonce address late le s _ clean h = h

  run-IsTaken :
      (checks : Checks) (clock begin : ℕ) (nonce address : Text) (s : AuthState C)
      (calls : List (ℕ × Call))
      → begin ≤ clock
      → IsOrdered clock calls
      → IsTaken cache nonce address (begin + 600000) s
      → IsTaken cache nonce address (begin + 600000) (run cache checks s calls)
  unfolding run
  run-IsTaken checks clock begin nonce address s [] le ordered h = h
  run-IsTaken checks clock begin nonce address s ((now, call) ∷ calls) le ordered h =
      let after : begin ≤ now = omega (arith, le, ordered.0) in
      run-IsTaken checks now begin nonce address (step cache checks s (now, call)) calls after
        ordered.1
        (Changes-keep cache now (draws call) (late_of call)
          (IsTaken cache nonce address (begin + 600000))
          (Change-IsTaken now begin (draws call) nonce address (late_of call) after) s
          (step cache checks s (now, call)) (step-Changes cache checks now call s) h)

  spend_siwe_nonce-IsTaken :
      (now : ℕ) (s : AuthState C) (claim : Claimed) (address : Text)
      → claim.is_lemon ≡ true
      → claim.address ≡ some address
      → IsTaken cache claim.nonce address (now + 600000) (spend_siwe_nonce cache now claim s)
  unfolding spend_siwe_nonce
  spend_siwe_nonce-IsTaken now s claim address lemon given = λ at before.
      rw (spend_siwe_nonce, lemon, given)
        (laws.get_live s.cache (replay_key claim.nonce address) used_entry 600000 now at before)

  issue_siwe_token-IsTaken :
      (drawn nonce address : Text) (now : ℕ) (to : Option Text) (s : AuthState C)
      → IsTaken cache nonce address (now + 600000) s
      → IsTaken cache nonce address (now + 600000) (issue_siwe_token drawn now to s).1
  issue_siwe_token-IsTaken drawn nonce address now none s h = h
  issue_siwe_token-IsTaken drawn nonce address now (some to) s h =
      Changes-keep cache now drawn nothing_late (IsTaken cache nonce address (now + 600000))
        (Change-IsTaken now now drawn nonce address nothing_late (omega arith)) s _
        (after_answer cache now drawn nothing_late s to (create_access_token drawn to now s)
          (after_create cache now drawn nothing_late s s to unchanged))
        h

  -- An accepted sign-in of Lemon leaves its nonce taken for ten minutes.
  accepted-IsTaken :
      (checks : Checks) (drawn : Text) (now : ℕ) (input : SignIn) (s : AuthState C)
      (claim : Claimed) (address : Text)
      → claimed checks input.message ≡ ok claim
      → claim.is_lemon ≡ true
      → claim.address ≡ some address
      → is_ok (verify_siwe_and_issue_token cache checks drawn now input s).0 ≡ true
      → IsTaken cache claim.nonce address
          (now + 600000)
          (verify_siwe_and_issue_token cache checks drawn now input s).1
  unfolding verify_siwe_and_issue_token
  accepted-IsTaken checks drawn now input s claim address parsed lemon given h =
      let (c, passed) = after_check-passed (check_siwe cache checks now input s) s _ h in
      let (parsed', fresh, signed) = check_siwe-live cache checks now input s c passed in
      let same : c ≡ claim = same_claim parsed' parsed in
      rw (verify_siwe_and_issue_token, passed, same)
        (issue_siwe_token-IsTaken drawn claim.nonce address now claim.address
          (spend_siwe_nonce cache now claim s)
          (spend_siwe_nonce-IsTaken now s claim address lemon given))

  refused_when_taken :
      (checks : Checks) (drawn : Text) (now : ℕ) (input : SignIn) (s : AuthState C)
      (claim : Claimed) (address : Text)
      → claimed checks input.message ≡ ok claim
      → claim.is_lemon ≡ true
      → claim.address ≡ some address
      → cache.get s.cache (replay_key claim.nonce address) now ≡ some used_entry
      → verify_siwe_and_issue_token cache checks drawn now input s ≡ (err nonce_already_used, s)
  unfolding verify_siwe_and_issue_token check_siwe check_siwe_nonce
  refused_when_taken checks drawn now input s claim address parsed lemon given taken =
      rw (verify_siwe_and_issue_token, check_siwe, parsed, check_siwe_nonce, lemon, given, taken)
        refl

  -- Within ten minutes of a sign-in of Lemon with a nonce for an address that ended with a token, and
  -- after any calls and second halves of calls in the order of their times, every sign-in of Lemon
  -- with that nonce for that address that begins then is refused for it, whatever its message and signature, and changes nothing.
  pub lemon_signs_in_once :
      (checks : Checks) (drawn again : Text) (now later : ℕ) (input replay : SignIn)
      (s : AuthState C) (claim claim' : Claimed) (address : Text) (calls : List (ℕ × Call))
      → claimed checks input.message ≡ ok claim
      → claim.is_lemon ≡ true
      → claim.address ≡ some address
      → is_ok (verify_siwe_and_issue_token cache checks drawn now input s).0 ≡ true
      → IsOrdered now calls
      → claimed checks replay.message ≡ ok claim'
      → claim'.is_lemon ≡ true
      → claim'.address ≡ some address
      → claim'.nonce ≡ claim.nonce
      → later < now + 600000
      → let after =
          run cache checks (verify_siwe_and_issue_token cache checks drawn now input s).1 calls in
        verify_siwe_and_issue_token cache checks again later replay after
        ≡ (err nonce_already_used, after)
  lemon_signs_in_once checks drawn again now later input replay s claim claim' address calls parsed
        lemon given accepted ordered parsed' lemon' given' same soon =
      let first = (verify_siwe_and_issue_token cache checks drawn now input s).1 in
      let taken =
        run-IsTaken checks now now claim.nonce address first calls (omega arith) ordered
          (accepted-IsTaken checks drawn now input s claim address parsed lemon given accepted) in
      refused_when_taken checks again later replay (run cache checks first calls) claim' address
        parsed' lemon' given'
        (subst
          (λ n.
            cache.get (run cache checks first calls).cache (replay_key n address) later
            ≡ some used_entry)
          (sym same) (taken later soon))
