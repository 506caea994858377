-- ===== src/Auth/Live.antt =====
-- backend/src/auth/auth.service.ts: a token that is accepted is live.
use mathlib.Core.Path.{subst}
use lendoor_stellar.Common.{
  ℕ, ◌≤◌, ◌≡◌, refl, sym, ◌∙◌, not, ◌||◌, Option, none, some, List, [], ◌∷◌, Text, ok, err, inl,
  inr, arith, is_none, Option-cases, Bool-cases, All, All-append, All-update_rows, All-delete_rows,
  ok_injective,
}
use lendoor_stellar.Auth.{
  CacheManager, Cached, IsCache, AuthState, find_token, token_key, new_token, token_entry,
  invalid_or_expired_token,
}
use lendoor_stellar.Auth.SignIn.{Checks}
use lendoor_stellar.Auth.Sessions.{
  cleanup_expired_auth, is_unrevoked, revoked, validate_token, is_expired, is_beyond_grace,
}
use lendoor_stellar.Auth.Short.{IsOffExpiry, IsShort, Change-IsShort}
use lendoor_stellar.Auth.Calls.{
  IsLongRevoked, AreLongRevoked, Late, late_of, IsOver, AreOver, Call, step, run, draws, IsOrdered,
  ends_at,
}
use lendoor_stellar.Auth.Changes.{
  Change, Changes-keep, step-Changes, add_nonce, spend_nonce, spend_entry, add_token, revoke,
  cache_token, put_used, revoke_only, evict, late_entry, clean,
}
use lendoor_stellar.Auth.Honest.{IsLive, IsHonest, IsOffExpiry-new_token, Change-IsHonest}

-- No call comes at the very millisecond at which a token in the table expires.
abbrev pub IsTimely :
    {C : Type 0} → CacheManager C → Checks → AuthState C → List (ℕ × Call) → Type 0
IsTimely cache checks s [] = Unit {0}
IsTimely cache checks s ((now, call) ∷ calls) =
    All (IsOffExpiry now) s.tokens × IsTimely cache checks (step cache checks s (now, call)) calls

-- The cache has no entry for any token.
abbrev pub IsEmpty : {C : Type 0} → CacheManager C → AuthState C → Type 0
IsEmpty cache s = (token : Text) (at : ℕ) → cache.get s.cache (token_key token) at ≡ none

missing_entry : {o : Option Cached} {v : Cached} → o ≡ none → o ≡ some v → ⊥
missing_entry e f = cc

module _ {C : Type 0} (cache : CacheManager C) (laws : IsCache cache) where
  Change-IsOffExpiry :
      (now : ℕ) (drawn : Text) (late : Late) (s t : AuthState C)
      → Change cache now drawn late s t
      → All (IsOffExpiry now) s.tokens
      → All (IsOffExpiry now) t.tokens
  unfolding cleanup_expired_auth
  Change-IsOffExpiry now drawn late s _ add_nonce off = off
  Change-IsOffExpiry now drawn late s _ (spend_nonce spent) off = off
  Change-IsOffExpiry now drawn late s _ (spend_entry n a) off = off
  Change-IsOffExpiry now drawn late s _ (add_token w new) off =
      All-append (IsOffExpiry now) s.tokens (new_token drawn w now ∷ []) off
        (IsOffExpiry-new_token now drawn w, tt)
  Change-IsOffExpiry now drawn late s _ (revoke t') off =
      All-update_rows (IsOffExpiry now) (is_unrevoked t') (revoked now) s.tokens (λ row r. r) off
  Change-IsOffExpiry now drawn late s _ (cache_token t' row found fresh live) off = off
  Change-IsOffExpiry now drawn late s _ (put_used stored) off = off
  Change-IsOffExpiry now drawn late s _ (late_entry t' row began e) off = off
  Change-IsOffExpiry now drawn late s _ (revoke_only t' e) off =
      All-update_rows (IsOffExpiry now) (is_unrevoked t') (revoked now) s.tokens (λ row r. r) off
  Change-IsOffExpiry now drawn late s _ (evict t') off = off
  Change-IsOffExpiry now drawn late s _ clean off =
      All-delete_rows (IsOffExpiry now)
        (λ row. is_beyond_grace now row || not (is_none row.revoked_at)) s.tokens off

  step-IsHonest :
      (checks : Checks) (token : Text) (limit clock now : ℕ) (call : Call) (s : AuthState C)
      → clock ≤ now
      → All (IsOffExpiry now) s.tokens
      → IsOver token limit now (late_of call)
      → IsLongRevoked token limit now (late_of call)
      → IsShort cache token clock s
      → IsHonest cache token limit clock s
      → let after = step cache checks s (now, call) in
        (IsShort cache token now after × IsHonest cache token limit now after)
        × All (IsOffExpiry now) after.tokens
  step-IsHonest checks token limit clock now call s le off over long short h =
      Changes-keep cache now (draws call) (late_of call)
        (λ x.
          (IsShort cache token now x × IsHonest cache token limit now x)
          × All (IsOffExpiry now) x.tokens)
        (λ x y change p.
          let ((a, b), c) = p in
          (
            (
              Change-IsShort cache laws token limit now (draws call) (late_of call) x y change over
                  c a,
              Change-IsHonest cache laws token limit now (draws call) (late_of call) x y change over
                  long a c b,
            ),
            Change-IsOffExpiry now (draws call) (late_of call) x y change c,
          ))
        s (step cache checks s (now, call)) (step-Changes cache checks now call s)
        (
          (
            λ at far. short at (omega (arith, le, far)),
            λ at v after. h at v (omega (arith, le, after)),
          ),
          off,
        )

  pub run-IsHonest :
      (checks : Checks) (token : Text) (limit clock : ℕ) (s : AuthState C) (calls : List (ℕ × Call))
      → IsOrdered clock calls
      → IsTimely cache checks s calls
      → AreOver token limit calls
      → AreLongRevoked token limit calls
      → IsShort cache token clock s
      → IsHonest cache token limit clock s
      → IsHonest cache token limit (ends_at clock calls) (run cache checks s calls)
  unfolding run
  run-IsHonest checks token limit clock s [] ordered timely over long short h = h
  run-IsHonest checks token limit clock s ((now, call) ∷ calls) ordered timely over long short h =
      let ((short', h'), off) =
        step-IsHonest checks token limit clock now call s ordered.0 timely.0 over.0 long.0 short
          h in
      run-IsHonest checks token limit now (step cache checks s (now, call)) calls ordered.1 timely.1
        over.1 long.1 short' h'

  hit_answer :
      (token owner : Text) (now : ℕ) (s : AuthState C)
      → cache.get s.cache (token_key token) now ≡ some (token_entry owner)
      → (validate_token cache token now s).0 ≡ ok owner
  unfolding validate_token
  hit_answer token owner now s hit = rw (validate_token, hit) refl

  miss_answer :
      (token wallet : Text) (now : ℕ) (s : AuthState C)
      → cache.get s.cache (token_key token) now ≡ none
      → (validate_token cache token now s).0 ≡ ok wallet
      → IsLive s.tokens token wallet now
  unfolding validate_token
  miss_answer token wallet now s miss e = elim (Option-cases (find_token token s.tokens)) [
    | inl absent ↦
        let refused : (validate_token cache token now s).0 ≡ err invalid_or_expired_token =
          rw (validate_token, miss, absent) refl in
        absurd cc
    | inr (row, there) ↦ elim (Bool-cases (is_expired now row || not (is_none row.revoked_at))) [
      | inl dead ↦
          let refused : (validate_token cache token now s).0 ≡ err invalid_or_expired_token =
            rw (validate_token, miss, there, dead) refl in
          absurd cc
      | inr live ↦
          let answer : (validate_token cache token now s).0 ≡ ok row.wallet_address =
            rw (validate_token, miss, there, live) refl in
          record {
            row = row;
            found = there;
            owned = ok_injective (sym answer ∙ e);
            unexpired = ground (arith, live);
            unrevoked = ground (arith, live);
          }
    ]
  ]

  -- What the guard accepts, on a state whose cache agrees with the table.
  validate_token-IsLive :
      (limit clock now : ℕ) (s : AuthState C) (token wallet : Text)
      → clock ≤ now
      → limit ≤ now
      → IsHonest cache token limit clock s
      → (validate_token cache token now s).0 ≡ ok wallet
      → IsLive s.tokens token wallet now
  unfolding validate_token
  validate_token-IsLive limit clock now s token wallet le from h e =
      elim (Option-cases (cache.get s.cache (token_key token) now)) [
        | inr (entry, hit) ↦
            let (owner, same, live) = h now entry le from hit in
            let hit' = subst (λ v. cache.get s.cache (token_key token) now ≡ some v) same hit in
            let answer = hit_answer token owner now s hit' in
            subst (λ w. IsLive s.tokens token w now) (ok_injective (sym answer ∙ e)) live
        | inl miss ↦ miss_answer token wallet now s miss e
      ]

  -- A token is accepted only if the row found for it is not revoked, does not expire before that time
  -- and is of the wallet that is answered, though the cache may answer without reading the table:
  -- after any calls and second halves of calls, from a cache with no entry for a token, in the order of
  -- their times and none at the very millisecond at which a token in the table expires, if more than
  -- ten seconds before some limit that has passed came every end of a validation of the token that
  -- tested its row before, with time left for the token at its test, and every statement that revoked
  -- its row and left its entry to be evicted later.
  pub accepted_token-IsLive :
      (checks : Checks) (clock limit now : ℕ) (s : AuthState C) (calls : List (ℕ × Call))
      (token wallet : Text)
      → IsEmpty cache s
      → IsOrdered clock calls
      → IsTimely cache checks s calls
      → AreOver token limit calls
      → AreLongRevoked token limit calls
      → ends_at clock calls ≤ now
      → limit ≤ now
      → (validate_token cache token now (run cache checks s calls)).0 ≡ ok wallet
      → IsLive (run cache checks s calls).tokens token wallet now
  accepted_token-IsLive checks clock limit now s calls token wallet empty ordered timely over long
        le from e =
      validate_token-IsLive limit (ends_at clock calls) now (run cache checks s calls) token wallet
        le from
        (run-IsHonest checks token limit clock s calls ordered timely over long
          (λ at far. empty token at)
          (λ at v after far hit. absurd (missing_entry (empty token at) hit)))
        e
