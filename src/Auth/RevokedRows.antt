-- ===== src/Auth/RevokedRows.antt =====
-- backend/src/auth/auth.service.ts: the rows of a token that is revoked stay so.
use lendoor_stellar.Common.{
  ℕ, ◌≡◌, ◌≢◌, refl, true, false, not, ◌||◌, List, [], ◌∷◌, Text, arith, is_none, All, All-append,
  All-updated, All-update_rows, All-delete_rows, text_eq_iff,
}
use lendoor_stellar.Auth.{AccessToken, CacheManager, AuthState, is_token, new_token}
use lendoor_stellar.Auth.SignIn.{Checks}
use lendoor_stellar.Auth.Sessions.{is_unrevoked, revoked, is_beyond_grace, cleanup_expired_auth}
use lendoor_stellar.Auth.Overlap.{revoke_row}
use lendoor_stellar.Auth.Calls.{Call, Late, late_of, step, run, draws, IsUndrawn}
use lendoor_stellar.Auth.Changes.{
  Change, Changes-keep, step-Changes, add_nonce, spend_nonce, spend_entry, add_token, revoke,
  cache_token, put_used, revoke_only, evict, late_entry, clean,
}

abbrev pub IsRevokedRow : Text → AccessToken → Type 0
IsRevokedRow token row = is_token token row ≡ true → is_none row.revoked_at ≡ false

abbrev pub AreRevoked : {C : Type 0} → Text → AuthState C → Type 0
AreRevoked token s = All (IsRevokedRow token) s.tokens

new_token-IsRevokedRow :
    (token drawn wallet : Text) (now : ℕ)
    → drawn ≢ token
    → IsRevokedRow token (new_token drawn wallet now)
new_token-IsRevokedRow token drawn wallet now other is =
    absurd (other ((text_eq_iff drawn token).0 is))

pub revoke_row-AreRevoked :
    {C : Type 0} (token : Text) (now : ℕ) (s : AuthState C)
    → AreRevoked token (revoke_row token now s)
revoke_row-AreRevoked token now s =
    All-updated (IsRevokedRow token) (is_unrevoked token) (revoked now) s.tokens
      (λ row is same. refl) (λ row isnt same. ground (arith, isnt, same))

module _ {C : Type 0} (cache : CacheManager C) (token : Text) where
  pub Change-AreRevoked :
      (now : ℕ) (drawn : Text) (late : Late)
      → drawn ≢ token
      → (s t : AuthState C) → Change cache now drawn late s t
      → AreRevoked token s
      → AreRevoked token t
  unfolding cleanup_expired_auth
  Change-AreRevoked now drawn late other s _ add_nonce h = h
  Change-AreRevoked now drawn late other s _ (spend_nonce spent) h = h
  Change-AreRevoked now drawn late other s _ (spend_entry n a) h = h
  Change-AreRevoked now drawn late other s _ (add_token w new) h =
      All-append (IsRevokedRow token) s.tokens (new_token drawn w now ∷ []) h
        (new_token-IsRevokedRow token drawn w now other, tt)
  Change-AreRevoked now drawn late other s _ (revoke t') h =
      All-update_rows (IsRevokedRow token) (is_unrevoked t') (revoked now) s.tokens
        (λ row r is. refl) h
  Change-AreRevoked now drawn late other s _ (cache_token t' row found fresh live) h = h
  Change-AreRevoked now drawn late other s _ (put_used stored) h = h
  Change-AreRevoked now drawn late other s _ (late_entry t' row began e) h = h
  Change-AreRevoked now drawn late other s _ (revoke_only t' e) h =
      All-update_rows (IsRevokedRow token) (is_unrevoked t') (revoked now) s.tokens
        (λ row r is. refl) h
  Change-AreRevoked now drawn late other s _ (evict t') h = h
  Change-AreRevoked now drawn late other s _ clean h =
      All-delete_rows (IsRevokedRow token)
        (λ row. is_beyond_grace now row || not (is_none row.revoked_at)) s.tokens h

  pub run-AreRevoked :
      (checks : Checks) (s : AuthState C) (calls : List (ℕ × Call))
      → IsUndrawn token calls
      → AreRevoked token s
      → AreRevoked token (run cache checks s calls)
  unfolding run
  run-AreRevoked checks s [] u h = h
  run-AreRevoked checks s ((now, call) ∷ calls) u h =
      run-AreRevoked checks (step cache checks s (now, call)) calls u.1 (
        Changes-keep cache now (draws call) (late_of call) (AreRevoked token)
          (Change-AreRevoked now (draws call) (late_of call) u.0) s
          (step cache checks s (now, call)) (step-Changes cache checks now call s) h)
