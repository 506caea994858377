-- ===== src/Auth/Spent.antt =====
-- backend/src/auth/auth.service.ts: a nonce that is used stays used, whatever calls come.
use mathlib.Core.Path.{subst}
use lendoor_stellar.Common.{
  ℕ, ◌≡◌, ◌≢◌, refl, sym, ◌∙◌, true, List, [], ◌∷◌, Text, ltb, Result, ok, err, inl, inr, arith,
  is_none, Option-cases, Result-cases, find_row, All, All-append, All-updated, All-update_rows,
  All-delete_rows, All-find_row, find_row-passes, text_eq_iff,
}
use lendoor_stellar.Wallet.{normalize_wallet}
use lendoor_stellar.Auth.{
  SiweNonce, CacheManager, AuthState, AuthError, is_nonce, is_live_nonce, mark_used, used_nonce,
  create_access_token, answer_token, find_token, new_nonce,
}
use lendoor_stellar.Auth.SignIn.{Checks}
use lendoor_stellar.Auth.Sessions.{cleanup_expired_auth}
use lendoor_stellar.Auth.Calls.{Late, late_of, Call, step, run, draws, IsUndrawn}
use lendoor_stellar.Auth.Changes.{
  Change, Changes-keep, step-Changes, add_nonce, spend_nonce, spend_entry, add_token, revoke,
  cache_token, put_used, revoke_only, evict, late_entry, clean,
}

-- Every row of the nonce is used.
abbrev pub IsSpentRow : Text → SiweNonce → Type 0
IsSpentRow nonce row = is_nonce nonce row ≡ true → row.used ≡ true

abbrev pub IsSpent : {C : Type 0} → Text → AuthState C → Type 0
IsSpent nonce s = All (IsSpentRow nonce) s.nonces

pub mark_used-IsSpent :
    (nonce : Text) (rows : List SiweNonce) → All (IsSpentRow nonce) (mark_used nonce rows)
mark_used-IsSpent nonce rows =
    All-updated (IsSpentRow nonce) (is_nonce nonce) used_nonce rows (λ row is same. refl)
      (λ row isnt same. cc)

new_nonce-IsSpentRow :
    (nonce drawn : Text) (now : ℕ) → drawn ≢ nonce → IsSpentRow nonce (new_nonce drawn now)
new_nonce-IsSpentRow nonce drawn now other is = absurd (other ((text_eq_iff drawn nonce).0 is))

Change-IsSpent :
    {C : Type 0} (cache : CacheManager C) (now : ℕ) (drawn nonce : Text) (late : Late)
    → drawn ≢ nonce
    → (s t : AuthState C) → Change cache now drawn late s t
    → IsSpent nonce s
    → IsSpent nonce t
unfolding cleanup_expired_auth
Change-IsSpent cache now drawn nonce late other s _ add_nonce h =
    All-append (IsSpentRow nonce) s.nonces (new_nonce drawn now ∷ []) h
      (new_nonce-IsSpentRow nonce drawn now other, tt)
Change-IsSpent cache now drawn nonce late other s _ (spend_nonce spent) h =
    All-update_rows (IsSpentRow nonce) (is_nonce spent) used_nonce s.nonces (λ row r is. refl) h
Change-IsSpent cache now drawn nonce late other s _ (spend_entry n a) h = h
Change-IsSpent cache now drawn nonce late other s _ (add_token w new) h = h
Change-IsSpent cache now drawn nonce late other s _ (revoke token) h = h
Change-IsSpent cache now drawn nonce late other s _ (cache_token token row e x r) h = h
Change-IsSpent cache now drawn nonce late other s _ (put_used stored) h =
    All-append (IsSpentRow nonce) s.nonces (used_nonce stored ∷ []) h (λ is. refl, tt)
Change-IsSpent cache now drawn nonce late other s _ (late_entry token row began e) h = h
Change-IsSpent cache now drawn nonce late other s _ (revoke_only token e) h = h
Change-IsSpent cache now drawn nonce late other s _ (evict token) h = h
Change-IsSpent cache now drawn nonce late other s _ clean h =
    All-delete_rows (IsSpentRow nonce) (λ row. ltb row.expires_at now) s.nonces h

pub run-IsSpent :
    {C : Type 0} (cache : CacheManager C) (checks : Checks) (nonce : Text) (s : AuthState C)
    (calls : List (ℕ × Call))
    → IsUndrawn nonce calls
    → IsSpent nonce s
    → IsSpent nonce (run cache checks s calls)
unfolding run
run-IsSpent cache checks nonce s [] u h = h
run-IsSpent cache checks nonce s ((now, call) ∷ calls) u h =
    run-IsSpent cache checks nonce (step cache checks s (now, call)) calls u.1 (
      Changes-keep cache now (draws call) (late_of call) (IsSpent nonce)
        (Change-IsSpent cache now (draws call) nonce (late_of call) u.0) s
        (step cache checks s (now, call)) (step-Changes cache checks now call s) h)

create_access_token-nonces :
    {C : Type 0} (drawn wallet : Text) (now : ℕ) (s : AuthState C)
    → (create_access_token drawn wallet now s).1.nonces ≡ s.nonces
unfolding create_access_token
create_access_token-nonces drawn wallet now s = elim (Result-cases (normalize_wallet wallet)) [
  | inr (e, bad) ↦ rw (create_access_token, bad) refl
  | inl (w, good) ↦ elim (Option-cases (find_token drawn s.tokens)) [
    | inr (row, there) ↦ rw (create_access_token, good, there) refl
    | inl new ↦ rw (create_access_token, good, new) refl
  ]
]

answer_token-nonces :
    {C : Type 0} (wallet : Text) (r : Result AuthError Text × AuthState C)
    → (answer_token wallet r).1.nonces ≡ r.1.nonces
answer_token-nonces wallet (err e, s) = refl
answer_token-nonces wallet (ok t, s) = refl

-- A call that ends with a new token leaves the nonces as they were before that.
pub issued-IsSpent :
    {C : Type 0} (drawn wallet nonce : Text) (now : ℕ) (s : AuthState C)
    → IsSpent nonce s
    → IsSpent nonce (answer_token wallet (create_access_token drawn wallet now s)).1
issued-IsSpent drawn wallet nonce now s h =
    subst (All (IsSpentRow nonce))
      (sym (
        answer_token-nonces wallet (create_access_token drawn wallet now s)
        ∙ create_access_token-nonces drawn wallet now s))
      h

-- The tests before a sign-in: a nonce that is spent does not pass them.
pub IsSpent-unfound :
    {C : Type 0} (nonce : Text) (now : ℕ) (s : AuthState C)
    → IsSpent nonce s
    → is_none (find_row (is_live_nonce nonce now) s.nonces) ≡ true
IsSpent-unfound nonce now s h = elim (Option-cases (find_row (is_live_nonce nonce now) s.nonces)) [
  | inl e ↦ rw e refl
  | inr (row, e) ↦
      let live = find_row-passes (is_live_nonce nonce now) s.nonces e in
      let spent = All-find_row (IsSpentRow nonce) (is_live_nonce nonce now) s.nonces h e in
      ground (arith, live, spent)
]
