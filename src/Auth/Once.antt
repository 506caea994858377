-- ===== src/Auth/Once.antt =====
-- backend/src/auth/auth.service.ts: a nonce that has signed in is refused from then on.
use mathlib.Core.Path.{subst}
use lendoor_stellar.Common.{
  All, All-append, Option-cases, [], ◌∷◌, arith, ℕ, ◌≡◌, refl, sym, ◌∙◌, true, false, Option, none,
  some, List, Text, Result, ok, err, is_ok, inl, inr, is_none, Bool-cases, find_row, >>=-eq-ok,
  >>-eq-ok, throw_if-eq-ok, ok_injective, true_or_false,
}
use lendoor_stellar.Auth.{
  SiweNonce, is_nonce, used_nonce, CacheManager, AuthState, AuthError, is_live_nonce, mark_used,
  after_check-passed, invalid_or_expired_nonce,
}
use lendoor_stellar.Auth.SignIn.{
  SignIn, Checks, Claimed, claimed, check_siwe, check_siwe_nonce, check_siwe_signature,
  check_stellar, spend_siwe_nonce, issue_siwe_token, wallet_or_throw, verify_siwe_and_issue_token,
  verify_stellar_and_issue_token,
}
use lendoor_stellar.Auth.Overlap.{save_used, finish_stellar, spend_late, finish_siwe}
use lendoor_stellar.Auth.Calls.{Call, run, IsUndrawn}
use lendoor_stellar.Auth.Spent.{
  IsSpentRow, IsSpent, run-IsSpent, issued-IsSpent, IsSpent-unfound, mark_used-IsSpent,
}

-- A sign-in with a nonce, by Stellar or by Ethereum outside Lemon, that ends with a token.
pub data Accepted {C : Type 0} (cache : CacheManager C) (checks : Checks) (nonce : Text) (now : ℕ)
    (s : AuthState C) : AuthState C → Type 0 where
  by_stellar :
      (drawn : Text) (input : SignIn)
      → input.nonce ≡ nonce
      → is_ok (verify_stellar_and_issue_token checks drawn now input s).0 ≡ true
      → Accepted cache checks nonce now s
          (verify_stellar_and_issue_token checks drawn now input s).1
  by_siwe :
      (drawn : Text) (input : SignIn) (claim : Claimed)
      → claimed checks input.message ≡ ok claim
      → claim.nonce ≡ nonce
      → claim.is_lemon ≡ false
      → is_ok (verify_siwe_and_issue_token cache checks drawn now input s).0 ≡ true
      → Accepted cache checks nonce now s
          (verify_siwe_and_issue_token cache checks drawn now input s).1

check_stellar-live :
    {C : Type 0} (checks : Checks) (now : ℕ) (input : SignIn) (s : AuthState C) (wallet : Text)
    → check_stellar checks now input s ≡ ok wallet
    → is_none (find_row (is_live_nonce input.nonce now) s.nonces) ≡ false
unfolding check_stellar
check_stellar-live checks now input s wallet e =
    let (w, normal, e1) = >>=-eq-ok (wallet_or_throw input.wallet) _ e in
    (throw_if-eq-ok (is_none (find_row (is_live_nonce input.nonce now) s.nonces))
      invalid_or_expired_nonce _ e1).0

-- An accepted sign-in found the nonce live and leaves it spent.
by_stellar-IsSpent :
    {C : Type 0} (checks : Checks) (drawn : Text) (now : ℕ) (input : SignIn) (s : AuthState C)
    → is_ok (verify_stellar_and_issue_token checks drawn now input s).0 ≡ true
    → (is_none (find_row (is_live_nonce input.nonce now) s.nonces) ≡ false)
      × IsSpent input.nonce (verify_stellar_and_issue_token checks drawn now input s).1
unfolding verify_stellar_and_issue_token
by_stellar-IsSpent checks drawn now input s h =
    let (wallet, passed) = after_check-passed (check_stellar checks now input s) s _ h in
    (
      check_stellar-live checks now input s wallet passed,
      rw (verify_stellar_and_issue_token, passed)
          (issued-IsSpent drawn wallet input.nonce now
            (record s { nonces = mark_used input.nonce s.nonces })
            (mark_used-IsSpent input.nonce s.nonces)),
    )

pub same_claim : {r : Result AuthError Claimed} {a b : Claimed} → r ≡ ok a → r ≡ ok b → a ≡ b
same_claim e f = ok_injective (sym e ∙ f)

pub check_siwe-live :
    {C : Type 0} (cache : CacheManager C) (checks : Checks) (now : ℕ) (input : SignIn)
    (s : AuthState C) (claim : Claimed)
    → check_siwe cache checks now input s ≡ ok claim
    → (claimed checks input.message ≡ ok claim)
      × (check_siwe_nonce cache now claim s ≡ ok tt)
      × (check_siwe_signature checks now input claim ≡ ok tt)
unfolding check_siwe
check_siwe-live cache checks now input s claim e =
    let (a, parsed, e1) = >>=-eq-ok (claimed checks input.message) _ e in
    let (fresh, e2) = >>-eq-ok (check_siwe_nonce cache now a s) _ e1 in
    let (signed, e3) = >>-eq-ok (check_siwe_signature checks now input a) _ e2 in
    let same : a ≡ claim = ok_injective e3 in
    subst
      (λ c.
        (claimed checks input.message ≡ ok c)
        × (check_siwe_nonce cache now c s ≡ ok tt)
        × (check_siwe_signature checks now input c ≡ ok tt))
      same (parsed, fresh, signed)

nonce_was_live :
    {C : Type 0} (cache : CacheManager C) (now : ℕ) (claim : Claimed) (s : AuthState C)
    → claim.is_lemon ≡ false
    → check_siwe_nonce cache now claim s ≡ ok tt
    → is_none (find_row (is_live_nonce claim.nonce now) s.nonces) ≡ false
unfolding check_siwe_nonce
nonce_was_live cache now claim s other e =
    elim (Bool-cases (is_none (find_row (is_live_nonce claim.nonce now) s.nonces))) [
      | inl gone ↦
          let refused : check_siwe_nonce cache now claim s ≡ err invalid_or_expired_nonce =
            rw (check_siwe_nonce, other, gone) refl in
          absurd (cc)
      | inr live ↦ live
    ]

spend_siwe_nonce-IsSpent :
    {C : Type 0} (cache : CacheManager C) (now : ℕ) (claim : Claimed) (s : AuthState C)
    → IsSpent claim.nonce (spend_siwe_nonce cache now claim s)
unfolding spend_siwe_nonce
spend_siwe_nonce-IsSpent cache now claim s = elim (Bool-cases claim.is_lemon) [
  | inl lemon ↦ rw (spend_siwe_nonce, lemon) (mark_used-IsSpent claim.nonce s.nonces)
  | inr other ↦ rw (spend_siwe_nonce, other) (mark_used-IsSpent claim.nonce s.nonces)
]

issue_siwe_token-IsSpent :
    {C : Type 0} (drawn nonce : Text) (now : ℕ) (address : Option Text) (s : AuthState C)
    → IsSpent nonce s
    → IsSpent nonce (issue_siwe_token drawn now address s).1
issue_siwe_token-IsSpent drawn nonce now none s h = h
issue_siwe_token-IsSpent drawn nonce now (some address) s h =
    issued-IsSpent drawn address nonce now s h

by_siwe-IsSpent :
    {C : Type 0} (cache : CacheManager C) (checks : Checks) (drawn : Text) (now : ℕ)
    (input : SignIn) (s : AuthState C) (claim : Claimed)
    → claimed checks input.message ≡ ok claim
    → claim.is_lemon ≡ false
    → is_ok (verify_siwe_and_issue_token cache checks drawn now input s).0 ≡ true
    → (is_none (find_row (is_live_nonce claim.nonce now) s.nonces) ≡ false)
      × IsSpent claim.nonce (verify_siwe_and_issue_token cache checks drawn now input s).1
unfolding verify_siwe_and_issue_token
by_siwe-IsSpent cache checks drawn now input s claim parsed other h =
    let (c, passed) = after_check-passed (check_siwe cache checks now input s) s _ h in
    let (parsed', fresh, signed) = check_siwe-live cache checks now input s c passed in
    let same : c ≡ claim = same_claim parsed' parsed in
    (
      nonce_was_live cache now claim s other
          (subst (λ x. check_siwe_nonce cache now x s ≡ ok tt) same fresh),
      rw (verify_siwe_and_issue_token, passed, same)
          (issue_siwe_token-IsSpent drawn claim.nonce now claim.address
            (spend_siwe_nonce cache now claim s) (spend_siwe_nonce-IsSpent cache now claim s)),
    )

-- An accepted sign-in found the nonce live.
Accepted-live :
    {C : Type 0} (cache : CacheManager C) (checks : Checks) (nonce : Text) (now : ℕ)
    (s t : AuthState C)
    → Accepted cache checks nonce now s t
    → is_none (find_row (is_live_nonce nonce now) s.nonces) ≡ false
Accepted-live cache checks nonce now s _ (by_stellar drawn input same h) =
    subst (λ n. is_none (find_row (is_live_nonce n now) s.nonces) ≡ false) same
      (by_stellar-IsSpent checks drawn now input s h).0
Accepted-live cache checks nonce now s _ (by_siwe drawn input claim parsed same other h) =
    subst (λ n. is_none (find_row (is_live_nonce n now) s.nonces) ≡ false) same
      (by_siwe-IsSpent cache checks drawn now input s claim parsed other h).0

Accepted-IsSpent :
    {C : Type 0} (cache : CacheManager C) (checks : Checks) (nonce : Text) (now : ℕ)
    (s t : AuthState C)
    → Accepted cache checks nonce now s t
    → IsSpent nonce t
Accepted-IsSpent cache checks nonce now s _ (by_stellar drawn input same h) =
    subst (λ n. IsSpent n (verify_stellar_and_issue_token checks drawn now input s).1) same
      (by_stellar-IsSpent checks drawn now input s h).1
Accepted-IsSpent cache checks nonce now s _ (by_siwe drawn input claim parsed same other h) =
    subst (λ n. IsSpent n (verify_siwe_and_issue_token cache checks drawn now input s).1) same
      (by_siwe-IsSpent cache checks drawn now input s claim parsed other h).1

-- The end of a sign-in with a nonce, by Stellar or by Ethereum outside Lemon: one that is whole and
-- ends with a token, or the second half of one whose tests, before other calls, found the row.
pub data Ended {C : Type 0} (cache : CacheManager C) (checks : Checks) (nonce : Text) (now : ℕ)
    (s : AuthState C) : AuthState C → Type 0 where
  whole : {t : AuthState C} → Accepted cache checks nonce now s t → Ended cache checks nonce now s t
  late_stellar :
      (drawn wallet : Text) (stored : SiweNonce)
      → stored.nonce ≡ nonce
      → Ended cache checks nonce now s (finish_stellar drawn now wallet stored s).1
  late_siwe :
      (drawn : Text) (claim : Claimed) (stored : SiweNonce)
      → stored.nonce ≡ nonce
      → claim.is_lemon ≡ false
      → Ended cache checks nonce now s (finish_siwe cache drawn now claim stored s).1

unfound-IsSpent :
    (nonce : Text) (rows : List SiweNonce)
    → find_row (is_nonce nonce) rows ≡ none
    → All (IsSpentRow nonce) rows
unfound-IsSpent nonce [] e = tt
unfound-IsSpent nonce (row ∷ rows) e = elim (Bool-cases (is_nonce nonce row)) [
  | inl here ↦ absurd (ground arith)
  | inr other ↦ (λ is. absurd (true_or_false is other), unfound-IsSpent nonce rows (ground arith))
]

save_used-IsSpent :
    (stored : SiweNonce) (rows : List SiweNonce)
    → All (IsSpentRow stored.nonce) (save_used stored rows)
save_used-IsSpent stored rows = elim (Option-cases (find_row (is_nonce stored.nonce) rows)) [
  | inl gone ↦ rw gone (
      All-append (IsSpentRow stored.nonce) rows (used_nonce stored ∷ [])
        (unfound-IsSpent stored.nonce rows gone) (λ is. refl, tt))
  | inr (row, there) ↦ rw there (mark_used-IsSpent stored.nonce rows)
]

-- Every end of a sign-in leaves the nonce spent.
Ended-IsSpent :
    {C : Type 0} (cache : CacheManager C) (checks : Checks) (nonce : Text) (now : ℕ)
    (s t : AuthState C)
    → Ended cache checks nonce now s t
    → IsSpent nonce t
unfolding finish_stellar finish_siwe spend_late
Ended-IsSpent cache checks nonce now s t (whole accepted) =
    Accepted-IsSpent cache checks nonce now s t accepted
Ended-IsSpent cache checks nonce now s _ (late_stellar drawn wallet stored same) =
    subst (λ n. IsSpent n (finish_stellar drawn now wallet stored s).1) same
      (issued-IsSpent drawn wallet stored.nonce now
        (record s { nonces = save_used stored s.nonces }) (save_used-IsSpent stored s.nonces))
Ended-IsSpent cache checks nonce now s _ (late_siwe drawn claim stored same other) =
    subst (λ n. IsSpent n (finish_siwe cache drawn now claim stored s).1) same
      (issue_siwe_token-IsSpent drawn stored.nonce now claim.address
        (spend_late cache now claim stored s)
        (rw (spend_late, other) (save_used-IsSpent stored s.nonces)))

-- After the end of a sign-in with a nonce, by Stellar or by Ethereum outside Lemon, whole or the second
-- half of one that overlaps other calls, and after any calls and second halves of calls at any times
-- that do not draw the same text again, no sign-in with that nonce that begins then ends with a token,
-- by either way, for any wallet and any signature.
pub signed_in_nonce_refused :
    {C : Type 0} (cache : CacheManager C) (checks : Checks) (nonce : Text) (now later : ℕ)
    (s t u : AuthState C) (calls : List (ℕ × Call))
    → Ended cache checks nonce now s t
    → IsUndrawn nonce calls
    → ¬ Accepted cache checks nonce later (run cache checks t calls) u
signed_in_nonce_refused cache checks nonce now later s t u calls first undrawn again =
    let spent =
      run-IsSpent cache checks nonce t calls undrawn
        (Ended-IsSpent cache checks nonce now s t first) in
    let gone = IsSpent-unfound nonce later (run cache checks t calls) spent in
    let live = Accepted-live cache checks nonce later (run cache checks t calls) u again in
    true_or_false gone live
