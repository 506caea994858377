-- ===== src/Auth/Revoked.antt =====
-- backend/src/auth/auth.service.ts: a refreshed token is of no more use.
use mathlib.Core.Path.{subst}
use lendoor_stellar.Common.{
  ℕ, ◌≤◌, ◌≡◌, ◌≢◌, refl, ◌∙◌, true, false, none, List, [], ◌∷◌, Text, text_eq, Result, ok, is_ok,
  inl, inr, arith, Option-cases, Bool-cases, find_row, All-find_row, find_row-passes, text_eq_iff,
  eq_of_text_eq, true_or_false,
}
use lendoor_stellar.Auth.{
  AccessToken, CacheManager, IsCache, AuthState, AuthError, is_token, create_access_token,
  after_check-passed, find_token, token_key, token_entry, used_entry,
}
use lendoor_stellar.Auth.SignIn.{Checks, replay_key}
use lendoor_stellar.Auth.Sessions.{
  cleanup_expired_auth, is_unrevoked, revoke_token, check_refresh, finish_refresh, refresh_token,
  validate_token, cache_ttl,
}
use lendoor_stellar.Auth.RevokedRows.{
  IsRevokedRow, AreRevoked, revoke_row-AreRevoked, Change-AreRevoked, run-AreRevoked,
}
use lendoor_stellar.Auth.Overlap.{revoke_row, evict_and_issue, finish_validation-gone}
use lendoor_stellar.Auth.Calls.{
  nothing_late, Late, late_of, IsOver, AreOver, Call, step, run, draws, IsUndrawn,
}
use lendoor_stellar.Auth.Changes.{
  Change, Changes-keep, step-Changes, after_answer, after_create, add_nonce, spend_nonce,
  spend_entry, add_token, revoke, cache_token, put_used, revoke_only, evict, late_entry, clean,
  unchanged,
}

-- Every row of the token is revoked, and from the limit on the cache has no entry for it.
abbrev pub IsRevoked : {C : Type 0} → CacheManager C → Text → ℕ → AuthState C → Type 0
IsRevoked cache token limit s =
    AreRevoked token s
    × ((later : ℕ) → limit ≤ later → cache.get s.cache (token_key token) later ≡ none)

ok_or_refused :
    {r : Result AuthError AccessToken} {row : AccessToken} → r ≡ ok row → is_ok r ≡ false → ⊥
ok_or_refused e f = cc

-- A refresh of a token: a whole one that ends well, or one whose statement that revokes the row and
-- whose eviction and new token come apart, with other calls between.
pub data Refreshed {C : Type 0} (cache : CacheManager C) (checks : Checks) (token : Text)
    (s : AuthState C) : AuthState C → Type 0 where
  whole :
      (drawn : Text) (now : ℕ)
      → drawn ≢ token
      → is_ok (refresh_token cache drawn token now s).0 ≡ true
      → Refreshed cache checks token s (refresh_token cache drawn token now s).1
  in_parts :
      (drawn : Text) (row : AccessToken) (revoked_at now : ℕ) (between : List (ℕ × Call))
      → drawn ≢ token
      → IsUndrawn token between
      → Refreshed cache checks token s
          (evict_and_issue cache drawn token row now
            (run cache checks (revoke_row token revoked_at s) between)).1

module _ {C : Type 0} (cache : CacheManager C) (laws : IsCache cache) where
  -- The entry of a key that is evicted is gone, and the others were gone.
  evicted :
      (c : C) (key evicted_key : Text) (later : ℕ)
      → cache.get c key later ≡ none
      → cache.get (cache.del c evicted_key) key later ≡ none
  evicted c key evicted_key later h = elim (Bool-cases (text_eq evicted_key key)) [
    | inl same ↦ rw ((text_eq_iff evicted_key key).0 same) (laws.get_deleted c key later)
    | inr other ↦ laws.get_other_deleted c evicted_key key later other ∙ h
  ]

  revoke_token-IsRevoked :
      (token : Text) (limit now : ℕ) (s : AuthState C)
      → IsRevoked cache token limit (revoke_token cache token now s)
  revoke_token-IsRevoked token limit now s = (
    revoke_row-AreRevoked token now s,
    λ later le. laws.get_deleted s.cache (token_key token) later,
  )

  Change-IsRevoked :
      (limit now : ℕ) (drawn token : Text) (late : Late)
      → drawn ≢ token
      → IsOver token limit now late
      → (s t : AuthState C) → Change cache now drawn late s t
      → IsRevoked cache token limit s
      → IsRevoked cache token limit t
  unfolding cleanup_expired_auth
  Change-IsRevoked limit now drawn token late other over s _ add_nonce h = h
  Change-IsRevoked limit now drawn token late other over s _ (spend_nonce spent) h = h
  Change-IsRevoked limit now drawn token late other over s _ (spend_entry n a) h = (
    h.0,
    λ later le.
        laws.get_other s.cache (replay_key n a) (token_key token) used_entry 600000 now later refl
        ∙ h.1 later le,
  )
  Change-IsRevoked limit now drawn token late other over s _ (add_token w new) h =
      (Change-AreRevoked cache token now drawn late other s _ (add_token w new) h.0, h.1)
  Change-IsRevoked limit now drawn token late other over s _ (revoke t') h = (
    Change-AreRevoked cache token now drawn late other s _ (revoke t') h.0,
    λ later le. evicted s.cache (token_key token) (token_key t') later (h.1 later le),
  )
  Change-IsRevoked limit now drawn token late other over s _ (cache_token t' row found fresh live)
        h =
      elim (Bool-cases (text_eq t' token)) [
        | inl same ↦
            let dead = All-find_row (IsRevokedRow token) (is_token t') s.tokens h.0 found in
            let is = find_row-passes (is_token t') s.tokens found in
            let e = eq_of_text_eq t' token same in
            absurd (true_or_false live (dead (subst (λ x. is_token x row ≡ true) e is)))
        | inr differ ↦ (
          h.0,
          λ later le.
              laws.get_other s.cache (token_key t') (token_key token)
                (token_entry row.wallet_address) (cache_ttl now row) now later differ
              ∙ h.1 later le,
        )
      ]
  Change-IsRevoked limit now drawn token late other over s _ (put_used stored) h = h
  Change-IsRevoked limit now drawn token late other over s _ (late_entry t' row began e) h = (
    h.0,
    λ later le. elim (Bool-cases (text_eq t' token)) [
      | inl same ↦
          let is = eq_of_text_eq t' token same in
          let (positive, before) = subst (IsOver token limit now) e over is in
          rw⁻¹ is (
            finish_validation-gone cache laws t' row began now later s positive
              (omega (arith, before, le)))
      | inr differ ↦
          laws.get_other s.cache (token_key t') (token_key token) (token_entry row.wallet_address)
            (cache_ttl began row) now later differ
          ∙ h.1 later le
    ],
  )
  Change-IsRevoked limit now drawn token late other over s _ (revoke_only t' e) h =
      (Change-AreRevoked cache token now drawn late other s _ (revoke_only t' e) h.0, h.1)
  Change-IsRevoked limit now drawn token late other over s _ (evict t') h =
      (h.0, λ later le. evicted s.cache (token_key token) (token_key t') later (h.1 later le))
  Change-IsRevoked limit now drawn token late other over s _ clean h =
      (Change-AreRevoked cache token now drawn late other s _ clean h.0, h.1)

  run-IsRevoked :
      (checks : Checks) (token : Text) (limit : ℕ) (s : AuthState C) (calls : List (ℕ × Call))
      → IsUndrawn token calls
      → AreOver token limit calls
      → IsRevoked cache token limit s
      → IsRevoked cache token limit (run cache checks s calls)
  unfolding run
  run-IsRevoked checks token limit s [] u o h = h
  run-IsRevoked checks token limit s ((now, call) ∷ calls) u o h =
      run-IsRevoked checks token limit (step cache checks s (now, call)) calls u.1 o.1 (
        Changes-keep cache now (draws call) (late_of call) (IsRevoked cache token limit)
          (Change-IsRevoked limit now (draws call) token (late_of call) u.0 o.0) s
          (step cache checks s (now, call)) (step-Changes cache checks now call s) h)

  refused_late :
      (drawn token : Text) (row : AccessToken) (now : ℕ) (s : AuthState C)
      → find_row (is_unrevoked token) s.tokens ≡ none
      → is_ok (finish_refresh cache drawn token row now s).0 ≡ false
  unfolding finish_refresh
  refused_late drawn token row now s late = rw (finish_refresh, late) refl

  -- The second half of a refresh that ends well leaves the token revoked.
  finish_refresh-IsRevoked :
      (drawn token : Text) (row : AccessToken) (limit now : ℕ) (s : AuthState C)
      → drawn ≢ token
      → is_ok (finish_refresh cache drawn token row now s).0 ≡ true
      → IsRevoked cache token limit (finish_refresh cache drawn token row now s).1
  unfolding finish_refresh
  finish_refresh-IsRevoked drawn token row limit now s other h =
      elim (Option-cases (find_row (is_unrevoked token) s.tokens)) [
        | inl late ↦ absurd (true_or_false h (refused_late drawn token row now s late))
        | inr (found, there) ↦
            rw (finish_refresh, there)
              (Changes-keep cache now drawn nothing_late (IsRevoked cache token limit)
                (Change-IsRevoked limit now drawn token nothing_late other tt)
                (revoke_token cache token now s) _
                (after_answer cache now drawn nothing_late (revoke_token cache token now s)
                  row.wallet_address
                  (create_access_token drawn row.wallet_address now
                    (revoke_token cache token now s))
                  (after_create cache now drawn nothing_late (revoke_token cache token now s)
                    (revoke_token cache token now s) row.wallet_address unchanged))
                (revoke_token-IsRevoked token limit now s))
      ]

  -- What a revoked token is told.
  finish_refresh-refuses :
      (drawn token : Text) (row : AccessToken) (limit now : ℕ) (s : AuthState C)
      → IsRevoked cache token limit s
      → is_ok (finish_refresh cache drawn token row now s).0 ≡ false
  unfolding finish_refresh
  finish_refresh-refuses drawn token row limit now s h =
      elim (Option-cases (find_row (is_unrevoked token) s.tokens)) [
        | inl late ↦ rw (finish_refresh, late) refl
        | inr (found, there) ↦
            let dead = All-find_row (IsRevokedRow token) (is_unrevoked token) s.tokens h.0 there in
            let live = find_row-passes (is_unrevoked token) s.tokens there in
            ground (arith, dead, live)
      ]

  check_refresh-refuses :
      (token : Text) (limit now : ℕ) (s : AuthState C)
      → IsRevoked cache token limit s
      → is_ok (check_refresh token now s) ≡ false
  unfolding check_refresh
  check_refresh-refuses token limit now s h = elim (Option-cases (find_token token s.tokens)) [
    | inl absent ↦ rw (check_refresh, absent) refl
    | inr (row, there) ↦
        let dead = All-find_row (IsRevokedRow token) (is_token token) s.tokens h.0 there in
        let is = find_row-passes (is_token token) s.tokens there in
        rw (check_refresh, there, dead is) refl
  ]

  validate_token-refuses :
      (token : Text) (limit now : ℕ) (s : AuthState C)
      → limit ≤ now
      → IsRevoked cache token limit s
      → is_ok (validate_token cache token now s).0 ≡ false
  unfolding validate_token
  validate_token-refuses token limit now s le h = elim (Option-cases (find_token token s.tokens)) [
    | inl absent ↦ rw (validate_token, h.1 now le, absent) refl
    | inr (row, there) ↦
        let dead = All-find_row (IsRevokedRow token) (is_token token) s.tokens h.0 there in
        let is = find_row-passes (is_token token) s.tokens there in
        rw (validate_token, h.1 now le, there) (ground (arith, dead is))
  ]

  after_passed :
      (drawn token : Text) (row : AccessToken) (now : ℕ) (s : AuthState C)
      → check_refresh token now s ≡ ok row
      → refresh_token cache drawn token now s ≡ finish_refresh cache drawn token row now s
  unfolding refresh_token
  after_passed drawn token row now s passed = rw (refresh_token, passed) refl

  refresh_token-IsRevoked :
      (drawn token : Text) (limit now : ℕ) (s : AuthState C)
      → drawn ≢ token
      → is_ok (refresh_token cache drawn token now s).0 ≡ true
      → IsRevoked cache token limit (refresh_token cache drawn token now s).1
  unfolding refresh_token
  refresh_token-IsRevoked drawn token limit now s other h =
      let (row, passed) = after_check-passed (check_refresh token now s) s _ h in
      let ended : is_ok (finish_refresh cache drawn token row now s).0 ≡ true =
        rw⁻¹ (after_passed drawn token row now s passed) h in
      rw (after_passed drawn token row now s passed)
        (finish_refresh-IsRevoked drawn token row limit now s other ended)

  refresh_token-refuses :
      (drawn token : Text) (limit now : ℕ) (s : AuthState C)
      → IsRevoked cache token limit s
      → is_ok (refresh_token cache drawn token now s).0 ≡ false
  unfolding refresh_token
  refresh_token-refuses drawn token limit now s h =
      elim (Bool-cases (is_ok (refresh_token cache drawn token now s).0)) [
        | inr refused ↦ refused
        | inl accepted ↦
            let (row, passed) = after_check-passed (check_refresh token now s) s _ accepted in
            absurd (ok_or_refused passed (check_refresh-refuses token limit now s h))
      ]

  evict_and_issue-IsRevoked :
      (drawn token : Text) (row : AccessToken) (limit now : ℕ) (s : AuthState C)
      → drawn ≢ token
      → AreRevoked token s
      → IsRevoked cache token limit (evict_and_issue cache drawn token row now s).1
  unfolding evict_and_issue
  evict_and_issue-IsRevoked drawn token row limit now s other h =
      let gone : AuthState C = record s { cache = cache.del s.cache (token_key token) } in
      Changes-keep cache now drawn nothing_late (IsRevoked cache token limit)
        (Change-IsRevoked limit now drawn token nothing_late other tt) gone _
        (after_answer cache now drawn nothing_late gone row.wallet_address
          (create_access_token drawn row.wallet_address now gone)
          (after_create cache now drawn nothing_late gone gone row.wallet_address unchanged))
        (h, λ later le. laws.get_deleted s.cache (token_key token) later)

  Refreshed-IsRevoked :
      (checks : Checks) (token : Text) (limit : ℕ) (s t : AuthState C)
      → Refreshed cache checks token s t
      → IsRevoked cache token limit t
  Refreshed-IsRevoked checks token limit s _ (whole drawn now other h) =
      refresh_token-IsRevoked drawn token limit now s other h
  Refreshed-IsRevoked checks token limit s _ (in_parts drawn row at now between other undrawn) =
      evict_and_issue-IsRevoked drawn token row limit now
        (run cache checks (revoke_row token at s) between) other
        (run-AreRevoked cache token checks (revoke_row token at s) between undrawn
          (revoke_row-AreRevoked token at s))

  -- After a refresh of a token that ended well, whole or in parts with other calls between, and after
  -- any calls and second halves of calls at any times that do not draw its text again, the token is
  -- refreshed no more, and the second half of no refresh that began before, whatever row it read, ends
  -- well; nor does a validation accept it, from the time on at which every validation of it that
  -- tested its row before and ended among those calls, with time left for the token at its test,
  -- ended more than ten seconds ago.
  pub token_refreshes_once :
      (checks : Checks) (again token : Text) (row : AccessToken) (limit later : ℕ)
      (s t : AuthState C) (calls : List (ℕ × Call))
      → Refreshed cache checks token s t
      → IsUndrawn token calls
      → AreOver token limit calls
      → limit ≤ later
      → let after = run cache checks t calls in
        (is_ok (refresh_token cache again token later after).0 ≡ false)
        × (is_ok (finish_refresh cache again token row later after).0 ≡ false)
        × (is_ok (validate_token cache token later after).0 ≡ false)
  token_refreshes_once checks again token row limit later s t calls first undrawn over le =
      let after = run cache checks t calls in
      let dead : IsRevoked cache token limit after =
        run-IsRevoked checks token limit t calls undrawn over
          (Refreshed-IsRevoked checks token limit s t first) in
      (
        refresh_token-refuses again token limit later after dead,
        finish_refresh-refuses again token row limit later after dead,
        validate_token-refuses token limit later after le dead,
      )
