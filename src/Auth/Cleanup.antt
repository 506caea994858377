-- ===== src/Auth/Cleanup.antt =====
-- backend/src/auth/auth.service.ts: what the hourly cleanup leaves.
use mathlib.Core.Path.{subst}
use lendoor_stellar.Common.{
  ℕ, ◌≤◌, ◌≡◌, refl, sym, ◌∙◌, true, false, not, ◌||◌, Option, none, some, Text, ltb, ok, err, inl,
  inr, arith, is_none, Option-cases, Bool-cases, find_row, find_row-passes, find_row-delete_rows,
  ok_injective,
}
use lendoor_stellar.Auth.{
  SiweNonce, AccessToken, AuthState, is_token, is_live_nonce, find_token, invalid_token,
  token_revoked, beyond_refresh_window,
}
use lendoor_stellar.Auth.Sessions.{
  cleanup_expired_auth, check_refresh, is_beyond_grace, is_past_grace,
}

grace_later :
    (now later : ℕ) (expires : Option ℕ)
    → now ≤ later
    → is_past_grace later expires ≡ false
    → is_past_grace now expires ≡ false
grace_later now later none le h = refl
grace_later now later (some expires) le h = ground arith

still_live :
    (now later : ℕ) (nonce : Text) (row : SiweNonce)
    → now ≤ later
    → is_live_nonce nonce later row ≡ true
    → ltb row.expires_at now ≡ false
still_live now later nonce row le h =
    let alive : ltb later row.expires_at ≡ true = ground (arith, h) in ground (arith, alive)

module _ {C : Type 0} where
  kept :
      (now later : ℕ) (token : Text) (row : AccessToken) (s : AuthState C)
      → now ≤ later
      → find_token token s.tokens ≡ some row
      → is_beyond_grace later row ≡ false
      → is_none row.revoked_at ≡ true
      → find_token token (cleanup_expired_auth now s).tokens ≡ some row
  unfolding cleanup_expired_auth
  kept now later token row s le found fresh valid =
      find_row-delete_rows (is_token token)
        (λ row. is_beyond_grace now row || not (is_none row.revoked_at)) s.tokens found
        (rw (grace_later now later row.expires_at le fresh, valid) refl)

  -- What a refresh that passes its tests has read.
  check_refresh-passed :
      (token : Text) (now : ℕ) (s : AuthState C) (row : AccessToken)
      → check_refresh token now s ≡ ok row
      → (find_token token s.tokens ≡ some row)
        × (is_beyond_grace now row ≡ false)
        × (is_none row.revoked_at ≡ true)
  unfolding check_refresh
  check_refresh-passed token now s row e = elim (Option-cases (find_token token s.tokens)) [
    | inl absent ↦
        let refused : check_refresh token now s ≡ err invalid_token =
          rw (check_refresh, absent) refl in
        absurd cc
    | inr (found, there) ↦ elim (Bool-cases (is_none found.revoked_at)) [
      | inr dead ↦
          let refused : check_refresh token now s ≡ err token_revoked =
            rw (check_refresh, there, dead) refl in
          absurd cc
      | inl valid ↦ elim (Bool-cases (is_beyond_grace now found)) [
        | inl late ↦
            let refused : check_refresh token now s ≡ err beyond_refresh_window =
              rw (check_refresh, there, valid, late) refl in
            absurd cc
        | inr fresh ↦
            let passed : check_refresh token now s ≡ ok found =
              rw (check_refresh, there, valid, fresh) refl in
            let same : found ≡ row = ok_injective (sym passed ∙ e) in
            subst
              (λ r.
                (find_token token s.tokens ≡ some r)
                × (is_beyond_grace now r ≡ false)
                × (is_none r.revoked_at ≡ true))
              same (there, fresh, valid)
      ]
    ]
  ]

  -- The cleanup takes nothing that is still of use: at its time and later, a token whose row passes the
  -- tests of a refresh, as one that is not expired and not revoked does, passes them on the same row
  -- after it, the row that is found for it is the same, and a nonce that is live is found after it.
  pub cleanup-keeps :
      (now later : ℕ) (token nonce : Text) (row : AccessToken) (stored : SiweNonce)
      (s : AuthState C)
      → now ≤ later
      → check_refresh token later s ≡ ok row
      → find_row (is_live_nonce nonce later) s.nonces ≡ some stored
      → let after = cleanup_expired_auth now s in
        (check_refresh token later after ≡ ok row)
        × (find_token token after.tokens ≡ find_token token s.tokens)
        × (find_row (is_live_nonce nonce later) after.nonces ≡ some stored)
  unfolding cleanup_expired_auth check_refresh
  cleanup-keeps now later token nonce row stored s le passed live =
      let (found, fresh, valid) = check_refresh-passed token later s row passed in
      let there = kept now later token row s le found fresh valid in
      (
        rw (check_refresh, there, valid, fresh) refl,
        there ∙ sym found,
        find_row-delete_rows (is_live_nonce nonce later) (λ row. ltb row.expires_at now) s.nonces
            live
            (still_live now later nonce stored le
              (find_row-passes (is_live_nonce nonce later) s.nonces live)),
      )
