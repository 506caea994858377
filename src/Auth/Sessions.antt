-- ===== src/Auth/Sessions.antt =====
-- backend/src/auth/auth.service.ts: the tokens, refreshed and validated, and the hourly cleanup.
use lendoor_stellar.Common.{
  ℕ, ◌+◌, ◌-◌, Bool, false, not, ◌&&◌, ◌||◌, Option, none, some, [], Text, ltb, min, if◌then◌else◌,
  Result, ok, err, is_none, find_row, update_rows, delete_rows,
}
use lendoor_stellar.Auth.{
  AccessToken, CacheManager, AuthState, AuthError, SignedIn, token_entry, used_entry, token_key,
  is_token, find_token, create_access_token, answer_token, after_check, invalid_token,
  token_revoked, beyond_refresh_window, already_revoked, invalid_or_expired_token,
}

abbrev pub revoked : ℕ → AccessToken → AccessToken
revoked now row = record row { revoked_at = some now }

-- expiresAt + 15 min < now, for a token that expires
abbrev pub is_past_grace : ℕ → Option ℕ → Bool
is_past_grace now none = false
is_past_grace now (some expires) = ltb (expires + 900000) now

abbrev pub is_beyond_grace : ℕ → AccessToken → Bool
is_beyond_grace now row = is_past_grace now row.expires_at

abbrev pub is_past : ℕ → Option ℕ → Bool
is_past now none = false
is_past now (some expires) = ltb expires now

abbrev pub is_expired : ℕ → AccessToken → Bool
is_expired now row = is_past now row.expires_at

-- The time to live of an entry: what the token has left, and 10 s at most.
abbrev pub ttl_until : ℕ → Option ℕ → ℕ
ttl_until now none = 10000
ttl_until now (some expires) = min (expires - now) 10000

abbrev pub cache_ttl : ℕ → AccessToken → ℕ
cache_ttl now row = ttl_until now row.expires_at

abbrev pub is_unrevoked : Text → AccessToken → Bool
is_unrevoked current row = is_token current row && is_none row.revoked_at

module _ {C : Type 0} where
  -- What a refresh reads and tests before it writes.
  unfoldable pub check_refresh : Text → ℕ → AuthState C → Result AuthError AccessToken
  check_refresh current now s = elim (find_token current s.tokens) [
    | none ↦ err invalid_token
    | some row ↦
        if not (is_none row.revoked_at)
        then err token_revoked
        else if is_beyond_grace now row
        then err beyond_refresh_window
        else ok row
  ]

  -- The token revoked, and its entry evicted.
  abbrev pub revoke_token : CacheManager C → Text → ℕ → AuthState C → AuthState C
  revoke_token cache current now s = record s {
    tokens = update_rows (is_unrevoked current) (revoked now) s.tokens;
    cache = cache.del s.cache (token_key current);
  }

  -- What follows, on a state that other calls may have changed: the statement that revokes the
  -- token only if no other call has, and the new token.
  unfoldable pub finish_refresh :
      CacheManager C
      → Text
      → Text
      → AccessToken
      → ℕ
      → AuthState C
      → Result AuthError SignedIn × AuthState C
  unfolding create_access_token
  finish_refresh cache drawn current row now s = elim (find_row (is_unrevoked current) s.tokens) [
    | none ↦ (err already_revoked, s)
    | some _ ↦
        answer_token row.wallet_address
          (create_access_token drawn row.wallet_address now (revoke_token cache current now s))
  ]

  unfoldable pub refresh_token :
      CacheManager C → Text → Text → ℕ → AuthState C → Result AuthError SignedIn × AuthState C
  unfolding check_refresh finish_refresh
  refresh_token cache drawn current now s =
      after_check (check_refresh current now s) s
        (λ row. finish_refresh cache drawn current row now s)

  -- An entry that is found answers without the table; `true` has no wallet.
  unfoldable pub validate_token :
      CacheManager C → Text → ℕ → AuthState C → Result AuthError Text × AuthState C
  validate_token cache token now s = elim (cache.get s.cache (token_key token) now) [
    | some (token_entry wallet) ↦ (ok wallet, s)
    | some used_entry ↦ (ok [], s)
    | none ↦ elim (find_token token s.tokens) [
      | none ↦ (err invalid_or_expired_token, s)
      | some row ↦
          if is_expired now row || not (is_none row.revoked_at)
          then (err invalid_or_expired_token, s)
          else (
            ok row.wallet_address,
            record s {
              cache =
                  cache.set s.cache (token_key token) (token_entry row.wallet_address)
                    (cache_ttl now row) now;
            },
          )
    ]
  ]

  unfoldable pub cleanup_expired_auth : ℕ → AuthState C → AuthState C
  cleanup_expired_auth now s = record s {
    nonces = delete_rows (λ row. ltb row.expires_at now) s.nonces;
    tokens = delete_rows (λ row. is_beyond_grace now row || not (is_none row.revoked_at)) s.tokens;
  }
