-- ===== src/Auth/Overlap.antt =====
-- What the calls of backend/src/auth/auth.service.ts do after their tests, on a state that other
-- calls may have changed since. The second half of a refresh is with the refresh.
use lendoor_stellar.Common.{
  update_rows, ℕ, ◌-◌, ◌+◌, ◌≤◌, ◌<◌, ◌≡◌, min, Option, none, some, arith, [], ◌∷◌, ◌++◌, List,
  Text, if◌then◌else◌, Result, is_none, find_row,
}
use lendoor_stellar.Auth.{
  SiweNonce, AccessToken, CacheManager, IsCache, AuthState, AuthError, SignedIn, token_entry,
  token_key, is_nonce, used_nonce, mark_used, create_access_token, answer_token,
}
use lendoor_stellar.Auth.SignIn.{Claimed, spend_siwe_nonce, issue_siwe_token}
use lendoor_stellar.Auth.Sessions.{is_unrevoked, revoked, cache_ttl, ttl_until}

-- `stored.used = true; save(stored)`: a row that a cleanup deleted meanwhile is put back, used.
abbrev pub save_used : SiweNonce → List SiweNonce → List SiweNonce
save_used stored rows =
    if is_none (find_row (is_nonce stored.nonce) rows)
    then rows ++ (used_nonce stored ∷ [])
    else mark_used stored.nonce rows

min_at_most : (left cap : ℕ) → min left cap ≤ cap
min_at_most left cap = ground arith

ttl_until-at_most : (now : ℕ) (expires : Option ℕ) → ttl_until now expires ≤ 10000
ttl_until-at_most now none = omega arith
ttl_until-at_most now (some expires) = min_at_most (expires - now) 10000

module _ {C : Type 0} where
  -- The rest of verifyStellarAndIssueToken, for the row that its look-up found.
  unfoldable pub finish_stellar :
      Text → ℕ → Text → SiweNonce → AuthState C → Result AuthError SignedIn × AuthState C
  unfolding create_access_token
  finish_stellar drawn now wallet stored s =
      answer_token wallet
        (create_access_token drawn wallet now (record s { nonces = save_used stored s.nonces }))

  -- Step 5 of verifySiweAndIssueToken, for the row that its look-up found; Lemon looks it up anew.
  unfoldable pub spend_late : CacheManager C → ℕ → Claimed → SiweNonce → AuthState C → AuthState C
  unfolding spend_siwe_nonce
  spend_late cache now claim stored s =
      if claim.is_lemon
      then spend_siwe_nonce cache now claim s
      else record s { nonces = save_used stored s.nonces }

  -- Steps 5 and 6.
  unfoldable pub finish_siwe :
      CacheManager C
      → Text
      → ℕ
      → Claimed
      → SiweNonce
      → AuthState C
      → Result AuthError SignedIn × AuthState C
  unfolding spend_late create_access_token
  finish_siwe cache drawn now claim stored s =
      issue_siwe_token drawn now claim.address (spend_late cache now claim stored s)

  -- The entry that a validation adds for a row it read, with the time to live of the time it began.
  abbrev pub finish_validation :
      CacheManager C → Text → AccessToken → ℕ → ℕ → AuthState C → AuthState C
  finish_validation cache token row began now s = record s {
    cache =
        cache.set s.cache (token_key token) (token_entry row.wallet_address) (cache_ttl began row)
          now;
  }

  -- The statement of a refresh that revokes the row, if no other call has.
  abbrev pub revoke_row : Text → ℕ → AuthState C → AuthState C
  revoke_row token now s = record s {
    tokens = update_rows (is_unrevoked token) (revoked now) s.tokens;
  }

  -- The rest of the refresh: the entry evicted, and the new token.
  unfoldable pub evict_and_issue :
      CacheManager C
      → Text
      → Text
      → AccessToken
      → ℕ
      → AuthState C
      → Result AuthError SignedIn × AuthState C
  unfolding create_access_token
  evict_and_issue cache drawn token row now s = answer_token row.wallet_address (
      create_access_token drawn row.wallet_address now
        (record s { cache = cache.del s.cache (token_key token) }))

  -- That entry is gone more than ten seconds after it was added, if its row had time left.
  pub finish_validation-gone :
      (cache : CacheManager C)
      → IsCache cache
      → (token : Text) (row : AccessToken) (began now later : ℕ) (s : AuthState C)
      → 0 < cache_ttl began row
      → now + 10000 < later
      → cache.get (finish_validation cache token row began now s).cache (token_key token) later
        ≡ none
  finish_validation-gone cache laws token row began now later s positive over =
      let bound = ttl_until-at_most began row.expires_at in
      laws.get_gone s.cache (token_key token) (token_entry row.wallet_address) (cache_ttl began row)
        now later positive (omega (arith, bound, over))
