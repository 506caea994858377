-- ===== src/Auth/Calls.antt =====
-- The calls of backend/src/auth/auth.service.ts on one database and one cache. A sign-in, a refresh and a
-- validation is a whole step, or its tests come at one time, which change nothing, and the rest of it
-- later, after other calls; the rest of a refresh may come in two parts.
use lendoor_stellar.Common.{ℕ, ◌≤◌, ◌<◌, ◌≡◌, ◌+◌, ◌≢◌, List, [], ◌∷◌, Text}
use lendoor_stellar.Auth.{SiweNonce, AccessToken, CacheManager, AuthState, create_nonce}
use lendoor_stellar.Auth.SignIn.{
  SignIn, Checks, Claimed, verify_siwe_and_issue_token, verify_stellar_and_issue_token,
}
use lendoor_stellar.Auth.Sessions.{
  cache_ttl, finish_refresh, refresh_token, validate_token, cleanup_expired_auth,
}
use lendoor_stellar.Auth.Overlap.{
  revoke_row, evict_and_issue, finish_stellar, finish_siwe, finish_validation,
}

-- A call with the random text it draws; the second half of one also with what its tests read.
pub data Call : Type 0 where
  creates_nonce : Text → Call
  signs_siwe signs_stellar : Text → SignIn → Call
  refreshes : Text → Text → Call
  ends_refresh : Text → Text → AccessToken → Call
  revokes : Text → Call
  evicts : Text → Text → AccessToken → Call
  ends_stellar : Text → Text → SiweNonce → Call
  ends_siwe : Text → Claimed → SiweNonce → Call
  validates : Text → Call
  ends_validation : Text → AccessToken → ℕ → Call
  cleans_up : Call

module _ {C : Type 0} (cache : CacheManager C) (checks : Checks) where
  unfoldable pub step : AuthState C → ℕ × Call → AuthState C
  unfolding create_nonce verify_siwe_and_issue_token verify_stellar_and_issue_token finish_refresh
      refresh_token validate_token cleanup_expired_auth finish_stellar finish_siwe evict_and_issue
  step s (now, creates_nonce drawn) = (create_nonce drawn now s).1
  step s (now, signs_siwe drawn input) =
      (verify_siwe_and_issue_token cache checks drawn now input s).1
  step s (now, signs_stellar drawn input) =
      (verify_stellar_and_issue_token checks drawn now input s).1
  step s (now, refreshes drawn token) = (refresh_token cache drawn token now s).1
  step s (now, ends_refresh drawn token row) = (finish_refresh cache drawn token row now s).1
  step s (now, revokes token) = revoke_row token now s
  step s (now, evicts drawn token row) = (evict_and_issue cache drawn token row now s).1
  step s (now, ends_stellar drawn wallet stored) = (finish_stellar drawn now wallet stored s).1
  step s (now, ends_siwe drawn claim stored) = (finish_siwe cache drawn now claim stored s).1
  step s (now, validates token) = (validate_token cache token now s).1
  step s (now, ends_validation token row began) = finish_validation cache token row began now s
  step s (now, cleans_up) = cleanup_expired_auth now s

  unfoldable pub run : AuthState C → List (ℕ × Call) → AuthState C
  unfolding step
  run s [] = s
  run s (call ∷ calls) = run (step s call) calls

-- The text that a call draws, as a nonce or as a token.
abbrev pub draws : Call → Text
draws (creates_nonce drawn) = drawn
draws (signs_siwe drawn input) = drawn
draws (signs_stellar drawn input) = drawn
draws (refreshes drawn token) = drawn
draws (ends_refresh drawn token row) = drawn
draws (revokes token) = []
draws (evicts drawn token row) = drawn
draws (ends_stellar drawn wallet stored) = drawn
draws (ends_siwe drawn claim stored) = drawn
draws (validates token) = []
draws (ends_validation token row began) = []
draws cleans_up = []

-- What a call may leave in the cache that the table denies: a validation that ends, with the row and
-- the time of its tests, adds an entry, and a row that is revoked alone leaves one.
pub data Late : Type 0 where
  nothing_late : Late
  validation_ends : Text → AccessToken → ℕ → Late
  row_revoked : Text → Late

abbrev pub late_of : Call → Late
late_of (ends_validation token row began) = validation_ends token row began
late_of (revokes token) = row_revoked token
late_of (creates_nonce drawn) = nothing_late
late_of (signs_siwe drawn input) = nothing_late
late_of (signs_stellar drawn input) = nothing_late
late_of (refreshes drawn token) = nothing_late
late_of (ends_refresh drawn token row) = nothing_late
late_of (evicts drawn token row) = nothing_late
late_of (ends_stellar drawn wallet stored) = nothing_late
late_of (ends_siwe drawn claim stored) = nothing_late
late_of (validates token) = nothing_late
late_of cleans_up = nothing_late

-- If this is the end of a validation of the token, then its row had time left when it was tested, and
-- the end is more than ten seconds before the limit.
abbrev pub IsOver : Text → ℕ → ℕ → Late → Type 0
IsOver token limit now nothing_late = Unit {0}
IsOver token limit now (row_revoked t) = Unit {0}
IsOver token limit now (validation_ends t row began) =
    t ≡ token → (0 < cache_ttl began row) × (now + 10000 < limit)

-- If the token's row is revoked alone, it is so more than ten seconds before the limit.
abbrev pub IsLongRevoked : Text → ℕ → ℕ → Late → Type 0
IsLongRevoked token limit now nothing_late = Unit {0}
IsLongRevoked token limit now (row_revoked t) = t ≡ token → now + 10000 < limit
IsLongRevoked token limit now (validation_ends t row began) = Unit {0}

-- The validations of the token that end among the calls, their tests before other calls, all do so
-- more than ten seconds before the limit.
abbrev pub AreOver : Text → ℕ → List (ℕ × Call) → Type 0
AreOver token limit [] = Unit {0}
AreOver token limit ((now, call) ∷ calls) =
    IsOver token limit now (late_of call) × AreOver token limit calls

-- The statements that revoke the token, its entry evicted only later, all come more than ten seconds
-- before the limit.
abbrev pub AreLongRevoked : Text → ℕ → List (ℕ × Call) → Type 0
AreLongRevoked token limit [] = Unit {0}
AreLongRevoked token limit ((now, call) ∷ calls) =
    IsLongRevoked token limit now (late_of call) × AreLongRevoked token limit calls

-- No call draws this text.
abbrev pub IsUndrawn : Text → List (ℕ × Call) → Type 0
IsUndrawn text [] = Unit {0}
IsUndrawn text ((now, call) ∷ calls) = (draws call ≢ text) × IsUndrawn text calls

-- The calls come in the order of their times, none before the first.
abbrev pub IsOrdered : ℕ → List (ℕ × Call) → Type 0
IsOrdered clock [] = Unit {0}
IsOrdered clock ((now, call) ∷ calls) = (clock ≤ now) × IsOrdered now calls

abbrev pub ends_at : ℕ → List (ℕ × Call) → ℕ
ends_at clock [] = clock
ends_at clock ((now, call) ∷ calls) = ends_at now calls
