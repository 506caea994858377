-- ===== src/Auth/Changes.antt =====
-- The calls of backend/src/auth/auth.service.ts as changes of its two tables and of its cache.
use lendoor_stellar.Common.{
  ℕ, ◌≡◌, refl, true, false, not, ◌||◌, Option, none, some, [], ◌∷◌, ◌++◌, Text, Result, ok, err,
  inl, inr, arith, is_none, Option-cases, Bool-cases, Result-cases, find_row,
}
use lendoor_stellar.Wallet.{normalize_wallet}
use lendoor_stellar.Auth.{
  SiweNonce, used_nonce, AccessToken, CacheManager, AuthState, AuthError, token_entry, used_entry,
  token_key, find_token, mark_used, new_nonce, new_token, create_nonce, create_access_token,
  answer_token, is_nonce,
}
use lendoor_stellar.Auth.SignIn.{
  SignIn, Checks, Claimed, replay_key, text_or, spend_siwe_nonce, check_siwe, issue_siwe_token,
  check_stellar, verify_siwe_and_issue_token, verify_stellar_and_issue_token,
}
use lendoor_stellar.Auth.Sessions.{
  is_unrevoked, is_expired, cache_ttl, revoke_token, check_refresh, finish_refresh, refresh_token,
  validate_token, cleanup_expired_auth,
}
use lendoor_stellar.Auth.Overlap.{
  revoke_row, evict_and_issue, save_used, finish_stellar, spend_late, finish_siwe,
  finish_validation,
}
use lendoor_stellar.Auth.Calls.{
  nothing_late, validation_ends, row_revoked, revokes, evicts, Late, late_of, ends_stellar,
  ends_siwe, ends_validation, Call, step, draws, creates_nonce, signs_siwe, signs_stellar,
  refreshes, ends_refresh, validates, cleans_up,
}

-- One change, at a time and with the text that the call draws.
pub data Change {C : Type 0} (cache : CacheManager C) (now : ℕ) (drawn : Text) (late : Late)
    : AuthState C → AuthState C → Type 0 where
  add_nonce :
      {s : AuthState C}
      → Change cache now drawn late s (record s { nonces = s.nonces ++ (new_nonce drawn now ∷ []) })
  spend_nonce :
      {s : AuthState C} (nonce : Text)
      → Change cache now drawn late s (record s { nonces = mark_used nonce s.nonces })
  spend_entry :
      {s : AuthState C} (nonce address : Text)
      → Change cache now drawn late s
          (record s { cache = cache.set s.cache (replay_key nonce address) used_entry 600000 now })
  add_token :
      {s : AuthState C} (wallet : Text)
      → find_token drawn s.tokens ≡ none
      → Change cache now drawn late s
          (record s { tokens = s.tokens ++ (new_token drawn wallet now ∷ []) })
  revoke :
      {s : AuthState C} (token : Text)
      → Change cache now drawn late s (revoke_token cache token now s)
  cache_token :
      {s : AuthState C} (token : Text) (row : AccessToken)
      → find_token token s.tokens ≡ some row
      → is_expired now row ≡ false
      → is_none row.revoked_at ≡ true
      → Change cache now drawn late s (record s {
        cache =
            cache.set s.cache
              (token_key token)
              (token_entry row.wallet_address)
              (cache_ttl now row)
              now;
      })
  put_used :
      {s : AuthState C} (stored : SiweNonce)
      → Change cache now drawn late s (record s { nonces = s.nonces ++ (used_nonce stored ∷ []) })
  late_entry :
      {s : AuthState C} (token : Text) (row : AccessToken) (began : ℕ)
      → late ≡ validation_ends token row began
      → Change cache now drawn late s (finish_validation cache token row began now s)
  revoke_only :
      {s : AuthState C} (token : Text)
      → late ≡ row_revoked token
      → Change cache now drawn late s (revoke_row token now s)
  evict :
      {s : AuthState C} (token : Text)
      → Change cache now drawn late s (record s { cache = cache.del s.cache (token_key token) })
  clean : {s : AuthState C} → Change cache now drawn late s (cleanup_expired_auth now s)

pub data Changes {C : Type 0} (cache : CacheManager C) (now : ℕ) (drawn : Text) (late : Late)
    : AuthState C → AuthState C → Type 0 where
  unchanged : {s : AuthState C} → Changes cache now drawn late s s
  then_change :
      {s t u : AuthState C}
      → Changes cache now drawn late s t
      → Change cache now drawn late t u
      → Changes cache now drawn late s u

-- What every change keeps, every sequence of changes keeps.
pub Changes-keep {κ} :
    {C : Type 0} (cache : CacheManager C) (now : ℕ) (drawn : Text) (late : Late)
    (P : AuthState C → Type κ)
    → ((s t : AuthState C) → Change cache now drawn late s t → P s → P t)
    → (s t : AuthState C) → Changes cache now drawn late s t
    → P s
    → P t
Changes-keep cache now drawn late P one s t unchanged p = p
Changes-keep cache now drawn late P one s t (then_change before last) p =
    one _ t last (Changes-keep cache now drawn late P one s _ before p)

module _ {C : Type 0} (cache : CacheManager C) (now : ℕ) (drawn : Text) (late : Late) where
  pub after_answer :
      (s : AuthState C) (wallet : Text) (r : Result AuthError Text × AuthState C)
      → Changes cache now drawn late s r.1
      → Changes cache now drawn late s (answer_token wallet r).1
  after_answer s wallet (err e, t) h = h
  after_answer s wallet (ok token, t) h = h

  pub after_create :
      (s t : AuthState C) (wallet : Text)
      → Changes cache now drawn late s t
      → Changes cache now drawn late s (create_access_token drawn wallet now t).1
  unfolding create_access_token
  after_create s t wallet h = elim (Result-cases (normalize_wallet wallet)) [
    | inr (e, bad) ↦ rw (create_access_token, bad) h
    | inl (w, good) ↦ elim (Option-cases (find_token drawn t.tokens)) [
      | inr (row, there) ↦ rw (create_access_token, good, there) h
      | inl new ↦ rw (create_access_token, good, new) (then_change h (add_token w new))
    ]
  ]

  create_nonce-Changes :
      (s : AuthState C) → Changes cache now drawn late s (create_nonce drawn now s).1
  unfolding create_nonce
  create_nonce-Changes s = elim (Option-cases (find_row (is_nonce drawn) s.nonces)) [
    | inl new ↦ rw (create_nonce, new) (then_change unchanged add_nonce)
    | inr (row, there) ↦ rw (create_nonce, there) unchanged
  ]

  spend_siwe_nonce-Changes :
      (s : AuthState C) (claim : Claimed)
      → Changes cache now drawn late s (spend_siwe_nonce cache now claim s)
  unfolding spend_siwe_nonce
  spend_siwe_nonce-Changes s claim = elim (Bool-cases claim.is_lemon) [
    | inl lemon ↦
        rw (spend_siwe_nonce, lemon)
          (then_change (then_change unchanged (spend_nonce claim.nonce))
            (spend_entry claim.nonce (text_or claim.address)))
    | inr other ↦ rw (spend_siwe_nonce, other) (then_change unchanged (spend_nonce claim.nonce))
  ]

  issue_siwe_token-Changes :
      (s t : AuthState C) (address : Option Text)
      → Changes cache now drawn late s t
      → Changes cache now drawn late s (issue_siwe_token drawn now address t).1
  issue_siwe_token-Changes s t none h = h
  issue_siwe_token-Changes s t (some address) h =
      after_answer s address (create_access_token drawn address now t) (after_create s t address h)

  siwe-Changes :
      (checks : Checks) (input : SignIn) (s : AuthState C)
      → Changes cache now drawn late s
          (verify_siwe_and_issue_token cache checks drawn now input s).1
  unfolding verify_siwe_and_issue_token
  siwe-Changes checks input s = elim (Result-cases (check_siwe cache checks now input s)) [
    | inr (e, refused) ↦ rw (verify_siwe_and_issue_token, refused) unchanged
    | inl (claim, passed) ↦
        rw (verify_siwe_and_issue_token, passed)
          (issue_siwe_token-Changes s (spend_siwe_nonce cache now claim s) claim.address
            (spend_siwe_nonce-Changes s claim))
  ]

  stellar-Changes :
      (checks : Checks) (input : SignIn) (s : AuthState C)
      → Changes cache now drawn late s (verify_stellar_and_issue_token checks drawn now input s).1
  unfolding verify_stellar_and_issue_token
  stellar-Changes checks input s = elim (Result-cases (check_stellar checks now input s)) [
    | inr (e, refused) ↦ rw (verify_stellar_and_issue_token, refused) unchanged
    | inl (wallet, passed) ↦
        let spent : AuthState C = record s { nonces = mark_used input.nonce s.nonces } in
        rw (verify_stellar_and_issue_token, passed)
          (after_answer s wallet (create_access_token drawn wallet now spent)
            (after_create s spent wallet (then_change unchanged (spend_nonce input.nonce))))
  ]

  finish_refresh-Changes :
      (token : Text) (row : AccessToken) (s : AuthState C)
      → Changes cache now drawn late s (finish_refresh cache drawn token row now s).1
  unfolding finish_refresh
  finish_refresh-Changes token row s =
      elim (Option-cases (find_row (is_unrevoked token) s.tokens)) [
        | inl late ↦ rw (finish_refresh, late) unchanged
        | inr (found, there) ↦
            rw (finish_refresh, there)
              (after_answer s row.wallet_address
                (create_access_token drawn row.wallet_address now (revoke_token cache token now s))
                (after_create s (revoke_token cache token now s) row.wallet_address
                  (then_change unchanged (revoke token))))
      ]

  refresh_token-Changes :
      (token : Text) (s : AuthState C)
      → Changes cache now drawn late s (refresh_token cache drawn token now s).1
  unfolding refresh_token
  refresh_token-Changes token s = elim (Result-cases (check_refresh token now s)) [
    | inr (e, refused) ↦ rw (refresh_token, refused) unchanged
    | inl (row, passed) ↦ rw (refresh_token, passed) (finish_refresh-Changes token row s)
  ]

  validate_token-Changes :
      (token : Text) (s : AuthState C)
      → Changes cache now drawn late s (validate_token cache token now s).1
  unfolding validate_token
  validate_token-Changes token s = elim (Option-cases (cache.get s.cache (token_key token) now)) [
    | inr (token_entry wallet, hit) ↦ rw (validate_token, hit) unchanged
    | inr (used_entry, hit) ↦ rw (validate_token, hit) unchanged
    | inl miss ↦ elim (Option-cases (find_token token s.tokens)) [
      | inl absent ↦ rw (validate_token, miss, absent) unchanged
      | inr (row, there) ↦ elim (Bool-cases (is_expired now row || not (is_none row.revoked_at))) [
        | inl dead ↦ rw (validate_token, miss, there, dead) unchanged
        | inr live ↦
            rw (validate_token, miss, there, live)
              (then_change unchanged
                (cache_token token row there (ground (arith, live)) (ground (arith, live))))
      ]
    ]
  ]

  save_used-Changes :
      (stored : SiweNonce) (s : AuthState C)
      → Changes cache now drawn late s (record s { nonces = save_used stored s.nonces })
  save_used-Changes stored s = elim (Option-cases (find_row (is_nonce stored.nonce) s.nonces)) [
    | inl gone ↦ rw gone (then_change unchanged (put_used stored))
    | inr (row, there) ↦ rw there (then_change unchanged (spend_nonce stored.nonce))
  ]

  finish_stellar-Changes :
      (wallet : Text) (stored : SiweNonce) (s : AuthState C)
      → Changes cache now drawn late s (finish_stellar drawn now wallet stored s).1
  unfolding finish_stellar
  finish_stellar-Changes wallet stored s =
      let spent : AuthState C = record s { nonces = save_used stored s.nonces } in
      after_answer s wallet (create_access_token drawn wallet now spent)
        (after_create s spent wallet (save_used-Changes stored s))

  spend_late-Changes :
      (claim : Claimed) (stored : SiweNonce) (s : AuthState C)
      → Changes cache now drawn late s (spend_late cache now claim stored s)
  unfolding spend_late
  spend_late-Changes claim stored s = elim (Bool-cases claim.is_lemon) [
    | inl lemon ↦
        rw (spend_late, lemon)
          (then_change (then_change unchanged (spend_nonce claim.nonce))
            (spend_entry claim.nonce (text_or claim.address)))
    | inr other ↦ rw (spend_late, other) (save_used-Changes stored s)
  ]

  finish_siwe-Changes :
      (claim : Claimed) (stored : SiweNonce) (s : AuthState C)
      → Changes cache now drawn late s (finish_siwe cache drawn now claim stored s).1
  unfolding finish_siwe
  finish_siwe-Changes claim stored s =
      issue_siwe_token-Changes s (spend_late cache now claim stored s) claim.address
        (spend_late-Changes claim stored s)

  evict_and_issue-Changes :
      (token : Text) (row : AccessToken) (s : AuthState C)
      → Changes cache now drawn late s (evict_and_issue cache drawn token row now s).1
  unfolding evict_and_issue
  evict_and_issue-Changes token row s =
      let evicted : AuthState C = record s { cache = cache.del s.cache (token_key token) } in
      after_answer s row.wallet_address (create_access_token drawn row.wallet_address now evicted)
        (after_create s evicted row.wallet_address (then_change unchanged (evict token)))

-- Every call is a sequence of eleven kinds of change: a nonce added, spent or put back as spent, an
-- entry for a spent nonce, a token added under a text that no token has, a token revoked with its entry evicted
-- or not, an entry evicted, an entry for a
-- token that is there, not expired and not revoked, an entry
-- for what a validation read before, and the cleanup.
pub step-Changes :
    {C : Type 0} (cache : CacheManager C) (checks : Checks) (now : ℕ) (call : Call)
    (s : AuthState C)
    → Changes cache now (draws call) (late_of call) s (step cache checks s (now, call))
unfolding step
step-Changes cache checks now (creates_nonce drawn) s =
    create_nonce-Changes cache now drawn nothing_late s
step-Changes cache checks now (signs_siwe drawn input) s =
    siwe-Changes cache now drawn nothing_late checks input s
step-Changes cache checks now (signs_stellar drawn input) s =
    stellar-Changes cache now drawn nothing_late checks input s
step-Changes cache checks now (refreshes drawn token) s =
    refresh_token-Changes cache now drawn nothing_late token s
step-Changes cache checks now (ends_refresh drawn token row) s =
    finish_refresh-Changes cache now drawn nothing_late token row s
step-Changes cache checks now (revokes token) s = then_change unchanged (revoke_only token refl)
step-Changes cache checks now (evicts drawn token row) s =
    evict_and_issue-Changes cache now drawn nothing_late token row s
step-Changes cache checks now (ends_stellar drawn wallet stored) s =
    finish_stellar-Changes cache now drawn nothing_late wallet stored s
step-Changes cache checks now (ends_siwe drawn claim stored) s =
    finish_siwe-Changes cache now drawn nothing_late claim stored s
step-Changes cache checks now (ends_validation token row began) s =
    then_change unchanged (late_entry token row began refl)
step-Changes cache checks now (validates token) s =
    validate_token-Changes cache now [] nothing_late token s
step-Changes cache checks now cleans_up s = then_change unchanged clean
