-- ===== src/Auth.antt =====
-- backend/src/auth/auth.service.ts with the entities SiweNonce and AccessToken: the nonces that a
-- wallet signs, the tokens that it gets for them, and the cache in front of the tokens. The cache
-- (Nest's cache manager over Redis) is a parameter with its documented behaviour as laws; the time
-- in milliseconds and the random texts drawn are arguments. A call returns its result beside the
-- state, since some errors come after a change.
pub mod SignIn
pub mod Sessions
pub mod Overlap
pub mod Calls
pub mod Changes
pub mod Spent
pub mod Once
pub mod RevokedRows
pub mod Revoked
pub mod Short
pub mod Honest
pub mod Cleanup
pub mod Lemon
pub mod Live
pub mod Expiry
use lendoor_stellar.Common.{
  ℕ, ◌+◌, ◌<◌, ◌≡◌, refl, Bool, true, false, not, ◌&&◌, Option, none, some, List, [], ◌∷◌, ◌++◌,
  Text, text_eq, codes, ltb, if◌then◌else◌, Result, ok, err, is_ok, find_row, update_rows,
}
use lendoor_stellar.Wallet.{normalize_wallet}

pub record SiweNonce : Type 0 where
  pub nonce : Text
  pub used : Bool
  pub expires_at : ℕ

pub record AccessToken : Type 0 where
  pub token : Text
  pub wallet_address : Text
  pub revoked_at : Option ℕ
  pub expires_at : Option ℕ

-- What the service keeps in the cache: the wallet of a token, and `true` for a nonce.
pub data Cached : Type 0 where
  token_entry : Text → Cached
  used_entry : Cached

-- `get` at a time, `set` with a time to live at a time, and `del`.
pub record CacheManager (C : Type 0) : Type 0 where
  pub get : C → Text → ℕ → Option Cached
  pub set : C → Text → Cached → ℕ → ℕ → C
  pub del : C → Text → C

-- The documented behaviour of the cache: an entry lives as long as its time to live says, one that
-- is zero disables expiration, and entries of other keys are left alone.
pub record IsCache {C : Type 0} (cache : CacheManager C) : Type 0 where
  pub get_other :
      (c : C) (k k' : Text) (v : Cached) (ttl now later : ℕ)
      → text_eq k k' ≡ false
      → cache.get (cache.set c k v ttl now) k' later ≡ cache.get c k' later
  pub get_live :
      (c : C) (k : Text) (v : Cached) (ttl now later : ℕ)
      → later < now + ttl
      → cache.get (cache.set c k v ttl now) k later ≡ some v
  pub get_gone :
      (c : C) (k : Text) (v : Cached) (ttl now later : ℕ)
      → 0 < ttl
      → now + ttl < later
      → cache.get (cache.set c k v ttl now) k later ≡ none
  pub get_value :
      (c : C) (k : Text) (v w : Cached) (ttl now later : ℕ)
      → cache.get (cache.set c k v ttl now) k later ≡ some w
      → v ≡ w
  pub get_forever :
      (c : C) (k : Text) (v : Cached) (now later : ℕ)
      → cache.get (cache.set c k v 0 now) k later ≡ some v
  pub get_deleted : (c : C) (k : Text) (later : ℕ) → cache.get (cache.del c k) k later ≡ none
  pub get_other_deleted :
      (c : C) (k k' : Text) (later : ℕ)
      → text_eq k k' ≡ false
      → cache.get (cache.del c k) k' later ≡ cache.get c k' later

pub record AuthState (C : Type 0) : Type 0 where
  pub nonces : List SiweNonce
  pub tokens : List AccessToken
  pub cache : C

pub data AuthError : Type 0 where
  invalid_siwe_message missing_nonce invalid_or_expired_nonce nonce_already_used : AuthError
  message_expired invalid_siwe_signature nonce_mismatch invalid_stellar_signature : AuthError
  invalid_token token_revoked beyond_refresh_window already_revoked : AuthError
  invalid_or_expired_token invalid_wallet no_address duplicate_key : AuthError

-- What a sign-in and a refresh answer.
pub record SignedIn : Type 0 where
  pub wallet : Text
  pub access_token : Text

abbrev pub token_key : Text → Text
token_key token = codes "token:" ++ token

abbrev pub is_token : Text → AccessToken → Bool
is_token token row = text_eq row.token token

abbrev pub is_nonce : Text → SiweNonce → Bool
is_nonce nonce row = text_eq row.nonce nonce

abbrev pub find_token : Text → List AccessToken → Option AccessToken
find_token token rows = find_row (is_token token) rows

-- `{ nonce, used: false, expiresAt: MoreThan(now) }`
abbrev pub is_live_nonce : Text → ℕ → SiweNonce → Bool
is_live_nonce nonce now row = is_nonce nonce row && not row.used && ltb now row.expires_at

abbrev pub used_nonce : SiweNonce → SiweNonce
used_nonce row = record row { used = true }

abbrev pub mark_used : Text → List SiweNonce → List SiweNonce
mark_used nonce rows = update_rows (is_nonce nonce) used_nonce rows

abbrev pub new_nonce : Text → ℕ → SiweNonce
new_nonce drawn now = record { nonce = drawn; used = false; expires_at = now + 600000 }

abbrev pub new_token : Text → Text → ℕ → AccessToken
new_token drawn wallet now = record {
  token = drawn;
  wallet_address = wallet;
  revoked_at = none;
  expires_at = some (now + 3600000);
}

module _ {C : Type 0} where
  -- The index on the nonces refuses one that is there.
  unfoldable pub create_nonce : Text → ℕ → AuthState C → Result AuthError Text × AuthState C
  create_nonce drawn now s = elim (find_row (is_nonce drawn) s.nonces) [
    | some _ ↦ (err duplicate_key, s)
    | none ↦ (ok drawn, record s { nonces = s.nonces ++ (new_nonce drawn now ∷ []) })
  ]

  unfoldable pub create_access_token :
      Text → Text → ℕ → AuthState C → Result AuthError Text × AuthState C
  unfolding normalize_wallet
  create_access_token drawn wallet now s = elim (normalize_wallet wallet) [
    | err _ ↦ (err invalid_wallet, s)
    | ok wallet_address ↦ elim (find_token drawn s.tokens) [
      | some _ ↦ (err duplicate_key, s)
      | none ↦
          (ok drawn, record s { tokens = s.tokens ++ (new_token drawn wallet_address now ∷ []) })
    ]
  ]

  -- The answer of a call that ends with a new token.
  abbrev pub answer_token :
      Text → Result AuthError Text × AuthState C → Result AuthError SignedIn × AuthState C
  answer_token wallet (err e, s) = (err e, s)
  answer_token wallet (ok token, s) = (ok (record { wallet = wallet; access_token = token }), s)

module _ {A B C : Type 0} where
  -- What follows a check, or the error and the state as it was.
  abbrev pub after_check :
      Result AuthError A
      → AuthState C
      → (A → Result AuthError B × AuthState C)
      → Result AuthError B × AuthState C
  after_check (err e) s next = (err e, s)
  after_check (ok a) s next = next a

  -- A call that ends well passed its check.
  pub after_check-passed :
      (r : Result AuthError A) (s : AuthState C) (next : A → Result AuthError B × AuthState C)
      → is_ok (after_check r s next).0 ≡ true
      → (a : A) × (r ≡ ok a)
  after_check-passed (err e) s next h = absurd cc
  after_check-passed (ok a) s next h = (a, refl)
