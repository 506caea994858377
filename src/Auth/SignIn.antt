-- ===== src/Auth/SignIn.antt =====
-- backend/src/auth/auth.service.ts: a wallet signs a message with a nonce and gets a token. The
-- parser of messages, the checks of signatures (viem and noble) and the hash are parameters; a
-- check that throws counts as one that fails, as the service catches it. The client's check of a
-- message depends on the time, as a message may have an expiration time.
use lendoor_stellar.Common.{
  ℕ, ◌+◌, Bool, true, false, not, ◌&&◌, ◌||◌, Option, none, some, List, [], ◌∷◌, ◌++◌, map, Text,
  text_eq, codes, ltb, ◌==◌, if◌then◌else◌, length, Result, ok, err, throw_if, or_throw, ◌>>=◌,
  ◌>>◌, is_none, find_row,
}
use lendoor_stellar.Wallet.{normalize_wallet, decode_stellar_public_key, to_lower}
use lendoor_stellar.Cctp.Transfer.{is_falsy}
use lendoor_stellar.Cctp.Utf8.{utf8_encode}
use lendoor_stellar.Auth.{
  CacheManager, AuthState, AuthError, SignedIn, is_live_nonce, mark_used, create_access_token,
  answer_token, after_check, used_entry, invalid_siwe_message, missing_nonce,
  invalid_or_expired_nonce, nonce_already_used, message_expired, invalid_siwe_signature,
  nonce_mismatch, invalid_stellar_signature, invalid_wallet, no_address,
}

pub record SignIn : Type 0 where
  pub wallet : Text
  pub signature : Text
  pub message : Text
  pub nonce : Text

-- The fields of a parsed message that the service reads; `issued_at` in milliseconds.
pub record SiweMessage : Type 0 where
  pub address : Option Text
  pub nonce : Option Text
  pub chain_id : Option ℕ
  pub domain : Option Text
  pub issued_at : Option ℕ

pub record EvmChain : Type 0 where
  pub id : ℕ
  pub rpc_url : Text

pub record Checks : Type 0 where
  pub parse_siwe_message : Text → Option SiweMessage
  pub verify_siwe_message : EvmChain → Text → Text → Option Text → ℕ → Bool
  pub recover_message_address : Text → Text → Option Text
  pub verify_message : EvmChain → Text → Text → Text → Bool
  pub sha256 : List ℕ → List ℕ
  pub base64 : Text → List ℕ
  pub verify_ed25519 : List ℕ → List ℕ → List ℕ → Bool

abbrev pub starts_with : Text → Text → Bool
starts_with [] s = true
starts_with (x ∷ xs) [] = false
starts_with (x ∷ xs) (c ∷ s) = x == c && starts_with xs s

abbrev pub includes : Text → Text → Bool
includes part [] = starts_with part []
includes part (c ∷ s) = starts_with part (c ∷ s) || includes part s

abbrev pub ends_with : Text → Text → Bool
ends_with part [] = text_eq part []
ends_with part (c ∷ s) = text_eq part (c ∷ s) || ends_with part s

abbrev pub base_chain : EvmChain
base_chain = record { id = 8453; rpc_url = codes "https://mainnet.base.org" }

abbrev pub celo_chain : EvmChain
celo_chain = record { id = 42220; rpc_url = codes "https://forno.celo.org" }

unfoldable pub get_chain_config : ℕ → EvmChain
get_chain_config chain_id =
    if chain_id == 8453 then base_chain else if chain_id == 42220 then celo_chain else base_chain

unfoldable pub is_lemon_domain : Text → Bool
is_lemon_domain domain =
    let d = map to_lower domain in
    ends_with (codes ".lemoncash.com.ar") d
    || text_eq d (codes "lemoncash.com.ar")
    || ends_with (codes ".lemon.me") d
    || text_eq d (codes "lemon.me")

abbrev pub text_or : Option Text → Text
text_or none = []
text_or (some s) = s

abbrev pub number_or : Option ℕ → ℕ
number_or none = 0
number_or (some n) = n

-- The parts of a message after the first checks.
pub record Claimed : Type 0 where
  pub address : Option Text
  pub nonce : Text
  pub chain : EvmChain
  pub is_lemon : Bool
  pub issued_at : Option ℕ

abbrev lower_address : Option Text → Option Text
lower_address none = none
lower_address (some a) = some (map to_lower a)

unfoldable pub claimed : Checks → Text → Result AuthError Claimed
unfolding get_chain_config is_lemon_domain
claimed checks message = do
  parsed ← or_throw invalid_siwe_message (checks.parse_siwe_message message)
  throw_if (is_falsy parsed.nonce) missing_nonce
  ok (record {
    address = lower_address parsed.address;
    nonce = text_or parsed.nonce;
    chain = get_chain_config (number_or parsed.chain_id);
    is_lemon = is_lemon_domain (text_or parsed.domain);
    issued_at = parsed.issued_at;
  })

abbrev pub replay_key : Text → Text → Text
replay_key nonce address = codes "siwe:lemon:" ++ nonce ++ codes ":" ++ map to_lower address

abbrev pub is_too_old : ℕ → Option ℕ → Bool
is_too_old now none = true
is_too_old now (some issued_at) = ltb (issued_at + 300000) now

abbrev pub is_plain_ecdsa : Text → Bool
is_plain_ecdsa signature = starts_with (codes "0x") signature && length signature == 132

abbrev pub looks_like_6492 : Text → Bool
looks_like_6492 signature = starts_with (codes "0x") signature && ltb 132 (length signature)

abbrev pub is_recovered : Option Text → Option Text → Bool
is_recovered (some recovered) (some expected) = text_eq (map to_lower recovered) expected
is_recovered _ _ = false

-- Step 4: the check of the client, and what is tried when it fails.
unfoldable pub check_siwe_signature : Checks → ℕ → SignIn → Claimed → Result AuthError (Unit {0})
check_siwe_signature checks now input claim =
    let message = input.message in
    let signature = input.signature in
    if checks.verify_siwe_message claim.chain message signature claim.address now
    then ok tt
    else if is_plain_ecdsa signature
    then throw_if
        (not (is_recovered (checks.recover_message_address message signature) claim.address))
        invalid_siwe_signature
    else if not (looks_like_6492 signature && claim.is_lemon)
    then err invalid_siwe_signature
    else if is_too_old now claim.issued_at
    then err message_expired
    else throw_if
        (not (checks.verify_message claim.chain (text_or claim.address) message signature))
        invalid_siwe_signature

module _ {C : Type 0} where
  -- Step 2: the nonce is live in the table, or for Lemon not in the cache.
  unfoldable pub check_siwe_nonce :
      CacheManager C → ℕ → Claimed → AuthState C → Result AuthError (Unit {0})
  check_siwe_nonce cache now claim s =
      if not claim.is_lemon
      then throw_if (is_none (find_row (is_live_nonce claim.nonce now) s.nonces))
          invalid_or_expired_nonce
      else elim claim.address [
        | none ↦ err no_address
        | some address ↦
            throw_if (not (is_none (cache.get s.cache (replay_key claim.nonce address) now)))
              nonce_already_used
      ]

  -- Step 5: the nonce is spent in the table, and for Lemon in the cache.
  unfoldable pub spend_siwe_nonce : CacheManager C → ℕ → Claimed → AuthState C → AuthState C
  spend_siwe_nonce cache now claim s =
      let marked = mark_used claim.nonce s.nonces in
      if not claim.is_lemon then record s { nonces = marked } else record s {
        nonces = marked;
        cache =
            cache.set s.cache (replay_key claim.nonce (text_or claim.address)) used_entry 600000
              now;
      }

  unfoldable pub check_siwe :
      CacheManager C → Checks → ℕ → SignIn → AuthState C → Result AuthError Claimed
  unfolding claimed check_siwe_nonce check_siwe_signature
  check_siwe cache checks now input s = do
    claim ← claimed checks input.message
    check_siwe_nonce cache now claim s
    check_siwe_signature checks now input claim
    ok claim

  -- Step 6, for the address of the message; without one the new token has no wallet.
  abbrev pub issue_siwe_token :
      Text → ℕ → Option Text → AuthState C → Result AuthError SignedIn × AuthState C
  issue_siwe_token drawn now none s = (err invalid_wallet, s)
  issue_siwe_token drawn now (some address) s =
      answer_token address (create_access_token drawn address now s)

  unfoldable pub verify_siwe_and_issue_token :
      CacheManager C
      → Checks
      → Text
      → ℕ
      → SignIn
      → AuthState C
      → Result AuthError SignedIn × AuthState C
  unfolding check_siwe spend_siwe_nonce create_access_token
  verify_siwe_and_issue_token cache checks drawn now input s =
      after_check (check_siwe cache checks now input s) s
        (λ claim. issue_siwe_token drawn now claim.address (spend_siwe_nonce cache now claim s))

-- The signed bytes of SEP-53.
abbrev pub sep53_hash : Checks → Text → List ℕ
sep53_hash checks message =
    checks.sha256 (utf8_encode (codes "Stellar Signed Message:\n") ++ utf8_encode message)

abbrev pub stellar_signature_holds : Checks → Text → SignIn → Bool
stellar_signature_holds checks wallet input = elim (decode_stellar_public_key wallet) [
  | none ↦ false
  | some public_key ↦
      checks.verify_ed25519 (checks.base64 input.signature) (sep53_hash checks input.message)
        public_key
]

abbrev pub wallet_or_throw : Text → Result AuthError Text
wallet_or_throw addr = elim (normalize_wallet addr) [
  | err _ ↦ err invalid_wallet
  | ok wallet ↦ ok wallet
]

module _ {C : Type 0} where
  unfoldable pub check_stellar : Checks → ℕ → SignIn → AuthState C → Result AuthError Text
  unfolding normalize_wallet decode_stellar_public_key utf8_encode
  check_stellar checks now input s = do
    wallet ← wallet_or_throw input.wallet
    throw_if (is_none (find_row (is_live_nonce input.nonce now) s.nonces)) invalid_or_expired_nonce
    throw_if (not (includes input.nonce input.message)) nonce_mismatch
    throw_if (not (stellar_signature_holds checks wallet input)) invalid_stellar_signature
    ok wallet

  unfoldable pub verify_stellar_and_issue_token :
      Checks → Text → ℕ → SignIn → AuthState C → Result AuthError SignedIn × AuthState C
  unfolding check_stellar create_access_token
  verify_stellar_and_issue_token checks drawn now input s =
      after_check (check_stellar checks now input s) s (λ wallet. answer_token wallet (
        create_access_token drawn wallet now
          (record s { nonces = mark_used input.nonce s.nonces })))
