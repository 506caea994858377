-- ===== src/WalletLink.antt =====
-- backend/src/wallet-link/wallet-link.service.ts with its entities: a user proves with a code by
-- e-mail who they are, and with a signature that an Ethereum wallet is theirs. Times are in
-- milliseconds; the codes, tokens and nonces drawn, the hash, the written form of a time and the
-- signer that viem recovers are arguments. A call returns its result beside the state.
pub mod Codes
pub mod Wallets
pub mod Guesses
pub mod Linked
pub mod Sybil
pub mod Session
use lendoor_stellar.Common.{
  ℕ, Option, none, some, List, [], ◌∷◌, ◌++◌, Text, text_eq, Bool, Result, ok, err, find_row, ◌==◌,
  map, if◌then◌else◌, not, ◌&&◌, true, false, length,
}
use lendoor_stellar.Wallet.{trim, to_lower, all_chars}

pub record WalletLinkSession : Type 0 where
  pub email : Text
  pub user_id : Option ℕ
  pub otp_code_hash : Option Text
  pub otp_expires_at : Option ℕ
  pub otp_attempt_count : ℕ
  pub last_otp_sent_at : Option ℕ
  pub token : Option Text
  pub token_expires_at : Option ℕ

pub record WalletLinkNonce : Type 0 where
  pub user_id : ℕ
  pub address : Text
  pub nonce : Text
  pub message : Text
  pub used : Bool
  pub expires_at : ℕ

-- What the calls read of a linked wallet: the fields for audits are left out.
pub record LinkedExternalWallet : Type 0 where
  pub user_id : ℕ
  pub address : Text
  pub chain_id : ℕ
  pub verified_at : ℕ

pub record LinkUser : Type 0 where
  pub id : ℕ
  pub email : Option Text
  pub lemon_email : Option Text
  pub wallet_address : Option Text

pub record LinkState : Type 0 where
  pub users : List LinkUser
  pub sessions : List WalletLinkSession
  pub nonces : List WalletLinkNonce
  pub linked : List LinkedExternalWallet

pub data LinkError : Type 0 where
  invalid_email throttled invalid_code too_many_attempts : LinkError
  invalid_link_session link_session_expired : LinkError
  invalid_address unsupported_signature nonce_not_found nonce_expired : LinkError
  invalid_signature signature_mismatch nonce_already_used linked_to_another : LinkError
  duplicate_key : LinkError

abbrev pub is_session_of : Text → WalletLinkSession → Bool
is_session_of email row = text_eq row.email email

-- `(raw ?? '').trim().toLowerCase()`, on ASCII
abbrev pub trimmed : Option Text → Text
trimmed none = []
trimmed (some raw) = map to_lower (trim raw)
