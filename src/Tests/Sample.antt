-- ===== src/Tests/Sample.antt =====
-- One transfer to the vault: its row, its message, its configuration and the answers of the
-- network.
use lendoor_stellar.Common.{
  ℕ, ◌≡◌, refl, ◌⊎◌, inl, inr, Bool, true, false, Option, none, some, List, [], ◌∷◌, ◌++◌, Text,
  codes, text_eq, eq_of_text_eq, replicate, arith, ltb, ◌||◌,
}
use lendoor_stellar.Cctp.Strkey.{StrKey, IsStrKey, is_stellar_address}
use lendoor_stellar.Cctp.Transfer.{Transfer, attested, pending, IrisStatus}
use lendoor_stellar.Cctp.Chains.{stellar_testnet}
use lendoor_stellar.Cctp.Message.{Header, BurnBody, bytes_to_hex, set_uint32}
use lendoor_stellar.Cctp.Message.Layout.{encode_header, encode_body, IsHeader, IsBody}
use lendoor_stellar.Cctp.Executor.{Deps, Network}

abbrev pub relayer : Text
relayer = codes "GRELAYER"

abbrev pub beneficiary : Text
beneficiary = codes "GMARIA"

abbrev pub vault : Text
vault = codes "CVAULT"

-- A stand-in for the SDK that knows one address of each kind.
abbrev pub sample_keys : StrKey
sample_keys = record {
  is_valid_ed25519_public_key = λ a. text_eq a (codes "GRELAYER");
  is_valid_contract = λ a. text_eq a stellar_testnet.cctp_forwarder;
  is_valid_med25519_public_key = λ a. false;
  decode_contract = λ a. replicate 32 7;
  is_address = λ a. text_eq a (codes "GRELAYER") || text_eq a (codes "GMARIA");
  fits_i128 = λ n. ltb n 1000000000000000;
}

abbrev pub zeros32 : List ℕ
zeros32 = replicate 32 0

abbrev pub forwarder32 : List ℕ
forwarder32 = replicate 32 7

abbrev pub nonce32 : List ℕ
nonce32 = replicate 31 0 ++ (9 ∷ [])

abbrev pub nonce_text : Text
nonce_text = codes "0x0000000000000000000000000000000000000000000000000000000000000009"

abbrev pub sample_header : Header
sample_header = record {
  version = 1;
  source_domain = 6;
  destination_domain = 27;
  nonce = nonce_text;
  sender = zeros32;
  recipient = zeros32;
  destination_caller = forwarder32;
  min_finality_threshold = 2000;
  finality_threshold_executed = 2000;
}

abbrev pub sample_body : BurnBody
sample_body = record {
  version = 1;
  burn_token = zeros32;
  mint_recipient = forwarder32;
  amount = 5000000;
  message_sender = zeros32;
  max_fee = 0;
  fee_executed = 0;
  expiration_block = 0;
  hook_data = replicate 24 0 ++ (set_uint32 0 ++ (set_uint32 8 ++ codes "GRELAYER"));
}

abbrev pub sample_bytes : List ℕ
sample_bytes = encode_header sample_header nonce32 (encode_body sample_body)

abbrev pub sample_deps : Deps
sample_deps = record {
  keys = sample_keys;
  config = stellar_testnet;
  relayer_address = relayer;
  vault_contract_id = vault;
}

abbrev pub pending_row : Transfer
pending_row = record {
  nonce = nonce_text;
  source_domain = 6;
  destination_domain = 27;
  burn_tx_hash = codes "0xb0";
  amount_usdc6 = 5000000;
  beneficiary = beneficiary;
  state = pending;
  attestation = none;
  message = none;
  mint_tx_hash = none;
  deposit_tx_hash = none;
  last_error = none;
  attempts = 0;
}

abbrev pub attested_row : Transfer
attested_row = record pending_row {
  state = attested;
  attestation = some (codes "0xaa");
  message = some (bytes_to_hex sample_bytes);
}

-- The nonce is consumed, or is not, and every submission succeeds.
abbrev pub network : Bool → Option IrisStatus → Network
network used iris = record {
  iris = λ domain hash. iris;
  nonce_used = λ nonce. some used;
  submitted = λ contract method args. some (codes "0xd0");
}

known_addresses :
    (a : Text)
    → is_stellar_address sample_keys a ≡ true
    → (a ≡ relayer) ⊎ (a ≡ stellar_testnet.cctp_forwarder)
known_addresses a h =
    ground (arith, eq_of_text_eq a relayer, eq_of_text_eq a stellar_testnet.cctp_forwarder)

pub sample_keys-IsStrKey : IsStrKey sample_keys
sample_keys-IsStrKey = record {
  ascii = λ a h. elim (known_addresses a h) [
    | inl e ↦ rw e (ground arith)
    | inr e ↦ rw e (ground arith)
  ];
  short =
      λ a h. elim (known_addresses a h) [ inl e ↦ rw e (omega arith) | inr e ↦ rw e (omega arith) ];
}

pub sample_header-IsHeader : IsHeader sample_header
sample_header-IsHeader = record {
  version = omega arith;
  source_domain = omega arith;
  destination_domain = omega arith;
  sender = (refl, ground arith);
  recipient = (refl, ground arith);
  destination_caller = (refl, ground arith);
  min_finality_threshold = omega arith;
  finality_threshold_executed = omega arith;
}

pub sample_body-IsBody : IsBody sample_body
unfolding set_uint32
sample_body-IsBody = record {
  version = omega arith;
  burn_token = (refl, ground arith);
  mint_recipient = (refl, ground arith);
  amount = omega arith;
  message_sender = (refl, ground arith);
  max_fee = omega arith;
  fee_executed = omega arith;
  expiration_block = omega arith;
  hook_data = ground arith;
}
