-- ===== src/Cctp/Delivery.antt =====
-- backend/src/cctp/stellar-mint.ts: the delivery plan. A contract argument is kept as the call of
-- the SDK that builds it.
pub mod Sound
use lendoor_stellar.Common.{
  ℕ, ◌+◌, ◌*◌, Bool, not, ◌&&◌, List, [], ◌∷◌, Text, ◌==◌, length, Result, ok, err, ◌>>=◌, ◌>>◌,
  throw_if,
}
use lendoor_stellar.Cctp.Errors.{MessageError, wrong_domain, zero_amount, empty_attestation}
use lendoor_stellar.Cctp.Strkey.{StrKey}
use lendoor_stellar.Cctp.Chains.{StellarConfig}
use lendoor_stellar.Cctp.Message.{
  hex_to_bytes, parse_cctp_message, assert_forwarder_fields, parse_forwarder_hook_data,
}

-- xdr.ScVal
pub data ScVal : Type 0 where
  bytes_val : List ℕ → ScVal
  address_val : Text → ScVal
  i128_val : ℕ → ScVal

abbrev pub mint_and_forward_sc_vals : List ℕ → List ℕ → List ScVal
mint_and_forward_sc_vals message attestation = bytes_val message ∷ bytes_val attestation ∷ []

-- The amounts of messages are read from unsigned words, so the guard on negative ones never fires.
abbrev pub usdc6_to_stellar7 : ℕ → ℕ
usdc6_to_stellar7 amount_usdc6 = amount_usdc6 * 10

pub record DeliveryPlan : Type 0 where
  pub nonce : Text
  pub source_domain : ℕ
  pub amount_usdc6 : ℕ
  pub amount7 : ℕ
  pub forward_recipient : Text
  pub mint_args : List ScVal

module _ (keys : StrKey) where
  -- `none` stands for an SDK call that throws.
  unfoldable pub deposit_from_sc_vals : Text → Text → ℕ → Result (Unit {0}) (List ScVal)
  deposit_from_sc_vals payer beneficiary assets7 = do
    throw_if (not (keys.is_address payer)) tt
    throw_if (not (keys.is_address beneficiary)) tt
    throw_if (not (keys.fits_i128 assets7)) tt
    ok (address_val payer ∷ address_val beneficiary ∷ i128_val assets7 ∷ [])

  unfoldable pub plan_delivery : Text → Text → StellarConfig → Result MessageError DeliveryPlan
  plan_delivery message_hex attestation_hex config = do
    (header, body) ← parse_cctp_message message_hex
    throw_if (not (header.destination_domain == config.domain))
        (wrong_domain header.destination_domain)
    assert_forwarder_fields keys body.mint_recipient header.destination_caller config.cctp_forwarder
    throw_if (body.amount == 0) zero_amount
    hook ← parse_forwarder_hook_data keys body.hook_data
    message ← hex_to_bytes message_hex
    attestation ← hex_to_bytes attestation_hex
    throw_if (length attestation == 0) empty_attestation
    ok (record {
      nonce = header.nonce;
      source_domain = header.source_domain;
      amount_usdc6 = body.amount;
      amount7 = usdc6_to_stellar7 body.amount;
      forward_recipient = hook.forward_recipient;
      mint_args = mint_and_forward_sc_vals message attestation;
    })
