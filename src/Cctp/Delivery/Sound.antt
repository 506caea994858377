-- ===== src/Cctp/Delivery/Sound.antt =====
-- What a delivery plan guarantees.
use lendoor_stellar.Common.{
  ℕ, ◌*◌, ◌<◌, ◌≡◌, true, List, [], ◌∷◌, Text, arith, ok, length, >>=-eq-ok, throw_if-eq-ok,
  >>-eq-ok, not, ◌==◌,
}
use lendoor_stellar.Cctp.Strkey.{StrKey, is_stellar_address}
use lendoor_stellar.Cctp.Chains.{StellarConfig}
use lendoor_stellar.Cctp.Message.{
  Header, BurnBody, HookData, hex_to_bytes, parse_cctp_message, assert_forwarder_fields,
  parse_forwarder_hook_data,
}
use lendoor_stellar.Cctp.Message.Hook.{
  assert_forwarder_fields_iff, parse_forwarder_hook_data-IsAddress,
}
use lendoor_stellar.Cctp.Delivery.{bytes_val, DeliveryPlan, plan_delivery}

-- A plan that is right for its message, attestation and configuration.
pub record IsPlan (keys : StrKey) (message_hex attestation_hex : Text) (config : StellarConfig)
    (plan : DeliveryPlan) : Type 0 where
  pub header : Header
  pub body : BurnBody
  pub hook : HookData
  pub message : List ℕ
  pub attestation : List ℕ
  pub parsed : parse_cctp_message message_hex ≡ ok (header, body)
  pub domain : header.destination_domain ≡ config.domain
  pub forwarder_valid : keys.is_valid_contract config.cctp_forwarder ≡ true
  pub mint_recipient : body.mint_recipient ≡ keys.decode_contract config.cctp_forwarder
  pub destination_caller : header.destination_caller ≡ keys.decode_contract config.cctp_forwarder
  pub positive : 0 < plan.amount_usdc6
  pub amount : plan.amount_usdc6 ≡ body.amount
  pub rescaled : plan.amount7 ≡ 10 * plan.amount_usdc6
  pub nonce : plan.nonce ≡ header.nonce
  pub hook_parsed : parse_forwarder_hook_data keys body.hook_data ≡ ok hook
  pub recipient : plan.forward_recipient ≡ hook.forward_recipient
  pub recipient_valid : is_stellar_address keys plan.forward_recipient ≡ true
  pub message_bytes : hex_to_bytes message_hex ≡ ok message
  pub attestation_bytes : hex_to_bytes attestation_hex ≡ ok attestation
  pub attested : 0 < length attestation
  pub args : plan.mint_args ≡ bytes_val message ∷ bytes_val attestation ∷ []

-- A plan exists only for a message to the configured domain, whose mint recipient and destination
-- caller are the forwarder, with a positive amount, hook data that names a valid Stellar address,
-- and a non-empty attestation; it carries the header's nonce, the amount, ten times the amount in
-- seven decimals, the hook's recipient, and the message and attestation bytes in this order.
pub plan_delivery-IsPlan :
    (keys : StrKey) (message_hex attestation_hex : Text) (config : StellarConfig)
    (plan : DeliveryPlan)
    → plan_delivery keys message_hex attestation_hex config ≡ ok plan
    → IsPlan keys message_hex attestation_hex config plan
unfolding plan_delivery
plan_delivery-IsPlan keys message_hex attestation_hex config plan h =
    let ((header, body), parsed, h1) = >>=-eq-ok (parse_cctp_message message_hex) _ h in
    let (domain, h2) = throw_if-eq-ok (not (header.destination_domain == config.domain)) _ _ h1 in
    let (guarded, h3) =
      >>-eq-ok
        (assert_forwarder_fields keys body.mint_recipient header.destination_caller
          config.cctp_forwarder)
        _ h2 in
    let (positive, h4) = throw_if-eq-ok (body.amount == 0) _ _ h3 in
    let (hook, hook_parsed, h5) = >>=-eq-ok (parse_forwarder_hook_data keys body.hook_data) _ h4 in
    let (message, message_bytes, h6) = >>=-eq-ok (hex_to_bytes message_hex) _ h5 in
    let (attestation, attestation_bytes, h7) = >>=-eq-ok (hex_to_bytes attestation_hex) _ h6 in
    let (attested, h8) = throw_if-eq-ok (length attestation == 0) _ _ h7 in
    let fields =
      (assert_forwarder_fields_iff keys body.mint_recipient header.destination_caller
          config.cctp_forwarder).0
        guarded in
    record {
      header = header;
      body = body;
      hook = hook;
      message = message;
      attestation = attestation;
      parsed = parsed;
      domain = ground arith;
      forwarder_valid = fields.0;
      mint_recipient = fields.1;
      destination_caller = fields.2;
      positive = ground arith;
      amount = ground arith;
      rescaled = ground arith;
      nonce = ground arith;
      hook_parsed = hook_parsed;
      recipient = ground arith;
      recipient_valid =
          ground (arith, parse_forwarder_hook_data-IsAddress keys body.hook_data hook hook_parsed);
      message_bytes = message_bytes;
      attestation_bytes = attestation_bytes;
      attested = ground arith;
      args = ground arith;
    }
