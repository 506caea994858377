-- ===== src/Tests/Burns.antt =====
-- A burn whose message is delivered.
use lendoor_stellar.Common.{◌*◌, ◌≡◌, refl, true, none, [], ◌∷◌, Text, codes, ok, arith}
use lendoor_stellar.Cctp.Chains.{stellar_testnet, base_sepolia}
use lendoor_stellar.Cctp.Message.{bytes_to_hex, hex_to_bytes, set_uint32}
use lendoor_stellar.Cctp.Message.Hex.{IsBytes}
use lendoor_stellar.Cctp.Delivery.{plan_delivery, mint_and_forward_sc_vals}
use lendoor_stellar.Cctp.Utf8.{utf8_encode}
use lendoor_stellar.Cctp.Burn.{
  BurnArgs, BurnToStellarPlan, DepositForBurnWithHook, build_burn_to_stellar,
}
use lendoor_stellar.Cctp.Burn.Arrival.{IsMessageOf, burn_arrives}
use lendoor_stellar.Tests.Sample.{
  relayer, sample_keys, sample_keys-IsStrKey, sample_header, sample_header-IsHeader, sample_body,
  sample_body-IsBody, sample_bytes, nonce32, forwarder32,
}

abbrev args : BurnArgs
args = record {
  config = base_sepolia;
  stellar_domain = 27;
  forwarder_contract_id = stellar_testnet.cctp_forwarder;
  forward_recipient = relayer;
  amount_usdc6 = 5000000;
  max_fee = none;
  min_finality_threshold = none;
}

abbrev burn : DepositForBurnWithHook
burn = record {
  amount = 5000000;
  destination_domain = 27;
  mint_recipient = bytes_to_hex forwarder32;
  burn_token = base_sepolia.usdc;
  destination_caller = bytes_to_hex forwarder32;
  max_fee = 0;
  min_finality_threshold = 2000;
  hook_data = bytes_to_hex sample_body.hook_data;
}

abbrev plan : BurnToStellarPlan
plan = record {
  approve_data = record { spender = base_sepolia.token_messenger_v2; amount = 5000000 };
  burn_data = burn;
  token_messenger_v2 = base_sepolia.token_messenger_v2;
  usdc = base_sepolia.usdc;
  amount_usdc6 = 5000000;
}

plans : build_burn_to_stellar sample_keys args ≡ ok plan
unfolding build_burn_to_stellar set_uint32 utf8_encode
plans = refl

carries : IsMessageOf burn sample_header sample_body
carries = record {
  destination_domain = refl;
  destination_caller = refl;
  mint_recipient = refl;
  amount = refl;
  hook_data = refl;
}

decodes :
    (c : Text) → sample_keys.is_valid_contract c ≡ true → IsBytes (sample_keys.decode_contract c)
decodes c valid = ground arith

attested : hex_to_bytes (codes "0xaa") ≡ ok (170 ∷ [])
unfolding hex_to_bytes
attested = refl

burn_arrives_example :
    plan_delivery sample_keys (bytes_to_hex sample_bytes) (codes "0xaa") stellar_testnet
    ≡ ok (record {
      nonce = bytes_to_hex nonce32;
      source_domain = 6;
      amount_usdc6 = 5000000;
      amount7 = 5000000 * 10;
      forward_recipient = relayer;
      mint_args = mint_and_forward_sc_vals sample_bytes (170 ∷ []);
    })
burn_arrives_example =
    burn_arrives sample_keys args plan sample_header nonce32 sample_body sample_keys-IsStrKey
      sample_header-IsHeader sample_body-IsBody stellar_testnet (codes "0xaa") 170 [] decodes plans
      carries (refl, ground arith) refl refl attested
