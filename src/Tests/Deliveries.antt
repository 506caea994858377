-- ===== src/Tests/Deliveries.antt =====
-- Deliveries of the sample transfer: after a mint whose deposit is missing, and from the start.
use lendoor_stellar.Common.{
  ◌≤◌, ◌≡◌, ◌≢◌, refl, true, false, none, some, List, [], ◌∷◌, codes, ok, err, arith,
}
use lendoor_stellar.Cctp.Utf8.{utf8_decode}
use lendoor_stellar.Cctp.Errors.{nonce_mismatch}
use lendoor_stellar.Cctp.Transfer.{
  attested, is_falsy, delivered, failed, Transfer, waiting, transition,
}
use lendoor_stellar.Cctp.Chains.{stellar_testnet}
use lendoor_stellar.Cctp.Message.{
  bytes_to_hex, parse_cctp_message, parse_forwarder_hook_data, set_uint32, u32, u256,
  assert_forwarder_fields,
}
use lendoor_stellar.Cctp.Message.Layout.{encode_header, encode_body, be_bytes}
use lendoor_stellar.Cctp.Delivery.{
  ScVal, bytes_val, address_val, i128_val, DeliveryPlan, deposit_from_sc_vals, plan_delivery,
}
use lendoor_stellar.Cctp.Delivery.Sound.{IsPlan, plan_delivery-IsPlan}
use lendoor_stellar.Cctp.Executor.{
  Call, invoke, nonce_query, iris_query, Network, not_attested, poll, deliver, deliver_plan,
}
use lendoor_stellar.Cctp.Executor.Branches.{IsDelivery}
use lendoor_stellar.Cctp.Executor.Safety.{deliver-IsDelivery, deliver_fails_unspent}
use lendoor_stellar.Cctp.Executor.Recovery.{
  mints, deliver-mints_once, deliver_resumes, poll_skips_deposit,
}
use lendoor_stellar.Tests.Sample.{
  relayer, beneficiary, vault, sample_keys, sample_deps, sample_bytes, nonce_text, attested_row,
  network,
}

abbrev sample_plan : DeliveryPlan
sample_plan = record {
  nonce = nonce_text;
  source_domain = 6;
  amount_usdc6 = 5000000;
  amount7 = 50000000;
  forward_recipient = relayer;
  mint_args = bytes_val sample_bytes ∷ bytes_val (170 ∷ []) ∷ [];
}

abbrev deposit_args : List ScVal
deposit_args = address_val relayer ∷ address_val beneficiary ∷ i128_val 50000000 ∷ []

sample_planned :
    plan_delivery sample_keys (bytes_to_hex sample_bytes) (codes "0xaa") stellar_testnet
    ≡ ok sample_plan
unfolding plan_delivery bytes_to_hex encode_header encode_body be_bytes set_uint32 u32 u256
    utf8_decode parse_cctp_message assert_forwarder_fields parse_forwarder_hook_data
sample_planned = refl

plan_delivery-IsPlan_example :
    IsPlan sample_keys (bytes_to_hex sample_bytes) (codes "0xaa") stellar_testnet sample_plan
plan_delivery-IsPlan_example =
    plan_delivery-IsPlan sample_keys (bytes_to_hex sample_bytes) (codes "0xaa") stellar_testnet
      sample_plan sample_planned

abbrev resumed_row : Transfer
resumed_row = record attested_row { deposit_tx_hash = some (codes "0xd0"); state = delivered }

abbrev deposit_log : List Call
deposit_log = nonce_query nonce_text ∷ invoke vault (codes "deposit_from") deposit_args ∷ []

deliver_resumes_example :
    deliver sample_deps attested_row (network true none) [] ≡ (ok resumed_row, deposit_log)
unfolding deposit_from_sc_vals bytes_to_hex
deliver_resumes_example =
    deliver_resumes sample_deps (network true none) attested_row sample_plan deposit_args
      (codes "0xd0") [] refl refl refl refl sample_planned refl refl (λ e. ground arith) refl refl
      refl

deliver-IsDelivery_example :
    (attested_row.state ≡ attested)
    × (is_falsy attested_row.attestation ≡ false)
    × IsDelivery sample_deps (network true none) attested_row resumed_row
    × (resumed_row.state ≡ delivered)
deliver-IsDelivery_example =
    deliver-IsDelivery sample_deps (network true none) attested_row [] deposit_log resumed_row
      deliver_resumes_example (λ e. ground arith)

deliver-mints_once_example :
    (mints (deliver sample_deps attested_row (network true none) []).1 ≤ 1)
    × ((network true none).nonce_used nonce_text ≢ some false
        → mints (deliver sample_deps attested_row (network true none) []).1 ≡ 0)
deliver-mints_once_example = deliver-mints_once sample_deps (network true none) attested_row []

-- The row of another burn with the message of this one.
abbrev mixed_up_row : Transfer
mixed_up_row = record attested_row { nonce = codes "0x01" }

abbrev rejected_row : Transfer
rejected_row = record mixed_up_row {
  state = failed;
  last_error = some (nonce_mismatch nonce_text (codes "0x01"));
}

mixed_up_delivery : deliver sample_deps mixed_up_row (network true none) [] ≡ (ok rejected_row, [])
unfolding deliver plan_delivery bytes_to_hex encode_header encode_body be_bytes set_uint32 u32 u256
    utf8_decode transition parse_cctp_message assert_forwarder_fields parse_forwarder_hook_data
    deliver_plan
mixed_up_delivery = refl

deliver_fails_unspent_example : ◌≡◌ {A = List Call} [] []
deliver_fails_unspent_example =
    deliver_fails_unspent sample_deps (network true none) mixed_up_row [] [] rejected_row
      mixed_up_delivery refl

poll_skips_deposit_example :
    (u : Transfer) × (poll sample_deps attested_row (network true (some waiting)) []
      ≡ (ok u, iris_query 6 (codes "0xb0") ∷ nonce_query nonce_text ∷ []))
    × (u.state ≡ delivered)
    × (u.deposit_tx_hash ≡ none)
    × ((net : Network) (log : List Call)
        → deliver sample_deps u net log ≡ (err (not_attested delivered), log))
poll_skips_deposit_example =
    poll_skips_deposit sample_deps (network true (some waiting)) attested_row waiting [] refl refl
      refl refl
