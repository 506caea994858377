-- ===== src/Cctp/Burn.antt =====
-- backend/src/cctp/evm-burn.ts: the plan of a burn on the EVM side. The data of a call is kept as the
-- name and the arguments that the encoder is given. Amounts are unsigned: a negative one, which the
-- source refuses as it refuses zero, is not a value of the model.
pub mod Arrival
use lendoor_stellar.Common.{
  ℕ, Option, none, some, [], Text, ◌==◌, Result, ok, err, ◌>>=◌, ◌>>◌, throw_if, if◌then◌else◌,
}
use lendoor_stellar.Cctp.Errors.{MessageError}
use lendoor_stellar.Cctp.Strkey.{StrKey}
use lendoor_stellar.Cctp.Chains.{EvmConfig, finality_standard}
use lendoor_stellar.Cctp.Message.{
  bytes_to_hex, contract_address_to_bytes32, assert_forwarder_fields, build_forwarder_hook_data,
}

pub data BurnError : Type 0 where
  not_positive : BurnError
  bad_message : MessageError → BurnError

pub record Approve : Type 0 where
  pub spender : Text
  pub amount : ℕ

pub record DepositForBurnWithHook : Type 0 where
  pub amount : ℕ
  pub destination_domain : ℕ
  pub mint_recipient : Text
  pub burn_token : Text
  pub destination_caller : Text
  pub max_fee : ℕ
  pub min_finality_threshold : ℕ
  pub hook_data : Text

pub record BurnToStellarPlan : Type 0 where
  pub approve_data : Approve
  pub burn_data : DepositForBurnWithHook
  pub token_messenger_v2 : Text
  pub usdc : Text
  pub amount_usdc6 : ℕ

pub record BurnArgs : Type 0 where
  pub config : EvmConfig
  pub stellar_domain : ℕ
  pub forwarder_contract_id : Text
  pub forward_recipient : Text
  pub amount_usdc6 : ℕ
  pub max_fee : Option ℕ
  pub min_finality_threshold : Option ℕ

abbrev pub or_default : Option ℕ → ℕ → ℕ
or_default none n = n
or_default (some m) n = m

-- An error of the message functions passes through.
abbrev pub within {ℓ} : {A : Type ℓ} → Result MessageError A → Result BurnError A
within (ok a) = ok a
within (err e) = err (bad_message e)

unfoldable pub build_burn_to_stellar : StrKey → BurnArgs → Result BurnError BurnToStellarPlan
unfolding contract_address_to_bytes32 assert_forwarder_fields build_forwarder_hook_data bytes_to_hex
build_burn_to_stellar keys args = do
  throw_if (args.amount_usdc6 == 0) not_positive
  forwarder32 ← within (contract_address_to_bytes32 keys args.forwarder_contract_id)
  within (assert_forwarder_fields keys forwarder32 forwarder32 args.forwarder_contract_id)
  hook_data ← within (build_forwarder_hook_data keys args.forward_recipient [])
  ok (record {
    approve_data = record { spender = args.config.token_messenger_v2; amount = args.amount_usdc6 };
    burn_data = record {
      amount = args.amount_usdc6;
      destination_domain = args.stellar_domain;
      mint_recipient = bytes_to_hex forwarder32;
      burn_token = args.config.usdc;
      destination_caller = bytes_to_hex forwarder32;
      max_fee = or_default args.max_fee 0;
      min_finality_threshold = or_default args.min_finality_threshold finality_standard;
      hook_data = bytes_to_hex hook_data;
    };
    token_messenger_v2 = args.config.token_messenger_v2;
    usdc = args.config.usdc;
    amount_usdc6 = args.amount_usdc6;
  })
