-- ===== src/Cctp/Chains.antt =====
-- backend/src/cctp/cctp-chains.ts: the two configurations, and the finality thresholds.
use lendoor_stellar.Common.{ℕ, Text, codes}
use lendoor_stellar.Cctp.Transfer.{stellar_domain, base_sepolia_domain}

pub record StellarConfig : Type 0 where
  pub domain : ℕ
  pub token_messenger_minter : Text
  pub message_transmitter : Text
  pub cctp_forwarder : Text
  pub usdc_sac : Text
  pub usdc_issuer : Text
  pub iris_base_url : Text
  pub network_passphrase : Text
  pub soroban_rpc_url : Text

pub record EvmConfig : Type 0 where
  pub chain_id : ℕ
  pub domain : ℕ
  pub token_messenger_v2 : Text
  pub message_transmitter_v2 : Text
  pub usdc : Text
  pub decimals : ℕ

abbrev pub stellar_testnet : StellarConfig
stellar_testnet = record {
  domain = stellar_domain;
  token_messenger_minter = codes "CDNG7HXAPBWICI2E3AUBP3YZWZELJLYSB6F5CC7WLDTLTHVM74SLRTHP";
  message_transmitter = codes "CBJ6MTCKKZG73PMDZCJMSFRD7DQEMI4FKDH7CGDSV4W6FHCRBCQAVVJY";
  cctp_forwarder = codes "CA66Q2WFBND6V4UEB7RD4SAXSVIWMD6RA4X3U32ELVFGXV5PJK4T4VSZ";
  usdc_sac = codes "CBIELTK6YBZJU5UP2WWQEUCYKLPU6AUNZ2BQ4WWFEIE3USCIHMXQDAMA";
  usdc_issuer = codes "GBBD47IF6LWK7P7MDEVSCWR7DPUWV3NY3DTQEVFL4NAT4AQH3ZLLFLA5";
  iris_base_url = codes "https://iris-api-sandbox.circle.com";
  network_passphrase = codes "Test SDF Network ; September 2015";
  soroban_rpc_url = codes "https://soroban-testnet.stellar.org";
}

abbrev pub base_sepolia : EvmConfig
base_sepolia = record {
  chain_id = 84532;
  domain = base_sepolia_domain;
  token_messenger_v2 = codes "0x8FE6B999Dc680CcFDD5Bf7EB0974218be2542DAA";
  message_transmitter_v2 = codes "0xE737e5cEBEEBa77EFE34D4aa090756590b1CE275";
  usdc = codes "0x036CbD53842c5426634e7929541eC2318f3dCF7e";
  decimals = 6;
}

abbrev pub finality_fast : ℕ
finality_fast = 1000

abbrev pub finality_standard : ℕ
finality_standard = 2000
