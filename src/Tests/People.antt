-- ===== src/Tests/People.antt =====
-- Wallets, identity, the phone code, sponsored transactions, the client's queues and its store.
use lendoor_stellar.Common.{
  ◌+◌, ◌≡◌, refl, true, false, none, some, [], ◌∷◌, Text, codes, text_eq, ok, if◌then◌else◌, ◌&&◌,
  leb,
}
use lendoor_stellar.Wallet.{normalize_wallet}
use lendoor_stellar.Identity.Kyc.{pending, approved, not_started, approval, User, Users, FakeVendor}
use lendoor_stellar.Identity.PhoneOtp.{
  OtpRow, OtpTable, Kapso, by_text, update_row, no_code, send_verification, check_verification,
  code_lives_ten_minutes,
}
use lendoor_stellar.Sponsor.{invoke_host_function, change_trust, Transaction, SponsorPolicy}
use lendoor_stellar.Frontend.Queue.{Repayment, Storage, normalize_wallet_address}

abbrev written : Text
written = codes " 0x8FE6B999Dc680CcFDD5Bf7EB0974218be2542DAA "

abbrev wallet : Text
wallet = codes "0x8fe6b999dc680ccfdd5bf7eb0974218be2542daa"

normalized : normalize_wallet written ≡ ok wallet
unfolding normalize_wallet
normalized = refl

abbrev maria : User
maria = record {
  wallet_address = wallet;
  kyc_status = pending;
  kyc_session_id = some (codes "s1");
  kyc_provider = some (codes "fake");
  kyc_approved_at = none;
}

abbrev approved_maria : User
approved_maria = record maria { kyc_status = approved; kyc_approved_at = some 5 }

abbrev only : User → Users
only u = λ w. if text_eq w wallet then some u else none

abbrev vendor : FakeVendor
vendor = record { sessions = (codes "s1", approval) ∷ []; uuids = codes "s2" ∷ [] }

abbrev new_maria : User
new_maria = record maria { kyc_status = not_started; kyc_session_id = none; kyc_provider = none }

abbrev url : Text
url = codes "https://kyc.invalid/fake/fake-s2?wallet=0x8fe6b999dc680ccfdd5bf7eb0974218be2542daa"

abbrev kapso : Kapso
kapso = record { configured = true; template_succeeds = false; text_succeeds = true }

abbrev otp_rows : OtpRow → OtpTable
otp_rows r = λ w. if text_eq w wallet then some r else none

abbrev fresh_code : OtpRow
fresh_code = record { phone_otp_code = some (codes "123456"); phone_otp_expires_at = some 600000 }

code_lives_ten_minutes_example :
    check_verification (codes "123456") 9 written (update_row (otp_rows no_code) wallet fresh_code)
    ≡ (if text_eq (codes "123456") (codes "123456") && leb 9 (0 + 600000)
        then ok (true, update_row (update_row (otp_rows no_code) wallet fresh_code) wallet no_code)
        else ok (false, update_row (otp_rows no_code) wallet fresh_code))
unfolding send_verification
code_lives_ten_minutes_example =
    code_lives_ten_minutes kapso true b'1' (codes "23456") (codes "123456") 0 9 written
      (otp_rows no_code) (update_row (otp_rows no_code) wallet fresh_code) by_text no_code wallet
      normalized refl refl

abbrev inner : Transaction
inner = record {
  signatures = 1;
  source = codes "GMARIA";
  fee = 70301;
  operations = change_trust ∷ invoke_host_function (some (codes "CVAULT")) ∷ [];
  resource_fee = some 70000;
}

abbrev policy : SponsorPolicy
policy = record {
  allowed_contracts = codes "CVAULT" ∷ [];
  expected_source = some (codes "GMARIA");
  max_inner_fee = some 100000;
}

abbrev paid : Repayment
paid = record { amount_paid_human = codes "1.05" }

abbrev storage : Storage Repayment
storage = record { items = []; writable = true }

filed : normalize_wallet_address written ≡ some wallet
unfolding normalize_wallet_address
filed = refl

own : normalize_wallet_address wallet ≡ some wallet
unfolding normalize_wallet_address
own = refl

abbrev neighbour : Text
neighbour = codes "0x0000000000000000000000000000000000000001"
