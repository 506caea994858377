-- ===== src/Tests/Policy.antt =====
-- The ladder, prices, late fees and the repayment preview.
use lendoor_stellar.Common.{◌+◌, ◌*◌, ◌^◌, ◌≡◌, refl, true, false, none, some, arith}
use lendoor_stellar.Credit.Pricing.{
  percent, buena, prime_plus, prime, tier_result, get_tiered_monthly_rate,
}
use lendoor_stellar.Credit.Pricing.Override.{override_demotes}
use lendoor_stellar.Credit.Late.{LateFeesInput, late_rate_per_sec_wad}
use lendoor_stellar.Credit.Repayment.{LoanFull, Chain, PreflightPayload}

override_demotes_example :
    (get_tiered_monthly_rate (some 400) 7 buena 4999 0 ≡ tier_result prime_plus (percent 14))
    × (get_tiered_monthly_rate (some 400) 20 buena 5000 0 ≡ tier_result prime (percent 18))
override_demotes_example =
    override_demotes (some 400) 7 20 buena 4999 5000 0 (omega arith) (omega arith) (omega arith)
      (omega arith) (omega arith) (omega arith) refl

abbrev late_loan : LateFeesInput
late_loan = record {
  amount_due_at_open = 10000000;
  due_at = 1000;
  rate_per_sec_wad = late_rate_per_sec_wad;
  grace_period = 259200;
  now = 1000 + 259200 + 30 * 86400;
}

abbrev open_loan : LoanFull
open_loan = record {
  active = true;
  principal = 90;
  amount_due = 100;
  due = 300;
  grace_period = 200;
  fee_bps = 1000;
}

abbrev chain : Chain
chain = record {
  loan = some open_loan;
  late_rate_per_sec_wad = some (10 ^ 15);
  preview_with_late = some 130;
  is_defaulted = none;
  timestamp = some 900;
  accrue_late_succeeds = true;
  loan_after = some (record open_loan { amount_due = 140 });
}

abbrev forced : PreflightPayload
forced = record {
  principal = 90;
  stored_amount_due_before = 100;
  accrued_amount_due = 140;
  last_accrued_ts = 900;
  rate_per_sec_wad = 10 ^ 15;
  base_fee_bps = 1000;
  due_at = 300;
  grace_period = 200;
  late_start = 500;
  chain_now_unix = 900;
  is_defaulted = false;
  accrue_late_called = true;
  accrue_late_skipped_reason = none;
}
