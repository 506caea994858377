-- ===== src/Tests/Borrowing.antt =====
-- A loan that is offered.
use lendoor_stellar.Common.{
  is_none, ◌||◌, ◌≡◌, refl, true, false, none, some, List, [], ◌∷◌, Text, codes, ok,
}
use lendoor_stellar.Cctp.Transfer.{is_falsy}
use lendoor_stellar.Wallet.{normalize_wallet}
use lendoor_stellar.Identity.Kyc.{approved, kyc_gate_passes}
use lendoor_stellar.Credit.Pricing.{get_tiered_monthly_rate}
use lendoor_stellar.Loans.{Loan, defaulted}
use lendoor_stellar.Loans.Offer.{
  Applicant, BorrowCalls, BorrowLoan, Offer, borrow, receiver_or_invalid, fee_for, is_allowed_tenor,
}
use lendoor_stellar.Loans.Offer.Gates.{IsPastCooldown, IsWithinLimits, borrow-IsWithinLimits}
use lendoor_stellar.Loans.Opening.{
  InformLoan, OpenCalls, close_orphan, reported_row, inform_loan_opened,
}
use lendoor_stellar.Loans.Opening.Again.{inform_loan_opened_again}
use lendoor_stellar.Tests.LedgerSample.{paid_row, open_row, borrower, user_row}

-- A user who may borrow.
abbrev applicant : Applicant
applicant = record {
  row = user_row;
  phone = some (codes "+54911");
  phone_verified_at = some 1;
  kyc = record {
    wallet_address = borrower;
    kyc_status = approved;
    kyc_session_id = none;
    kyc_provider = none;
    kyc_approved_at = some 1;
  };
  risk_p_default = some 1200;
  wallet_quality = none;
}

abbrev lending : BorrowCalls
lending = record {
  find_applicant = λ wallet. some applicant;
  kyc_enabled = true;
  next_borrow_time = λ wallet. some 900;
  chain_now = some 1000;
  server_now = 0;
  read_credit_limit = λ wallet. some 50000000;
  create_offer = λ offer. true;
}

abbrev five_dollars : BorrowLoan
five_dollars = record { amount_human = 5000000; receiver = borrower; tenor_days = 14 }

abbrev offered : Offer
offered = record { amount = 5000000; borrower = borrower; tenor_days = 14; fee_bps = 1083 }

offers : borrow lending five_dollars [] ≡ ok offered
unfolding borrow normalize_wallet kyc_gate_passes get_tiered_monthly_rate
offers = refl

borrow-IsWithinLimits_example :
    (wallet : Text) × (a : Applicant) × (receiver_or_invalid borrower ≡ ok wallet)
    × (some applicant ≡ some a)
    × (is_allowed_tenor 14 ≡ true)
    × ((is_falsy a.phone || is_none a.phone_verified_at) ≡ false)
    × (kyc_gate_passes true a.kyc ≡ true)
    × IsPastCooldown lending wallet
    × IsWithinLimits lending wallet a offered
    × (borrower ≡ wallet)
    × (offered.tenor_days ≡ five_dollars.tenor_days)
    × (fee_for 14 a [] ≡ ok 1083)
borrow-IsWithinLimits_example = borrow-IsWithinLimits lending five_dollars [] offered offers

-- Its opening is reported, with an older loan in default that nothing closed.
abbrev orphan_row : Loan
orphan_row = record open_row { status = defaulted }

abbrev opening : OpenCalls
opening = record {
  find_applicant = λ wallet. some applicant;
  verify_opened = λ tx wallet. true;
  new_id = λ loans. 3;
}

abbrev opened_report : InformLoan
opened_report = record {
  wallet_address = borrower;
  amount_human = 5000000;
  tenor_days = 14;
  tx_hash = codes "e1";
}

abbrev after_opening : List Loan
after_opening =
    paid_row
    ∷ close_orphan 1600000000 orphan_row
    ∷ reported_row 3 7 borrower 1600000000 1083 opened_report
    ∷ []

opens :
    inform_loan_opened opening 1600000000 opened_report (paid_row ∷ orphan_row ∷ [])
    ≡ ok (3, after_opening)
unfolding inform_loan_opened normalize_wallet get_tiered_monthly_rate
opens = refl

receives : receiver_or_invalid borrower ≡ ok borrower
unfolding normalize_wallet
receives = refl

-- The chain of a later time, which does not find the transaction any more.
abbrev unconfirming : OpenCalls
unconfirming = record opening { verify_opened = λ tx wallet. false }

inform_loan_opened_again_example :
    inform_loan_opened unconfirming 1700000000 opened_report after_opening ≡ ok (3, after_opening)
unfolding close_orphan reported_row
inform_loan_opened_again_example =
    inform_loan_opened_again opening unconfirming 1600000000 1700000000 opened_report
      (paid_row ∷ orphan_row ∷ []) 3 after_opening borrower receives refl opens
