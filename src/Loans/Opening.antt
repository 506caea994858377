-- ===== src/Loans/Opening.antt =====
-- `informLoanOpened` of backend/src/loan/loan.service.ts: a client reports that it opened a loan. The
-- report is taken to be alone, so that the index on the transaction has no conflict after the checks.
pub mod Again
pub mod Decimal
use lendoor_stellar.Common.{
  ℕ, zero, suc, ◌+◌, ◌*◌, ◌/◌, ◌%◌, Bool, true, false, not, ◌&&◌, Option, none, some, List, [], ◌∷◌,
  ◌++◌, Text, codes, ltb, ◌==◌, if◌then◌else◌, is_none, Result, ok, err, ◌>>=◌, ◌>>◌, throw_if,
  or_throw,
}
use lendoor_stellar.Wallet.{normalize_wallet}
use lendoor_stellar.Credit.Pricing.{get_fee_bps_for_term}
use lendoor_stellar.Loans.{opened, repaid_late, Loan, is_defaulted, is_opened, find_loan}
use lendoor_stellar.Loans.Scan.{opened_by}
use lendoor_stellar.Loans.Repay.{to_cents}
use lendoor_stellar.Loans.Offer.{
  Applicant, BorrowError, user_not_found, invalid_tenor_days, receiver_or_invalid, is_allowed_tenor,
  fee_for, requested,
}

-- InformLoanDto; the amount, a numeral with at most six decimals, is in millionths of a dollar.
pub record InformLoan : Type 0 where
  pub wallet_address : Text
  pub amount_human : ℕ
  pub tenor_days : ℕ
  pub tx_hash : Text

-- The user of a wallet, the check of the transaction on the chain, and the identifier of a new row.
pub record OpenCalls : Type 0 where
  pub find_applicant : Text → Option Applicant
  pub verify_opened : Text → Text → Bool
  pub new_id : List Loan → ℕ

-- An error of the checks that borrowing has, or a transaction that opened no loan of the wallet.
pub data OpenError : Type 0 where
  not_allowed : BorrowError → OpenError
  tx_not_opened : OpenError

abbrev pub allowed {ℓ} : {A : Type ℓ} → Result BorrowError A → Result OpenError A
allowed (ok a) = ok a
allowed (err e) = err (not_allowed e)

-- A number in decimal, its last digit last; `fuel` is at least the number of digits.
abbrev pub decimal_within : ℕ → ℕ → Text
decimal_within zero n = []
decimal_within (suc fuel) n =
    let front = decimal_within fuel (n / 10) in
    if ltb n 10 then (48 + n) ∷ [] else front ++ ((48 + n % 10) ∷ [])

abbrev pub decimal : ℕ → Text
decimal n = decimal_within (suc n) n

-- `SYNTHETIC_ORPHAN_AUTOCLOSE_${orphan.id}`
unfoldable pub synthetic_hash : ℕ → Text
synthetic_hash id = codes "SYNTHETIC_ORPHAN_AUTOCLOSE_" ++ decimal id

-- The defaulted rows of the user that nothing closed.
abbrev pub is_orphaned : ℕ → Loan → Bool
is_orphaned user_id l =
    (l.user_id == user_id)
    && is_defaulted l.status
    && is_none l.closed_at
    && is_none l.close_tx_hash

unfoldable pub close_orphan : ℕ → Loan → Loan
unfolding synthetic_hash
close_orphan now l = record l {
  status = repaid_late;
  is_on_time = false;
  closed_at = some now;
  close_tx_hash = some (synthetic_hash l.id);
}

unfoldable pub close_orphans : ℕ → ℕ → List Loan → List Loan
unfolding close_orphan
close_orphans now user_id [] = []
close_orphans now user_id (l ∷ ls) =
    (if is_orphaned user_id l then close_orphan now l else l) ∷ close_orphans now user_id ls

-- The open row of the user.
abbrev pub is_existing_open : ℕ → Loan → Bool
is_existing_open user_id l = (l.user_id == user_id) && is_opened l.status && is_none l.closed_at

-- `formatAmount(principal + principal * feeBps / 10000)` in token units
abbrev pub amount_due_at_open : ℕ → ℕ → ℕ
amount_due_at_open micros fee_bps = (micros * (10000 + fee_bps) + 50000000) / 100000000 * 100000

-- The row of a report.
unfoldable pub reported_row : ℕ → ℕ → Text → ℕ → ℕ → InformLoan → Loan
reported_row id user_id wallet now fee_bps dto = record {
  id = id;
  user_id = user_id;
  borrower_address = wallet;
  principal = to_cents dto.amount_human;
  amount_due_at_open = amount_due_at_open dto.amount_human fee_bps;
  amount_paid = 0;
  tenor_days = dto.tenor_days;
  fee_bps = fee_bps;
  start_at = now;
  due_at = now + dto.tenor_days * 24 * 60 * 60 * 1000;
  closed_at = none;
  status = opened;
  is_on_time = false;
  open_tx_hash = some dto.tx_hash;
  close_tx_hash = none;
  synced_by_chain = false;
  late_fees_collected = 0;
}

-- The loan to answer with, and the table.
abbrev pub Opened : Type 0
Opened = ℕ × List Loan

-- The transaction, by what it finds: an open row, a row with the hash, or neither.
unfoldable pub open_in_table :
    OpenCalls → ℕ → ℕ → Text → ℕ → InformLoan → List Loan → Option Loan → Opened
unfolding close_orphans reported_row
open_in_table calls now user_id wallet fee_bps dto loans (some existing) = (existing.id, loans)
open_in_table calls now user_id wallet fee_bps dto loans none =
    let id = calls.new_id loans in
    (id, close_orphans now user_id loans ++ (reported_row id user_id wallet now fee_bps dto ∷ []))

abbrev pub first_of : Option Loan → Option Loan → Option Loan
first_of none later = later
first_of (some l) later = some l

-- What follows the look for the transaction's hash.
unfoldable pub open_new :
    OpenCalls
    → ℕ
    → InformLoan
    → Text
    → Applicant
    → List Loan
    → Option Loan
    → Result OpenError Opened
unfolding open_in_table fee_for
open_new calls now dto wallet applicant loans (some existing) = ok (existing.id, loans)
open_new calls now dto wallet applicant loans none = do
  throw_if (not (calls.verify_opened dto.tx_hash wallet)) tx_not_opened
  micros ← allowed (requested dto.amount_human)
  fee ← allowed (fee_for dto.tenor_days applicant loans)
  ok (
      open_in_table calls now applicant.row.id wallet fee dto loans (
        first_of (find_loan (is_existing_open applicant.row.id) loans)
          (opened_by dto.tx_hash loans)))

-- informLoanOpened: the loan and the table, or the error that leaves the table as it is.
unfoldable pub inform_loan_opened : OpenCalls → ℕ → InformLoan → List Loan → Result OpenError Opened
unfolding open_new
inform_loan_opened calls now dto loans = do
  wallet ← allowed (receiver_or_invalid dto.wallet_address)
  applicant ← allowed (or_throw user_not_found (calls.find_applicant wallet))
  allowed (throw_if (dto.tenor_days == 0) invalid_tenor_days)
  allowed (throw_if (not (is_allowed_tenor dto.tenor_days)) invalid_tenor_days)
  open_new calls now dto wallet applicant loans (opened_by dto.tx_hash loans)
