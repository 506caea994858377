-- ===== src/Loans/Repay/Plan.antt =====
-- What a repayment that passed its checks found.
use mathlib.Core.Path.{subst}
use lendoor_stellar.Common.{
  ℕ, ◌≡◌, refl, sym, ap, Option, none, some, List, Text, arith, ok, >>=-eq-ok, or_throw,
  or_throw-eq-ok,
}
use lendoor_stellar.Loans.{Loan, Borrower, find_wallet, find_latest}
use lendoor_stellar.Loans.Score.{Ledger}
use lendoor_stellar.Loans.Repay.{
  InformRepayment, RepayCalls, no_active_loan, user_not_found, Settlement, already_processed,
  closing, is_repayable, settled, processed_by, close_open_loan, settle, plan_repayment,
  wallet_or_invalid, check_on_chain, parse_amount_human, amount_or, is_post_default,
}

-- What the first transaction to be planned tells.
close_open_loan-eq-ok :
    (now : ℕ) (dto : InformRepayment) (paid : Option ℕ) (user : Borrower) (loans : List Loan)
    (plan : Settlement)
    → close_open_loan now dto paid user loans ≡ ok plan
    → (loan : Loan) × (amount : ℕ) × (find_latest (is_repayable user.id) loans ≡ some loan)
      × (plan ≡ closing user (settled loan now amount dto.tx_hash) (is_post_default loan now))
unfolding close_open_loan
close_open_loan-eq-ok now dto paid user loans plan e =
    let (loan, found, rest) = >>=-eq-ok (or_throw no_active_loan _) _ e in
    let (micros, _, made) = >>=-eq-ok (parse_amount_human dto.amount_paid_human) _ rest in
    (loan, amount_or paid micros, or_throw-eq-ok no_active_loan _ found, sym (ground (arith, made)))

-- What a plan tells: the hash was known, or one row is to be closed.
pub data Planned (now : ℕ) (dto : InformRepayment) (ledger : Ledger) (user : Borrower)
    : Settlement → Type 0 where
  known :
      (row : Loan)
      → processed_by dto.tx_hash ledger.loans ≡ some row
      → Planned now dto ledger user (already_processed row)
  open_row :
      (loan : Loan) (amount : ℕ)
      → processed_by dto.tx_hash ledger.loans ≡ none
      → find_latest (is_repayable user.id) ledger.loans ≡ some loan
      → Planned now dto ledger user
          (closing user (settled loan now amount dto.tx_hash) (is_post_default loan now))

pub settle-Planned :
    (now : ℕ) (dto : InformRepayment) (paid : Option ℕ) (user : Borrower) (ledger : Ledger)
    (seen : Option Loan) (plan : Settlement)
    → processed_by dto.tx_hash ledger.loans ≡ seen
    → settle now dto paid user ledger.loans seen ≡ ok plan
    → Planned now dto ledger user plan
unfolding settle
settle-Planned now dto paid user ledger (some row) plan seen e =
    let same : already_processed row ≡ plan = ground arith in
    subst (λ s. Planned now dto ledger user s) same (known row seen)
settle-Planned now dto paid user ledger none plan seen e =
    let (loan, amount, found, made) = close_open_loan-eq-ok now dto paid user ledger.loans plan e in
    rw made (open_row loan amount seen found)

-- The checks that a plan passed.
pub plan_repayment-eq-ok :
    (calls : RepayCalls) (now : ℕ) (dto : InformRepayment) (ledger : Ledger) (wallet : Text)
    (plan : Settlement)
    → plan_repayment calls now dto ledger ≡ ok (wallet, plan)
    → (user : Borrower) × (paid : Option ℕ) × (wallet_or_invalid dto.wallet_address ≡ ok wallet)
      × (find_wallet wallet ledger.users ≡ some user)
      × (check_on_chain calls wallet dto.tx_hash ≡ ok paid)
      × (settle now dto paid user ledger.loans (processed_by dto.tx_hash ledger.loans) ≡ ok plan)
unfolding plan_repayment
plan_repayment-eq-ok calls now dto ledger wallet plan e =
    let (w, given, e1) = >>=-eq-ok (wallet_or_invalid dto.wallet_address) _ e in
    let (user, at, e2) = >>=-eq-ok (or_throw user_not_found (find_wallet w ledger.users)) _ e1 in
    let (paid, checked, e3) = >>=-eq-ok (check_on_chain calls w dto.tx_hash) _ e2 in
    let (plan', set, e4) =
      >>=-eq-ok (settle now dto paid user ledger.loans (processed_by dto.tx_hash ledger.loans)) _
        e3 in
    let same_wallet : w ≡ wallet = ground (arith, e4) in
    let same_plan : plan' ≡ plan = ground (arith, e4) in
    (
      user,
      paid,
      rw given (ap ok same_wallet),
      subst (λ v. find_wallet v ledger.users ≡ some user) same_wallet
          (or_throw-eq-ok user_not_found _ at),
      subst (λ v. check_on_chain calls v dto.tx_hash ≡ ok paid) same_wallet checked,
      rw set (ap ok same_plan),
    )

pub plan_repayment-Planned :
    (calls : RepayCalls) (now : ℕ) (dto : InformRepayment) (ledger : Ledger) (wallet : Text)
    (plan : Settlement)
    → plan_repayment calls now dto ledger ≡ ok (wallet, plan)
    → (user : Borrower) × (find_wallet wallet ledger.users ≡ some user)
      × Planned now dto ledger user plan
plan_repayment-Planned calls now dto ledger wallet plan e =
    let (user, paid, _, at, _, set) = plan_repayment-eq-ok calls now dto ledger wallet plan e in
    (user, at, settle-Planned now dto paid user ledger _ plan refl set)

-- Where the checks pass and the hash is known, the plan is the row that has it.
pub plan_repayment-known :
    (calls : RepayCalls) (now : ℕ) (dto : InformRepayment) (ledger : Ledger) (wallet : Text)
    (user : Borrower) (paid : Option ℕ) (row : Loan)
    → wallet_or_invalid dto.wallet_address ≡ ok wallet
    → find_wallet wallet ledger.users ≡ some user
    → check_on_chain calls wallet dto.tx_hash ≡ ok paid
    → processed_by dto.tx_hash ledger.loans ≡ some row
    → plan_repayment calls now dto ledger ≡ ok (wallet, already_processed row)
unfolding plan_repayment settle
plan_repayment-known calls now dto ledger wallet user paid row given at checked seen =
    rw (plan_repayment, given, at, checked, seen) refl
