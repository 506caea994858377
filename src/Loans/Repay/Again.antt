-- ===== src/Loans/Repay/Again.antt =====
-- A repayment that is reported twice.
use mathlib.Core.Path.{subst}
use lendoor_stellar.Common.{
  ℕ, ◌≡◌, ◌≢◌, refl, sym, ap, ◌∙◌, inl, inr, Bool, true, false, Option, none, some, List, [], ◌∷◌,
  Text, text_eq, text_eq_refl, ◌==◌, All, arith, Bool-cases, Result, ok, err, Result-cases,
}
use lendoor_stellar.Cctp.Transfer.{is_falsy}
use lendoor_stellar.Loans.{
  Loan, Borrower, find_loan, find_latest, save_loan, same_hash, find_wallet, save_user, WriteCredit,
  is_200,
}
use lendoor_stellar.Loans.Score.{Ledger, Credit, credited, record_credit}
use lendoor_stellar.Loans.Table.{find_loan-none}
use lendoor_stellar.Loans.Table.Latest.{find_latest-cases}
use lendoor_stellar.Loans.Repay.{
  InformRepayment, RepayCalls, RepayError, Settlement, already_processed, closing, is_repayable,
  settled, processed_by, plan_repayment, carry_out, settle_credit, process_repayment, mark_default,
  is_post_default, check_on_chain, wallet_or_invalid,
}
use lendoor_stellar.Loans.Repay.Plan.{
  Planned, known, open_row, plan_repayment-eq-ok, settle-Planned, plan_repayment-known,
}
use lendoor_stellar.Loans.Repay.Table.{settle_credit-loans}

-- A user that is saved is found by the wallet, if the wallet is the same.
find_wallet-save :
    (wallet : Text) (u v : Borrower) (us : List Borrower)
    → find_wallet wallet us ≡ some u
    → v.id ≡ u.id
    → text_eq v.wallet_address wallet ≡ true
    → find_wallet wallet (save_user v us) ≡ some v
find_wallet-save wallet u v [] e i w = absurd cc
find_wallet-save wallet u v (x ∷ us) e i w = elim (Bool-cases (text_eq x.wallet_address wallet)) [
  | inl here ↦ ground arith
  | inr later ↦ let rest = find_wallet-save wallet u v us (ground arith) i w in ground arith
]

find_wallet-holds :
    (wallet : Text) (u : Borrower) (us : List Borrower)
    → find_wallet wallet us ≡ some u
    → text_eq u.wallet_address wallet ≡ true
find_wallet-holds wallet u [] e = absurd cc
find_wallet-holds wallet u (x ∷ us) e = elim (Bool-cases (text_eq x.wallet_address wallet)) [
  | inl here ↦ ground arith
  | inr later ↦ find_wallet-holds wallet u us (ground arith)
]

-- A new hash is found on the row that was saved with it.
find_loan-saved :
    (p q : Loan → Bool) (row loan : Loan) (ls : List Loan)
    → All (λ m. p m ≡ false) ls
    → p row ≡ true
    → find_latest q ls ≡ some loan
    → row.id ≡ loan.id
    → find_loan p (save_loan row ls) ≡ some row
find_loan-saved p q row loan [] a y e i = absurd cc
find_loan-saved p q row loan (l ∷ ls) (n, a) y e i = elim (find_latest-cases q loan l ls e) [
  | inl (_, same) ↦
      let here : (l.id == row.id) ≡ true = rw (same, i) (ground arith) in rw (here, y) refl
  | inr later ↦
      let rest = find_loan-saved p q row loan ls a y later i in
      elim (Bool-cases (l.id == row.id)) [
        | inl here ↦ rw (here, y) refl
        | inr other ↦ rw (other, n, rest) refl
      ]
]

-- The user of the wallet after a settlement.
record_credit-wallet :
    (write : WriteCredit) (wallet : Text) (user : Borrower) (c : Credit) (ledger : Ledger)
    → find_wallet wallet ledger.users ≡ some user
    → (u : Borrower) × (find_wallet wallet (record_credit write wallet user c ledger).users
        ≡ some u)
record_credit-wallet write wallet user c ledger at =
    let w = find_wallet-holds wallet user ledger.users at in
    elim (Bool-cases
      (is_200 (write (record { wallet = wallet; score = c.score; limit = c.limit })))) [
        | inl written ↦ (
          credited user c,
          rw written (find_wallet-save wallet user (credited user c) ledger.users at refl w),
        )
        | inr not_written ↦ (user, rw not_written at)
      ]

settle_credit-wallet :
    (write : WriteCredit) (wallet : Text) (user : Borrower) (on_time post : Bool) (ledger : Ledger)
    → find_wallet wallet ledger.users ≡ some user
    → (u : Borrower) × (find_wallet wallet
          (settle_credit write wallet user on_time post ledger).users
        ≡ some u)
unfolding settle_credit
settle_credit-wallet write wallet user true post ledger at =
    record_credit-wallet write wallet user _ ledger at
settle_credit-wallet write wallet user false true ledger at =
    record_credit-wallet write wallet user _ ledger at
settle_credit-wallet write wallet user false false ledger at = (user, at)

abbrev pub row_of : Settlement → Loan
row_of (already_processed row) = row
row_of (closing _ row _) = row

processed_by-real :
    (tx : Option Text) (ls : List Loan)
    → is_falsy tx ≡ false
    → processed_by tx ls ≡ find_loan (λ m. same_hash m.close_tx_hash tx) ls
processed_by-real tx ls real = rw real refl

same_hash_real : (tx : Option Text) → is_falsy tx ≡ false → same_hash tx tx ≡ true
same_hash_real none real = absurd cc
same_hash_real (some t) real = text_eq_refl t

saved_hash :
    (loan : Loan) (now amount : ℕ) (dto : InformRepayment) (ledger : Ledger) (user : Borrower)
    → is_falsy dto.tx_hash ≡ false
    → processed_by dto.tx_hash ledger.loans ≡ none
    → find_latest (is_repayable user.id) ledger.loans ≡ some loan
    → processed_by dto.tx_hash (save_loan (settled loan now amount dto.tx_hash) ledger.loans)
      ≡ some (settled loan now amount dto.tx_hash)
unfolding settled
saved_hash loan now amount dto ledger user real new found =
    let row = settled loan now amount dto.tx_hash in
    rw real (
      find_loan-saved (λ m. same_hash m.close_tx_hash dto.tx_hash) (is_repayable user.id) row loan
        ledger.loans
        (find_loan-none (λ m. same_hash m.close_tx_hash dto.tx_hash) ledger.loans
          (sym (processed_by-real dto.tx_hash ledger.loans real) ∙ new))
        (same_hash_real dto.tx_hash real) found refl)

-- After a plan is carried out the user is still there, and the hash is on the row of the plan.
carried_out :
    (write : WriteCredit) (wallet : Text) (now : ℕ) (dto : InformRepayment) (user : Borrower)
    (plan : Settlement) (ledger : Ledger)
    → is_falsy dto.tx_hash ≡ false
    → find_wallet wallet ledger.users ≡ some user
    → Planned now dto ledger user plan
    → ((u : Borrower) × (find_wallet wallet (carry_out write wallet plan ledger).users ≡ some u))
      × (processed_by dto.tx_hash (carry_out write wallet plan ledger).loans ≡ some (row_of plan))
unfolding carry_out
carried_out write wallet now dto user _ ledger real at (known row seen) = ((user, at), seen)
carried_out write wallet now dto user _ ledger real at (open_row loan amount new found) =
    let marked = mark_default (is_post_default loan now) user in
    let w = find_wallet-holds wallet user ledger.users at in
    (
      settle_credit-wallet write wallet marked _ _ _
          (find_wallet-save wallet user marked ledger.users at refl w),
      rw (settle_credit-loans write wallet marked _ _ _)
          (saved_hash loan now amount dto ledger user real new found),
    )

-- An accepted report is a plan that was carried out.
pub process_repayment-run :
    (calls : RepayCalls) (now : ℕ) (dto : InformRepayment) (ledger : Ledger) (wallet : Text)
    (plan : Settlement)
    → plan_repayment calls now dto ledger ≡ ok (wallet, plan)
    → process_repayment calls now dto ledger ≡ (ok plan, carry_out calls.write wallet plan ledger)
unfolding process_repayment
process_repayment-run calls now dto ledger wallet plan e = rw (process_repayment, e) refl

pub process_repayment-failed :
    (calls : RepayCalls) (now : ℕ) (dto : InformRepayment) (ledger : Ledger) (thrown : RepayError)
    → plan_repayment calls now dto ledger ≡ err thrown
    → process_repayment calls now dto ledger ≡ (err thrown, ledger)
unfolding process_repayment
process_repayment-failed calls now dto ledger thrown e = rw (process_repayment, e) refl

abbrev failed : RepayError → Result RepayError Settlement
failed thrown = err thrown

abbrev resolved : Text → Result RepayError Text
resolved wallet = ok wallet

abbrev accepted : Settlement → Result RepayError Settlement
accepted plan = ok plan

wallet_injective : {a b : Text} → resolved a ≡ ok b → a ≡ b
wallet_injective e = cc

err_ne_ok : (thrown : RepayError) (plan : Settlement) → failed thrown ≢ ok plan
err_ne_ok thrown plan e = cc

ok_injective : (a b : Settlement) → accepted a ≡ ok b → a ≡ b
ok_injective a b e = ground arith

pub process_repayment-eq-ok :
    (calls : RepayCalls) (now : ℕ) (dto : InformRepayment) (ledger : Ledger) (plan : Settlement)
    → (process_repayment calls now dto ledger).0 ≡ ok plan
    → (wallet : Text) × (plan_repayment calls now dto ledger ≡ ok (wallet, plan))
process_repayment-eq-ok calls now dto ledger plan e =
    elim (Result-cases (plan_repayment calls now dto ledger)) [
      | inr (thrown, failed) ↦
          let run = process_repayment-failed calls now dto ledger thrown failed in
          absurd (err_ne_ok thrown plan (sym (ap (λ r. r.0) run) ∙ e))
      | inl ((wallet, made), planned) ↦
          let run = process_repayment-run calls now dto ledger wallet made planned in
          let same = ok_injective made plan (sym (ap (λ r. r.0) run) ∙ e) in
          (wallet, planned ∙ ap (λ m. ok (wallet, m)) same)
    ]

-- The answer to a report whose hash a row bears already, by what the chain says then.
abbrev pub answer_again : Loan → Result RepayError (Option ℕ) → Result RepayError Settlement
answer_again row (err thrown) = err thrown
answer_again row (ok paid) = ok (already_processed row)

plan_repayment-unchecked :
    (calls : RepayCalls) (now : ℕ) (dto : InformRepayment) (ledger : Ledger) (wallet : Text)
    (user : Borrower) (thrown : RepayError)
    → wallet_or_invalid dto.wallet_address ≡ ok wallet
    → find_wallet wallet ledger.users ≡ some user
    → check_on_chain calls wallet dto.tx_hash ≡ err thrown
    → plan_repayment calls now dto ledger ≡ err thrown
unfolding plan_repayment
plan_repayment-unchecked calls now dto ledger wallet user thrown given at checked =
    rw (plan_repayment, given, at, checked) refl

-- A report whose hash a row bears, with any answers of the chain.
known_again :
    (calls : RepayCalls) (now : ℕ) (dto : InformRepayment) (ledger : Ledger) (wallet : Text)
    (user : Borrower) (row : Loan)
    → wallet_or_invalid dto.wallet_address ≡ ok wallet
    → find_wallet wallet ledger.users ≡ some user
    → processed_by dto.tx_hash ledger.loans ≡ some row
    → process_repayment calls now dto ledger
      ≡ (answer_again row (check_on_chain calls wallet dto.tx_hash), ledger)
unfolding carry_out
known_again calls now dto ledger wallet user row given at seen =
    elim (Result-cases (check_on_chain calls wallet dto.tx_hash)) [
      | inl (paid, checked) ↦ rw checked (
          process_repayment-run calls now dto ledger wallet (already_processed row)
            (plan_repayment-known calls now dto ledger wallet user paid row given at checked seen))
      | inr (thrown, failed) ↦ rw failed (
          process_repayment-failed calls now dto ledger thrown
            (plan_repayment-unchecked calls now dto ledger wallet user thrown given at failed))
    ]

-- If a report with a transaction's hash is accepted, the same report at any later time, whatever the
-- chain then says of its hash and of the wallet's loan, changes no table and asks for no write: if the
-- check on chain of that time passes, it is answered with the row that bears the hash, and otherwise
-- with the error of that check.
pub process_repayment_again :
    (calls again : RepayCalls) (now later : ℕ) (dto : InformRepayment) (ledger : Ledger)
    (plan : Settlement) (wallet : Text)
    → is_falsy dto.tx_hash ≡ false
    → wallet_or_invalid dto.wallet_address ≡ ok wallet
    → (process_repayment calls now dto ledger).0 ≡ ok plan
    → let after : Ledger = (process_repayment calls now dto ledger).1 in
      process_repayment again later dto after
      ≡ (answer_again (row_of plan) (check_on_chain again wallet dto.tx_hash), after)
process_repayment_again calls again now later dto ledger plan wallet real given h =
    let (w, planned) = process_repayment-eq-ok calls now dto ledger plan h in
    let (user, paid, given', at, checked, set) =
      plan_repayment-eq-ok calls now dto ledger w plan planned in
    let made = settle-Planned now dto paid user ledger _ plan refl set in
    let ((u, still), seen) = carried_out calls.write w now dto user plan ledger real at made in
    let told =
      known_again again later dto (carry_out calls.write w plan ledger) w u (row_of plan) given'
        still seen in
    let same : w ≡ wallet = wallet_injective (sym given' ∙ given) in
    subst
      (λ after.
        process_repayment again later dto after
        ≡ (answer_again (row_of plan) (check_on_chain again wallet dto.tx_hash), after))
      (sym (ap (λ r. r.1) (process_repayment-run calls now dto ledger w plan planned)))
      (subst
        (λ v. process_repayment again later dto (carry_out calls.write w plan ledger) ≡ (
          answer_again (row_of plan) (check_on_chain again v dto.tx_hash),
          carry_out calls.write w plan ledger,
        ))
        same told)
