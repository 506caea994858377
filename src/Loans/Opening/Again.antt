-- ===== src/Loans/Opening/Again.antt =====
-- A loan whose opening is reported twice.
use mathlib.Core.Path.{subst}
use lendoor_stellar.Common.{
  ℕ, ◌≡◌, refl, sym, ap, ◌∙◌, inl, inr, true, not, Option, none, some, List, [], ◌∷◌, ◌++◌, Text,
  text_eq_refl, ◌==◌, arith, Bool-cases, Option-cases, Result, ok, err, is_none, ◌&&◌,
  if◌then◌else◌, or_throw, throw_if, >>=-eq-ok, >>-eq-ok, throw_if-eq-ok,
}
use lendoor_stellar.Loans.{Loan, find_loan, same_hash}
use lendoor_stellar.Loans.Scan.{opened_by}
use lendoor_stellar.Loans.Offer.{
  Applicant, user_not_found, invalid_tenor_days, receiver_or_invalid, is_allowed_tenor, fee_for,
  requested,
}
use lendoor_stellar.Loans.Opening.{
  InformLoan, OpenCalls, OpenError, tx_not_opened, allowed, is_orphaned, close_orphan,
  close_orphans, is_existing_open, reported_row, Opened, open_in_table, first_of, open_new,
  inform_loan_opened,
}

abbrev accepted : Opened → Result OpenError Opened
accepted r = ok r

-- Closing an orphan leaves the transaction that opened it.
close_orphans-opened_by :
    (now user_id : ℕ) (tx : Text) (ls : List Loan) (u : Loan)
    → opened_by tx ls ≡ none
    → same_hash u.open_tx_hash (some tx) ≡ true
    → opened_by tx (close_orphans now user_id ls ++ (u ∷ [])) ≡ some u
unfolding close_orphans close_orphan
close_orphans-opened_by now user_id tx [] u e h = rw h refl
close_orphans-opened_by now user_id tx (l ∷ ls) u e h =
    elim (Bool-cases (same_hash l.open_tx_hash (some tx))) [
      | inl here ↦ absurd (ground arith)
      | inr later ↦
          let rest = close_orphans-opened_by now user_id tx ls u (ground arith) h in
          elim (Bool-cases (is_orphaned user_id l)) [
            | inl orphan ↦ rw (close_orphans, orphan, later) rest
            | inr other ↦ rw (close_orphans, other, later) rest
          ]
    ]

ok_injective : {a b : Opened} → accepted a ≡ accepted b → a ≡ b
ok_injective e = cc

neither :
    (loans : List Loan) (user_id : ℕ) (tx : Text)
    → find_loan (is_existing_open user_id) loans ≡ none
    → opened_by tx loans ≡ none
    → first_of (find_loan (is_existing_open user_id) loans) (opened_by tx loans) ≡ none
neither loans user_id tx missing at = rw (missing, at) refl

the_open :
    (loans : List Loan) (user_id : ℕ) (tx : Text) (row : Loan)
    → find_loan (is_existing_open user_id) loans ≡ some row
    → first_of (find_loan (is_existing_open user_id) loans) (opened_by tx loans) ≡ some row
the_open loans user_id tx row at = rw at refl

existing-id :
    (calls : OpenCalls) (now user_id : ℕ) (wallet : Text) (fee : ℕ) (dto : InformLoan)
    (loans : List Loan) (row : Loan) (id : ℕ) (after : List Loan)
    → open_in_table calls now user_id wallet fee dto loans (some row) ≡ (id, after)
    → row.id ≡ id
unfolding open_in_table
existing-id calls now user_id wallet fee dto loans row id after e = ap (λ r. r.0) e

existing-table :
    (calls : OpenCalls) (now user_id : ℕ) (wallet : Text) (fee : ℕ) (dto : InformLoan)
    (loans : List Loan) (row : Loan) (id : ℕ) (after : List Loan)
    → open_in_table calls now user_id wallet fee dto loans (some row) ≡ (id, after)
    → loans ≡ after
unfolding open_in_table
existing-table calls now user_id wallet fee dto loans row id after e = ap (λ r. r.1) e

-- The answer to the same report: a row of the hash answers without the chain, which is asked anew
-- where no row bears it.
abbrev pub answer_again :
    OpenCalls → Text → Text → ℕ → List Loan → Option Loan → Result OpenError Opened
answer_again again tx wallet id after seen =
    if is_none seen && not (again.verify_opened tx wallet)
    then err tx_not_opened
    else ok (id, after)

-- A row that was added is the one of its hash.
new-again :
    (calls again : OpenCalls) (now later : ℕ) (dto : InformLoan) (wallet : Text)
    (applicant : Applicant) (loans : List Loan) (fee id : ℕ) (after : List Loan)
    → opened_by dto.tx_hash loans ≡ none
    → open_in_table calls now applicant.row.id wallet fee dto loans none ≡ (id, after)
    → open_new again later dto wallet applicant after (opened_by dto.tx_hash after)
      ≡ answer_again again dto.tx_hash wallet id after (opened_by dto.tx_hash after)
unfolding open_in_table open_new reported_row
new-again calls again now later dto wallet applicant loans fee id after at e =
    let row = reported_row (calls.new_id loans) applicant.row.id wallet now fee dto in
    let seen =
      close_orphans-opened_by now applicant.row.id dto.tx_hash loans row at
        (text_eq_refl dto.tx_hash) in
    subst
      (λ r.
        open_new again later dto wallet applicant r.1 (opened_by dto.tx_hash r.1)
        ≡ answer_again again dto.tx_hash wallet r.0 r.1 (opened_by dto.tx_hash r.1))
      e (rw seen refl)

-- Where an open row was there, and no row of the hash, the chain is asked again.
open-again :
    (again : OpenCalls) (later : ℕ) (dto : InformLoan) (wallet : Text) (applicant : Applicant)
    (loans : List Loan) (row : Loan) (micros fee : ℕ)
    → opened_by dto.tx_hash loans ≡ none
    → allowed (requested dto.amount_human) ≡ ok micros
    → allowed (fee_for dto.tenor_days applicant loans) ≡ ok fee
    → find_loan (is_existing_open applicant.row.id) loans ≡ some row
    → open_new again later dto wallet applicant loans (opened_by dto.tx_hash loans)
      ≡ answer_again again dto.tx_hash wallet row.id loans (opened_by dto.tx_hash loans)
unfolding open_new open_in_table
open-again again later dto wallet applicant loans row micros fee at parsed priced open_one =
    elim (Bool-cases (again.verify_opened dto.tx_hash wallet)) [
      | inl verified ↦ rw (at, open_new, verified, parsed, priced, open_one) refl
      | inr unseen ↦ rw (at, open_new, unseen) refl
    ]

-- What a report that was accepted leaves: the row of its hash, or the open row that was there.
open_new-again :
    (calls again : OpenCalls) (now later : ℕ) (dto : InformLoan) (wallet : Text)
    (applicant : Applicant) (loans : List Loan) (seen : Option Loan) (id : ℕ) (after : List Loan)
    → opened_by dto.tx_hash loans ≡ seen
    → open_new calls now dto wallet applicant loans seen ≡ ok (id, after)
    → open_new again later dto wallet applicant after (opened_by dto.tx_hash after)
      ≡ answer_again again dto.tx_hash wallet id after (opened_by dto.tx_hash after)
unfolding open_new
open_new-again calls again now later dto wallet applicant loans (some row) id after at e =
    let same : loans ≡ after = ground arith in
    let same_id : row.id ≡ id = ground arith in
    subst
      (λ t.
        open_new again later dto wallet applicant t (opened_by dto.tx_hash t)
        ≡ answer_again again dto.tx_hash wallet id t (opened_by dto.tx_hash t))
      same (rw (at, same_id) refl)
open_new-again calls again now later dto wallet applicant loans none id after at e =
    let (verified, e1) =
      throw_if-eq-ok (not (calls.verify_opened dto.tx_hash wallet)) tx_not_opened _ e in
    let (micros, parsed, e2) = >>=-eq-ok (allowed (requested dto.amount_human)) _ e1 in
    let (fee, priced, e3) = >>=-eq-ok (allowed (fee_for dto.tenor_days applicant loans)) _ e2 in
    elim (Option-cases (find_loan (is_existing_open applicant.row.id) loans)) [
      | inl missing ↦
          let made =
            sym (
              ap (open_in_table calls now applicant.row.id wallet fee dto loans)
                (neither loans applicant.row.id dto.tx_hash missing at))
            ∙ ok_injective e3 in
          new-again calls again now later dto wallet applicant loans fee id after at made
      | inr (row, open_one) ↦
          let made =
            sym (
              ap (open_in_table calls now applicant.row.id wallet fee dto loans)
                (the_open loans applicant.row.id dto.tx_hash row open_one))
            ∙ ok_injective e3 in
          let same : loans ≡ after =
            existing-table calls now applicant.row.id wallet fee dto loans row id after made in
          let same_id : row.id ≡ id =
            existing-id calls now applicant.row.id wallet fee dto loans row id after made in
          subst
            (λ t.
              open_new again later dto wallet applicant t (opened_by dto.tx_hash t)
              ≡ answer_again again dto.tx_hash wallet id t (opened_by dto.tx_hash t))
            same
            (subst
              (λ i.
                open_new again later dto wallet applicant loans (opened_by dto.tx_hash loans)
                ≡ answer_again again dto.tx_hash wallet i loans (opened_by dto.tx_hash loans))
              same_id
              (open-again again later dto wallet applicant loans row micros fee at parsed priced
                open_one))
    ]

-- If the report of an opened loan is accepted, the same report at any later time, from a user whose
-- row is as it was, leaves the table as it is, whatever the chain then says of the transaction: if a
-- row bears the transaction's hash, it is answered with the same loan and the chain is not asked; if
-- none does, since the first was answered with another open row, it is answered with the same loan
-- if the chain confirms the transaction then, and refused if not.
pub inform_loan_opened_again :
    (calls again : OpenCalls) (now later : ℕ) (dto : InformLoan) (loans : List Loan) (id : ℕ)
    (after : List Loan) (wallet : Text)
    → receiver_or_invalid dto.wallet_address ≡ ok wallet
    → again.find_applicant wallet ≡ calls.find_applicant wallet
    → inform_loan_opened calls now dto loans ≡ ok (id, after)
    → inform_loan_opened again later dto after ≡ (
        if is_none (opened_by dto.tx_hash after) && not (again.verify_opened dto.tx_hash wallet)
        then err tx_not_opened
        else ok (id, after))
unfolding inform_loan_opened
inform_loan_opened_again calls again now later dto loans id after wallet given same e =
    let e1 = rw (inform_loan_opened, given) at e in
    let (applicant, at, e2) =
      >>=-eq-ok (allowed (or_throw user_not_found (calls.find_applicant wallet))) _ e1 in
    let (days, e3) = >>-eq-ok (allowed (throw_if (dto.tenor_days == 0) invalid_tenor_days)) _ e2 in
    let (tenor, e4) =
      >>-eq-ok (allowed (throw_if (not (is_allowed_tenor dto.tenor_days)) invalid_tenor_days)) _
        e3 in
    let told = open_new-again calls again now later dto wallet applicant loans _ id after refl e4 in
    rw (inform_loan_opened, given, same, at, days, tenor) told
