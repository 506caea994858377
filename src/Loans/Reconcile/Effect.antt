-- ===== src/Loans/Reconcile/Effect.antt =====
-- What `reconcileLoan` does to the two tables.
use lendoor_stellar.Common.{
  ℕ, ◌≡◌, ◌≢◌, refl, sym, Bool, true, false, Option, none, some, List, Text, ◌==◌, arith, inl, inr,
  Option-cases,
}
use mathlib.Core.Path.{subst}
use lendoor_stellar.Cctp.Transfer.{is_falsy}
use lendoor_stellar.Loans.{Loan, find_loan, save_loan, find_user, WriteCredit}
use lendoor_stellar.Loans.Score.{Ledger, update_credit_score}
use lendoor_stellar.Loans.Table.{IsTable, find_loan-holds, find_loan-save, find_loan-save_other}
use lendoor_stellar.Loans.Reconcile.{
  ClosedEvent, closed_by, close_in_table, FindClosed, reconcile_loan,
}
use lendoor_stellar.Loans.Reconcile.Closing.{
  close_row-eq-some, close_in_table-eq-some, close_in_table-IsTable,
}

-- Credit is no matter of the loans.
pub update_credit_score-loans :
    (write : WriteCredit) (wallet : Text) (user_id : ℕ) (on_time : Bool) (ledger : Ledger)
    → (update_credit_score write wallet user_id on_time ledger).loans ≡ ledger.loans
unfolding update_credit_score
update_credit_score-loans write wallet user_id on_time ledger =
    elim (Option-cases (find_user user_id ledger.users)) [
      | inl e ↦ rw (update_credit_score, e) refl
      | inr (user, e) ↦ rw (update_credit_score, e) refl
    ]

-- The two ends of a call: nothing was done, or the row of an event was saved.
pub data Outcome (find : FindClosed) (loan : Loan) (before : Ledger) (result : Option Bool × Ledger)
    : Type 0 where
  untouched : result.0 ≢ some true → result.1 ≡ before → Outcome find loan before result
  closed_row :
      (row : Loan) (found : Option ClosedEvent)
      → find loan.borrower_address loan.start_at ≡ some found
      → close_in_table before.loans loan.id found ≡ some row
      → result.1.loans ≡ save_loan row before.loans
      → Outcome find loan before result

pub reconcile_loan-Outcome :
    (find : FindClosed) (write : WriteCredit) (loan : Loan) (user_id : ℕ) (ledger : Ledger)
    → Outcome find loan ledger (reconcile_loan find write loan user_id ledger)
unfolding reconcile_loan
reconcile_loan-Outcome find write loan user_id ledger =
    elim (Option-cases (find loan.borrower_address loan.start_at)) [
      | inl e ↦ rw (reconcile_loan, e) (untouched (λ h. cc) refl)
      | inr (found, e) ↦ elim (Option-cases (close_in_table ledger.loans loan.id found)) [
        | inl none_closed ↦ rw (reconcile_loan, e, none_closed) (untouched (λ h. cc) refl)
        | inr (row, closed) ↦
            rw (reconcile_loan, e, closed)
              (closed_row row found e closed (
                update_credit_score-loans write loan.borrower_address user_id row.is_on_time
                  (record ledger { loans = save_loan row ledger.loans })))
      ]
    ]

-- Reconciling a row keeps the table, whatever the chain answers.
pub reconcile_loan-IsTable :
    (find : FindClosed) (write : WriteCredit) (loan : Loan) (user_id : ℕ) (ledger : Ledger)
    → IsTable ledger.loans
    → IsTable (reconcile_loan find write loan user_id ledger).1.loans
reconcile_loan-IsTable find write loan user_id ledger t =
    elim (reconcile_loan-Outcome find write loan user_id ledger) [
      | untouched _ e ↦ subst (λ l. IsTable l.loans) (sym e) t
      | closed_row row found _ closed e ↦
          subst IsTable (sym e) (close_in_table-IsTable ledger.loans loan.id row found closed t)
    ]

-- The row that an event closes is the row of the identifier, and bears the event.
closed_row_id :
    (loans : List Loan) (id : ℕ) (row : Loan) (found : Option ClosedEvent)
    → close_in_table loans id found ≡ some row
    → (event : ClosedEvent) × (fresh : Loan) × (found ≡ some event)
      × (find_loan (λ l. l.id == id) loans ≡ some fresh)
      × (row ≡ closed_by fresh event)
      × (row.id ≡ id)
unfolding closed_by
closed_row_id loans id row found e =
    let (fresh, at, closed) = close_in_table-eq-some loans id row found e in
    let (event, here, made, _, _, _) = close_row-eq-some loans fresh row found closed in
    let same = find_loan-holds (λ l. l.id == id) fresh loans at in
    (event, fresh, here, at, made, subst (λ r. r.id ≡ id) (sym made) (ground arith))

-- A row that has a closing transaction is not closed again.
close_in_table_again :
    (loans : List Loan) (id : ℕ) (row : Loan) (found : Option ClosedEvent)
    → find_loan (λ l. l.id == id) loans ≡ some row
    → is_falsy row.close_tx_hash ≡ false
    → close_in_table loans id found ≡ none
unfolding close_in_table
close_in_table_again loans id row none at closed = rw (close_in_table, at) refl
close_in_table_again loans id row (some event) at closed = rw (close_in_table, at) (rw closed refl)

not_same : (i j : ℕ) → i ≢ j → (j == i) ≡ false
not_same i j n = ground arith

-- Every other row is found as before.
pub reconcile_loan-other :
    (find : FindClosed) (write : WriteCredit) (loan : Loan) (user_id i : ℕ) (ledger : Ledger)
    → i ≢ loan.id
    → find_loan (λ l. l.id == i) (reconcile_loan find write loan user_id ledger).1.loans
      ≡ find_loan (λ l. l.id == i) ledger.loans
reconcile_loan-other find write loan user_id i ledger other =
    elim (reconcile_loan-Outcome find write loan user_id ledger) [
      | untouched _ same ↦ rw same refl
      | closed_row row found _ closed saved ↦
          let (_, _, _, _, _, same) = closed_row_id ledger.loans loan.id row found closed in
          rw saved (find_loan-save_other row i ledger.loans (rw same (not_same i loan.id other)))
    ]

-- A row with a closing transaction is left alone.
pub reconcile_loan-closed :
    (find : FindClosed) (write : WriteCredit) (loan row : Loan) (user_id : ℕ) (ledger : Ledger)
    → find_loan (λ l. l.id == loan.id) ledger.loans ≡ some row
    → is_falsy row.close_tx_hash ≡ false
    → (reconcile_loan find write loan user_id ledger).1 ≡ ledger
reconcile_loan-closed find write loan row user_id ledger at closed =
    elim (reconcile_loan-Outcome find write loan user_id ledger) [
      | untouched _ same ↦ same
      | closed_row row' found _ again _ ↦
          let never = close_in_table_again ledger.loans loan.id row found at closed in absurd cc
    ]

-- If a call reconciles a row, the row of its identifier is found again as the event that the chain
-- gave makes it, every other row is found as before, and a later call for the same row, whatever the
-- chain then answers, leaves both tables as they are. The chain is assumed to give no event an empty
-- transaction hash.
pub reconcile_loan_once :
    (find find' : FindClosed) (write write' : WriteCredit) (loan : Loan) (user_id user_id' i : ℕ)
    (ledger : Ledger)
    → ((wallet : Text) (from : ℕ) (event : ClosedEvent)
        → find wallet from ≡ some (some event)
        → is_falsy (some event.tx_hash) ≡ false)
    → i ≢ loan.id
    → (reconcile_loan find write loan user_id ledger).0 ≡ some true
    → let after : Ledger = (reconcile_loan find write loan user_id ledger).1 in
      ((event : ClosedEvent) × (fresh : Loan) × (find loan.borrower_address loan.start_at
          ≡ some (some event))
        × (find_loan (λ l. l.id == loan.id) ledger.loans ≡ some fresh)
        × (find_loan (λ l. l.id == loan.id) after.loans ≡ some (closed_by fresh event)))
      × (find_loan (λ l. l.id == i) after.loans ≡ find_loan (λ l. l.id == i) ledger.loans)
      × ((reconcile_loan find' write' loan user_id' after).1 ≡ after)
unfolding closed_by
reconcile_loan_once find find' write write' loan user_id user_id' i ledger real other done =
    elim (reconcile_loan-Outcome find write loan user_id ledger) [
      | untouched not_done _ ↦ absurd (not_done done)
      | closed_row row found call closed saved ↦
          let (event, fresh, here, at, made, same) =
            closed_row_id ledger.loans loan.id row found closed in
          let now_at = find_loan-save row fresh loan.id ledger.loans at same in
          let hash = real loan.borrower_address loan.start_at event (rw (call, here) refl) in
          (
            (event, fresh, rw (call, here) refl, at, rw (saved, now_at, made) refl),
            reconcile_loan-other find write loan user_id i ledger other,
            reconcile_loan-closed find' write' loan row user_id' _ (rw (saved, now_at) refl)
                (subst (λ r. is_falsy r.close_tx_hash ≡ false) (sym made) hash),
          )
    ]
