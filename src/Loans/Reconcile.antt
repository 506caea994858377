-- ===== src/Loans/Reconcile.antt =====
-- `reconcileLoan` of backend/src/loan/chain-sync.service.ts: closing one row by the event that the
-- chain recorded for it.
pub mod Closing
pub mod Effect
use lendoor_stellar.Common.{
  ℕ, ◌+◌, ◌-◌, ◌*◌, Bool, true, false, not, ◌&&◌, ◌||◌, Option, none, some, List, [], ◌∷◌, Text,
  text_eq, ltb, leb, ◌==◌, if◌then◌else◌, and_then,
}
use lendoor_stellar.Cctp.Transfer.{is_falsy}
use lendoor_stellar.Loans.{
  LoanStatus, opened, repaid_on_time, repaid_late, defaulted_in_grace, defaulted, Loan, find_loan,
  find_latest, save_loan, same_hash, WriteCredit,
}
use lendoor_stellar.Loans.Score.{Ledger, update_credit_score}

-- ChainLoanClosedEvent; its time is in seconds
pub record ClosedEvent : Type 0 where
  pub tx_hash : Text
  pub amount_paid : ℕ
  pub timestamp : ℕ

-- REPAID_ON_TIME_GRACE_MS
abbrev pub grace_ms : ℕ
grace_ms = 86400000

-- Every status passes the test that the transaction makes of it.
abbrev pub is_reconcilable : LoanStatus → Bool
is_reconcilable opened = true
is_reconcilable repaid_on_time = true
is_reconcilable repaid_late = true
is_reconcilable defaulted_in_grace = true
is_reconcilable defaulted = true

-- `found && found.id !== id`
abbrev pub is_another : ℕ → Option Loan → Bool
is_another id none = false
is_another id (some l) = not (l.id == id)

-- The loan of the same borrower that started last between this loan and the event.
abbrev pub closer_loan : List Loan → Loan → ClosedEvent → Option Loan
closer_loan loans fresh event =
    find_latest
      (λ l.
        text_eq l.borrower_address fresh.borrower_address
        && leb (fresh.start_at + 1) l.start_at
        && leb l.start_at (event.timestamp * 1000))
      loans

abbrev pub holder_of : List Loan → ClosedEvent → Option Loan
holder_of loans event = find_loan (λ l. same_hash l.close_tx_hash (some event.tx_hash)) loans

-- The row that the event makes of a loan.
unfoldable pub closed_by : Loan → ClosedEvent → Loan
closed_by fresh event =
    let closed_at = event.timestamp * 1000 in
    let on_time = leb closed_at (fresh.due_at + grace_ms) in
    record fresh {
      amount_paid = event.amount_paid;
      close_tx_hash = some event.tx_hash;
      closed_at = some closed_at;
      is_on_time = on_time;
      status = if on_time then repaid_on_time else repaid_late;
      synced_by_chain = true;
      late_fees_collected =
          if not on_time
            && ltb grace_ms (closed_at - fresh.due_at)
            && ltb fresh.amount_due_at_open event.amount_paid
          then event.amount_paid - fresh.amount_due_at_open
          else 0;
    }

-- The transaction: the row that it saves, if it does not give up.
unfoldable pub close_row : List Loan → Loan → Option ClosedEvent → Option Loan
unfolding closed_by
close_row loans fresh none = none
close_row loans fresh (some event) =
    if not (is_falsy fresh.close_tx_hash)
    then none
    else if not (is_reconcilable fresh.status)
    then none
    else if is_another fresh.id (closer_loan loans fresh event)
    then none
    else if is_another fresh.id (holder_of loans event)
    then none
    else some (closed_by fresh event)

unfoldable pub close_in_table : List Loan → ℕ → Option ClosedEvent → Option Loan
unfolding close_row
close_in_table loans id event =
    and_then (find_loan (λ l. l.id == id) loans) (λ fresh. close_row loans fresh event)

-- The search for the event; `none` is a failed call.
abbrev pub FindClosed : Type 0
FindClosed = Text → ℕ → Option (Option ClosedEvent)

-- reconcileLoan; `none` is the exception.
unfoldable pub reconcile_loan : FindClosed → WriteCredit → Loan → ℕ → Ledger → Option Bool × Ledger
unfolding close_in_table update_credit_score
reconcile_loan find write loan user_id ledger = elim (find loan.borrower_address loan.start_at) [
  | none ↦ (none, ledger)
  | some event ↦ elim (close_in_table ledger.loans loan.id event) [
    | none ↦ (some false, ledger)
    | some row ↦ (
      some true,
      update_credit_score write loan.borrower_address user_id row.is_on_time
          (record ledger { loans = save_loan row ledger.loans }),
    )
  ]
]
