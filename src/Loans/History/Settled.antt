-- ===== src/Loans/History/Settled.antt =====
-- A row with a closing transaction, through the whole history of the tables.
use mathlib.Core.Path.{subst}
use lendoor_stellar.Common.{
  ℕ, ◌≡◌, refl, sym, ◌∙◌, inl, inr, true, false, Option, none, some, List, [], ◌∷◌, ◌++◌, Text,
  ◌==◌, arith, Bool-cases, Option-cases, Result-cases, is_none, leb, ◌+◌,
}
use lendoor_stellar.Cctp.Transfer.{is_falsy}
use lendoor_stellar.Loans.{Loan, Borrower, find_loan, find_latest, find_wallet, WriteCredit}
use lendoor_stellar.Loans.Score.{Ledger}
use lendoor_stellar.Loans.Table.{IsTable, find_loan-save_other}
use lendoor_stellar.Loans.Table.Latest.{find_latest-holds, find_latest-by_id}
use lendoor_stellar.Loans.Scan.{
  OpenedEvent, ScanCalls, ScanCounts, opened_by, insert_missing_loan, insert_all, ScanState,
  scan_window, scan_loan_opened_events, from_block, to_block,
}
use lendoor_stellar.Loans.Sync.Safety.{sync-keeps_settled}
use lendoor_stellar.Loans.Recalc.Ladder.{recalculate_all_limits-loans}
use lendoor_stellar.Loans.Repay.{
  InformRepayment, RepayCalls, Settlement, is_repayable, settled, plan_repayment, carry_out,
  process_repayment,
}
use lendoor_stellar.Loans.Repay.Plan.{Planned, known, open_row, plan_repayment-Planned}
use lendoor_stellar.Loans.Repay.Table.{settle_credit-loans}
use lendoor_stellar.Loans.History.{
  sync_chain_job, Step, sync_chain, recalculate, report, History, begin, then_step, History-IsTable,
}

-- The row stands in the table.
abbrev pub Stands : Loan → List Loan → Type 0
Stands row loans = find_loan (λ m. m.id == row.id) loans ≡ some row

Stands-append : (row u : Loan) (ls : List Loan) → Stands row ls → Stands row (ls ++ (u ∷ []))
Stands-append row u [] h = absurd cc
Stands-append row u (l ∷ ls) h = elim (Bool-cases (l.id == row.id)) [
  | inl here ↦ ground arith
  | inr later ↦ let rest = Stands-append row u ls (ground arith) in ground arith
]

insert_missing_loan-Stands :
    (calls : ScanCalls) (event : OpenedEvent) (users : List Borrower) (loans : List Loan)
    (row : Loan)
    → Stands row loans
    → Stands row (insert_missing_loan calls event users loans).1
unfolding insert_missing_loan
insert_missing_loan-Stands calls event users loans row h =
    elim (Option-cases (opened_by event.tx_hash loans)) [
      | inr (existing, seen) ↦ rw (insert_missing_loan, seen) h
      | inl new ↦ elim (Option-cases (find_wallet event.borrower users)) [
        | inl missing ↦ rw (insert_missing_loan, new, missing) h
        | inr (user, at) ↦ elim (Bool-cases (calls.throws event)) [
          | inl thrown ↦ rw (insert_missing_loan, new, at, thrown) h
          | inr written ↦ rw (insert_missing_loan, new, at, written) (Stands-append row _ loans h)
        ]
      ]
    ]

insert_all-Stands :
    (calls : ScanCalls) (users : List Borrower) (events : List OpenedEvent) (counts : ScanCounts)
    (loans : List Loan) (row : Loan)
    → Stands row loans
    → Stands row (insert_all calls users events (counts, loans)).1
unfolding insert_all
insert_all-Stands calls users [] counts loans row h = h
insert_all-Stands calls users (event ∷ events) counts loans row h =
    insert_all-Stands calls users events _ _ row
      (insert_missing_loan-Stands calls event users loans row h)

scan-Stands :
    (calls : ScanCalls) (state : ScanState) (row : Loan)
    → Stands row state.ledger.loans
    → Stands row (scan_loan_opened_events calls state).1.ledger.loans
unfolding scan_loan_opened_events scan_window
scan-Stands calls state row h = elim (Option-cases calls.latest) [
  | inl failed ↦ rw (scan_loan_opened_events, failed) h
  | inr (current, read) ↦
      let from = from_block state.cursor current in
      elim (Bool-cases (leb current from)) [
        | inl done ↦ rw (scan_loan_opened_events, read, done) h
        | inr more ↦ elim (Option-cases (calls.opened_events (from + 1) (to_block from current))) [
          | inl failed ↦ rw (scan_loan_opened_events, read, more, scan_window, failed) h
          | inr (events, got) ↦
              rw (scan_loan_opened_events, read, more, scan_window, got)
                (insert_all-Stands calls state.ledger.users events _ state.ledger.loans row h)
        ]
      ]
]

-- A row that a repayment may close has no closing transaction.
repayable-unsettled :
    (user_id : ℕ) (l : Loan) → is_repayable user_id l ≡ true → is_none l.close_tx_hash ≡ true
repayable-unsettled user_id l h = ground arith

is_none-is_falsy : (o : Option Text) → is_none o ≡ true → is_falsy o ≡ true
is_none-is_falsy none h = refl
is_none-is_falsy (some t) h = absurd cc

repaid-other :
    (row loan : Loan) (user_id : ℕ) (ls : List Loan)
    → is_falsy row.close_tx_hash ≡ false
    → IsTable ls
    → Stands row ls
    → find_latest (is_repayable user_id) ls ≡ some loan
    → (loan.id == row.id) ≡ false
repaid-other row loan user_id ls real t h found = elim (Bool-cases (loan.id == row.id)) [
  | inr other ↦ other
  | inl same ↦
      let id : loan.id ≡ row.id = ground arith in
      let by_id = find_latest-by_id (is_repayable user_id) loan ls found t in
      let it : some loan ≡ some row =
        sym (subst (λ i. find_loan (λ m. m.id == i) ls ≡ some loan) id by_id) ∙ h in
      let eq : loan ≡ row = ground arith in
      let unset = is_none-is_falsy loan.close_tx_hash (
        repayable-unsettled user_id loan
          (find_latest-holds (is_repayable user_id) loan ls found)) in
      let unset_row = subst (λ r. is_falsy r.close_tx_hash ≡ true) eq unset in absurd cc
]

carry_out-Stands :
    (write : WriteCredit) (wallet : Text) (now : ℕ) (dto : InformRepayment) (user : Borrower)
    (plan : Settlement) (ledger : Ledger) (row : Loan)
    → is_falsy row.close_tx_hash ≡ false
    → IsTable ledger.loans
    → Planned now dto ledger user plan
    → Stands row ledger.loans
    → Stands row (carry_out write wallet plan ledger).loans
unfolding carry_out settled
carry_out-Stands write wallet now dto user _ ledger row real t (known r seen) h = h
carry_out-Stands write wallet now dto user _ ledger row real t (open_row loan amount new found) h =
    rw (settle_credit-loans write wallet _ _ _ _) (
      find_loan-save_other (settled loan now amount dto.tx_hash) row.id ledger.loans
        (repaid-other row loan user.id ledger.loans real t h found)
      ∙ h)

process_repayment-Stands :
    (calls : RepayCalls) (now : ℕ) (dto : InformRepayment) (ledger : Ledger) (row : Loan)
    → is_falsy row.close_tx_hash ≡ false
    → IsTable ledger.loans
    → Stands row ledger.loans
    → Stands row (process_repayment calls now dto ledger).1.loans
unfolding process_repayment
process_repayment-Stands calls now dto ledger row real t h =
    elim (Result-cases (plan_repayment calls now dto ledger)) [
      | inr (e, failed) ↦ rw (process_repayment, failed) h
      | inl ((wallet, plan), planned) ↦
          let (user, _, made) = plan_repayment-Planned calls now dto ledger wallet plan planned in
          rw (process_repayment, planned)
            (carry_out-Stands calls.write wallet now dto user plan ledger row real t made h)
    ]

Step-Stands :
    {a b : ScanState} (row : Loan)
    → is_falsy row.close_tx_hash ≡ false
    → Step a b
    → IsTable a.ledger.loans
    → Stands row a.ledger.loans
    → Stands row b.ledger.loans
unfolding sync_chain_job
Step-Stands {a = a} row real (sync_chain scan calls fresh) t h =
    sync-keeps_settled calls row (scan_loan_opened_events scan a).1.ledger real
      (scan-Stands scan a row h)
Step-Stands {a = a} row real (recalculate calls) t h =
    rw (recalculate_all_limits-loans calls a.ledger) h
Step-Stands {a = a} row real (report calls now dto valid) t h =
    process_repayment-Stands calls now dto a.ledger row real t h

-- A row that has a closing transaction, in a table whose rows are apart and consistent, is found as it
-- is after any sequence of synchronisations, recalculations and reports of repayments, whatever the
-- chain answers. A new row is given an identifier that no row has, and no report has an empty
-- transaction hash.
pub History-keeps_settled :
    {a b : ScanState} (row : Loan)
    → is_falsy row.close_tx_hash ≡ false
    → History a b
    → IsTable a.ledger.loans
    → find_loan (λ m. m.id == row.id) a.ledger.loans ≡ some row
    → find_loan (λ m. m.id == row.id) b.ledger.loans ≡ some row
History-keeps_settled row real begin t h = h
History-keeps_settled row real (then_step before last) t h =
    Step-Stands row real last (History-IsTable before t) (History-keeps_settled row real before t h)
