-- ===== src/Tests/Ledgers.antt =====
-- Loans, their jobs and their reports, on a table of two rows.
use lendoor_stellar.Common.{
  ℕ, suc, ◌+◌, ◌≤◌, ◌<◌, ◌≡◌, ◌≢◌, refl, true, false, none, some, List, [], ◌∷◌, Text, codes, ok,
  err, arith, All, max, ◌==◌,
}
use mathlib.Core.Path.{subst}
use lendoor_stellar.Cctp.Transfer.{is_falsy}
use lendoor_stellar.Wallet.{normalize_wallet}
use lendoor_stellar.Loans.{Loan, Borrower, find_loan, find_user}
use lendoor_stellar.Loans.Score.{Ledger}
use lendoor_stellar.Loans.Table.{IsTable}
use lendoor_stellar.Loans.Reconcile.{ClosedEvent, closed_by, reconcile_loan}
use lendoor_stellar.Loans.Reconcile.Effect.{reconcile_loan_once}
use lendoor_stellar.Loans.Sync.{OnChain, ChainCalls, sync_address}
use lendoor_stellar.Loans.Sync.Safety.{sync_address-keeps_active}
use lendoor_stellar.Loans.Scan.{
  OpenedEvent, ScanCalls, ScanCounts, ScanState, scan_loan_opened_events,
}
use lendoor_stellar.Loans.Scan.Rows.{IsFresh}
use lendoor_stellar.Loans.Scan.Answers.{IsAnswered}
use lendoor_stellar.Loans.Scan.Cursor.{scan-answers, run_scans, scan_catches_up}
use lendoor_stellar.Loans.Repay.{
  check_on_chain, unknown, chain_unreadable, InformRepayment, verified, RepayCalls, Settlement,
  closing, settled, wallet_or_invalid, process_repayment,
}
use lendoor_stellar.Loans.Repay.Again.{row_of, process_repayment_again}
use lendoor_stellar.Loans.Repay.Score.{IsFair, process_repayment-IsFair}
use lendoor_stellar.Loans.Recalc.{RecalcCalls, error, ladder_credit, recalc_user}
use lendoor_stellar.Loans.Recalc.Ladder.{IsOnLadder, recalc_user-IsOnLadder}
use lendoor_stellar.Loans.History.{
  with_ledger, sync_chain_job, History, begin, then_step, sync_chain, report, History-IsTable,
}
use lendoor_stellar.Loans.History.Settled.{History-keeps_settled}
use lendoor_stellar.Tests.LedgerSample.{
  borrower, paid_row, open_row, user_row, two_loans, two_loans-IsTable, closing_event, one_event,
  records_all, idle_chain,
}

one_event-real :
    (wallet : Text) (from : ℕ) (event : ClosedEvent)
    → one_event wallet from ≡ some (some event)
    → is_falsy (some event.tx_hash) ≡ false
one_event-real wallet from event e =
    let same : closing_event ≡ event = ground arith in
    subst (λ v. is_falsy (some v.tx_hash) ≡ false) same refl

reconcile_loan_once_example :
    let after : Ledger = (reconcile_loan one_event records_all open_row 7 two_loans).1 in
    ((event : ClosedEvent) × (fresh : Loan) × (one_event borrower 900000000 ≡ some (some event))
      × (find_loan (λ l. l.id == 2) two_loans.loans ≡ some fresh)
      × (find_loan (λ l. l.id == 2) after.loans ≡ some (closed_by fresh event)))
    × (find_loan (λ l. l.id == 1) after.loans ≡ find_loan (λ l. l.id == 1) two_loans.loans)
    × ((reconcile_loan one_event records_all open_row 7 after).1 ≡ after)
unfolding reconcile_loan
reconcile_loan_once_example =
    reconcile_loan_once one_event one_event records_all records_all open_row 7 7 1 two_loans
      one_event-real (λ e. absurd (ground (arith, e))) refl

-- A chain on which the open loan is active.
abbrev active_loan : OnChain
active_loan = record { active = true; start = 900030 }

abbrev active_chain : ChainCalls
active_chain = record {
  latest = some 25000;
  read_loan = λ wallet. some active_loan;
  find_closed = λ block. one_event;
  write = records_all;
}

sync_address-keeps_active_example :
    ((sync_address active_chain one_event two_loans.users (open_row ∷ paid_row ∷ []) two_loans).0
      ≢ none)
    × (find_loan
          (λ m. m.id == 2)
          (sync_address active_chain one_event two_loans.users
            (open_row ∷ paid_row ∷ [])
            two_loans).1.loans
        ≡ find_loan (λ m. m.id == 2) two_loans.loans)
sync_address-keeps_active_example =
    sync_address-keeps_active active_chain one_event two_loans.users open_row (paid_row ∷ [])
      two_loans active_loan ((λ e. absurd (ground (arith, e))), tt) refl refl refl

-- The scanner, with identifiers one above the highest.
abbrev above_all : List Loan → ℕ
above_all [] = 1
above_all (l ∷ ls) = max (suc l.id) (above_all ls)

below_head : (i n a : ℕ) → max (suc i) a ≤ n → (i == n) ≡ false
below_head i n a h = let lt : i < n = omega (arith, h) in ground arith

below-All : (n : ℕ) (ls : List Loan) → above_all ls ≤ n → All (λ m. (m.id == n) ≡ false) ls
below-All n [] h = tt
below-All n (l ∷ ls) h = (below_head l.id n (above_all ls) h, below-All n ls (omega arith))

above_all-IsFresh : IsFresh above_all
above_all-IsFresh ls = below-All (above_all ls) ls (omega arith)

abbrev new_event : OpenedEvent
new_event = record {
  tx_hash = codes "c1";
  borrower = borrower;
  principal = 30000000;
  amount_due = 31000000;
  due = 2200000;
  fee_bps = 333;
  timestamp = 1600000;
}

abbrev scanned_chain : ScanCalls
scanned_chain = record {
  latest = some 25000;
  opened_events = λ from to. some (new_event ∷ []);
  new_id = above_all;
  throws = λ event. false;
}

abbrev at_one : ScanState
at_one = record { cursor = some 1; ledger = two_loans }

scan-answers_example :
    let after : ScanCounts × ScanState = scan_loan_opened_events scanned_chain at_one in
    (after.1.cursor ≡ some 10001)
    × All (IsAnswered scanned_chain two_loans.users after.1.ledger.loans) (new_event ∷ [])
    × (after.0.inserted + after.0.skipped + after.0.errors ≡ 1)
    × (after.0.scanned ≡ 1)
scan-answers_example = scan-answers scanned_chain at_one 25000 (new_event ∷ []) refl refl refl

scan_catches_up_example : (run_scans 3 scanned_chain at_one).cursor ≡ some 25000
scan_catches_up_example =
    scan_catches_up 2 scanned_chain at_one 25000 refl (λ from to. refl) (omega arith) (omega arith)

-- A report of the borrower, verified by its transaction.
abbrev repaid : InformRepayment
repaid = record {
  wallet_address = borrower;
  amount_paid_human = 2100000;
  tx_hash = some (codes "d2");
}

abbrev verifying : RepayCalls
verifying = record {
  verify_repay = λ tx wallet. verified (some 21000000);
  loan_active = λ wallet. none;
  write = records_all;
}

abbrev repaid_plan : Settlement
repaid_plan = closing user_row (settled open_row 1500000000 21000000 (some (codes "d2"))) false

-- The chain of a later time, which does not answer.
abbrev unanswering : RepayCalls
unanswering = record verifying { verify_repay = λ tx wallet. unknown }

given : wallet_or_invalid borrower ≡ ok borrower
unfolding normalize_wallet
given = refl

accepted : (process_repayment verifying 1500000000 repaid two_loans).0 ≡ ok repaid_plan
unfolding process_repayment normalize_wallet settled
accepted = refl

process_repayment_again_example :
    let after : Ledger = (process_repayment verifying 1500000000 repaid two_loans).1 in
    process_repayment unanswering 1600000000 repaid after ≡ (err chain_unreadable, after)
unfolding check_on_chain
process_repayment_again_example =
    process_repayment_again verifying unanswering 1500000000 1600000000 repaid two_loans repaid_plan
      borrower refl given accepted

process_repayment-IsFair_example :
    (v : Borrower) × (find_user 7 (process_repayment verifying 1500000000 repaid two_loans).1.users
      ≡ some v)
    × IsFair records_all (row_of repaid_plan).is_on_time user_row v
process_repayment-IsFair_example =
    process_repayment-IsFair verifying 1500000000 repaid two_loans repaid_plan borrower user_row
      given refl refl accepted

-- The recalculation, on a chain that has nothing of the user.
abbrev empty_chain : RecalcCalls
empty_chain = record { read_risk = λ wallet. some none; write = records_all }

recalculated : (recalc_user empty_chain user_row true two_loans).0 ≢ error
unfolding recalc_user
recalculated e = cc

recalc_user-IsOnLadder_example :
    (v : Borrower) × (find_user 7 (recalc_user empty_chain user_row true two_loans).1.users
      ≡ some v)
    × IsOnLadder (ladder_credit 0) v
    × (v.had_default_ever ≡ true)
recalc_user-IsOnLadder_example =
    recalc_user-IsOnLadder empty_chain user_row true two_loans refl refl recalculated

-- A day: the borrower reports, and the job runs.
abbrev reported : ScanState
reported = with_ledger at_one (process_repayment verifying 1500000000 repaid two_loans).1

abbrev day : History at_one (sync_chain_job scanned_chain idle_chain reported)
day =
    then_step (then_step begin (report verifying 1500000000 repaid refl))
      (sync_chain scanned_chain idle_chain above_all-IsFresh)

History-IsTable_example : IsTable (sync_chain_job scanned_chain idle_chain reported).ledger.loans
History-IsTable_example = History-IsTable day two_loans-IsTable

History-keeps_settled_example :
    find_loan (λ m. m.id == 1) (sync_chain_job scanned_chain idle_chain reported).ledger.loans
    ≡ some paid_row
History-keeps_settled_example = History-keeps_settled paid_row refl day two_loans-IsTable refl
