-- ===== src/Loans/History.antt =====
-- The synchronisation and the recalculation, two of the jobs of
-- backend/src/infrastructure/queue/chain-sync.processor.ts, and the reports of repayments on one
-- database, in any order and with any answers of the chain. Each is one whole step.
pub mod Settled
use mathlib.Core.Path.{subst}
use lendoor_stellar.Common.{ℕ, ◌≡◌, sym}
use lendoor_stellar.Loans.Score.{Ledger}
use lendoor_stellar.Loans.Table.{IsTable}
use lendoor_stellar.Loans.Scan.{ScanCalls, ScanState, scan_loan_opened_events}
use lendoor_stellar.Loans.Scan.Rows.{IsFresh, scan-IsTable}
use lendoor_stellar.Loans.Sync.{ChainCalls, sync_loans_with_chain}
use lendoor_stellar.Loans.Sync.Safety.{sync_loans_with_chain-IsTable}
use lendoor_stellar.Loans.Recalc.{RecalcCalls, recalculate_all_limits}
use lendoor_stellar.Loans.Recalc.Ladder.{recalculate_all_limits-loans}
use lendoor_stellar.Loans.Repay.{InformRepayment, RepayCalls, process_repayment}
use lendoor_stellar.Loans.Repay.Table.{IsReport, process_repayment-IsTable}

abbrev pub with_ledger : ScanState → Ledger → ScanState
with_ledger state ledger = record state { ledger = ledger }

-- The job that looks for new loans, and then for closed ones.
unfoldable pub sync_chain_job : ScanCalls → ChainCalls → ScanState → ScanState
unfolding scan_loan_opened_events sync_loans_with_chain
sync_chain_job scan calls state =
    let scanned = (scan_loan_opened_events scan state).1 in
    with_ledger scanned (sync_loans_with_chain calls scanned.ledger).1

-- What may happen to the cursor and the tables.
pub data Step : ScanState → ScanState → Type 0 where
  sync_chain :
      {state : ScanState} (scan : ScanCalls) (calls : ChainCalls)
      → IsFresh scan.new_id
      → Step state (sync_chain_job scan calls state)
  recalculate :
      {state : ScanState} (calls : RecalcCalls)
      → Step state (with_ledger state (recalculate_all_limits calls state.ledger))
  report :
      {state : ScanState} (calls : RepayCalls) (now : ℕ) (dto : InformRepayment)
      → IsReport dto
      → Step state (with_ledger state (process_repayment calls now dto state.ledger).1)

-- A sequence of such events.
pub data History : ScanState → ScanState → Type 0 where
  begin : {state : ScanState} → History state state
  then_step : {a b c : ScanState} → History a b → Step b c → History a c

pub Step-IsTable : {a b : ScanState} → Step a b → IsTable a.ledger.loans → IsTable b.ledger.loans
unfolding sync_chain_job
Step-IsTable {a = a} (sync_chain scan calls fresh) t =
    sync_loans_with_chain-IsTable calls (scan_loan_opened_events scan a).1.ledger
      (scan-IsTable scan a fresh t)
Step-IsTable {a = a} (recalculate calls) t =
    subst IsTable (sym (recalculate_all_limits-loans calls a.ledger)) t
Step-IsTable {a = a} (report calls now dto valid) t =
    process_repayment-IsTable calls now dto a.ledger valid t

-- Whatever the synchronisation, the recalculation and the reports of repayments do, in whatever order,
-- and whatever the chain answers: no two rows have an identifier, an opening transaction or a closing
-- transaction in common, and each row's flag, closing time and closing transaction agree with its
-- status, if this held at the beginning. A new row is given an identifier that no row has, and no
-- report has an empty transaction hash.
pub History-IsTable :
    {a b : ScanState} → History a b → IsTable a.ledger.loans → IsTable b.ledger.loans
History-IsTable begin t = t
History-IsTable (then_step before last) t = Step-IsTable last (History-IsTable before t)
