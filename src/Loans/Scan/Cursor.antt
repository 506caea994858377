-- ===== src/Loans/Scan/Cursor.antt =====
-- Where the scanner's cursor goes.
use lendoor_stellar.Common.{
  ℕ, zero, suc, ◌+◌, ◌*◌, ◌≤◌, ◌≡◌, refl, ap, ◌∙◌, false, some, List, All, arith, Bool-cases,
  Option-cases, is_none, inl, inr, leb, length,
}
use lendoor_stellar.Loans.Scan.{
  OpenedEvent, ScanCalls, ScanCounts, counts_of, insert_all, ScanState, scan_window,
  scan_loan_opened_events, from_block, to_block, max_block_range,
}
use lendoor_stellar.Loans.Scan.Answers.{IsAnswered, insert_all-answers, insert_all-counts}

-- A run over a window that can be read.
scan-run :
    (calls : ScanCalls) (state : ScanState) (current : ℕ) (events : List OpenedEvent)
    → calls.latest ≡ some current
    → let from : ℕ = from_block state.cursor current in
      leb current from ≡ false
      → calls.opened_events (from + 1) (to_block from current) ≡ some events
      → let r =
          insert_all calls state.ledger.users events
            (counts_of (length events) 0, state.ledger.loans) in
        scan_loan_opened_events calls state ≡ (
          r.0,
          record state {
            cursor = some (to_block (from_block state.cursor current) current);
            ledger = record state.ledger { loans = r.1 };
          },
        )
unfolding scan_loan_opened_events scan_window
scan-run calls state current events latest more read =
    rw (scan_loan_opened_events, latest, more, scan_window, read) refl

-- If a run reads the window of blocks after its cursor, the cursor is afterwards at the window's end,
-- and each event of the window has its row, unless its borrower is no user or its write threw; every
-- event is counted once, as inserted, skipped or an error.
pub scan-answers :
    (calls : ScanCalls) (state : ScanState) (current : ℕ) (events : List OpenedEvent)
    → calls.latest ≡ some current
    → leb current (from_block state.cursor current) ≡ false
    → calls.opened_events
        (from_block state.cursor current + 1)
        (to_block (from_block state.cursor current) current)
      ≡ some events
    → let after : ScanCounts × ScanState = scan_loan_opened_events calls state in
      (after.1.cursor ≡ some (to_block (from_block state.cursor current) current))
      × All (IsAnswered calls state.ledger.users after.1.ledger.loans) events
      × (after.0.inserted + after.0.skipped + after.0.errors ≡ length events)
      × (after.0.scanned ≡ length events)
scan-answers calls state current events latest more read =
    let counts = counts_of (length events) 0 in
    let (same, sum) = insert_all-counts calls state.ledger.users events counts state.ledger.loans in
    rw (scan-run calls state current events latest more read) (
      refl,
      insert_all-answers calls state.ledger.users events counts state.ledger.loans,
      omega (arith, sum),
      same,
    )

-- One run, as far as the cursor goes.
scan-cursor :
    (calls : ScanCalls) (state : ScanState) (current : ℕ)
    → calls.latest ≡ some current
    → ((from to : ℕ) → is_none (calls.opened_events from to) ≡ false)
    → from_block state.cursor current ≤ current
    → (scan_loan_opened_events calls state).1.cursor
      ≡ some (to_block (from_block state.cursor current) current)
unfolding scan_loan_opened_events
scan-cursor calls state current latest readable le =
    let from = from_block state.cursor current in
    elim (Bool-cases (leb current from)) [
      | inl done ↦
          let there : from ≡ to_block from current = ground arith in
          rw (scan_loan_opened_events, latest, done) (ap some there)
      | inr more ↦ elim (Option-cases (calls.opened_events (from + 1) (to_block from current))) [
        | inl failed ↦
            let never = readable (from + 1) (to_block from current) in
            absurd (ground (arith, failed, never))
        | inr (events, read) ↦ rw (scan-run calls state current events latest more read) refl
      ]
    ]

abbrev pub run_scans : ℕ → ScanCalls → ScanState → ScanState
run_scans zero calls state = state
run_scans (suc n) calls state = run_scans n calls (scan_loan_opened_events calls state).1

-- A cursor that a run has left is where the next run begins.
from_block-again :
    (from current : ℕ)
    → from ≤ current
    → from_block (some (to_block from current)) current ≡ to_block from current
from_block-again from current le = ground arith

-- If the chain answers and stands still, a number of runs that covers the way from the cursor to the
-- latest ledger takes the cursor there, however long the way is.
pub scan_catches_up :
    (n : ℕ) (calls : ScanCalls) (state : ScanState) (current : ℕ)
    → calls.latest ≡ some current
    → ((from to : ℕ) → is_none (calls.opened_events from to) ≡ false)
    → from_block state.cursor current ≤ current
    → current ≤ from_block state.cursor current + suc n * max_block_range
    → (run_scans (suc n) calls state).cursor ≡ some current
scan_catches_up zero calls state current latest readable le way =
    scan-cursor calls state current latest readable le ∙ ap some (omega arith)
scan_catches_up (suc n) calls state current latest readable le way =
    let next = (scan_loan_opened_events calls state).1 in
    let at = scan-cursor calls state current latest readable le in
    let from = from_block state.cursor current in
    let begins : from_block next.cursor current ≡ to_block from current =
      rw at (from_block-again from current le) in
    scan_catches_up n calls next current latest readable (rw begins (omega arith))
      (rw begins (omega arith))
