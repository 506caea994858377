-- ===== src/Loans/Scan.antt =====
-- `scanLoanOpenedEvents` and `insertMissingLoan` of backend/src/loan/chain-sync.service.ts: rows for the
-- loans that the chain opened and nobody reported. The write is taken to be alone, so that the index
-- has no conflict to ignore after the check before it; a loan is due after its start.
pub mod Rows
pub mod Answers
pub mod Cursor
use lendoor_stellar.Common.{
  ℕ, ◌+◌, ◌-◌, ◌*◌, ◌/◌, Bool, true, false, not, ◌&&◌, ◌||◌, Option, none, some, List, [], ◌∷◌,
  ◌++◌, Text, text_eq, ltb, leb, ◌==◌, if◌then◌else◌, min, length,
}
use lendoor_stellar.Loans.{opened, Loan, Borrower, same_hash, find_loan, find_wallet}
use lendoor_stellar.Loans.Score.{Ledger}

-- ChainLoanOpenedEvent; its times are in seconds
pub record OpenedEvent : Type 0 where
  pub tx_hash : Text
  pub borrower : Text
  pub principal : ℕ
  pub amount_due : ℕ
  pub due : ℕ
  pub fee_bps : ℕ
  pub timestamp : ℕ

-- What a run asks of the chain and of the database: the latest ledger, the events from one block to
-- another, the identifier of a new row, and whether the write for an event throws. `none` is a failed
-- call.
pub record ScanCalls : Type 0 where
  pub latest : Option ℕ
  pub opened_events : ℕ → ℕ → Option (List OpenedEvent)
  pub new_id : List Loan → ℕ
  pub throws : OpenedEvent → Bool

pub data Insertion : Type 0 where
  inserted skipped : Insertion

-- The row of an event.
unfoldable pub opened_row : ℕ → Borrower → OpenedEvent → Loan
opened_row id user event = record {
  id = id;
  user_id = user.id;
  borrower_address = event.borrower;
  principal = event.principal;
  amount_due_at_open = event.amount_due;
  amount_paid = 0;
  tenor_days = (event.due - event.timestamp + 43200) / 86400;
  fee_bps = event.fee_bps;
  start_at = event.timestamp * 1000;
  due_at = event.due * 1000;
  closed_at = none;
  status = opened;
  is_on_time = false;
  open_tx_hash = some event.tx_hash;
  close_tx_hash = none;
  synced_by_chain = true;
  late_fees_collected = 0;
}

abbrev pub opened_by : Text → List Loan → Option Loan
opened_by tx loans = find_loan (λ l. same_hash l.open_tx_hash (some tx)) loans

-- The write, once there is a user for the row.
abbrev pub insert_for :
    ScanCalls → OpenedEvent → List Loan → Option Borrower → Option Insertion × List Loan
unfolding opened_row
insert_for calls event loans none = (some skipped, loans)
insert_for calls event loans (some user) =
    if calls.throws event
    then (none, loans)
    else (some inserted, loans ++ (opened_row (calls.new_id loans) user event ∷ []))

-- insertMissingLoan; `none` is an exception.
unfoldable pub insert_missing_loan :
    ScanCalls → OpenedEvent → List Borrower → List Loan → Option Insertion × List Loan
unfolding insert_for
insert_missing_loan calls event users loans = elim (opened_by event.tx_hash loans) [
  | some existing ↦ (some skipped, loans)
  | none ↦ insert_for calls event loans (find_wallet event.borrower users)
]

-- The counts of the result.
pub record ScanCounts : Type 0 where
  pub scanned : ℕ
  pub inserted : ℕ
  pub skipped : ℕ
  pub errors : ℕ

abbrev pub tallied : Option Insertion → ScanCounts → ScanCounts
tallied none c = record c { errors = c.errors + 1 }
tallied (some inserted) c = record c { inserted = c.inserted + 1 }
tallied (some skipped) c = record c { skipped = c.skipped + 1 }

-- The loop over the events, which an exception does not leave.
unfoldable pub insert_all :
    ScanCalls → List Borrower → List OpenedEvent → ScanCounts × List Loan → ScanCounts × List Loan
unfolding insert_missing_loan
insert_all calls users [] (counts, loans) = (counts, loans)
insert_all calls users (event ∷ events) (counts, loans) =
    let r = insert_missing_loan calls event users loans in
    insert_all calls users events (tallied r.0 counts, r.1)

-- MAX_BLOCK_RANGE
abbrev pub max_block_range : ℕ
max_block_range = 10000

abbrev pub counts_of : ℕ → ℕ → ScanCounts
counts_of scanned errors = record { scanned = scanned; inserted = 0; skipped = 0; errors = errors }

-- Where a run begins, given the cursor: never at the genesis of a chain that is longer.
abbrev pub from_block : Option ℕ → ℕ → ℕ
from_block none current = current - 100000
from_block (some block) current = if block == 0 then current - 100000 else block

abbrev pub to_block : ℕ → ℕ → ℕ
to_block from current = min (from + max_block_range) current

-- The cursor and the tables.
pub record ScanState : Type 0 where
  pub cursor : Option ℕ
  pub ledger : Ledger

-- One window of blocks: the events of it, and the cursor at its end.
unfoldable pub scan_window : ScanCalls → ℕ → ℕ → ScanState → ScanCounts × ScanState
unfolding insert_all
scan_window calls from to state = elim (calls.opened_events (from + 1) to) [
  | none ↦ (counts_of 0 1, state)
  | some events ↦
      let r =
        insert_all calls state.ledger.users events
          (counts_of (length events) 0, state.ledger.loans) in
      (r.0, record state { cursor = some to; ledger = record state.ledger { loans = r.1 } })
]

-- scanLoanOpenedEvents; the cursor is saved when it is moved off the genesis, too.
unfoldable pub scan_loan_opened_events : ScanCalls → ScanState → ScanCounts × ScanState
unfolding scan_window
scan_loan_opened_events calls state = elim calls.latest [
  | none ↦ (counts_of 0 1, state)
  | some current ↦
      let from = from_block state.cursor current in
      let begun = record state { cursor = some from } in
      if leb current from
      then (counts_of 0 0, begun)
      else scan_window calls from (to_block from current) begun
]
