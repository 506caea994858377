-- ===== src/Tests/LedgerSample.antt =====
-- Two loans, their borrower, and a chain that answers.
use lendoor_stellar.Common.{ℕ, refl, true, false, Option, none, some, [], ◌∷◌, Text, codes}
use lendoor_stellar.Loans.{Loan, opened, repaid_late, Borrower, CreditWrite}
use lendoor_stellar.Loans.Score.{Ledger}
use lendoor_stellar.Loans.Table.{IsTable}
use lendoor_stellar.Loans.Reconcile.{ClosedEvent, FindClosed}
use lendoor_stellar.Loans.Sync.{ChainCalls}

abbrev pub borrower : Text
borrower = codes "0x8fe6b999dc680ccfdd5bf7eb0974218be2542daa"

-- A loan of a dollar for a week, paid off, and one that is open.
abbrev pub paid_row : Loan
paid_row = record {
  id = 1;
  user_id = 7;
  borrower_address = borrower;
  principal = 10000000;
  amount_due_at_open = 10500000;
  amount_paid = 10600000;
  tenor_days = 7;
  fee_bps = 500;
  start_at = 1000000;
  due_at = 605800000;
  closed_at = some 800000000;
  status = repaid_late;
  is_on_time = false;
  open_tx_hash = some (codes "a1");
  close_tx_hash = some (codes "a2");
  synced_by_chain = true;
  late_fees_collected = 100000;
}

abbrev pub open_row : Loan
open_row = record {
  id = 2;
  user_id = 7;
  borrower_address = borrower;
  principal = 20000000;
  amount_due_at_open = 21000000;
  amount_paid = 0;
  tenor_days = 7;
  fee_bps = 500;
  start_at = 900000000;
  due_at = 1504800000;
  closed_at = none;
  status = opened;
  is_on_time = false;
  open_tx_hash = some (codes "b1");
  close_tx_hash = none;
  synced_by_chain = false;
  late_fees_collected = 0;
}

abbrev pub user_row : Borrower
user_row = record {
  id = 7;
  wallet_address = borrower;
  score = some 4;
  credit_limit = some 60000000;
  xp = 31;
  had_default_ever = true;
}

abbrev pub two_loans : Ledger
two_loans = record { loans = paid_row ∷ open_row ∷ []; users = user_row ∷ []; writes = [] }

pub two_loans-IsTable : IsTable two_loans.loans
two_loans-IsTable = ((refl, tt), refl, (tt, refl, tt))

-- A chain that closed the open loan, and records every write.
abbrev pub closing_event : ClosedEvent
closing_event = record { tx_hash = codes "b2"; amount_paid = 21000000; timestamp = 1500000 }

abbrev pub one_event : FindClosed
one_event wallet from = some (some closing_event)

abbrev pub records_all : CreditWrite → Option ℕ
records_all c = some 200

abbrev pub idle_chain : ChainCalls
idle_chain = record {
  latest = some 25000;
  read_loan = λ wallet. some (record { active = false; start = 0 });
  find_closed = λ block. one_event;
  write = records_all;
}
