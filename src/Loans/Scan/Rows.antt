-- ===== src/Loans/Scan/Rows.antt =====
-- The rows that a run of the scanner adds.
use lendoor_stellar.Common.{
  ℕ, ◌≡◌, refl, inl, inr, true, false, none, some, List, [], ◌∷◌, ◌++◌, ◌==◌, leb, ◌+◌, All,
  Bool-cases, Option-cases,
}
use lendoor_stellar.Loans.{Loan, Borrower, same_hash, find_wallet}
use lendoor_stellar.Loans.Table.{is_apart, is_consistent, IsTable, find_loan-none, same_hash_sym}
use lendoor_stellar.Loans.Scan.{
  OpenedEvent, ScanCalls, opened_row, opened_by, insert_missing_loan, ScanCounts, insert_all,
  ScanState, scan_window, scan_loan_opened_events, from_block, to_block,
}

-- The identifier of a new row is one that no row has.
abbrev pub IsFresh : (List Loan → ℕ) → Type 0
IsFresh new_id = (ls : List Loan) → All (λ m. (m.id == new_id ls) ≡ false) ls

apart_append :
    (l u : Loan) (ls : List Loan)
    → is_apart l u ≡ true
    → All (λ m. is_apart l m ≡ true) ls
    → All (λ m. is_apart l m ≡ true) (ls ++ (u ∷ []))
apart_append l u [] e a = (e, tt)
apart_append l u (m ∷ ls) e (a, others) = (a, apart_append l u ls e others)

opened-consistent :
    (id : ℕ) (user : Borrower) (event : OpenedEvent)
    → is_consistent (opened_row id user event) ≡ true
unfolding opened_row
opened-consistent id user event = refl

-- A consistent row that is apart from every row may be added.
pub IsTable-append :
    (u : Loan) (ls : List Loan)
    → is_consistent u ≡ true
    → All (λ m. is_apart m u ≡ true) ls
    → IsTable ls
    → IsTable (ls ++ (u ∷ []))
IsTable-append u [] c a t = (tt, c, tt)
IsTable-append u (l ∷ ls) c (apart, others) (a, d, t) =
    (apart_append l u ls apart a, d, IsTable-append u ls c others t)

opened-apart :
    (id : ℕ) (user : Borrower) (event : OpenedEvent) (ls : List Loan)
    → All (λ m. (m.id == id) ≡ false) ls
    → All (λ m. same_hash m.open_tx_hash (some event.tx_hash) ≡ false) ls
    → All (λ m. is_apart m (opened_row id user event) ≡ true) ls
unfolding opened_row
opened-apart id user event [] f h = tt
opened-apart id user event (m ∷ ls) (f, fs) (h, hs) =
    (rw (f, h) (rw (same_hash_sym m.close_tx_hash none) refl), opened-apart id user event ls fs hs)

insert_missing_loan-IsTable :
    (calls : ScanCalls) (event : OpenedEvent) (users : List Borrower) (loans : List Loan)
    → IsFresh calls.new_id
    → IsTable loans
    → IsTable (insert_missing_loan calls event users loans).1
unfolding insert_missing_loan
insert_missing_loan-IsTable calls event users loans fresh t =
    elim (Option-cases (opened_by event.tx_hash loans)) [
      | inr (existing, seen) ↦ rw (insert_missing_loan, seen) t
      | inl new ↦ elim (Option-cases (find_wallet event.borrower users)) [
        | inl missing ↦ rw (insert_missing_loan, new, missing) t
        | inr (user, at) ↦ elim (Bool-cases (calls.throws event)) [
          | inl thrown ↦ rw (insert_missing_loan, new, at, thrown) t
          | inr written ↦
              rw (insert_missing_loan, new, at, written)
                (IsTable-append (opened_row (calls.new_id loans) user event) loans
                  (opened-consistent (calls.new_id loans) user event)
                  (opened-apart (calls.new_id loans) user event loans (fresh loans)
                    (find_loan-none (λ l. same_hash l.open_tx_hash (some event.tx_hash)) loans new))
                  t)
        ]
      ]
    ]

insert_all-IsTable :
    (calls : ScanCalls) (users : List Borrower) (events : List OpenedEvent) (counts : ScanCounts)
    (loans : List Loan)
    → IsFresh calls.new_id
    → IsTable loans
    → IsTable (insert_all calls users events (counts, loans)).1
unfolding insert_all
insert_all-IsTable calls users [] counts loans fresh t = t
insert_all-IsTable calls users (event ∷ events) counts loans fresh t =
    insert_all-IsTable calls users events _ _ fresh
      (insert_missing_loan-IsTable calls event users loans fresh t)

scan_window-IsTable :
    (calls : ScanCalls) (from to : ℕ) (state : ScanState)
    → IsFresh calls.new_id
    → IsTable state.ledger.loans
    → IsTable (scan_window calls from to state).1.ledger.loans
unfolding scan_window
scan_window-IsTable calls from to state fresh t =
    elim (Option-cases (calls.opened_events (from + 1) to)) [
      | inl failed ↦ rw (scan_window, failed) t
      | inr (events, read) ↦
          rw (scan_window, read)
            (insert_all-IsTable calls state.ledger.users events _ state.ledger.loans fresh t)
    ]

-- A run of the scanner keeps the table.
pub scan-IsTable :
    (calls : ScanCalls) (state : ScanState)
    → IsFresh calls.new_id
    → IsTable state.ledger.loans
    → IsTable (scan_loan_opened_events calls state).1.ledger.loans
unfolding scan_loan_opened_events
scan-IsTable calls state fresh t = elim (Option-cases calls.latest) [
  | inl failed ↦ rw (scan_loan_opened_events, failed) t
  | inr (current, read) ↦
      let from = from_block state.cursor current in
      elim (Bool-cases (leb current from)) [
        | inl done ↦ rw (scan_loan_opened_events, read, done) t
        | inr more ↦
            rw (scan_loan_opened_events, read, more)
              (scan_window-IsTable calls from (to_block from current)
                (record state { cursor = some from }) fresh t)
      ]
]
