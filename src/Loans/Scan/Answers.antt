-- ===== src/Loans/Scan/Answers.antt =====
-- What a run of the scanner does about each event of its window.
use lendoor_stellar.Common.{
  ◌≡◌, refl, ◌∙◌, ◌⊎◌, inl, inr, true, false, Option, none, some, List, [], ◌∷◌, ◌++◌, Text,
  text_eq_refl, length, ◌+◌, All, arith, Bool-cases, Option-cases, is_none,
}
use lendoor_stellar.Loans.{Loan, Borrower, same_hash, find_wallet}
use lendoor_stellar.Loans.Scan.{
  OpenedEvent, ScanCalls, Insertion, inserted, skipped, opened_row, opened_by, insert_missing_loan,
  ScanCounts, tallied, insert_all,
}

-- A row with the hash, before any other: once it is there it stays.
abbrev pub IsRecorded : Text → List Loan → Type 0
IsRecorded tx loans = is_none (opened_by tx loans) ≡ false

IsRecorded-append :
    (tx : Text) (u : Loan) (ls : List Loan) → IsRecorded tx ls → IsRecorded tx (ls ++ (u ∷ []))
IsRecorded-append tx u [] h = absurd cc
IsRecorded-append tx u (l ∷ ls) h = elim (Bool-cases (same_hash l.open_tx_hash (some tx))) [
  | inl here ↦ rw here refl
  | inr later ↦ rw later (IsRecorded-append tx u ls (ground arith))
]

IsRecorded-new :
    (tx : Text) (u : Loan) (ls : List Loan)
    → same_hash u.open_tx_hash (some tx) ≡ true
    → IsRecorded tx (ls ++ (u ∷ []))
IsRecorded-new tx u [] h = rw h refl
IsRecorded-new tx u (l ∷ ls) h = elim (Bool-cases (same_hash l.open_tx_hash (some tx))) [
  | inl here ↦ rw here refl
  | inr later ↦ rw later (IsRecorded-new tx u ls h)
]

-- What a run does about an event: its row is there, or its borrower is no user, or its write threw.
abbrev pub IsAnswered : ScanCalls → List Borrower → List Loan → OpenedEvent → Type 0
IsAnswered calls users loans event =
    (is_none (find_wallet event.borrower users) ≡ true)
    ⊎ ((calls.throws event ≡ true) ⊎ IsRecorded event.tx_hash loans)

insert_missing_loan-keeps :
    (calls : ScanCalls) (event : OpenedEvent) (users : List Borrower) (loans : List Loan)
    (tx : Text)
    → IsRecorded tx loans
    → IsRecorded tx (insert_missing_loan calls event users loans).1
unfolding insert_missing_loan
insert_missing_loan-keeps calls event users loans tx h =
    elim (Option-cases (opened_by event.tx_hash loans)) [
      | inr (existing, seen) ↦ rw (insert_missing_loan, seen) h
      | inl new ↦ elim (Option-cases (find_wallet event.borrower users)) [
        | inl missing ↦ rw (insert_missing_loan, new, missing) h
        | inr (user, at) ↦ elim (Bool-cases (calls.throws event)) [
          | inl thrown ↦ rw (insert_missing_loan, new, at, thrown) h
          | inr written ↦
              rw (insert_missing_loan, new, at, written) (IsRecorded-append tx _ loans h)
        ]
      ]
    ]

insert_missing_loan-answers :
    (calls : ScanCalls) (event : OpenedEvent) (users : List Borrower) (loans : List Loan)
    → IsAnswered calls users (insert_missing_loan calls event users loans).1 event
unfolding insert_missing_loan opened_row
insert_missing_loan-answers calls event users loans =
    elim (Option-cases (opened_by event.tx_hash loans)) [
      | inr (existing, seen) ↦ rw (insert_missing_loan, seen) (inr (inr (rw seen refl)))
      | inl new ↦ elim (Option-cases (find_wallet event.borrower users)) [
        | inl missing ↦ inl (rw missing refl)
        | inr (user, at) ↦ elim (Bool-cases (calls.throws event)) [
          | inl thrown ↦ inr (inl thrown)
          | inr written ↦
              rw (insert_missing_loan, new, at, written)
                (inr (
                  inr (
                    IsRecorded-new event.tx_hash (opened_row (calls.new_id loans) user event) loans
                      (text_eq_refl event.tx_hash))))
        ]
      ]
    ]

insert_all-keeps :
    (calls : ScanCalls) (users : List Borrower) (events : List OpenedEvent) (counts : ScanCounts)
    (loans : List Loan) (tx : Text)
    → IsRecorded tx loans
    → IsRecorded tx (insert_all calls users events (counts, loans)).1
unfolding insert_all
insert_all-keeps calls users [] counts loans tx h = h
insert_all-keeps calls users (event ∷ events) counts loans tx h =
    insert_all-keeps calls users events _ _ tx
      (insert_missing_loan-keeps calls event users loans tx h)

IsAnswered-later :
    (calls : ScanCalls) (users : List Borrower) (events : List OpenedEvent) (counts : ScanCounts)
    (loans : List Loan) (event : OpenedEvent)
    → IsAnswered calls users loans event
    → IsAnswered calls users (insert_all calls users events (counts, loans)).1 event
IsAnswered-later calls users events counts loans event (inl unknown) = inl unknown
IsAnswered-later calls users events counts loans event (inr (inl thrown)) = inr (inl thrown)
IsAnswered-later calls users events counts loans event (inr (inr h)) =
    inr (inr (insert_all-keeps calls users events counts loans event.tx_hash h))

pub insert_all-answers :
    (calls : ScanCalls) (users : List Borrower) (events : List OpenedEvent) (counts : ScanCounts)
    (loans : List Loan)
    → All (IsAnswered calls users (insert_all calls users events (counts, loans)).1) events
unfolding insert_all
insert_all-answers calls users [] counts loans = tt
insert_all-answers calls users (event ∷ events) counts loans = (
  IsAnswered-later calls users events _ _ event
      (insert_missing_loan-answers calls event users loans),
  insert_all-answers calls users events _ _,
)

tallied-sum :
    (r : Option Insertion) (c : ScanCounts)
    → ((tallied r c).scanned ≡ c.scanned)
      × ((tallied r c).inserted + (tallied r c).skipped + (tallied r c).errors
          ≡ c.inserted + c.skipped + c.errors + 1)
tallied-sum none c = (refl, omega arith)
tallied-sum (some inserted) c = (refl, omega arith)
tallied-sum (some skipped) c = (refl, omega arith)

-- The counts of a run add up.
pub insert_all-counts :
    (calls : ScanCalls) (users : List Borrower) (events : List OpenedEvent) (counts : ScanCounts)
    (loans : List Loan)
    → let c : ScanCounts = (insert_all calls users events (counts, loans)).0 in
      (c.scanned ≡ counts.scanned)
      × (c.inserted + c.skipped + c.errors
          ≡ counts.inserted + counts.skipped + counts.errors + length events)
unfolding insert_all
insert_all-counts calls users [] counts loans = (refl, omega arith)
insert_all-counts calls users (event ∷ events) counts loans =
    let r = insert_missing_loan calls event users loans in
    let (same, sum) = insert_all-counts calls users events (tallied r.0 counts) r.1 in
    let (one_same, one_more) = tallied-sum r.0 counts in
    (same ∙ one_same, omega (arith, sum, one_more))
