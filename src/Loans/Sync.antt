-- ===== src/Loans/Sync.antt =====
-- `syncLoansWithChain` of backend/src/loan/chain-sync.service.ts: the rows with no closing transaction,
-- by borrower, against the loan that the chain holds for each. The borrowers of a batch are taken one
-- after the other, and the delay between batches is left out.
pub mod Safety
use lendoor_stellar.Common.{
  ℕ, ◌+◌, ◌-◌, ◌*◌, ◌/◌, Bool, true, false, not, ◌&&◌, ◌||◌, Option, none, some, List, [], ◌∷◌,
  ◌++◌, Text, text_eq, ltb, leb, ◌==◌, if◌then◌else◌, and_then, is_none,
}
use lendoor_stellar.Loans.{
  Loan, Borrower, is_repaid, is_defaulted, is_opened, filter_loans, find_user, WriteCredit,
}
use lendoor_stellar.Loans.Score.{Ledger}
use lendoor_stellar.Loans.Reconcile.{FindClosed, reconcile_loan}

-- What `getOnChainLoan` returns; `start` is in seconds.
pub record OnChain : Type 0 where
  pub active : Bool
  pub start : ℕ

-- What a run asks of the chain: the number of the latest ledger, the loan of an address, the closing
-- event of a loan as of a ledger, and a write of credit. `none` is a failed call.
pub record ChainCalls : Type 0 where
  pub latest : Option ℕ
  pub read_loan : Text → Option OnChain
  pub find_closed : ℕ → FindClosed
  pub write : WriteCredit

-- LOAN_START_MATCH_TOLERANCE_SEC
abbrev pub start_tolerance_sec : ℕ
start_tolerance_sec = 60

-- The two clauses of the query.
abbrev pub is_unsettled : Loan → Bool
is_unsettled l =
    (is_opened l.status || is_defaulted l.status) && is_none l.close_tx_hash
    || is_repaid l.status && is_none l.close_tx_hash

-- `order: { startAt: 'DESC' }`
abbrev pub insert_latest : Loan → List Loan → List Loan
insert_latest l [] = l ∷ []
insert_latest l (m ∷ ms) =
    let rest = insert_latest l ms in if ltb l.start_at m.start_at then m ∷ rest else l ∷ m ∷ ms

abbrev pub latest_first : List Loan → List Loan
latest_first [] = []
latest_first (l ∷ ls) = insert_latest l (latest_first ls)

-- The map from an address to its rows, in the order in which the addresses came.
abbrev pub push_loan : Loan → List (Text × List Loan) → List (Text × List Loan)
push_loan l [] = (l.borrower_address, l ∷ []) ∷ []
push_loan l ((addr, bucket) ∷ rest) =
    let later = push_loan l rest in
    if text_eq l.borrower_address addr
    then (addr, bucket ++ (l ∷ [])) ∷ rest
    else (addr, bucket) ∷ later

abbrev pub loans_by_address : List Loan → List (Text × List Loan) → List (Text × List Loan)
loans_by_address [] groups = groups
loans_by_address (l ∷ ls) groups = loans_by_address ls (push_loan l groups)

abbrev pub has_user : List Borrower → Loan → Bool
has_user users l = not (is_none (find_user l.user_id users))

-- `Math.abs(a - b)`
abbrev pub distance : ℕ → ℕ → ℕ
distance a b = (a - b) + (b - a)

abbrev pub is_chain_current : OnChain → Loan → Bool
is_chain_current chain latest =
    leb (distance chain.start (latest.start_at / 1000)) start_tolerance_sec

abbrev pub ghosts_of : OnChain → Loan → List Loan → List Loan
ghosts_of chain latest older = if is_chain_current chain latest then older else latest ∷ older

-- One row of either loop; `none` is an exception of `reconcileLoan`.
unfoldable pub visit :
    FindClosed → WriteCredit → List Borrower → Loan → Bool → Ledger → Option Bool × Ledger
visit find write users l any ledger =
    if has_user users l
    then (let r = reconcile_loan find write l l.user_id ledger in
        (and_then r.0 (λ did. some (any || did)), r.1))
    else (some any, ledger)

abbrev pub or_else : Option Bool → Bool → Bool
or_else none b = b
or_else (some b) _ = b

-- The loop over ghosts, which goes on after an exception.
unfoldable pub reconcile_ghosts :
    FindClosed → WriteCredit → List Borrower → List Loan → Bool → Ledger → Bool × Ledger
reconcile_ghosts find write users [] any ledger = (any, ledger)
reconcile_ghosts find write users (g ∷ gs) any ledger =
    let r = visit find write users g any ledger in
    reconcile_ghosts find write users gs (or_else r.0 any) r.1

-- The loop for an address with no loan on the chain, which an exception leaves.
unfoldable pub reconcile_stale :
    FindClosed → WriteCredit → List Borrower → List Loan → Bool → Ledger → Option Bool × Ledger
reconcile_stale find write users [] any ledger = (some any, ledger)
reconcile_stale find write users (l ∷ ls) any ledger =
    let r = visit find write users l any ledger in
    elim r.0 [ none ↦ (none, r.1) | some now_any ↦ reconcile_stale find write users ls now_any r.1 ]

abbrev pub some_first : Bool × Ledger → Option Bool × Ledger
some_first (any, ledger) = (some any, ledger)

-- The callback for one address; `none` is a rejected promise.
unfoldable pub sync_address :
    ChainCalls → FindClosed → List Borrower → List Loan → Ledger → Option Bool × Ledger
sync_address calls find users [] ledger = (some false, ledger)
sync_address calls find users (latest ∷ older) ledger =
    if has_user users latest
    then elim (calls.read_loan latest.borrower_address) [
      | none ↦ (none, ledger)
      | some chain ↦
          if chain.active
          then some_first
              (reconcile_ghosts find calls.write users (ghosts_of chain latest older) false ledger)
          else reconcile_stale find calls.write users (latest ∷ older) false ledger
    ]
    else (some false, ledger)

-- The counts of the log.
pub record Counts : Type 0 where
  pub checked : ℕ
  pub reconciled : ℕ
  pub errors : ℕ

abbrev pub counted : Option Bool → Counts → Counts
counted none c = record c { checked = c.checked + 1; errors = c.errors + 1 }
counted (some true) c = record c { checked = c.checked + 1; reconciled = c.reconciled + 1 }
counted (some false) c = record c { checked = c.checked + 1 }

unfoldable pub sync_addresses :
    ChainCalls
    → FindClosed
    → List Borrower
    → List (Text × List Loan)
    → Counts × Ledger
    → Counts × Ledger
sync_addresses calls find users [] (counts, ledger) = (counts, ledger)
sync_addresses calls find users ((_, bucket) ∷ rest) (counts, ledger) =
    let r = sync_address calls find users bucket ledger in
    sync_addresses calls find users rest (counted r.0 counts, r.1)

abbrev pub no_counts : Counts
no_counts = record { checked = 0; reconciled = 0; errors = 0 }

-- syncLoansWithChain
unfoldable pub sync_loans_with_chain : ChainCalls → Ledger → Counts × Ledger
sync_loans_with_chain calls ledger =
    let groups = loans_by_address (latest_first (filter_loans is_unsettled ledger.loans)) [] in
    elim calls.latest [
      | none ↦ (no_counts, ledger)
      | some current_block ↦
          sync_addresses calls (calls.find_closed current_block) ledger.users groups
            (no_counts, ledger)
    ]
