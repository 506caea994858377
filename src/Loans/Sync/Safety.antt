-- ===== src/Loans/Sync/Safety.antt =====
-- What a run of the synchronisation may do to the rows: what every call of `reconcileLoan` keeps, the
-- run keeps.
use lendoor_stellar.Common.{
  ℕ, ◌≡◌, ◌≢◌, refl, sym, Bool, true, false, Option, none, some, List, [], ◌∷◌, Text, ◌==◌, arith,
  Bool-cases, inl, inr, Option-cases, All,
}
use lendoor_stellar.Cctp.Transfer.{is_falsy}
use lendoor_stellar.Loans.{Loan, Borrower, find_loan, WriteCredit}
use lendoor_stellar.Loans.Score.{Ledger}
use lendoor_stellar.Loans.Table.{IsTable}
use lendoor_stellar.Loans.Reconcile.{FindClosed, reconcile_loan}
use lendoor_stellar.Loans.Reconcile.Effect.{
  reconcile_loan-IsTable, reconcile_loan-closed, reconcile_loan-other,
}
use lendoor_stellar.Loans.Sync.{
  OnChain, ChainCalls, has_user, is_chain_current, ghosts_of, visit, reconcile_ghosts,
  reconcile_stale, sync_address, Counts, sync_addresses, sync_loans_with_chain, no_counts,
}

-- A property of the two tables that a call keeps for every row that may be given to it.
module _ (write : WriteCredit) (users : List Borrower) (P : Ledger → Type 0) (Q : Loan → Type 0)
    (keep : (find : FindClosed) (l : Loan) (user_id : ℕ) (ledger : Ledger)
      → Q l
      → P ledger
      → P (reconcile_loan find write l user_id ledger).1) where
  visit-keeps :
      (find : FindClosed) (l : Loan) (any : Bool) (ledger : Ledger)
      → Q l
      → P ledger
      → P (visit find write users l any ledger).1
  unfolding visit
  visit-keeps find l any ledger q p = elim (Bool-cases (has_user users l)) [
    | inl has ↦ rw (visit, has) (keep find l l.user_id ledger q p)
    | inr has_not ↦ rw (visit, has_not) p
  ]

  reconcile_ghosts-keeps :
      (find : FindClosed) (ls : List Loan) (any : Bool) (ledger : Ledger)
      → All Q ls
      → P ledger
      → P (reconcile_ghosts find write users ls any ledger).1
  unfolding reconcile_ghosts
  reconcile_ghosts-keeps find [] any ledger qs p = p
  reconcile_ghosts-keeps find (l ∷ ls) any ledger (q, qs) p =
      reconcile_ghosts-keeps find ls _ _ qs (visit-keeps find l any ledger q p)

  reconcile_stale-keeps :
      (find : FindClosed) (ls : List Loan) (any : Bool) (ledger : Ledger)
      → All Q ls
      → P ledger
      → P (reconcile_stale find write users ls any ledger).1
  unfolding reconcile_stale
  reconcile_stale-keeps find [] any ledger qs p = p
  reconcile_stale-keeps find (l ∷ ls) any ledger (q, qs) p =
      let kept = visit-keeps find l any ledger q p in
      elim (Option-cases (visit find write users l any ledger).0) [
        | inl thrown ↦ rw (reconcile_stale, thrown) kept
        | inr (now_any, went_on) ↦
            rw (reconcile_stale, went_on) (reconcile_stale-keeps find ls now_any _ qs kept)
      ]

-- The same of a whole run, for a property that every call keeps.
module _ (calls : ChainCalls) (users : List Borrower) (P : Ledger → Type 0)
    (keep : (find : FindClosed) (l : Loan) (user_id : ℕ) (ledger : Ledger)
      → P ledger
      → P (reconcile_loan find calls.write l user_id ledger).1) where
  abbrev AnyRow : Loan → Type 0
  AnyRow l = Unit {0}

  every_row : (ls : List Loan) → All AnyRow ls
  every_row [] = tt
  every_row (l ∷ ls) = (tt, every_row ls)

  sync_address-keeps :
      (find : FindClosed) (bucket : List Loan) (ledger : Ledger)
      → P ledger
      → P (sync_address calls find users bucket ledger).1
  unfolding sync_address
  sync_address-keeps find [] ledger p = p
  sync_address-keeps find (latest ∷ older) ledger p = elim (Bool-cases (has_user users latest)) [
    | inr has_not ↦ rw (sync_address, has_not) p
    | inl has ↦ elim (Option-cases (calls.read_loan latest.borrower_address)) [
      | inl failed ↦ rw (sync_address, has, failed) p
      | inr (chain, read) ↦ elim (Bool-cases chain.active) [
        | inl active ↦
            rw (sync_address, has, read, active)
              (reconcile_ghosts-keeps calls.write users P AnyRow (λ f l u g _. keep f l u g) find
                (ghosts_of chain latest older) false ledger
                (every_row (ghosts_of chain latest older)) p)
        | inr idle ↦
            rw (sync_address, has, read, idle)
              (reconcile_stale-keeps calls.write users P AnyRow (λ f l u g _. keep f l u g) find
                (latest ∷ older) false ledger (every_row (latest ∷ older)) p)
      ]
    ]
  ]

  sync_addresses-keeps :
      (find : FindClosed) (groups : List (Text × List Loan)) (counts : Counts) (ledger : Ledger)
      → P ledger
      → P (sync_addresses calls find users groups (counts, ledger)).1
  unfolding sync_addresses
  sync_addresses-keeps find [] counts ledger p = p
  sync_addresses-keeps find ((_, bucket) ∷ rest) counts ledger p =
      sync_addresses-keeps find rest _ _ (sync_address-keeps find bucket ledger p)

sync_loans_with_chain-keeps :
    (calls : ChainCalls) (P : Ledger → Type 0)
    → ((find : FindClosed) (l : Loan) (user_id : ℕ) (ledger : Ledger)
        → P ledger
        → P (reconcile_loan find calls.write l user_id ledger).1)
    → (ledger : Ledger) → P ledger
    → P (sync_loans_with_chain calls ledger).1
unfolding sync_loans_with_chain
sync_loans_with_chain-keeps calls P keep ledger p = elim (Option-cases calls.latest) [
  | inl failed ↦ rw (sync_loans_with_chain, failed) p
  | inr (current_block, read) ↦
      rw (sync_loans_with_chain, read)
        (sync_addresses-keeps calls ledger.users P keep (calls.find_closed current_block) _
          no_counts ledger p)
]

-- A run keeps the table.
pub sync_loans_with_chain-IsTable :
    (calls : ChainCalls) (ledger : Ledger)
    → IsTable ledger.loans
    → IsTable (sync_loans_with_chain calls ledger).1.loans
sync_loans_with_chain-IsTable calls =
    sync_loans_with_chain-keeps calls (λ ledger. IsTable ledger.loans)
      (λ find l user_id ledger. reconcile_loan-IsTable find calls.write l user_id ledger)

-- A row that has a closing transaction is the same row after any call, and so after a run.
settled-reconcile_loan :
    (write : WriteCredit) (row : Loan) (find : FindClosed) (l : Loan) (user_id : ℕ)
    (ledger : Ledger)
    → is_falsy row.close_tx_hash ≡ false
    → find_loan (λ m. m.id == row.id) ledger.loans ≡ some row
    → find_loan (λ m. m.id == row.id) (reconcile_loan find write l user_id ledger).1.loans
      ≡ some row
settled-reconcile_loan write row find l user_id ledger closed at =
    elim (Bool-cases (row.id == l.id)) [
      | inl same ↦
          let e : row.id ≡ l.id = ground arith in
          let still =
            reconcile_loan-closed find write l row user_id ledger (rw (sym e) at) closed in
          rw still at
      | inr other ↦
          let ne : row.id ≢ l.id = ground arith in
          rw (reconcile_loan-other find write l user_id row.id ledger ne) at
    ]

-- A run of the synchronisation leaves every row that has a closing transaction as it is, whatever the
-- chain answers and for whomever it fails.
pub sync-keeps_settled :
    (calls : ChainCalls) (row : Loan) (ledger : Ledger)
    → is_falsy row.close_tx_hash ≡ false
    → find_loan (λ m. m.id == row.id) ledger.loans ≡ some row
    → find_loan (λ m. m.id == row.id) (sync_loans_with_chain calls ledger).1.loans ≡ some row
sync-keeps_settled calls row ledger closed =
    sync_loans_with_chain-keeps calls (λ g. find_loan (λ m. m.id == row.id) g.loans ≡ some row)
      (λ find l user_id g. settled-reconcile_loan calls.write row find l user_id g closed) ledger

-- If the chain's loan of an address is active and started within a minute of the latest row of that
-- address, the callback for the address leaves that row as it is, and does not fail, whatever else the
-- chain answers, provided the older rows have other identifiers.
pub sync_address-keeps_active :
    (calls : ChainCalls) (find : FindClosed) (users : List Borrower) (latest : Loan)
    (older : List Loan) (ledger : Ledger) (chain : OnChain)
    → All (λ m. latest.id ≢ m.id) older
    → calls.read_loan latest.borrower_address ≡ some chain
    → chain.active ≡ true
    → is_chain_current chain latest ≡ true
    → let r : Option Bool × Ledger = sync_address calls find users (latest ∷ older) ledger in
      (r.0 ≢ none)
      × (find_loan (λ m. m.id == latest.id) r.1.loans
          ≡ find_loan (λ m. m.id == latest.id) ledger.loans)
unfolding sync_address
sync_address-keeps_active calls find users latest older ledger chain apart read active current =
    elim (Bool-cases (has_user users latest)) [
      | inr has_not ↦ rw (sync_address, has_not) ((λ e. cc), refl)
      | inl has ↦
          rw (sync_address, has, read, active, current)
            (
              (λ e. cc),
              reconcile_ghosts-keeps calls.write users
                  (λ g.
                    find_loan (λ m. m.id == latest.id) g.loans
                    ≡ find_loan (λ m. m.id == latest.id) ledger.loans)
                  (λ m. latest.id ≢ m.id)
                  (λ f l user_id g other same.
                    rw (reconcile_loan-other f calls.write l user_id latest.id g other) same)
                  find older false ledger apart refl,
            )
    ]
