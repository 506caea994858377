-- ===== src/Loans/Repay/Table.antt =====
-- A repayment keeps the table of loans.
use lendoor_stellar.Common.{
  ℕ, ◌≡◌, refl, inl, inr, Bool, true, false, not, Option, none, some, List, [], ◌∷◌, Text, ◌==◌,
  if◌then◌else◌, All, arith, Result-cases, is_none,
}
use lendoor_stellar.Cctp.Transfer.{is_falsy}
use lendoor_stellar.Loans.{Loan, Borrower, same_hash, WriteCredit}
use lendoor_stellar.Loans.Score.{Ledger}
use lendoor_stellar.Loans.Table.{
  implies, is_consistent, IsTable, Fits, save_loan-IsTable, Fits-close, same_hash_sym,
  find_loan-none,
}
use lendoor_stellar.Loans.Table.Latest.{find_latest-Fits}
use lendoor_stellar.Loans.Repay.{
  InformRepayment, RepayCalls, Settlement, is_repayable, settled, processed_by, plan_repayment,
  carry_out, settle_credit, process_repayment,
}
use lendoor_stellar.Loans.Repay.Plan.{Planned, known, open_row, plan_repayment-Planned}

-- The hash of a report is missing or a text that is not empty, as its pattern demands.
abbrev pub IsReport : InformRepayment → Type 0
IsReport dto = implies (is_falsy dto.tx_hash) (is_none dto.tx_hash) ≡ true

settled-consistent :
    (loan : Loan) (now paid : ℕ) (tx : Option Text)
    → is_consistent (settled loan now paid tx) ≡ true
unfolding settled
settled-consistent loan now paid tx = ground arith

not_held :
    (tx : Option Text) (i : ℕ) (ls : List Loan)
    → All (λ m. same_hash m.close_tx_hash tx ≡ false) ls
    → All (λ m. (if m.id == i then true else not (same_hash tx m.close_tx_hash)) ≡ true) ls
not_held tx i [] a = tt
not_held tx i (m ∷ ls) (a, rest) =
    (ground (arith, same_hash_sym m.close_tx_hash tx), not_held tx i ls rest)

no_hash :
    (i : ℕ) (ls : List Loan)
    → All (λ m. (if m.id == i then true else not (same_hash none m.close_tx_hash)) ≡ true) ls
no_hash i [] = tt
no_hash i (m ∷ ls) = (ground arith, no_hash i ls)

-- No row but the one to be closed has the hash of the report.
pub unprocessed-All :
    (tx : Option Text) (i : ℕ) (ls : List Loan)
    → implies (is_falsy tx) (is_none tx) ≡ true
    → processed_by tx ls ≡ none
    → All (λ m. (if m.id == i then true else not (same_hash tx m.close_tx_hash)) ≡ true) ls
unprocessed-All none i ls valid e = no_hash i ls
unprocessed-All (some []) i ls valid e = absurd cc
unprocessed-All (some (c ∷ t)) i ls valid e =
    not_held (some (c ∷ t)) i ls
      (find_loan-none (λ m. same_hash m.close_tx_hash (some (c ∷ t))) ls e)

pub settle_credit-loans :
    (write : WriteCredit) (wallet : Text) (user : Borrower) (on_time post : Bool) (ledger : Ledger)
    → (settle_credit write wallet user on_time post ledger).loans ≡ ledger.loans
unfolding settle_credit
settle_credit-loans write wallet user true post ledger = refl
settle_credit-loans write wallet user false true ledger = refl
settle_credit-loans write wallet user false false ledger = refl

Fits-settled :
    (loan : Loan) (now amount : ℕ) (dto : InformRepayment) (ledger : Ledger)
    → Fits loan ledger.loans
    → All
        (λ m.
          (if m.id == loan.id then true else not (same_hash dto.tx_hash m.close_tx_hash)) ≡ true)
        ledger.loans
    → Fits (settled loan now amount dto.tx_hash) ledger.loans
unfolding settled
Fits-settled loan now amount dto ledger fits free =
    Fits-close loan (settled loan now amount dto.tx_hash) ledger.loans refl refl fits free

carry_out-IsTable :
    (write : WriteCredit) (wallet : Text) (now : ℕ) (dto : InformRepayment) (user : Borrower)
    (plan : Settlement) (ledger : Ledger)
    → IsReport dto
    → Planned now dto ledger user plan
    → IsTable ledger.loans
    → IsTable (carry_out write wallet plan ledger).loans
unfolding carry_out
carry_out-IsTable write wallet now dto user _ ledger valid (known row seen) t = t
carry_out-IsTable write wallet now dto user _ ledger valid (open_row loan amount new found) t =
    let row : Loan = settled loan now amount dto.tx_hash in
    rw (settle_credit-loans write wallet _ _ _ _) (
      save_loan-IsTable row ledger.loans (settled-consistent loan now amount dto.tx_hash)
        (Fits-settled loan now amount dto ledger
          (find_latest-Fits (is_repayable user.id) loan ledger.loans found t)
          (unprocessed-All dto.tx_hash loan.id ledger.loans valid new))
        t)

pub process_repayment-IsTable :
    (calls : RepayCalls) (now : ℕ) (dto : InformRepayment) (ledger : Ledger)
    → IsReport dto
    → IsTable ledger.loans
    → IsTable (process_repayment calls now dto ledger).1.loans
unfolding process_repayment
process_repayment-IsTable calls now dto ledger valid t =
    elim (Result-cases (plan_repayment calls now dto ledger)) [
      | inr (e, failed) ↦ rw (process_repayment, failed) t
      | inl ((wallet, plan), planned) ↦
          let (user, _, made) = plan_repayment-Planned calls now dto ledger wallet plan planned in
          rw (process_repayment, planned)
            (carry_out-IsTable calls.write wallet now dto user plan ledger valid made t)
    ]
