-- ===== src/Loans/Repay/Score.antt =====
-- What a repayment does to the credit of its user.
use mathlib.Core.Path.{subst}
use lendoor_stellar.Common.{
  ℕ, ◌+◌, ◌≤◌, ◌≡◌, refl, ◌⊎◌, inl, inr, Bool, true, false, some, List, [], ◌∷◌, Text, ◌==◌, arith,
  Bool-cases, ok, max,
}
use lendoor_stellar.Credit.Pricing.{score_or_1}
use lendoor_stellar.Loans.{
  Borrower, find_wallet, find_user, save_user, CreditWrite, WriteCredit, is_200, count_on_time,
}
use lendoor_stellar.Loans.Score.{Ledger, Credit, credited, record_credit}
use lendoor_stellar.Loans.Table.{implies}
use lendoor_stellar.Loans.Repay.{
  InformRepayment, RepayCalls, Settlement, carry_out, settle_credit, process_repayment,
  mark_default, limit_of, on_time_award, default_penalty, capped_score, is_post_default,
  wallet_or_invalid, settled,
}
use lendoor_stellar.Loans.Repay.Plan.{
  Planned, known, open_row, plan_repayment-eq-ok, settle-Planned,
}
use lendoor_stellar.Loans.Repay.Again.{row_of, process_repayment-eq-ok, process_repayment-run}

-- The user's row after a repayment, by what the row was: the score rises by one at most, and only if the
-- loan was repaid on time; the limit falls only for a user with a default; a default stays on record; and
-- the credit is as before or as the chain recorded it.
abbrev pub IsFair : WriteCredit → Bool → Borrower → Borrower → Type 0
IsFair write on_time u v =
    (score_or_1 v.score ≤ score_or_1 u.score + 1)
    × ((on_time ≡ true) ⊎ (score_or_1 v.score ≤ max 1 (score_or_1 u.score)))
    × ((v.had_default_ever ≡ true) ⊎ (limit_of u ≤ limit_of v))
    × (implies u.had_default_ever v.had_default_ever ≡ true)
    × (((v.score ≡ u.score) × (v.credit_limit ≡ u.credit_limit))
        ⊎ ((c : CreditWrite) × (is_200 (write c) ≡ true)
            × (v.score ≡ some c.score)
            × (v.credit_limit ≡ some c.limit)))

pub find_user-save :
    (i : ℕ) (u v : Borrower) (us : List Borrower)
    → find_user i us ≡ some u
    → v.id ≡ i
    → find_user i (save_user v us) ≡ some v
find_user-save i u v [] e same = absurd cc
find_user-save i u v (x ∷ us) e same = elim (Bool-cases (x.id == i)) [
  | inl here ↦ ground arith
  | inr later ↦ let rest = find_user-save i u v us (ground arith) same in ground arith
]

capped_score-le : (computed current : ℕ) → capped_score computed current ≤ current + 1
capped_score-le computed current = ground arith

le-max : (a b : ℕ) → a ≤ max a b
le-max a b = omega arith

same_credit-IsFair :
    (write : WriteCredit) (on_time post : Bool) (u : Borrower)
    → IsFair write on_time u (mark_default post u)
same_credit-IsFair write on_time post u =
    (omega arith, inr (omega arith), inr (omega arith), ground arith, inl (refl, refl))

on_time-IsFair :
    (write : WriteCredit) (wallet : Text) (count : ℕ) (post : Bool) (u : Borrower)
    → let c : Credit = on_time_award (mark_default post u) count in
      is_200 (write (record { wallet = wallet; score = c.score; limit = c.limit })) ≡ true
      → IsFair write true u
          (credited (mark_default post u) (on_time_award (mark_default post u) count))
unfolding on_time_award
on_time-IsFair write wallet count post u written = (
  capped_score-le _ (score_or_1 u.score),
  inl refl,
  inr (le-max (limit_of u) _),
  ground arith,
  inr (_, written, refl, refl),
)

penalty-IsFair :
    (write : WriteCredit) (wallet : Text) (u : Borrower)
    → let c : Credit = default_penalty (mark_default true u) in
      is_200 (write (record { wallet = wallet; score = c.score; limit = c.limit })) ≡ true
      → IsFair write false u
          (credited (mark_default true u) (default_penalty (mark_default true u)))
unfolding default_penalty
penalty-IsFair write wallet u written =
    (omega arith, inr (omega arith), inl (ground arith), ground arith, inr (_, written, refl, refl))

-- The user's row after a write of credit, whether or not the chain recorded it.
record_credit-user :
    (write : WriteCredit) (wallet : Text) (on_time post : Bool) (u : Borrower) (c : Credit)
    (ledger : Ledger)
    → find_user u.id ledger.users ≡ some (mark_default post u)
    → (is_200 (write (record { wallet = wallet; score = c.score; limit = c.limit })) ≡ true
        → IsFair write on_time u (credited (mark_default post u) c))
    → (v : Borrower) × (find_user u.id
          (record_credit write wallet (mark_default post u) c ledger).users
        ≡ some v)
      × IsFair write on_time u v
record_credit-user write wallet on_time post u c ledger at fair =
    elim (Bool-cases
      (is_200 (write (record { wallet = wallet; score = c.score; limit = c.limit })))) [
        | inl written ↦ (
          credited (mark_default post u) c,
          rw written (find_user-save u.id (mark_default post u) _ ledger.users at refl),
          fair written,
        )
        | inr not_written ↦
            (mark_default post u, rw not_written at, same_credit-IsFair write on_time post u)
      ]

settle_credit-user :
    (write : WriteCredit) (wallet : Text) (on_time post : Bool) (u : Borrower) (ledger : Ledger)
    → find_user u.id ledger.users ≡ some (mark_default post u)
    → (v : Borrower) × (find_user u.id
          (settle_credit write wallet (mark_default post u) on_time post ledger).users
        ≡ some v)
      × IsFair write on_time u v
unfolding settle_credit
settle_credit-user write wallet true post u ledger at =
    let count = count_on_time u.id ledger.loans in
    record_credit-user write wallet true post u (on_time_award (mark_default post u) count) ledger
      at (on_time-IsFair write wallet count post u)
settle_credit-user write wallet false true u ledger at =
    record_credit-user write wallet false true u (default_penalty (mark_default true u)) ledger at
      (penalty-IsFair write wallet u)
settle_credit-user write wallet false false u ledger at =
    (mark_default false u, at, same_credit-IsFair write false false u)

same_user-IsFair : (write : WriteCredit) (on_time : Bool) (u : Borrower) → IsFair write on_time u u
same_user-IsFair write on_time u =
    (omega arith, inr (omega arith), inr (omega arith), ground arith, inl (refl, refl))

carried-user :
    (write : WriteCredit) (wallet : Text) (now : ℕ) (dto : InformRepayment) (u : Borrower)
    (plan : Settlement) (ledger : Ledger)
    → find_user u.id ledger.users ≡ some u
    → Planned now dto ledger u plan
    → (v : Borrower) × (find_user u.id (carry_out write wallet plan ledger).users ≡ some v)
      × IsFair write (row_of plan).is_on_time u v
unfolding carry_out
carried-user write wallet now dto u _ ledger at (known row seen) =
    (u, at, same_user-IsFair write row.is_on_time u)
carried-user write wallet now dto u _ ledger at (open_row loan amount new found) =
    let post = is_post_default loan now in
    settle_credit-user write wallet (settled loan now amount dto.tx_hash).is_on_time post u _
      (find_user-save u.id u (mark_default post u) ledger.users at refl)

-- If a repayment is accepted, its user's row is afterwards one that is fair: the score is higher by one
-- at most, and no higher (above one) if the loan was late; the limit is lower only for a user with a
-- default on record, and a default stays on record; score and limit are as before, or are those of a
-- write that the chain answered with 200. The user is the row of the wallet, and of its identifier.
pub process_repayment-IsFair :
    (calls : RepayCalls) (now : ℕ) (dto : InformRepayment) (ledger : Ledger) (plan : Settlement)
    (wallet : Text) (u : Borrower)
    → wallet_or_invalid dto.wallet_address ≡ ok wallet
    → find_wallet wallet ledger.users ≡ some u
    → find_user u.id ledger.users ≡ some u
    → (process_repayment calls now dto ledger).0 ≡ ok plan
    → (v : Borrower) × (find_user u.id (process_repayment calls now dto ledger).1.users ≡ some v)
      × IsFair calls.write (row_of plan).is_on_time u v
unfolding carry_out
process_repayment-IsFair calls now dto ledger plan wallet u given at by_id h =
    let (w, planned) = process_repayment-eq-ok calls now dto ledger plan h in
    let (u', paid, given', at', _, set) =
      plan_repayment-eq-ok calls now dto ledger w plan planned in
    let same_wallet : w ≡ wallet = ground (arith, given, given') in
    let same_user : u' ≡ u =
      ground (arith, at, subst (λ x. find_wallet x ledger.users ≡ some u') same_wallet at') in
    let made =
      subst (λ x. Planned now dto ledger x plan) same_user
        (settle-Planned now dto paid u' ledger _ plan refl set) in
    let run = process_repayment-run calls now dto ledger w plan planned in
    rw run (carried-user calls.write w now dto u plan ledger by_id made)
