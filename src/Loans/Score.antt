-- ===== src/Loans/Score.antt =====
-- `updateCreditScore` of backend/src/loan/chain-sync.service.ts: what a repaid loan does to the
-- score, the limit and the experience of its borrower. The priority of the write is left out.
use lendoor_stellar.Common.{
  ℕ, Bool, true, false, Option, none, some, List, [], ◌∷◌, ◌++◌, Text, max, ltb, ◌==◌,
  if◌then◌else◌,
}
use lendoor_stellar.Credit.Ladder.{get_step_for_on_time_loans}
use lendoor_stellar.Credit.Pricing.{score_or_1}
use lendoor_stellar.Loans.{
  to_units, Loan, Borrower, count_on_time, find_user, save_user, CreditWrite, WriteCredit, is_200,
}

-- The two tables, and the writes of credit that the chain was asked for.
pub record Ledger : Type 0 where
  pub loans : List Loan
  pub users : List Borrower
  pub writes : List CreditWrite

-- DEFAULT_CREDIT_LIMIT_USDC
abbrev pub default_credit_limit : ℕ
default_credit_limit = to_units 1

-- `user.creditLimit ? Number(user.creditLimit) : Number(DEFAULT_CREDIT_LIMIT_USDC)`
abbrev pub limit_or_default : Option ℕ → ℕ
limit_or_default none = default_credit_limit
limit_or_default (some l) = if l == 0 then default_credit_limit else l

pub record Credit : Type 0 where
  pub score : ℕ
  pub limit : ℕ
  pub xp : ℕ

-- `if (xpBase > currentXp) user.xp = xpBase`
abbrev pub raised_xp : ℕ → ℕ → ℕ
raised_xp xp_base xp = if ltb xp xp_base then xp_base else xp

unfoldable pub new_credit : Borrower → ℕ → Bool → Credit
unfolding get_step_for_on_time_loans
new_credit user on_time_loans false = record {
  score = score_or_1 user.score;
  limit = limit_or_default user.credit_limit;
  xp = user.xp;
}
new_credit user on_time_loans true =
    let step = get_step_for_on_time_loans on_time_loans in
    record {
      score = step.score;
      limit = max (limit_or_default user.credit_limit) (to_units step.limit_usdc);
      xp = raised_xp step.xp_base user.xp;
    }

-- The row that is saved once the chain has recorded the credit.
abbrev pub credited : Borrower → Credit → Borrower
credited user c = record user { score = some c.score; credit_limit = some c.limit; xp = c.xp }

abbrev pub record_credit : WriteCredit → Text → Borrower → Credit → Ledger → Ledger
record_credit write wallet user c ledger =
    let request : CreditWrite = record { wallet = wallet; score = c.score; limit = c.limit } in
    record ledger {
      users =
          if is_200 (write request) then save_user (credited user c) ledger.users else ledger.users;
      writes = ledger.writes ++ (request ∷ []);
    }

unfoldable pub update_credit_score : WriteCredit → Text → ℕ → Bool → Ledger → Ledger
unfolding new_credit
update_credit_score write wallet user_id was_on_time ledger =
    elim (find_user user_id ledger.users) [
      | none ↦ ledger
      | some user ↦
          record_credit write wallet user
            (new_credit user (count_on_time user_id ledger.loans) was_on_time) ledger
    ]
