-- ===== src/Credit/Ladder.antt =====
-- The credit ladder of backend/src/domain/services/credit-policy.service.ts. Counts, scores and
-- limits of the ladder are whole numbers.
pub mod Best
use lendoor_stellar.Common.{ℕ, Bool, List, [], ◌∷◌, leb, if◌then◌else◌}

-- CreditLadderStep
pub record LadderStep : Type 0 where
  pub min_on_time_loans : ℕ
  pub score : ℕ
  pub limit_usdc : ℕ
  pub xp_base : ℕ

abbrev pub step : ℕ → ℕ → ℕ → ℕ → LadderStep
step loans score limit xp = record {
  min_on_time_loans = loans;
  score = score;
  limit_usdc = limit;
  xp_base = xp;
}

-- CREDIT_LADDER and its first step
abbrev pub first_step : LadderStep
first_step = step 0 1 1 1

abbrev pub credit_ladder : List LadderStep
credit_ladder =
    first_step
    ∷ step 1 2 3 11
    ∷ step 2 3 4 21
    ∷ step 3 4 6 31
    ∷ step 4 5 8 41
    ∷ step 5 6 10 51
    ∷ step 6 7 12 61
    ∷ step 7 8 15 71
    ∷ step 8 9 18 81
    ∷ step 9 10 22 91
    ∷ step 10 11 25 101
    ∷ []

-- The loop over the ladder, which breaks at the first step that is out of reach.
abbrev pub climb : (LadderStep → Bool) → LadderStep → List LadderStep → LadderStep
climb reached best [] = best
climb reached best (s ∷ steps) = if reached s then climb reached s steps else best

unfoldable pub get_step_for_on_time_loans : ℕ → LadderStep
get_step_for_on_time_loans on_time_loans =
    climb (λ s. leb s.min_on_time_loans on_time_loans) first_step credit_ladder

unfoldable pub get_step_for_score : ℕ → LadderStep
get_step_for_score score = climb (λ s. leb s.score score) first_step credit_ladder
