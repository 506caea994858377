-- ===== src/Credit/Ladder/Best.antt =====
-- The ladder hands out the best step that is reached, and its two readings agree.
use lendoor_stellar.Common.{ℕ, ◌+◌, ◌≤◌, ◌≡◌, All, arith, min}
use lendoor_stellar.Credit.Ladder.{credit_ladder, get_step_for_on_time_loans, get_step_for_score}

-- The step for a number of on-time loans is reached by it, and no step of the ladder that is
-- reached has a higher limit or a higher score.
pub on_time_step_best :
    (n : ℕ)
    → ((get_step_for_on_time_loans n).min_on_time_loans ≤ n)
      × All
          (λ s.
            s.min_on_time_loans ≤ n
            → (s.limit_usdc ≤ (get_step_for_on_time_loans n).limit_usdc)
              × (s.score ≤ (get_step_for_on_time_loans n).score))
          credit_ladder
unfolding get_step_for_on_time_loans
on_time_step_best n = ground arith

-- More on-time loans never lower the limit, the score or the experience.
pub on_time_step_mono :
    (n m : ℕ)
    → n ≤ m
    → ((get_step_for_on_time_loans n).limit_usdc ≤ (get_step_for_on_time_loans m).limit_usdc)
      × ((get_step_for_on_time_loans n).score ≤ (get_step_for_on_time_loans m).score)
      × ((get_step_for_on_time_loans n).xp_base ≤ (get_step_for_on_time_loans m).xp_base)
unfolding get_step_for_on_time_loans
on_time_step_mono n m h = ground arith

-- The score of the step for n on-time loans, in closed form.
pub on_time_score : (n : ℕ) → (get_step_for_on_time_loans n).score ≡ min n 10 + 1
unfolding get_step_for_on_time_loans
on_time_score n = ground arith

-- The step that the score of a step leads to is this step: reading the ladder by score and by
-- on-time loans agrees.
pub step-score :
    (n : ℕ) → get_step_for_score (get_step_for_on_time_loans n).score ≡ get_step_for_on_time_loans n
unfolding get_step_for_on_time_loans get_step_for_score
step-score n = ground arith

-- The limit for a score in closed terms: it rises with the score, from 1 to 25.
pub score_step_mono :
    (s u : ℕ)
    → s ≤ u
    → (1 ≤ (get_step_for_score s).limit_usdc)
      × ((get_step_for_score s).limit_usdc ≤ (get_step_for_score u).limit_usdc)
      × ((get_step_for_score u).limit_usdc ≤ 25)
unfolding get_step_for_score
score_step_mono s u h = ground arith
