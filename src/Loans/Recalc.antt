-- ===== src/Loans/Recalc.antt =====
-- `recalculateAllLimits` and `recalcUser` of backend/src/loan/chain-sync.service.ts: every verified user
-- is put back on the credit ladder. A batch is taken one user after the other.
pub mod Ladder
use lendoor_stellar.Common.{
  ℕ, ◌+◌, ◌-◌, ◌*◌, Bool, true, false, not, ◌&&◌, ◌||◌, Option, none, some, List, [], ◌∷◌, ◌++◌,
  Text, ◌==◌, if◌then◌else◌, is_none,
}
use lendoor_stellar.Cctp.Transfer.{is_falsy}
use lendoor_stellar.Credit.Ladder.{get_step_for_on_time_loans}
use lendoor_stellar.Credit.Pricing.{score_or_1, or_zero}
use lendoor_stellar.Loans.{
  to_units, Borrower, count_on_time, find_user, save_user, CreditWrite, WriteCredit, is_200, Loan,
}
use lendoor_stellar.Loans.Score.{Ledger, Credit, raised_xp}

-- What `readUserRisk` returns.
pub record UserRisk : Type 0 where
  pub score : ℕ
  pub limit : ℕ

-- The calls of the chain; `none` is a failed call, the inner option the null of `readUserRisk`.
pub record RecalcCalls : Type 0 where
  pub read_risk : Text → Option (Option UserRisk)
  pub write : WriteCredit

pub data RecalcOutcome : Type 0 where
  chain db skip error : RecalcOutcome

-- What the ladder gives for a number of loans repaid on time.
unfoldable pub ladder_credit : ℕ → Credit
unfolding get_step_for_on_time_loans
ladder_credit count =
    let step = get_step_for_on_time_loans count in
    record { score = step.score; limit = to_units step.limit_usdc; xp = step.xp_base }

abbrev pub is_db_in_sync : Borrower → Credit → Bool
is_db_in_sync user c = (score_or_1 user.score == c.score) && (or_zero user.credit_limit == c.limit)

-- `onChain?.score ?? 0` and `onChain?.limit ?? 0n`
abbrev pub is_chain_in_sync : Option UserRisk → Credit → Bool
is_chain_in_sync none c = (0 == c.score) && (0 == c.limit)
is_chain_in_sync (some risk) c = (risk.score == c.score) && (risk.limit == c.limit)

abbrev pub updated : Borrower → Credit → Borrower
updated user c = record user {
  score = some c.score;
  credit_limit = some c.limit;
  xp = raised_xp c.xp user.xp;
}

abbrev pub update_unless : Bool → Borrower → Credit → Ledger → Ledger
update_unless true user c ledger = ledger
update_unless false user c ledger = record ledger {
  users = save_user (updated user c) ledger.users;
}

abbrev pub ladder_write : Borrower → Credit → CreditWrite
ladder_write user c = record { wallet = user.wallet_address; score = c.score; limit = c.limit }

-- The branch that reads the chain, once it was read.
unfoldable pub recalc_on_chain :
    WriteCredit → Borrower → Credit → Option UserRisk → Ledger → RecalcOutcome × Ledger
recalc_on_chain write user c risk ledger =
    let synced = is_db_in_sync user c in
    let asked = record ledger { writes = ledger.writes ++ (ladder_write user c ∷ []) } in
    if is_chain_in_sync risk c
    then (if synced then (skip, ledger) else (db, update_unless synced user c ledger))
    else if is_200 (write (ladder_write user c))
    then (chain, update_unless synced user c asked)
    else (error, asked)

-- recalcUser
unfoldable pub recalc_user : RecalcCalls → Borrower → Bool → Ledger → RecalcOutcome × Ledger
unfolding ladder_credit recalc_on_chain
recalc_user calls user check_chain ledger =
    let c = ladder_credit (count_on_time user.id ledger.loans) in
    if is_falsy (some user.wallet_address)
    then (skip, ledger)
    else if check_chain
    then elim (calls.read_risk user.wallet_address) [
      | none ↦ (error, ledger)
      | some risk ↦ recalc_on_chain calls.write user c risk ledger
    ]
    else if is_db_in_sync user c
    then (skip, ledger)
    else (db, update_unless false user c ledger)

-- The groups of users with one score, in the order in which the scores came.
abbrev pub push_user : Borrower → List (ℕ × List Borrower) → List (ℕ × List Borrower)
push_user u [] = (score_or_1 u.score, u ∷ []) ∷ []
push_user u ((s, group) ∷ rest) =
    let later = push_user u rest in
    if score_or_1 u.score == s then (s, group ++ (u ∷ [])) ∷ rest else (s, group) ∷ later

abbrev pub by_score : List Borrower → List (ℕ × List Borrower) → List (ℕ × List Borrower)
by_score [] groups = groups
by_score (u ∷ us) groups = by_score us (push_user u groups)

-- The first user of a level with a wallet; without one there is no canary to ask.
abbrev pub canary_of : List Borrower → Option Borrower
canary_of [] = none
canary_of (u ∷ us) = if is_falsy (some u.wallet_address) then canary_of us else some u

-- Whether the canary differs from the ladder on the chain, or could not be read.
unfoldable pub needs_chain_update : RecalcCalls → List Loan → Option Borrower → Bool
unfolding ladder_credit
needs_chain_update calls loans none = false
needs_chain_update calls loans (some canary) = elim (calls.read_risk canary.wallet_address) [
  | none ↦ true
  | some risk ↦ not (is_chain_in_sync risk (ladder_credit (count_on_time canary.id loans)))
]

unfoldable pub recalc_level : RecalcCalls → Bool → List Borrower → Ledger → Ledger
unfolding recalc_user
recalc_level calls check_chain [] ledger = ledger
recalc_level calls check_chain (u ∷ us) ledger =
    recalc_level calls check_chain us (recalc_user calls u check_chain ledger).1

unfoldable pub recalc_levels : RecalcCalls → List (ℕ × List Borrower) → Ledger → Ledger
unfolding recalc_level needs_chain_update
recalc_levels calls [] ledger = ledger
recalc_levels calls ((_, users) ∷ rest) ledger =
    recalc_levels calls rest
      (recalc_level calls (needs_chain_update calls ledger.loans (canary_of users)) users ledger)

abbrev pub verified_users : List Borrower → List Borrower
verified_users [] = []
verified_users (u ∷ us) = let rest = verified_users us in if is_none u.score then rest else u ∷ rest

-- recalculateAllLimits, without its counts
unfoldable pub recalculate_all_limits : RecalcCalls → Ledger → Ledger
unfolding recalc_levels
recalculate_all_limits calls ledger =
    recalc_levels calls (by_score (verified_users ledger.users) []) ledger
