-- ===== src/Loans.antt =====
-- The loans of backend/src/loan and the rows they live in (backend/src/domain/entities/loan.entity.ts
-- and the columns of user.entity.ts that credit depends on), for the Stellar deployment, where the
-- token has seven decimals. An amount is a whole number of token units, ten-millionths of a dollar,
-- which the database would round to cents, and a missing late fee is 0; a time is in milliseconds. A
-- table is the list of its rows; a query and a save of TypeORM are the functions below.
pub mod Table
pub mod Score
pub mod Reconcile
pub mod Sync
pub mod Scan
pub mod Repay
pub mod Recalc
pub mod Offer
pub mod Opening
pub mod Grant
pub mod History
use lendoor_stellar.Common.{
  ℕ, ◌+◌, ◌*◌, ◌^◌, Bool, true, false, not, ◌&&◌, ◌||◌, Option, none, some, List, [], ◌∷◌, map,
  Text, text_eq, ltb, ◌==◌, if◌then◌else◌,
}

-- TOKEN_UNIT
abbrev pub token_unit : ℕ
token_unit = 10 ^ 7

-- `toUnits` of a whole number of dollars
abbrev pub to_units : ℕ → ℕ
to_units dollars = dollars * token_unit

-- LoanStatus; `opened` is OPEN
pub data LoanStatus : Type 0 where
  opened repaid_on_time repaid_late defaulted_in_grace defaulted : LoanStatus

pub record Loan : Type 0 where
  pub id : ℕ
  pub user_id : ℕ
  pub borrower_address : Text
  pub principal : ℕ
  pub amount_due_at_open : ℕ
  pub amount_paid : ℕ
  pub tenor_days : ℕ
  pub fee_bps : ℕ
  pub start_at : ℕ
  pub due_at : ℕ
  pub closed_at : Option ℕ
  pub status : LoanStatus
  pub is_on_time : Bool
  pub open_tx_hash : Option Text
  pub close_tx_hash : Option Text
  pub synced_by_chain : Bool
  pub late_fees_collected : ℕ

-- The columns of a user that credit depends on.
pub record Borrower : Type 0 where
  pub id : ℕ
  pub wallet_address : Text
  pub score : Option ℕ
  pub credit_limit : Option ℕ
  pub xp : ℕ
  pub had_default_ever : Bool

abbrev pub is_repaid : LoanStatus → Bool
is_repaid repaid_on_time = true
is_repaid repaid_late = true
is_repaid _ = false

-- DEFAULTED and DEFAULTED_IN_GRACE
abbrev pub is_defaulted : LoanStatus → Bool
is_defaulted defaulted = true
is_defaulted defaulted_in_grace = true
is_defaulted _ = false

abbrev pub is_opened : LoanStatus → Bool
is_opened opened = true
is_opened _ = false

-- `a = b` in SQL, which is not true of a null.
abbrev pub same_hash : Option Text → Option Text → Bool
same_hash none _ = false
same_hash (some a) none = false
same_hash (some a) (some b) = text_eq a b

-- `findOne` with no order
abbrev pub find_loan : (Loan → Bool) → List Loan → Option Loan
find_loan p [] = none
find_loan p (l ∷ ls) = if p l then some l else find_loan p ls

abbrev pub latest_of : Loan → Option Loan → Loan
latest_of l none = l
latest_of l (some m) = if ltb l.start_at m.start_at then m else l

-- `findOne` ordered by startAt, the latest first
abbrev pub find_latest : (Loan → Bool) → List Loan → Option Loan
find_latest p [] = none
find_latest p (l ∷ ls) =
    let rest = find_latest p ls in if p l then some (latest_of l rest) else rest

abbrev pub filter_loans : (Loan → Bool) → List Loan → List Loan
filter_loans p [] = []
filter_loans p (l ∷ ls) = let rest = filter_loans p ls in if p l then l ∷ rest else rest

-- `save` of a row that is in the table
abbrev pub save_loan : Loan → List Loan → List Loan
save_loan u [] = []
save_loan u (l ∷ ls) = (if l.id == u.id then u else l) ∷ save_loan u ls

-- `count({ where: { userId, repaidOnTime: true } })`
abbrev pub count_on_time : ℕ → List Loan → ℕ
count_on_time user_id [] = 0
count_on_time user_id (l ∷ ls) =
    (if (l.user_id == user_id) && l.is_on_time then 1 else 0) + count_on_time user_id ls

abbrev pub find_user : ℕ → List Borrower → Option Borrower
find_user id [] = none
find_user id (u ∷ us) = if u.id == id then some u else find_user id us

abbrev pub find_wallet : Text → List Borrower → Option Borrower
find_wallet wallet [] = none
find_wallet wallet (u ∷ us) =
    if text_eq u.wallet_address wallet then some u else find_wallet wallet us

abbrev pub save_user : Borrower → List Borrower → List Borrower
save_user u [] = []
save_user u (v ∷ vs) = (if v.id == u.id then u else v) ∷ save_user u vs

-- What a call of `giveCreditScoreAndLimit` asks the chain to record.
pub record CreditWrite : Type 0 where
  pub wallet : Text
  pub score : ℕ
  pub limit : ℕ

-- Its status code; `none` is a rejected promise.
abbrev pub WriteCredit : Type 0
WriteCredit = CreditWrite → Option ℕ

-- `result === 200`
abbrev pub is_200 : Option ℕ → Bool
is_200 none = false
is_200 (some code) = code == 200
