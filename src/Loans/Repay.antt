-- ===== src/Loans/Repay.antt =====
-- `processRepayment` of backend/src/loan/loan-repayment.service.ts: a client reports that it repaid.
-- The amount that the chain holds to be due is only logged, and the reputation gain of the answer is
-- only shown: both are left out.
pub mod Plan
pub mod Table
pub mod Score
pub mod Again
use lendoor_stellar.Common.{
  ℕ, ◌+◌, ◌-◌, ◌*◌, ◌/◌, Bool, true, false, not, ◌&&◌, ◌||◌, Option, none, some, List, [], ◌∷◌,
  ◌++◌, Text, text_eq, ltb, leb, ◌==◌, if◌then◌else◌, is_none, max, Result, ok, err, ◌>>=◌, ◌>>◌,
  throw_if, or_throw,
}
use lendoor_stellar.Cctp.Transfer.{is_falsy}
use lendoor_stellar.Wallet.{normalize_wallet}
use lendoor_stellar.Credit.Ladder.{get_step_for_on_time_loans, get_step_for_score}
use lendoor_stellar.Credit.Pricing.{score_or_1}
use lendoor_stellar.Loans.{
  to_units, repaid_on_time, repaid_late, Loan, Borrower, is_defaulted, is_opened, same_hash,
  find_loan, find_latest, save_loan, count_on_time, find_user, find_wallet, save_user, CreditWrite,
  WriteCredit,
}
use lendoor_stellar.Loans.Score.{Ledger, default_credit_limit, Credit, raised_xp, record_credit}
use lendoor_stellar.Loans.Reconcile.{grace_ms}

-- InformRepaymentDto; the amount, a numeral with at most six decimals, is in millionths of a dollar.
pub record InformRepayment : Type 0 where
  pub wallet_address : Text
  pub amount_paid_human : ℕ
  pub tx_hash : Option Text

-- What `verifyRepayByTxHash` returns: `unknown` is `no_receipt` and `rpc_error`.
pub data RepayCheck : Type 0 where
  verified : Option ℕ → RepayCheck
  reverted no_match unknown : RepayCheck

-- The calls of the chain; `none` is a failed call. The inner option of `loan_active` is the null of
-- `readLoanOnChain`.
pub record RepayCalls : Type 0 where
  pub verify_repay : Text → Text → RepayCheck
  pub loan_active : Text → Option (Option Bool)
  pub write : WriteCredit

pub data RepayError : Type 0 where
  invalid_wallet user_not_found tx_reverted tx_no_match chain_unreadable still_active no_active_loan
        invalid_amount :
      RepayError

-- `new Decimal(units).div(TOKEN_UNIT).toFixed(6)` in token units, a half rounded up
abbrev pub to_six_decimals : ℕ → ℕ
to_six_decimals units = (units + 5) / 10 * 10

-- `formatAmount`: two decimals of millionths, in token units
abbrev pub to_cents : ℕ → ℕ
to_cents micros = (micros + 5000) / 10000 * 100000

-- `onChainLoan?.active ?? true`
abbrev pub active_or_true : Option Bool → Bool
active_or_true none = true
active_or_true (some b) = b

-- The branch without a verified transaction.
unfoldable pub check_closed : RepayCalls → Text → Result RepayError (Option ℕ)
check_closed calls wallet = elim (calls.loan_active wallet) [
  | none ↦ err chain_unreadable
  | some active ↦ if active_or_true active then err still_active else ok none
]

-- The check on the chain, with the amount that the chain took, if it tells.
unfoldable pub check_on_chain : RepayCalls → Text → Option Text → Result RepayError (Option ℕ)
unfolding check_closed
check_on_chain calls wallet none = check_closed calls wallet
check_on_chain calls wallet (some tx) =
    if is_falsy (some tx) then check_closed calls wallet else elim (calls.verify_repay tx wallet) [
      | verified paid ↦ ok paid
      | reverted ↦ err tx_reverted
      | no_match ↦ err tx_no_match
      | unknown ↦ check_closed calls wallet
    ]

-- parseAmountHuman
abbrev pub parse_amount_human : ℕ → Result RepayError ℕ
parse_amount_human micros = throw_if (micros == 0) invalid_amount >> ok micros

abbrev pub amount_or : Option ℕ → ℕ → ℕ
amount_or none micros = to_cents micros
amount_or (some units) micros = to_six_decimals units

-- The rows that a repayment may close.
abbrev pub is_repayable : ℕ → Loan → Bool
is_repayable user_id l =
    (l.user_id == user_id)
    && (is_opened l.status || is_defaulted l.status)
    && is_none l.close_tx_hash

-- The row that the transaction saves.
unfoldable pub settled : Loan → ℕ → ℕ → Option Text → Loan
settled loan now paid tx =
    let on_time = leb now (loan.due_at + grace_ms) in
    record loan {
      amount_paid = paid;
      closed_at = some now;
      status = if on_time then repaid_on_time else repaid_late;
      is_on_time = on_time;
      close_tx_hash = tx;
    }

-- `millisPastDue > DEFAULT_LATE_PERIOD_MS`
abbrev pub is_post_default : Loan → ℕ → Bool
is_post_default loan now = ltb (loan.due_at + (grace_ms + 15 * 24 * 60 * 60 * 1000)) now

-- What is to be done once the checks have passed.
pub data Settlement : Type 0 where
  already_processed : Loan → Settlement
  closing : Borrower → Loan → Bool → Settlement

-- `none` where there is no hash to look for
abbrev pub processed_by : Option Text → List Loan → Option Loan
processed_by tx loans =
    if is_falsy tx then none else find_loan (λ l. same_hash l.close_tx_hash tx) loans

-- The first part of the transaction.
unfoldable pub close_open_loan :
    ℕ → InformRepayment → Option ℕ → Borrower → List Loan → Result RepayError Settlement
unfolding settled
close_open_loan now dto paid user loans = do
  loan ← or_throw no_active_loan (find_latest (is_repayable user.id) loans)
  micros ← parse_amount_human dto.amount_paid_human
  ok (
      closing user (settled loan now (amount_or paid micros) dto.tx_hash)
        (is_post_default loan now))

-- The second look at the transaction's hash, and what follows.
unfoldable pub settle :
    ℕ
    → InformRepayment
    → Option ℕ
    → Borrower
    → List Loan
    → Option Loan
    → Result RepayError Settlement
unfolding close_open_loan
settle now dto paid user loans (some existing) = ok (already_processed existing)
settle now dto paid user loans none = close_open_loan now dto paid user loans

abbrev pub wallet_or_invalid : Text → Result RepayError Text
unfolding normalize_wallet
wallet_or_invalid address = elim (normalize_wallet address) [
  | ok w ↦ ok w
  | err _ ↦ err invalid_wallet
]

-- Everything up to the first write.
unfoldable pub plan_repayment :
    RepayCalls → ℕ → InformRepayment → Ledger → Result RepayError (Text × Settlement)
unfolding check_on_chain settle
plan_repayment calls now dto ledger = do
  wallet ← wallet_or_invalid dto.wallet_address
  user ← or_throw user_not_found (find_wallet wallet ledger.users)
  paid ← check_on_chain calls wallet dto.tx_hash
  plan ← settle now dto paid user ledger.loans (processed_by dto.tx_hash ledger.loans)
  ok (wallet, plan)

-- `if (isPostDefault && !user.hadDefaultEver)`
abbrev pub mark_default : Bool → Borrower → Borrower
mark_default post user = record user { had_default_ever = user.had_default_ever || post }

-- `this.toNum(user.creditLimit) ?? Number(DEFAULT_CREDIT_LIMIT_USDC)`
abbrev pub limit_of : Borrower → ℕ
limit_of user = elim user.credit_limit [ none ↦ default_credit_limit | some l ↦ l ]

abbrev pub capped_score : ℕ → ℕ → ℕ
capped_score computed current = if ltb (current + 1) computed then current + 1 else computed

unfoldable pub on_time_award : Borrower → ℕ → Credit
unfolding get_step_for_on_time_loans get_step_for_score
on_time_award user count =
    let step = get_step_for_on_time_loans count in
    let score = capped_score step.score (score_or_1 user.score) in
    record {
      score = score;
      limit = max (limit_of user) (to_units (get_step_for_score score).limit_usdc);
      xp = raised_xp step.xp_base user.xp;
    }

unfoldable pub default_penalty : Borrower → Credit
unfolding get_step_for_score
default_penalty user =
    let score = max 1 (score_or_1 user.score - 2) in
    record { score = score; limit = to_units (get_step_for_score score).limit_usdc; xp = user.xp }

unfoldable pub renewal : Text → Borrower → CreditWrite
unfolding get_step_for_score
renewal wallet user =
    let score = score_or_1 user.score in
    record {
      wallet = wallet;
      score = score;
      limit = max (limit_of user) (to_units (get_step_for_score score).limit_usdc);
    }

-- Score and limit after the transaction; a late payer's write is not waited on for the row.
unfoldable pub settle_credit : WriteCredit → Text → Borrower → Bool → Bool → Ledger → Ledger
unfolding on_time_award default_penalty renewal
settle_credit write wallet user true post ledger =
    record_credit write wallet user (on_time_award user (count_on_time user.id ledger.loans)) ledger
settle_credit write wallet user false true ledger =
    record_credit write wallet user (default_penalty user) ledger
settle_credit write wallet user false false ledger = record ledger {
  writes = ledger.writes ++ (renewal wallet user ∷ []);
}

-- The two saves of the transaction.
abbrev pub transact : Loan → Borrower → Ledger → Ledger
transact row user ledger = record ledger {
  loans = save_loan row ledger.loans;
  users = save_user user ledger.users;
}

unfoldable pub carry_out : WriteCredit → Text → Settlement → Ledger → Ledger
unfolding settle_credit
carry_out write wallet (already_processed row) ledger = ledger
carry_out write wallet (closing user row post) ledger =
    let marked = mark_default post user in
    settle_credit write wallet marked row.is_on_time post (transact row marked ledger)

-- processRepayment: the row that it answers with, or the error, and the tables.
unfoldable pub process_repayment :
    RepayCalls → ℕ → InformRepayment → Ledger → Result RepayError Settlement × Ledger
unfolding plan_repayment carry_out
process_repayment calls now dto ledger = elim (plan_repayment calls now dto ledger) [
  | err e ↦ (err e, ledger)
  | ok (wallet, plan) ↦ (ok plan, carry_out calls.write wallet plan ledger)
]
