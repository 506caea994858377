-- ===== src/Loans/Offer.antt =====
-- `borrow` of backend/src/loan/loan.service.ts, with its cooldown and its pricing context: what has to
-- hold before the chain is asked for an offer. The premium that is set beside the offer, which nobody
-- waits for, is left out.
pub mod Gates
use lendoor_stellar.Common.{
  ℕ, ◌+◌, ◌*◌, ◌/◌, Bool, true, false, not, ◌&&◌, ◌||◌, Option, none, some, List, [], ◌∷◌, Text,
  ltb, leb, ◌==◌, if◌then◌else◌, is_none, Result, ok, err, ◌>>=◌, ◌>>◌, throw_if, or_throw,
}
use lendoor_stellar.Cctp.Transfer.{is_falsy}
use lendoor_stellar.Wallet.{normalize_wallet}
use lendoor_stellar.Identity.Kyc.{User, kyc_gate_passes}
use lendoor_stellar.Credit.Ladder.{get_step_for_score}
use lendoor_stellar.Credit.Pricing.{
  WalletQuality, fea, score_or_1, PricingContext, invalid_tenor, get_fee_bps_for_term,
}
use lendoor_stellar.Credit.Repayment.{borrow_cooldown_error}
use lendoor_stellar.Loans.{
  to_units, LoanStatus, opened, repaid_on_time, repaid_late, defaulted_in_grace, defaulted, Loan,
  Borrower, count_on_time,
}

-- BorrowLoanDto; the amount, a numeral with at most six decimals, is in millionths of a dollar.
pub record BorrowLoan : Type 0 where
  pub amount_human : ℕ
  pub receiver : Text
  pub tenor_days : ℕ

-- The columns of a user that borrowing reads.
pub record Applicant : Type 0 where
  pub row : Borrower
  pub phone : Option Text
  pub phone_verified_at : Option ℕ
  pub kyc : User
  pub risk_p_default : Option ℕ
  pub wallet_quality : Option WalletQuality

-- What is asked of the chain.
pub record Offer : Type 0 where
  pub amount : ℕ
  pub borrower : Text
  pub tenor_days : ℕ
  pub fee_bps : ℕ

-- The user of a wallet, the flag of the gate, and the calls of the chain. `none` is a failed call; of
-- the next borrowing time also a gateway that has none, of the chain's time its null.
pub record BorrowCalls : Type 0 where
  pub find_applicant : Text → Option Applicant
  pub kyc_enabled : Bool
  pub next_borrow_time : Text → Option ℕ
  pub chain_now : Option ℕ
  pub server_now : ℕ
  pub read_credit_limit : Text → Option ℕ
  pub create_offer : Offer → Bool

pub data BorrowError : Type 0 where
  invalid_wallet invalid_tenor_days user_not_found phone_required kyc_required invalid_amount
        over_limit offer_failed :
      BorrowError
  cooldown : ℕ → BorrowError

abbrev pub receiver_or_invalid : Text → Result BorrowError Text
unfolding normalize_wallet
receiver_or_invalid address = elim (normalize_wallet address) [
  | ok w ↦ ok w
  | err _ ↦ err invalid_wallet
]

-- `[7, 14, 21].includes(tenor)`
abbrev pub is_allowed_tenor : ℕ → Bool
is_allowed_tenor days = (days == 7) || (days == 14) || (days == 21)

abbrev pub time_or : Option ℕ → ℕ → ℕ
time_or none server = server
time_or (some now) server = now

-- `if (!nextAt) return`, and the cooldown
abbrev pub cooldown_after : ℕ → ℕ → Option ℕ
unfolding borrow_cooldown_error
cooldown_after next_at now = if next_at == 0 then none else borrow_cooldown_error next_at now

abbrev pub thrown_cooldown : Option ℕ → Result BorrowError (Unit {0})
thrown_cooldown none = ok tt
thrown_cooldown (some next_at) = err (cooldown next_at)

-- assertNoBorrowCooldown
unfoldable pub assert_no_borrow_cooldown : BorrowCalls → Text → Result BorrowError (Unit {0})
unfolding cooldown_after
assert_no_borrow_cooldown calls borrower = elim (calls.next_borrow_time borrower) [
  | none ↦ ok tt
  | some next_at ↦
      thrown_cooldown (cooldown_after next_at (time_or calls.chain_now calls.server_now))
]

-- The limit that applies, in token units: the chain's, where it is positive and below the ladder's.
abbrev pub effective_limit : ℕ → Option ℕ → ℕ
effective_limit ladder none = ladder
effective_limit ladder (some on_chain) =
    if ltb 0 on_chain && ltb on_chain ladder then on_chain else ladder

unfoldable pub ladder_limit : Borrower → ℕ
unfolding get_step_for_score
ladder_limit row = to_units (get_step_for_score (score_or_1 row.score)).limit_usdc

abbrev pub is_repaid_late : LoanStatus → Bool
is_repaid_late repaid_late = true
is_repaid_late _ = false

abbrev pub count_late : ℕ → List Loan → ℕ
count_late user_id [] = 0
count_late user_id (l ∷ ls) =
    (if (l.user_id == user_id) && is_repaid_late l.status then 1 else 0) + count_late user_id ls

abbrev pub sum_paid : ℕ → List Loan → ℕ
sum_paid user_id [] = 0
sum_paid user_id (l ∷ ls) =
    (if l.user_id == user_id then l.amount_paid else 0) + sum_paid user_id ls

abbrev pub quality_or_fea : Option WalletQuality → WalletQuality
quality_or_fea none = fea
quality_or_fea (some q) = q

-- getTieredPricingContext; the sum is in cents.
unfoldable pub get_tiered_pricing_context : Applicant → List Loan → PricingContext
get_tiered_pricing_context applicant loans = record {
  on_time_loans = count_on_time applicant.row.id loans;
  wallet_quality = quality_or_fea applicant.wallet_quality;
  total_repaid = sum_paid applicant.row.id loans / 100000;
  late_loans = if applicant.row.had_default_ever then count_late applicant.row.id loans else 0;
}

unfoldable pub fee_for : ℕ → Applicant → List Loan → Result BorrowError ℕ
unfolding get_fee_bps_for_term get_tiered_pricing_context
fee_for tenor applicant loans =
    elim (get_fee_bps_for_term tenor applicant.row.score applicant.risk_p_default
      (some (get_tiered_pricing_context applicant loans))) [
        | ok bps ↦ ok bps
        | err _ ↦ err invalid_tenor_days
      ]

-- parseAmountHuman
abbrev pub requested : ℕ → Result BorrowError ℕ
requested micros = throw_if (micros == 0) invalid_amount >> ok micros

-- What a user who is let in may be offered.
unfoldable pub offer_for :
    BorrowCalls → BorrowLoan → Text → Applicant → List Loan → Result BorrowError Offer
unfolding ladder_limit fee_for
offer_for calls dto borrower applicant loans = do
  micros ← requested dto.amount_human
  throw_if
      (ltb (effective_limit (ladder_limit applicant.row) (calls.read_credit_limit borrower))
        (micros * 10))
      over_limit
  fee ← fee_for dto.tenor_days applicant loans
  throw_if
      (not (
        calls.create_offer (record {
          amount = micros;
          borrower = borrower;
          tenor_days = dto.tenor_days;
          fee_bps = fee;
        })))
      offer_failed
  ok (record { amount = micros; borrower = borrower; tenor_days = dto.tenor_days; fee_bps = fee })

-- borrow
unfoldable pub borrow : BorrowCalls → BorrowLoan → List Loan → Result BorrowError Offer
unfolding assert_no_borrow_cooldown offer_for
borrow calls dto loans = do
  borrower ← receiver_or_invalid dto.receiver
  throw_if (dto.tenor_days == 0) invalid_tenor_days
  throw_if (not (is_allowed_tenor dto.tenor_days)) invalid_tenor_days
  applicant ← or_throw user_not_found (calls.find_applicant borrower)
  throw_if (is_falsy applicant.phone || is_none applicant.phone_verified_at) phone_required
  throw_if (not (kyc_gate_passes calls.kyc_enabled applicant.kyc)) kyc_required
  assert_no_borrow_cooldown calls borrower
  offer_for calls dto borrower applicant loans
