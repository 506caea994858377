-- ===== src/Credit/Repayment.antt =====
-- What a borrower is told before a repayment, and when the next loan may open:
-- backend/src/loan/loan-repayment.service.ts (preflightRepayment) and
-- backend/src/loan/borrow-cooldown.ts.
-- The chain is read once through the gateway; what each call returns is an argument. Amounts are base units, rates are per second and
-- scaled by 10 ^ 18, times are seconds. The fractions that are shown (days late, days to default,
-- the growth per day) are left out.
use lendoor_stellar.Common.{
  ℕ, ◌+◌, ◌-◌, ◌*◌, ◌/◌, ◌^◌, ◌≤◌, ◌<◌, ◌≡◌, ◌⊎◌, ◌↔◌, max, Bool, true, false, not, ◌||◌, Option,
  none, some, ltb, leb, ◌==◌, if◌then◌else◌, Result, ok, err, arith,
}

-- The fields of `readLoanFull` that preflight uses.
pub record LoanFull : Type 0 where
  pub active : Bool
  pub principal : ℕ
  pub amount_due : ℕ
  pub due : ℕ
  pub grace_period : ℕ
  pub fee_bps : ℕ

-- What the gateway answers: the five reads at the start, whether `accrueLate` succeeds, and the
-- loan as it is read after it.
pub record Chain : Type 0 where
  pub loan : Option LoanFull
  pub late_rate_per_sec_wad : Option ℕ
  pub preview_with_late : Option ℕ
  pub is_defaulted : Option Bool
  pub timestamp : Option ℕ
  pub accrue_late_succeeds : Bool
  pub loan_after : Option LoanFull

pub data PreflightError : Type 0 where
  loan_unreadable no_active_loan timestamp_unreadable accrue_late_failed : PreflightError

-- accrueLateSkippedReason
pub data SkippedReason : Type 0 where
  lazy_skip pre_grace rate_zero : SkippedReason

pub record PreflightPayload : Type 0 where
  pub principal : ℕ
  pub stored_amount_due_before : ℕ
  pub accrued_amount_due : ℕ
  pub last_accrued_ts : ℕ
  pub rate_per_sec_wad : ℕ
  pub base_fee_bps : ℕ
  pub due_at : ℕ
  pub grace_period : ℕ
  pub late_start : ℕ
  pub chain_now_unix : ℕ
  pub is_defaulted : Bool
  pub accrue_late_called : Bool
  pub accrue_late_skipped_reason : Option SkippedReason

abbrev pub rate_or_0 : Option ℕ → ℕ
rate_or_0 none = 0
rate_or_0 (some r) = r

abbrev pub or_false : Option Bool → Bool
or_false none = false
or_false (some b) = b

abbrev pub amount_due_or : Option LoanFull → ℕ → ℕ
amount_due_or none d = d
amount_due_or (some l) d = l.amount_due

-- The time since which late fees are owed, on what the loan owes and what a preview of it with
-- late fees owes. The two differ by a difference that stops at 0, as `delta <= 0n` does.
abbrev pub derived_accrual : ℕ → ℕ → ℕ → ℕ → ℕ → ℕ
derived_accrual now late_start rate preview accrued =
    let delta = preview - accrued in
    if delta == 0 then now else max (now - delta * 10 ^ 18 / (rate * accrued)) late_start

unfoldable pub last_accrued : Bool → Bool → ℕ → ℕ → ℕ → Option ℕ → ℕ → ℕ
last_accrued called past_grace now late_start rate preview accrued = elim preview [
  | none ↦ now
  | some p ↦
      if called || rate == 0 || accrued == 0 || not past_grace
      then now
      else derived_accrual now late_start rate p accrued
]

-- Whether late fees are made part of the loan, or why not.
unfoldable pub accrue_decision : Bool → Bool → ℕ → Option SkippedReason
accrue_decision force past_grace rate =
    if not force
    then some lazy_skip
    else if not past_grace
    then some pre_grace
    else if rate == 0
    then some rate_zero
    else none

abbrev pub is_unskipped : Option SkippedReason → Bool
is_unskipped none = true
is_unskipped (some _) = false

unfoldable pub payload : Chain → LoanFull → ℕ → Option SkippedReason → PreflightPayload
unfolding last_accrued
payload chain loan now skipped =
    let late_start = loan.due + loan.grace_period in
    let past_grace = ltb late_start now in
    let rate = rate_or_0 chain.late_rate_per_sec_wad in
    let called = is_unskipped skipped in
    let accrued =
      if called then amount_due_or chain.loan_after loan.amount_due else loan.amount_due in
    record {
      principal = loan.principal;
      stored_amount_due_before = loan.amount_due;
      accrued_amount_due = accrued;
      last_accrued_ts =
          last_accrued called past_grace now late_start rate chain.preview_with_late accrued;
      rate_per_sec_wad = rate;
      base_fee_bps = loan.fee_bps;
      due_at = loan.due;
      grace_period = loan.grace_period;
      late_start = late_start;
      chain_now_unix = now;
      is_defaulted = or_false chain.is_defaulted;
      accrue_late_called = called;
      accrue_late_skipped_reason = skipped;
    }

unfoldable pub preflight_repayment : Bool → Chain → Result PreflightError PreflightPayload
unfolding payload accrue_decision
preflight_repayment force chain = elim chain.loan [
  | none ↦ err loan_unreadable
  | some loan ↦ if not loan.active then err no_active_loan else elim chain.timestamp [
    | none ↦ err timestamp_unreadable
    | some now ↦
        let past_grace = ltb (loan.due + loan.grace_period) now in
        let rate = rate_or_0 chain.late_rate_per_sec_wad in
        elim (accrue_decision force past_grace rate) [
          | none ↦
              if chain.accrue_late_succeeds
              then ok (payload chain loan now none)
              else err accrue_late_failed
          | some reason ↦ ok (payload chain loan now (some reason))
        ]
  ]
]

-- borrowCooldownError: the time from which the borrower may borrow again, if that is in the future.
unfoldable pub borrow_cooldown_error : ℕ → ℕ → Option ℕ
borrow_cooldown_error next_at now = if next_at == 0 || leb next_at now then none else some next_at

-- The time since which late fees are owed lies between the end of the grace period and the chain's
-- time, or is the chain's time.
pub last_accrued_bounds :
    (called past_grace : Bool) (now late_start rate : ℕ) (preview : Option ℕ) (accrued : ℕ)
    → past_grace ≡ ltb late_start now
    → (last_accrued called past_grace now late_start rate preview accrued ≤ now)
      × ((late_start ≤ last_accrued called past_grace now late_start rate preview accrued)
          ⊎ (last_accrued called past_grace now late_start rate preview accrued ≡ now))
unfolding last_accrued
last_accrued_bounds called past_grace now late_start rate none accrued h = ground arith
last_accrued_bounds called past_grace now late_start rate (some p) accrued h = ground arith

-- Before a repayment late fees are written to the chain only when that is forced, past the grace
-- period and at a positive rate; then there is no reason to skip, and the amount that was stored
-- is reported beside the new one. Otherwise the amount is what the chain stored.
pub preflight_accrues :
    (force : Bool) (chain : Chain) (p : PreflightPayload)
    → preflight_repayment force chain ≡ ok p
    → ((p.accrue_late_called ≡ true)
        × (force ≡ true)
        × (p.late_start < p.chain_now_unix)
        × (0 < p.rate_per_sec_wad)
        × (p.accrue_late_skipped_reason ≡ none))
      ⊎ ((p.accrue_late_called ≡ false) × (p.accrued_amount_due ≡ p.stored_amount_due_before))
unfolding preflight_repayment accrue_decision payload
preflight_accrues force chain p h = ground arith

-- A borrower may borrow from the time that the chain names, and then for ever.
pub cooldown_iff : (next_at now : ℕ) → (borrow_cooldown_error next_at now ≡ none) ↔ (next_at ≤ now)
unfolding borrow_cooldown_error
cooldown_iff next_at now = ground arith
