-- ===== src/Credit/Late.antt =====
-- backend/src/loan/loan-calculations.service.ts: late fees. Amounts are whole numbers of the
-- smallest unit that the caller counts in; a fee is kept with the 18 decimals of its rate, as a
-- numerator over 10^18, so nothing is rounded.
use lendoor_stellar.Common.{
  ℕ, ◌+◌, ◌-◌, ◌*◌, ◌/◌, ◌^◌, ◌≤◌, ◌≡◌, Bool, false, ◌||◌, ltb, ◌==◌, if◌then◌else◌, arith,
}

-- LATE_RATE_PER_SEC_WAD
abbrev pub late_rate_per_sec_wad : ℕ
late_rate_per_sec_wad = 19290123457

abbrev pub wad : ℕ
wad = 10 ^ 18

pub record LateFeesInput : Type 0 where
  pub amount_due_at_open : ℕ
  pub due_at : ℕ
  pub rate_per_sec_wad : ℕ
  pub grace_period : ℕ
  pub now : ℕ

-- `late_fees`, `amount_due_real` and `per_day_delta` are over 10^18; `seconds_late` is `daysLate` in
-- seconds.
pub record LateFees : Type 0 where
  pub late_fees : ℕ
  pub amount_due_real : ℕ
  pub seconds_late : ℕ
  pub in_grace_period : Bool
  pub per_day_delta : ℕ
  pub late_start : ℕ

unfoldable pub compute_late_fees : LateFeesInput → LateFees
compute_late_fees i =
    let late_start = i.due_at + i.grace_period in
    let in_grace = ltb i.now late_start in
    if in_grace || i.rate_per_sec_wad == 0
    then record {
      late_fees = 0;
      amount_due_real = i.amount_due_at_open * wad;
      seconds_late = 0;
      in_grace_period = in_grace;
      per_day_delta = 0;
      late_start = late_start;
    }
    else record {
      late_fees = i.amount_due_at_open * i.rate_per_sec_wad * (i.now - late_start);
      amount_due_real =
          i.amount_due_at_open * wad
          + i.amount_due_at_open * i.rate_per_sec_wad * (i.now - late_start);
      seconds_late = i.now - late_start;
      in_grace_period = false;
      per_day_delta = i.amount_due_at_open * i.rate_per_sec_wad * 86400;
      late_start = late_start;
    }

-- `max(0, ceil((now - due) / 86400))`
unfoldable pub days_overdue : ℕ → ℕ → ℕ
days_overdue due_at now = (now - due_at + 86399) / 86400

product_mono : (k x y : ℕ) → x ≤ y → k * x ≤ k * y
product_mono k x y h = grind arith

-- What is due never falls as time passes, and never below the amount due at the opening.
pub amount_due_mono :
    (i : LateFeesInput) (later : ℕ)
    → i.now ≤ later
    → (i.amount_due_at_open * wad ≤ (compute_late_fees i).amount_due_real)
      × ((compute_late_fees i).amount_due_real
          ≤ (compute_late_fees (record i { now = later })).amount_due_real)
unfolding compute_late_fees
amount_due_mono i later h = ground (
  arith,
  product_mono (i.amount_due_at_open * i.rate_per_sec_wad) (i.now - (i.due_at + i.grace_period))
      (later - (i.due_at + i.grace_period)) (omega arith),
)

-- A loan that is thirty days past its grace owes a late fee of 5% of the amount due, to within a
-- billionth of that amount.
pub thirty_days_late :
    (i : LateFeesInput)
    → i.rate_per_sec_wad ≡ late_rate_per_sec_wad
    → i.now ≡ i.due_at + i.grace_period + 30 * 86400
    → (i.amount_due_at_open * wad ≤ 20 * (compute_late_fees i).late_fees)
      × (20 * (compute_late_fees i).late_fees
          ≤ i.amount_due_at_open * wad + i.amount_due_at_open * 20 * 10 ^ 9)
unfolding compute_late_fees
thirty_days_late i r n = rw (r, n) (ground arith)
