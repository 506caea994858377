-- ===== src/Credit/Pricing/Order.antt =====
-- How the price of a loan moves with the borrower's risk and record.
use lendoor_stellar.Common.{ℕ, ◌≤◌, Option, arith}
use lendoor_stellar.Credit.Pricing.{WalletQuality, priced_default, get_tiered_monthly_rate}

-- A higher probability of default never makes a loan cheaper, and a missing or invalid one prices
-- like the highest.
pub rate_mono_risk :
    (p q : Option ℕ) (n : ℕ) (w : WalletQuality) (repaid late : ℕ)
    → priced_default p ≤ priced_default q
    → (get_tiered_monthly_rate p n w repaid late).monthly_rate
      ≤ (get_tiered_monthly_rate q n w repaid late).monthly_rate
unfolding get_tiered_monthly_rate
rate_mono_risk p q n w repaid late h = ground arith

-- A late repayment never makes a loan cheaper.
pub rate_mono_late :
    (p : Option ℕ) (n : ℕ) (w : WalletQuality) (repaid late late' : ℕ)
    → late ≤ late'
    → (get_tiered_monthly_rate p n w repaid late).monthly_rate
      ≤ (get_tiered_monthly_rate p n w repaid late').monthly_rate
unfolding get_tiered_monthly_rate
rate_mono_late p n w repaid late late' h = ground arith
