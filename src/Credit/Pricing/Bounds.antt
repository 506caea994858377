-- ===== src/Credit/Pricing/Bounds.antt =====
-- The band of each tier, and of each rate.
use lendoor_stellar.Common.{ℕ, ◌≤◌, ◌≡◌, Option, none, some, arith}
use lendoor_stellar.Credit.Pricing.{
  percent, WalletQuality, TierName, prime_plus, prime, standard, near_prime, developing,
  get_base_monthly_rate_for_score, get_risk_adjusted_monthly_rate, get_tiered_monthly_rate,
}

-- The rates, in percent, that a tier may carry.
abbrev pub band : TierName → ℕ × ℕ
band prime_plus = (14, 14)
band prime = (18, 18)
band standard = (20, 24)
band near_prime = (24, 28)
band developing = (28, 28)

-- The rate always lies in the band of the tier that is returned with it: 14% for Prime+, 18% for
-- Prime, 20% to 24% for Standard, 24% to 28% for Near-Prime, 28% for Developing.
pub tiered_rate_in_band :
    (p : Option ℕ) (n : ℕ) (w : WalletQuality) (repaid late : ℕ)
    → let r = get_tiered_monthly_rate p n w repaid late in
      (percent (band r.tier).0 ≤ r.monthly_rate) × (r.monthly_rate ≤ percent (band r.tier).1)
unfolding get_tiered_monthly_rate
tiered_rate_in_band p n w repaid late = ground arith

-- The legacy rate lies between 15% and 30%, and a user with no risk score pays the base rate of the
-- score.
pub legacy_rate_bounds :
    (score p : Option ℕ)
    → (percent 15 ≤ get_risk_adjusted_monthly_rate score p)
      × (get_risk_adjusted_monthly_rate score p ≤ percent 30)
      × (get_risk_adjusted_monthly_rate score none ≡ get_base_monthly_rate_for_score score)
unfolding get_risk_adjusted_monthly_rate get_base_monthly_rate_for_score
legacy_rate_bounds score none = ground arith
legacy_rate_bounds score (some p) = ground arith
