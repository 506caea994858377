-- ===== src/Credit/Pricing/Override.antt =====
-- The loyalty overrides, which are tested before the tiers by risk.
use lendoor_stellar.Common.{ℕ, ◌≤◌, ◌<◌, ◌≡◌, false, Option, arith}
use lendoor_stellar.Credit.Pricing.{
  percent, WalletQuality, prime_plus, prime, tier_result, buena_override, priced_default,
  get_tiered_monthly_rate,
}

-- A borrower who meets every condition of Prime+, a risk below 5%, 7 loans on time or more and at most
-- one late, pays 14% as long as less than 50 dollars are repaid; with 20 loans on time or more, from 50
-- dollars on, and short of the higher override, the same borrower pays the 18% of Prime.
pub override_demotes :
    (p : Option ℕ) (n more : ℕ) (w : WalletQuality) (less repaid late : ℕ)
    → priced_default p < 500
    → 7 ≤ n
    → 20 ≤ more
    → late ≤ 1
    → less < 5000
    → 5000 ≤ repaid
    → buena_override more repaid late ≡ false
    → (get_tiered_monthly_rate p n w less late ≡ tier_result prime_plus (percent 14))
      × (get_tiered_monthly_rate p more w repaid late ≡ tier_result prime (percent 18))
unfolding get_tiered_monthly_rate
override_demotes p n more w less repaid late h k m l a b o = ground arith
