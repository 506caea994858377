-- ===== src/Credit/Pricing.antt =====
-- The rates of backend/src/domain/services/credit-policy.service.ts and of
-- backend/src/loan/loan.service.ts (getRatesForTerm, toBps).
-- The source computes with doubles and 40-digit decimals; the model has their exact values. A
-- probability of default is the stored decimal with four places, in ten-thousandths; a repaid sum
-- is in cents. A monthly rate is in units of 1/187500, in which every rate of the source is whole:
-- 1% is 1875.
pub mod Bounds
pub mod Order
pub mod Override
use lendoor_stellar.Common.{
  ℕ, ◌+◌, ◌-◌, ◌*◌, ◌/◌, Bool, true, false, not, ◌&&◌, ◌||◌, Option, none, some, List, [], ◌∷◌, map,
  ltb, leb, ◌==◌, if◌then◌else◌, min, max, any, Result, ok, err, ◌>>=◌, ◌>>◌, throw_if,
}
use lendoor_stellar.Credit.Ladder.{LadderStep, credit_ladder}

-- Percent, in rate units.
abbrev pub percent : ℕ → ℕ
percent n = n * 1875

pub data WalletQuality : Type 0 where
  buena media fea : WalletQuality

pub data TierName : Type 0 where
  prime_plus prime standard near_prime developing : TierName

pub record TierResult : Type 0 where
  pub tier : TierName
  pub monthly_rate : ℕ

-- `score ?? 1`
abbrev pub score_or_1 : Option ℕ → ℕ
score_or_1 none = 1
score_or_1 (some s) = s

unfoldable pub get_base_monthly_rate_for_score : Option ℕ → ℕ
get_base_monthly_rate_for_score score =
    let s = score_or_1 score in
    if leb s 3
    then percent 25
    else if leb s 5
    then percent 24
    else if leb s 10
    then percent 23
    else if leb s 15
    then percent 22
    else percent 21

-- The legacy rate. Each adjustment is added to the base rate before the clamp to 15% and 30%.
abbrev adjusted : ℕ → ℕ → ℕ
adjusted base p =
    if ltb p 1000
    then base - percent 5
    else if ltb p 2000
    then base
    else if ltb p 3000
    then base + percent 5
    else base + percent 8

unfoldable pub get_risk_adjusted_monthly_rate : Option ℕ → Option ℕ → ℕ
unfolding get_base_monthly_rate_for_score
get_risk_adjusted_monthly_rate score none = get_base_monthly_rate_for_score score
get_risk_adjusted_monthly_rate score (some p) =
    if ltb 10000 p
    then get_base_monthly_rate_for_score score
    else max (percent 15) (min (percent 30) (adjusted (get_base_monthly_rate_for_score score) p))

-- Volumes and gas in cents.
pub record WalletParams : Type 0 where
  pub stablecoin_volume : ℕ
  pub wallet_age_days : ℕ
  pub total_tx_count : ℕ
  pub chains_active : Option ℕ
  pub gas_spent_usd : Option ℕ

abbrev pub or_zero : Option ℕ → ℕ
or_zero none = 0
or_zero (some n) = n

unfoldable pub classify_wallet_quality : WalletParams → WalletQuality
classify_wallet_quality p =
    let chains = or_zero p.chains_active in
    if ltb 100000 p.stablecoin_volume
      || ltb 20000 p.stablecoin_volume && leb 3 chains && ltb 200 p.wallet_age_days
    then buena
    else if ltb 2000 p.stablecoin_volume
        || leb 2 chains
        || leb 50 (or_zero p.gas_spent_usd) && ltb 150 p.wallet_age_days
    then media
    else fea

-- The probability that is priced: a missing or invalid one is the worst, 1.
abbrev pub priced_default : Option ℕ → ℕ
priced_default none = 10000
priced_default (some p) = if leb p 10000 then p else 10000

abbrev pub buena_override : ℕ → ℕ → ℕ → Bool
buena_override on_time repaid late = leb 30 on_time && leb 20000 repaid && late == 0

abbrev pub media_override : ℕ → ℕ → ℕ → Bool
media_override on_time repaid late = leb 20 on_time && leb 5000 repaid && ltb late 3

abbrev pub tier_result : TierName → ℕ → TierResult
tier_result tier rate = record { tier = tier; monthly_rate = rate }

-- `0.22 + max(-0.02, min(0.02, (pd / 0.15 - 0.5) * 0.04))`: the product is 5 pd - 3750 units.
abbrev pub standard_rate : ℕ → ℕ
standard_rate pd = percent 20 + min (percent 4) (5 * pd)

-- `0.26 + max(-0.02, min(0.02, (pd / 0.25 - 0.5) * 0.04))`: the product is 3 pd - 3750 units.
abbrev pub near_prime_rate : ℕ → ℕ
near_prime_rate pd = percent 24 + min (percent 4) (3 * pd)

-- `walletQuality` is in the signature, and unused, as in the source.
unfoldable pub get_tiered_monthly_rate :
    (p_default : Option ℕ) (on_time_loans : ℕ) (wallet_quality : WalletQuality)
    (total_repaid late_loans : ℕ)
    → TierResult
get_tiered_monthly_rate p_default on_time wallet repaid late =
    let pd = priced_default p_default in
    if buena_override on_time repaid late
    then tier_result prime_plus (percent 14)
    else if media_override on_time repaid late
    then tier_result prime (percent 18)
    else if ltb pd 500 && leb 7 on_time && leb late 1
    then tier_result prime_plus (percent 14)
    else if ltb pd 1000 && leb 5 on_time && leb late 2
    then tier_result prime (percent 18)
    else if leb 3 on_time || ltb pd 1500
    then tier_result standard (standard_rate pd)
    else if leb 1 on_time || ltb pd 2500
    then tier_result near_prime (near_prime_rate pd)
    else tier_result developing (percent 28)

-- CreditTier
pub record CreditTier : Type 0 where
  pub level : ℕ
  pub min_on_time_loans : ℕ
  pub limit_usdc : ℕ
  pub base_rate_monthly : ℕ

abbrev credit_tier : LadderStep → CreditTier
credit_tier s = record {
  level = s.score;
  min_on_time_loans = s.min_on_time_loans;
  limit_usdc = s.limit_usdc;
  base_rate_monthly = get_base_monthly_rate_for_score (some s.score);
}

unfoldable pub get_ladder : List CreditTier
unfolding get_base_monthly_rate_for_score
get_ladder = map credit_tier credit_ladder

-- The pricing context of a user, without the unused wallet quality.
pub record PricingContext : Type 0 where
  pub on_time_loans : ℕ
  pub wallet_quality : WalletQuality
  pub total_repaid : ℕ
  pub late_loans : ℕ

pub data TermError : Type 0 where
  invalid_tenor : TermError

abbrev pub context_rate : Option ℕ → Option ℕ → Option PricingContext → ℕ
context_rate score p_default none = get_risk_adjusted_monthly_rate score p_default
context_rate score p_default (some c) =
    let priced =
      get_tiered_monthly_rate p_default c.on_time_loans c.wallet_quality c.total_repaid
        c.late_loans in
    priced.monthly_rate

-- `monthlyRate` of getRatesForTerm, in 1/35 of a rate unit:
-- base * (1 + (days - 14) / 14 * 0.4) is base * (21 + days) / 35, and is never negative.
abbrev pub term_rate : ℕ → ℕ → ℕ
term_rate days base = base * (21 + days)

-- `toBps(periodRate)`: periodRate is term_rate * days / (35 * 187500 * 30), taken times 10000 and
-- rounded half up.
abbrev pub to_bps : ℕ → ℕ → ℕ
to_bps days base = (4 * (term_rate days base * days) + 39375) / 78750

unfoldable pub get_fee_bps_for_term :
    ℕ → Option ℕ → Option ℕ → Option PricingContext → Result TermError ℕ
get_fee_bps_for_term days score p_default context = do
  throw_if (days == 0) invalid_tenor
  ok (to_bps days (context_rate score p_default context))
