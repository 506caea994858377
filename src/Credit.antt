-- ===== src/Credit.antt =====
-- Credit policy: the ladder of limits, the pricing tiers and the late fees.
pub mod Ladder
pub mod Tiers
pub mod Pricing
pub mod Late
pub mod Repayment
