-- ===== src/Sponsor/Policy.antt =====
-- Which transactions the policy lets pass.
use lendoor_stellar.Common.{ℕ, ◌≤◌, ◌≡◌, ◌≢◌, ◌⊎◌, true, some, [], Text, text_eq, length, All, any}
use lendoor_stellar.Sponsor.{
  Operation, invoke_host_function, change_trust, Transaction, SponsorPolicy,
}

-- An operation that the sponsor pays for: a trust line, or a call of one of the allowed contracts.
abbrev pub IsAllowed : SponsorPolicy → Operation → Type 0
IsAllowed policy op =
    (op ≡ change_trust)
    ⊎ ((target : Text) × (op ≡ invoke_host_function (some target))
        × (target ≢ [])
        × (any (λ c. text_eq c target) policy.allowed_contracts ≡ true))

pub record IsSponsorable (policy : SponsorPolicy) (inner : Transaction) : Type 0 where
  pub signed : 1 ≤ inner.signatures
  pub source : (s : Text) → policy.expected_source ≡ some s → s ≢ [] → inner.source ≡ s
  pub fee : (cap : ℕ) → policy.max_inner_fee ≡ some cap → inner.fee ≤ cap
  pub nonempty : 1 ≤ length inner.operations
  pub operations : All (IsAllowed policy) inner.operations
