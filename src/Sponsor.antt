-- ===== src/Sponsor.antt =====
-- backend/src/sponsor/fee-bump.ts: the fee that a fee-bump declares and the policy that decides
-- which transactions are sponsored.
-- A transaction is what `TransactionBuilder.fromXDR` of @stellar/stellar-sdk gives: the number of
-- its signatures, its source, its fee, its operations, and the resource fee of its Soroban data if it
-- has any. The target of an invocation is what decoding it gives, `none` if that throws.
pub mod Fee
pub mod Policy
use lendoor_stellar.Common.{
  ℕ, ◌+◌, ◌-◌, ◌/◌, not, ◌&&◌, ◌||◌, Option, none, some, List, [], ◌∷◌, Text, text_eq, ltb, ◌==◌,
  if◌then◌else◌, length, any, Result, ok, err, ◌>>◌, throw_if,
}
use lendoor_stellar.Cctp.Transfer.{is_falsy}

-- SPONSOR_MIN_BASE_FEE
abbrev pub sponsor_min_base_fee : ℕ
sponsor_min_base_fee = 100

pub data Operation : Type 0 where
  invoke_host_function : Option Text → Operation
  change_trust : Operation
  other_operation : Text → Operation

pub record Transaction : Type 0 where
  pub signatures : ℕ
  pub source : Text
  pub fee : ℕ
  pub operations : List Operation
  pub resource_fee : Option ℕ

-- The envelope that arrives, by its class.
pub data Envelope : Type 0 where
  fee_bump_transaction : Envelope
  transaction : Transaction → Envelope
  not_an_envelope : Envelope

abbrev pub value_or_0 : Option ℕ → ℕ
value_or_0 none = 0
value_or_0 (some n) = n

-- The fee that is left for inclusion. Where the resource fee is larger the source has a negative
-- number, of which the maximum below makes the same as of 0.
abbrev pub inclusion : Transaction → ℕ
inclusion inner = inner.fee - value_or_0 inner.resource_fee

-- sponsorBaseFee; `none` is the RangeError of a division by zero.
unfoldable pub sponsor_base_fee : Transaction → Option ℕ
sponsor_base_fee inner =
    let ops = length inner.operations in
    if ops == 0
    then none
    else let ceil_per_op = (inclusion inner + ops - 1) / ops in
      some (if ltb sponsor_min_base_fee ceil_per_op then ceil_per_op else sponsor_min_base_fee)

pub record SponsorPolicy : Type 0 where
  pub allowed_contracts : List Text
  pub expected_source : Option Text
  pub max_inner_fee : Option ℕ

-- SponsorPolicyViolation, with its reason
pub data Violation : Type 0 where
  already_fee_bump not_envelope unsigned fee_without_operations : Violation
  wrong_source : Text → Text → Violation
  fee_too_high : ℕ → ℕ → Violation
  no_operations : Violation
  contract_not_allowed : Option Text → Violation
  not_sponsorable : Text → Violation

-- The body of the loop over the operations.
abbrev pub check_operation : SponsorPolicy → Operation → Result Violation (Unit {0})
check_operation policy change_trust = ok tt
check_operation policy (other_operation kind) = err (not_sponsorable kind)
check_operation policy (invoke_host_function none) = err (contract_not_allowed none)
check_operation policy (invoke_host_function (some target)) =
    if is_falsy (some target) || not (any (λ c. text_eq c target) policy.allowed_contracts)
    then err (contract_not_allowed (some target))
    else ok tt

unfoldable pub check_operations : SponsorPolicy → List Operation → Result Violation (Unit {0})
check_operations policy [] = ok tt
check_operations policy (op ∷ ops) = check_operation policy op >> check_operations policy ops

abbrev pub check_source : SponsorPolicy → Transaction → Result Violation (Unit {0})
check_source policy inner = elim policy.expected_source [
  | none ↦ ok tt
  | some expected ↦
      throw_if (not (is_falsy (some expected)) && not (text_eq inner.source expected))
        (wrong_source inner.source expected)
]

abbrev pub check_fee : SponsorPolicy → Transaction → Result Violation (Unit {0})
check_fee policy inner = elim policy.max_inner_fee [
  | none ↦ ok tt
  | some cap ↦ throw_if (ltb cap inner.fee) (fee_too_high inner.fee cap)
]

unfoldable pub validate_inner_tx : SponsorPolicy → Envelope → Result Violation (Unit {0})
unfolding check_operations
validate_inner_tx policy fee_bump_transaction = err already_fee_bump
validate_inner_tx policy not_an_envelope = err not_envelope
validate_inner_tx policy (transaction inner) =
    throw_if (inner.signatures == 0) unsigned
    >> check_source policy inner
    >> check_fee policy inner
    >> throw_if (length inner.operations == 0) no_operations
    >> check_operations policy inner.operations

-- What buildSponsoredFeeBump hands to the builder of the SDK: the base fee and the transaction.
unfoldable pub build_sponsored_fee_bump :
    SponsorPolicy → Envelope → Result Violation (ℕ × Transaction)
unfolding validate_inner_tx sponsor_base_fee
build_sponsored_fee_bump policy fee_bump_transaction = err already_fee_bump
build_sponsored_fee_bump policy not_an_envelope = err not_envelope
build_sponsored_fee_bump policy (transaction inner) =
    validate_inner_tx policy (transaction inner) >> elim (sponsor_base_fee inner) [
      | none ↦ err fee_without_operations
      | some base_fee ↦ ok (base_fee, inner)
    ]
