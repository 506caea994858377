-- ===== src/Loans/Offer/Gates.antt =====
-- What is known of an offer.
use mathlib.Core.Path.{subst}
use lendoor_stellar.Common.{
  ℕ, ◌*◌, ◌≤◌, ◌<◌, ◌≡◌, refl, sym, ◌∙◌, ◌⊎◌, inl, inr, Bool, true, false, not, ◌||◌, Option, none,
  some, List, Text, ltb, ◌==◌, arith, ok, Option-cases, is_none, or_throw, or_throw-eq-ok,
  >>=-eq-ok, >>-eq-ok, throw_if-eq-ok,
}
use lendoor_stellar.Cctp.Transfer.{is_falsy}
use lendoor_stellar.Identity.Kyc.{kyc_gate_passes}
use lendoor_stellar.Credit.Repayment.{borrow_cooldown_error}
use lendoor_stellar.Loans.{Loan}
use lendoor_stellar.Loans.Offer.{
  BorrowLoan, Applicant, Offer, BorrowCalls, receiver_or_invalid, is_allowed_tenor, time_or,
  cooldown_after, thrown_cooldown, assert_no_borrow_cooldown, effective_limit, ladder_limit,
  fee_for, requested, offer_for, borrow, user_not_found, invalid_tenor_days, phone_required,
  kyc_required, over_limit, offer_failed,
}

-- The chain gives no time before which the borrower must wait, or that time is over.
abbrev pub IsPastCooldown : BorrowCalls → Text → Type 0
IsPastCooldown calls borrower =
    (calls.next_borrow_time borrower ≡ none)
    ⊎ ((next_at : ℕ) × (calls.next_borrow_time borrower ≡ some next_at)
        × (next_at ≤ time_or calls.chain_now calls.server_now))

cooldown_over :
    (next_at now : ℕ) → thrown_cooldown (cooldown_after next_at now) ≡ ok tt → next_at ≤ now
unfolding borrow_cooldown_error
cooldown_over next_at now e = ground arith

asserted :
    (calls : BorrowCalls) (borrower : Text) (next_at : ℕ)
    → calls.next_borrow_time borrower ≡ some next_at
    → assert_no_borrow_cooldown calls borrower
      ≡ thrown_cooldown (cooldown_after next_at (time_or calls.chain_now calls.server_now))
unfolding assert_no_borrow_cooldown
asserted calls borrower next_at at = rw (assert_no_borrow_cooldown, at) refl

assert_no_borrow_cooldown-IsPastCooldown :
    (calls : BorrowCalls) (borrower : Text)
    → assert_no_borrow_cooldown calls borrower ≡ ok tt
    → IsPastCooldown calls borrower
unfolding assert_no_borrow_cooldown borrow_cooldown_error
assert_no_borrow_cooldown-IsPastCooldown calls borrower e =
    elim (Option-cases (calls.next_borrow_time borrower)) [
      | inl unknown ↦ inl unknown
      | inr (next_at, at) ↦
          inr (next_at, at, cooldown_over next_at _ (sym (asserted calls borrower next_at at) ∙ e))
    ]

effective_limit-le : (ladder : ℕ) (chain : Option ℕ) → effective_limit ladder chain ≤ ladder
effective_limit-le ladder none = omega arith
effective_limit-le ladder (some on_chain) = ground arith

effective_limit-chain :
    (ladder on_chain : ℕ) → 0 < on_chain → effective_limit ladder (some on_chain) ≤ on_chain
effective_limit-chain ladder on_chain h = ground arith

-- The terms of an offer: a positive amount within the limit of the ladder for the score, and within
-- the chain's limit if that could be read and is positive.
abbrev pub IsWithinLimits : BorrowCalls → Text → Applicant → Offer → Type 0
IsWithinLimits calls borrower applicant offer =
    (0 < offer.amount)
    × (offer.amount * 10 ≤ ladder_limit applicant.row)
    × (offer.amount * 10
        ≤ effective_limit (ladder_limit applicant.row) (calls.read_credit_limit borrower))
    × (calls.create_offer offer ≡ true)

accepted_by : (b : Bool) → not b ≡ false → b ≡ true
accepted_by true e = refl
accepted_by false e = absurd cc

abbrev terms : ℕ → Text → ℕ → ℕ → Offer
terms micros borrower days fee = record {
  amount = micros;
  borrower = borrower;
  tenor_days = days;
  fee_bps = fee;
}

offer_for-IsWithinLimits :
    (calls : BorrowCalls) (dto : BorrowLoan) (borrower : Text) (applicant : Applicant)
    (loans : List Loan) (offer : Offer)
    → offer_for calls dto borrower applicant loans ≡ ok offer
    → IsWithinLimits calls borrower applicant offer
      × (offer.borrower ≡ borrower)
      × (offer.tenor_days ≡ dto.tenor_days)
      × (fee_for dto.tenor_days applicant loans ≡ ok offer.fee_bps)
unfolding offer_for
offer_for-IsWithinLimits calls dto borrower applicant loans offer e =
    let limit = effective_limit (ladder_limit applicant.row) (calls.read_credit_limit borrower) in
    let (micros, parsed, e1) = >>=-eq-ok (requested dto.amount_human) _ e in
    let (within, e2) = throw_if-eq-ok (ltb limit (micros * 10)) over_limit _ e1 in
    let (fee, priced, e3) = >>=-eq-ok (fee_for dto.tenor_days applicant loans) _ e2 in
    let (created, e4) =
      throw_if-eq-ok (not (calls.create_offer (terms micros borrower dto.tenor_days fee)))
        offer_failed _ e3 in
    let same : terms micros borrower dto.tenor_days fee ≡ offer = ground arith in
    let le = effective_limit-le (ladder_limit applicant.row) (calls.read_credit_limit borrower) in
    let positive : 0 < micros = ground arith in
    let bounded : micros * 10 ≤ limit = ground (arith, within) in
    subst
      (λ o.
        IsWithinLimits calls borrower applicant o
        × (o.borrower ≡ borrower)
        × (o.tenor_days ≡ dto.tenor_days)
        × (fee_for dto.tenor_days applicant loans ≡ ok o.fee_bps))
      same
      (
        (
          positive,
          omega (arith, bounded, le),
          bounded,
          accepted_by (calls.create_offer (terms micros borrower dto.tenor_days fee)) created,
        ),
        refl,
        refl,
        priced,
      )

-- If a user is offered a loan, then the tenor is 7, 14 or 21 days, the user of the wallet has a verified
-- phone and passes the identity gate, the cooldown is over as far as the chain tells, the amount is
-- positive and within the limit of the ladder for the score and within the limit that applies, the fee
-- is the one of the policy, and the chain took the offer.
pub borrow-IsWithinLimits :
    (calls : BorrowCalls) (dto : BorrowLoan) (loans : List Loan) (offer : Offer)
    → borrow calls dto loans ≡ ok offer
    → (borrower : Text) × (applicant : Applicant) × (receiver_or_invalid dto.receiver ≡ ok borrower)
      × (calls.find_applicant borrower ≡ some applicant)
      × (is_allowed_tenor dto.tenor_days ≡ true)
      × ((is_falsy applicant.phone || is_none applicant.phone_verified_at) ≡ false)
      × (kyc_gate_passes calls.kyc_enabled applicant.kyc ≡ true)
      × IsPastCooldown calls borrower
      × IsWithinLimits calls borrower applicant offer
      × (offer.borrower ≡ borrower)
      × (offer.tenor_days ≡ dto.tenor_days)
      × (fee_for dto.tenor_days applicant loans ≡ ok offer.fee_bps)
unfolding borrow
borrow-IsWithinLimits calls dto loans offer e =
    let (borrower, given, e1) = >>=-eq-ok (receiver_or_invalid dto.receiver) _ e in
    let (_, e2) = throw_if-eq-ok (dto.tenor_days == 0) invalid_tenor_days _ e1 in
    let (tenor, e3) =
      throw_if-eq-ok (not (is_allowed_tenor dto.tenor_days)) invalid_tenor_days _ e2 in
    let (applicant, at, e4) =
      >>=-eq-ok (or_throw user_not_found (calls.find_applicant borrower)) _ e3 in
    let (phone, e5) =
      throw_if-eq-ok (is_falsy applicant.phone || is_none applicant.phone_verified_at)
        phone_required _ e4 in
    let (gate, e6) =
      throw_if-eq-ok (not (kyc_gate_passes calls.kyc_enabled applicant.kyc)) kyc_required _ e5 in
    let (cool, e7) = >>-eq-ok (assert_no_borrow_cooldown calls borrower) _ e6 in
    let (within, to, days, priced) =
      offer_for-IsWithinLimits calls dto borrower applicant loans offer e7 in
    (
      borrower,
      applicant,
      given,
      or_throw-eq-ok user_not_found _ at,
      accepted_by (is_allowed_tenor dto.tenor_days) tenor,
      phone,
      accepted_by (kyc_gate_passes calls.kyc_enabled applicant.kyc) gate,
      assert_no_borrow_cooldown-IsPastCooldown calls borrower cool,
      within,
      to,
      days,
      priced,
    )
