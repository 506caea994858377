-- ===== src/Sponsor/Fee.antt =====
-- The base fee that a fee-bump declares.
use lendoor_stellar.Common.{
  ℕ, zero, suc, ◌+◌, ◌-◌, ◌*◌, ◌/◌, ◌≤◌, ◌<◌, ◌≡◌, refl, ◌⊎◌, inl, inr, some, ltb, if◌then◌else◌,
  length, arith, Bool-cases,
}
use native.Mathlib.Nat.{lt-div-mul-add, div-lt_iff_lt-mul}
use lendoor_stellar.Sponsor.{Transaction, value_or_0, inclusion, sponsor_base_fee}

ceil-covers : (i n : ℕ) → i ≤ (i + suc n - 1) / suc n * suc n
ceil-covers i n =
    let k : zero < suc n = omega arith in
    omega (arith, lt-div-mul-add {a = i + suc n - 1} {b = suc n} k)

ceil-least : (i n g : ℕ) → i ≤ g * suc n → (i + suc n - 1) / suc n ≤ g
ceil-least i n g h =
    let k : zero < suc n = omega arith in
    let b : i + suc n - 1 < suc g * suc n = omega arith in omega (arith, (div-lt_iff_lt-mul k).1 b)

ceil-capped : (i n : ℕ) → (i + suc n - 1) / suc n ≤ 100 → i ≤ 100 * suc n
ceil-capped i n h =
    let k : zero < suc n = omega arith in
    let c : (i + suc n - 1) / suc n < 101 = omega arith in omega (arith, (div-lt_iff_lt-mul k).0 c)

-- The base fee on an inclusion fee of `i` over `suc n` operations.
least_rate :
    (i n f : ℕ)
    → (if ltb 100 ((i + suc n - 1) / suc n) then (i + suc n - 1) / suc n else 100) ≡ f
    → (100 ≤ f) × (i ≤ f * suc n) × ((g : ℕ) → 100 ≤ g → i ≤ g * suc n → f ≤ g)
least_rate i n f h = elim (Bool-cases (ltb 100 ((i + suc n - 1) / suc n))) [
  | inl e ↦
      let p : (i + suc n - 1) / suc n ≡ f = ground arith in
      rw (← p) (ground arith, ceil-covers i n, λ g k m. ceil-least i n g m)
  | inr e ↦
      let p : 100 ≡ f = ground arith in
      rw (← p) (omega arith, ceil-capped i n (ground arith), λ g k m. k)
]

positive : (n : ℕ) → (n ≡ 0) ⊎ ((m : ℕ) × (n ≡ suc m))
positive zero = inl refl
positive (suc n) = inr (n, refl)

-- The base fee covers the inclusion fee of the inner transaction over its operations, is at least
-- the network's minimum, and is the least such number.
pub base_fee_covers :
    (inner : Transaction) (f : ℕ)
    → sponsor_base_fee inner ≡ some f
    → (100 ≤ f)
      × (inner.fee ≤ f * length inner.operations + value_or_0 inner.resource_fee)
      × ((g : ℕ)
          → 100 ≤ g
          → inner.fee ≤ g * length inner.operations + value_or_0 inner.resource_fee
          → f ≤ g)
unfolding sponsor_base_fee
base_fee_covers inner f h = elim (positive (length inner.operations)) [
  | inl e ↦ ground arith
  | inr (n, e) ↦
      let (low, enough, least) = least_rate (inclusion inner) n f (ground arith) in
      rw e (low, omega arith, λ g k m. least g k (omega arith))
]
