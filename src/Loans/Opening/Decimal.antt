-- ===== src/Loans/Opening/Decimal.antt =====
-- The decimal of an identifier: its fuel is enough, so no two identifiers share one.
use lendoor_stellar.Common.{
  ℕ, zero, suc, ◌+◌, ◌-◌, ◌*◌, ◌/◌, ◌%◌, ◌<◌, ◌≡◌, refl, sym, ap, ◌∙◌, inl, inr, [], ◌∷◌, ◌++◌,
  Text, ltb, arith, Bool-cases,
}
use lendoor_stellar.Loans.Opening.{decimal_within, decimal}

-- Reading a decimal after the digits that `acc` stands for.
abbrev pub read_decimal : ℕ → Text → ℕ
read_decimal acc [] = acc
read_decimal acc (c ∷ cs) = read_decimal (acc * 10 + (c - 48)) cs

read_decimal-snoc :
    (acc d : ℕ) (xs : Text)
    → read_decimal acc (xs ++ (d ∷ [])) ≡ read_decimal acc xs * 10 + (d - 48)
read_decimal-snoc acc d [] = refl
read_decimal-snoc acc d (x ∷ xs) = read_decimal-snoc (acc * 10 + (x - 48)) d xs

read-decimal_within : (fuel n : ℕ) → n < fuel → read_decimal 0 (decimal_within fuel n) ≡ n
read-decimal_within zero n h = absurd (ground (arith, h))
read-decimal_within (suc fuel) n h = elim (Bool-cases (ltb n 10)) [
  | inl small ↦ rw small (omega arith)
  | inr large ↦
      let big : 10 < suc n = ground (arith, large) in
      let rest = read-decimal_within fuel (n / 10) (omega (arith, h, big)) in
      rw large
        (read_decimal-snoc 0 (48 + n % 10) (decimal_within fuel (n / 10)) ∙ omega (arith, rest))
]

pub read-decimal : (n : ℕ) → read_decimal 0 (decimal n) ≡ n
read-decimal n = read-decimal_within (suc n) n (omega arith)

pub decimal_injective : (m n : ℕ) → decimal m ≡ decimal n → m ≡ n
decimal_injective m n e = sym (read-decimal m) ∙ ap (read_decimal 0) e ∙ read-decimal n
