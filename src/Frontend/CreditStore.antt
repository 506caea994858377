-- ===== src/Frontend/CreditStore.antt =====
-- frontend/src/stores/creditStore.ts: the score on display, with an optimistic floor that hides a
-- stale value from the chain for a while. Scores and times are numbers; `now` is `Date.now()`.
use lendoor_stellar.Common.{
  ℕ, ◌≤◌, ◌<◌, ◌≡◌, refl, ◌⊎◌, Bool, false, Option, none, some, Text, ltb, leb, if◌then◌else◌,
  arith, All, List, [], ◌∷◌,
}

pub record CreditState : Type 0 where
  pub credit_score_display : Option Text
  pub credit_score_raw : Option ℕ
  pub optimistic_score_raw : Option ℕ
  pub optimistic_limit_raw : Option ℕ
  pub optimistic_until : Option ℕ

abbrev pub initial : CreditState
initial = record {
  credit_score_display = none;
  credit_score_raw = none;
  optimistic_score_raw = none;
  optimistic_limit_raw = none;
  optimistic_until = none;
}

abbrev pub clear_optimistic : CreditState → CreditState
clear_optimistic s = record s {
  optimistic_score_raw = none;
  optimistic_limit_raw = none;
  optimistic_until = none;
}

abbrev pub set_credit_score_display : Option Text → CreditState → CreditState
set_credit_score_display value s = record s { credit_score_display = value }

abbrev pub set_credit_score_raw : Option ℕ → CreditState → CreditState
set_credit_score_raw value s = record s { credit_score_raw = value }

-- `optimisticUntil != null && now > optimisticUntil`
abbrev expired : ℕ → CreditState → Bool
expired now s = elim s.optimistic_until [ none ↦ false | some until ↦ ltb until now ]

unfoldable pub set_credit_score_raw_hwm : ℕ → Option ℕ → CreditState → CreditState
set_credit_score_raw_hwm now value s =
    if expired now s
    then set_credit_score_raw value (clear_optimistic s)
    else elim s.optimistic_score_raw [
      | none ↦ set_credit_score_raw value s
      | some floor ↦ elim value [
        | none ↦ set_credit_score_raw none (clear_optimistic s)
        | some v ↦
            if leb floor v
            then set_credit_score_raw (some v) (clear_optimistic s)
            else set_credit_score_raw (some floor) s
      ]
    ]

unfoldable pub set_optimistic : ℕ → ℕ → ℕ → CreditState → CreditState
set_optimistic score_raw limit_raw until_ms s = record s {
  optimistic_score_raw = some score_raw;
  optimistic_limit_raw = some limit_raw;
  optimistic_until = some until_ms;
  credit_score_raw = some score_raw;
}

abbrev pub reset : CreditState → CreditState
reset s = initial

-- A reading of the chain, or of the backend: when it arrived and what it said.
abbrev pub Reading : Type 0
Reading = ℕ × ℕ

unfoldable pub read_all : List Reading → CreditState → CreditState
unfolding set_credit_score_raw_hwm
read_all [] s = s
read_all ((now, v) ∷ rest) s = read_all rest (set_credit_score_raw_hwm now (some v) s)

-- Readings in time that are all below the floor.
abbrev pub Stale : ℕ → ℕ → List Reading → Type 0
Stale score until = All (λ r. (r.0 ≤ until) × (r.1 < score))

-- While the floor has not expired and no reading has reached it, every reading leaves the
-- optimistic score on display, and the floor with its limit and its time in place.
pub floor_holds :
    (score limit until : ℕ) (s : CreditState) (rs : List Reading)
    → Stale score until rs
    → read_all rs (set_optimistic score limit until s) ≡ set_optimistic score limit until s
unfolding read_all set_credit_score_raw_hwm set_optimistic
floor_holds score limit until s [] h = refl
floor_holds score limit until s ((now, v) ∷ rs) (h, k) =
    ground (arith, floor_holds score limit until s rs k)

-- A reading that has reached the floor, or comes after its time, is displayed and ends the floor,
-- and whatever is read next is displayed as it is.
pub floor_ends :
    (score limit until now v later : ℕ) (next : Option ℕ) (s : CreditState)
    → (score ≤ v) ⊎ (until < now)
    → (set_credit_score_raw_hwm now (some v) (set_optimistic score limit until s)
        ≡ set_credit_score_raw (some v) (clear_optimistic s))
      × ((set_credit_score_raw_hwm later next (
            set_credit_score_raw_hwm now
              (some v)
              (set_optimistic score limit until s))).credit_score_raw
          ≡ next)
unfolding set_credit_score_raw_hwm set_optimistic
floor_ends score limit until now v later next s h = ground arith
