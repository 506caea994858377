-- ===== src/Common/Options.antt =====
-- Results that may be missing: what comes after one, and a guard that gives up.
use mathlib.Core.Path.{◌≡◌, refl}
use mathlib.Core.Bool.{Bool, true, false}
use mathlib.Core.Option.{Option, none, some}
use lendoor_stellar.Common.Tests.{if◌then◌else◌}

abbrev pub is_none {ℓ} : {A : Type ℓ} → Option A → Bool
is_none none = true
is_none (some _) = false

module _ {ℓ κ} {A : Type ℓ} {B : Type κ} where
  abbrev pub and_then : Option A → (A → Option B) → Option B
  and_then none next = none
  and_then (some a) next = next a

  -- What comes after was there to come after.
  pub and_then-eq-some :
      (o : Option A) (next : A → Option B) {b : B}
      → and_then o next ≡ some b
      → (a : A) × (o ≡ some a) × (next a ≡ some b)
  and_then-eq-some none next e = cc
  and_then-eq-some (some a) next e = (a, refl, e)

module _ {ℓ} {A : Type ℓ} where
  -- A result under a guard passed it.
  pub guard-eq-some :
      (c : Bool) (o : Option A) {a : A}
      → (if c then none else o) ≡ some a
      → (c ≡ false) × (o ≡ some a)
  guard-eq-some true o e = cc
  guard-eq-some false o e = (refl, e)
