-- ===== src/Common/Results.antt =====
-- Results of calls that may throw an error of type `E`.
use mathlib.Core.Path.{◌≡◌, refl}
use mathlib.Core.Bool.{Bool, true, false}
use mathlib.Core.Option.{Option, none, some}
use mathlib.Core.Logic.{◌⊎◌, inl, inr}

pub data Result {ℓ} (E : Type 0) (A : Type ℓ) : Type ℓ where
  ok : A → Result E A
  err : E → Result E A

-- `await` of a call that may have thrown: what follows runs on its value, or not at all.
module _ {E : Type 0} where
  infixl 5 ◌>>=◌ ◌>>◌
  abbrev pub ◌>>=◌ {ℓ κ} : {A : Type ℓ} {C : Type κ} → Result E A → (A → Result E C) → Result E C
  err thrown >>= next = err thrown
  ok value >>= next = next value

  abbrev pub ◌>>◌ {ℓ} : {C : Type ℓ} → Result E (Unit {0}) → Result E C → Result E C
  err thrown >> next = err thrown
  ok done >> next = next

-- `if (c) throw e`
abbrev pub throw_if : {E : Type 0} → Bool → E → Result E (Unit {0})
throw_if false thrown = ok tt
throw_if true thrown = err thrown

-- A block that ends well began with a call that did.
pub >>=-eq-ok {ℓ κ} :
    {E : Type 0} {A : Type ℓ} {C : Type κ} (call : Result E A) (next : A → Result E C) {c : C}
    → (call >>= next) ≡ ok c
    → (value : A) × (call ≡ ok value) × (next value ≡ ok c)
>>=-eq-ok (err thrown) next h = cc
>>=-eq-ok (ok value) next h = (value, refl, h)

abbrev pub is_ok {ℓ} : {E : Type 0} {A : Type ℓ} → Result E A → Bool
is_ok (ok a) = true
is_ok (err e) = false

pub eq-ok_of_is_ok {ℓ} :
    {E : Type 0} {A : Type ℓ} (r : Result E A) → is_ok r ≡ true → (a : A) × (r ≡ ok a)
eq-ok_of_is_ok (ok a) h = (a, refl)
eq-ok_of_is_ok (err e) h = cc

-- Inversion of a guard, and of a call with no result, that a successful block begins with.
pub throw_if-eq-ok {ℓ} :
    {E : Type 0} {B : Type ℓ} (c : Bool) (e : E) (k : Result E B) {b : B}
    → (throw_if c e >> k) ≡ ok b
    → (c ≡ false) × (k ≡ ok b)
throw_if-eq-ok true e k h = cc
throw_if-eq-ok false e k h = (refl, h)

pub >>-eq-ok {ℓ} :
    {E : Type 0} {B : Type ℓ} (m : Result E (Unit {0})) (k : Result E B) {b : B}
    → (m >> k) ≡ ok b
    → (m ≡ ok tt) × (k ≡ ok b)
>>-eq-ok (ok u) k h = (refl, h)
>>-eq-ok (err e) k h = cc

pub Result-cases :
    {E A : Type 0} (r : Result E A) → ((a : A) × (r ≡ ok a)) ⊎ ((e : E) × (r ≡ err e))
Result-cases (ok a) = inl (a, refl)
Result-cases (err e) = inr (e, refl)

-- `if (!o) throw e`
abbrev pub or_throw {ℓ} : {E : Type 0} {A : Type ℓ} → E → Option A → Result E A
or_throw thrown none = err thrown
or_throw thrown (some a) = ok a

pub or_throw-eq-ok {ℓ} :
    {E : Type 0} {A : Type ℓ} (thrown : E) (o : Option A) {a : A}
    → or_throw thrown o ≡ ok a
    → o ≡ some a
or_throw-eq-ok thrown none h = cc
or_throw-eq-ok thrown (some b) h = cc

pub ok_injective {ℓ} :
    {E : Type 0} {A : Type ℓ} {a b : A} → ◌≡◌ {A = Result E A} (ok a) (ok b) → a ≡ b
ok_injective e = cc
