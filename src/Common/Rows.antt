-- ===== src/Common/Rows.antt =====
-- Rows of a database table, in the order in which they were inserted: `findOne`, `delete` and
-- `update` with a `where`, on a Boolean test.
use mathlib.Core.Path.{◌≡◌, refl}
use mathlib.Core.Bool.{Bool, true, false}
use mathlib.Core.Option.{Option, none, some}
use mathlib.Core.Logic.{inl, inr}
use mathlib.Core.List.{List, [], ◌∷◌, ◌++◌}
use native.Mathlib.Omega.{arith}
use lendoor_stellar.Common.Tests.{if◌then◌else◌, Bool-cases}
use lendoor_stellar.Common.Lists.{All}

module _ {A : Type 0} where
  abbrev pub find_row : (A → Bool) → List A → Option A
  find_row p [] = none
  find_row p (x ∷ xs) = if p x then some x else find_row p xs

  abbrev pub delete_rows : (A → Bool) → List A → List A
  delete_rows p [] = []
  delete_rows p (x ∷ xs) = let rest = delete_rows p xs in if p x then rest else x ∷ rest

  abbrev pub update_rows : (A → Bool) → (A → A) → List A → List A
  update_rows p f [] = []
  update_rows p f (x ∷ xs) = (if p x then f x else x) ∷ update_rows p f xs

  -- Inversion of a search that found a row.
  pub find_row-passes : (p : A → Bool) (xs : List A) {a : A} → find_row p xs ≡ some a → p a ≡ true
  find_row-passes p [] e = cc
  find_row-passes p (x ∷ xs) {a = a} e = elim (Bool-cases (p x)) [
    | inl h ↦ let same : x ≡ a = ground arith in rw (← same) h
    | inr h ↦ find_row-passes p xs (ground arith)
  ]

  pub All-find_row {κ} :
      (P : A → Type κ) (p : A → Bool) (xs : List A) {a : A}
      → All P xs
      → find_row p xs ≡ some a
      → P a
  All-find_row P p [] h e = absurd cc
  All-find_row P p (x ∷ xs) {a = a} h e = elim (Bool-cases (p x)) [
    | inl t ↦ let same : x ≡ a = ground arith in rw (← same) h.0
    | inr t ↦ All-find_row P p xs h.1 (ground arith)
  ]

  -- A new row hides no row.
  pub find_row-append :
      (p : A → Bool) (xs ys : List A) {a : A}
      → find_row p xs ≡ some a
      → find_row p (xs ++ ys) ≡ some a
  find_row-append p [] ys e = cc
  find_row-append p (x ∷ xs) ys e = elim (Bool-cases (p x)) [
    | inl h ↦ ground arith
    | inr h ↦ rw h (find_row-append p xs ys (ground arith))
  ]

  -- Deleting others leaves a row found.
  pub find_row-delete_rows :
      (p q : A → Bool) (xs : List A) {a : A}
      → find_row p xs ≡ some a
      → q a ≡ false
      → find_row p (delete_rows q xs) ≡ some a
  find_row-delete_rows p q [] e h = cc
  find_row-delete_rows p q (x ∷ xs) {a = a} e h = elim (Bool-cases (p x)) [
    | inl t ↦
        let same : x ≡ a = ground arith in
        let kept : q x ≡ false = rw same h in rw (kept, t) (ground arith)
    | inr t ↦ elim (Bool-cases (q x)) [
      | inl gone ↦ rw gone (find_row-delete_rows p q xs (ground arith) h)
      | inr kept ↦ rw (kept, t) (find_row-delete_rows p q xs (ground arith) h)
    ]
  ]

  -- Updating rows that the search passes over, to rows that it passes over.
  pub find_row-update_rows :
      (p q : A → Bool) (f : A → A) (xs : List A)
      → ((x : A) → q x ≡ true → p x ≡ false)
      → ((x : A) → q x ≡ true → p (f x) ≡ false)
      → find_row p (update_rows q f xs) ≡ find_row p xs
  find_row-update_rows p q f [] before after = refl
  find_row-update_rows p q f (x ∷ xs) before after = elim (Bool-cases (q x)) [
    | inl t ↦ rw (t, before x t, after x t) (find_row-update_rows p q f xs before after)
    | inr t ↦ rw t (ground (arith, find_row-update_rows p q f xs before after))
  ]

  pub All-delete_rows {κ} :
      (P : A → Type κ) (q : A → Bool) (xs : List A) → All P xs → All P (delete_rows q xs)
  All-delete_rows P q [] h = h
  All-delete_rows P q (x ∷ xs) h = elim (Bool-cases (q x)) [
    | inl gone ↦ rw gone (All-delete_rows P q xs h.1)
    | inr kept ↦ rw kept (h.0, All-delete_rows P q xs h.1)
  ]

  pub All-update_rows {κ} :
      (P : A → Type κ) (q : A → Bool) (f : A → A) (xs : List A)
      → ((x : A) → P x → P (f x))
      → All P xs
      → All P (update_rows q f xs)
  All-update_rows P q f [] step h = h
  All-update_rows P q f (x ∷ xs) step h = elim (Bool-cases (q x)) [
    | inl t ↦ rw t (step x h.0, All-update_rows P q f xs step h.1)
    | inr t ↦ rw t (h.0, All-update_rows P q f xs step h.1)
  ]

  -- What an update makes true of every row it changes, and what is true of every other row.
  pub All-updated {κ} :
      (P : A → Type κ) (q : A → Bool) (f : A → A) (xs : List A)
      → ((x : A) → q x ≡ true → P (f x))
      → ((x : A) → q x ≡ false → P x)
      → All P (update_rows q f xs)
  All-updated P q f [] changed other = tt
  All-updated P q f (x ∷ xs) changed other = elim (Bool-cases (q x)) [
    | inl t ↦ rw t (changed x t, All-updated P q f xs changed other)
    | inr t ↦ rw t (other x t, All-updated P q f xs changed other)
  ]

module _ {A : Type 0} where
  -- What a search finds after an update that keeps what it tests.
  pub find_row-updated :
      (p q : A → Bool) (f : A → A) (xs : List A) {a : A}
      → ((x : A) → p (f x) ≡ p x)
      → find_row p xs ≡ some a
      → find_row p (update_rows q f xs) ≡ some (if q a then f a else a)
  find_row-updated p q f [] keeps e = cc
  find_row-updated p q f (x ∷ xs) {a = a} keeps e = elim (Bool-cases (p x)) [
    | inl found ↦
        let same : x ≡ a = ground arith in
        elim (Bool-cases (q x)) [
          | inl changed ↦ rw (changed, keeps x, found) (rw (← same) (rw changed refl))
          | inr other ↦ rw (other, found) (rw (← same) (rw other refl))
        ]
    | inr past ↦ elim (Bool-cases (q x)) [
      | inl changed ↦
          rw (changed, keeps x, past) (find_row-updated p q f xs {a = a} keeps (ground arith))
      | inr other ↦ rw (other, past) (find_row-updated p q f xs {a = a} keeps (ground arith))
    ]
  ]
