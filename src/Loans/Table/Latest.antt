-- ===== src/Loans/Table/Latest.antt =====
-- The row that a query ordered by the start finds: it passes the test, and it fits.
use mathlib.Core.Path.{subst}
use lendoor_stellar.Common.{
  ◌≡◌, ◌⊎◌, inl, inr, Bool, true, Option, none, some, List, [], ◌∷◌, ltb, ◌==◌, All, arith,
  Bool-cases,
}
use lendoor_stellar.Loans.{Loan, find_loan, find_latest, latest_of}
use lendoor_stellar.Loans.Table.{is_apart, IsTable, Fits, Fits-head, apart_head}

latest_of-cases :
    (l u : Loan) (rest : Option Loan) → latest_of l rest ≡ u → (l ≡ u) ⊎ (rest ≡ some u)
latest_of-cases l u none e = inl e
latest_of-cases l u (some m) e = elim (Bool-cases (ltb l.start_at m.start_at)) [
  | inl later ↦ inr (ground arith)
  | inr first ↦ inl (ground arith)
]

pub find_latest-cases :
    (p : Loan → Bool) (u l : Loan) (ls : List Loan)
    → find_latest p (l ∷ ls) ≡ some u
    → ((p l ≡ true) × (l ≡ u)) ⊎ (find_latest p ls ≡ some u)
find_latest-cases p u l ls e = elim (Bool-cases (p l)) [
  | inr other ↦ inr (ground arith)
  | inl passes ↦ elim (latest_of-cases l u (find_latest p ls) (ground arith)) [
    | inl same ↦ inl (passes, same)
    | inr later ↦ inr later
  ]
]

pub find_latest-holds :
    (p : Loan → Bool) (u : Loan) (ls : List Loan) → find_latest p ls ≡ some u → p u ≡ true
find_latest-holds p u [] e = absurd cc
find_latest-holds p u (l ∷ ls) e = elim (find_latest-cases p u l ls e) [
  | inl (passes, same) ↦ subst (λ v. p v ≡ true) same passes
  | inr later ↦ find_latest-holds p u ls later
]

latest_later :
    (l u : Loan) (p : Loan → Bool) (ls : List Loan)
    → find_latest p ls ≡ some u
    → All (λ m. is_apart l m ≡ true) ls
    → is_apart l u ≡ true
latest_later l u p [] e a = absurd cc
latest_later l u p (m ∷ ls) e (a, others) = elim (find_latest-cases p u m ls e) [
  | inl (_, same) ↦ subst (λ v. is_apart l v ≡ true) same a
  | inr later ↦ latest_later l u p ls later others
]

pub find_latest-Fits :
    (p : Loan → Bool) (u : Loan) (ls : List Loan)
    → find_latest p ls ≡ some u
    → IsTable ls
    → Fits u ls
find_latest-Fits p u [] e t = tt
find_latest-Fits p u (l ∷ ls) e (a, c, t) = elim (find_latest-cases p u l ls e) [
  | inl (_, same) ↦ subst (λ v. Fits v (l ∷ ls)) same (ground arith, Fits-head l ls a)
  | inr later ↦ (apart_head u l (latest_later l u p ls later a), find_latest-Fits p u ls later t)
]

-- A row that is found in a table is found by its identifier.
pub find_latest-by_id :
    (p : Loan → Bool) (u : Loan) (ls : List Loan)
    → find_latest p ls ≡ some u
    → IsTable ls
    → find_loan (λ m. m.id == u.id) ls ≡ some u
find_latest-by_id p u [] e t = absurd cc
find_latest-by_id p u (l ∷ ls) e (a, c, t) = elim (find_latest-cases p u l ls e) [
  | inl (_, same) ↦ subst (λ v. find_loan (λ m. m.id == v.id) (l ∷ ls) ≡ some v) same (ground arith)
  | inr later ↦
      let apart = latest_later l u p ls later a in
      let rest = find_latest-by_id p u ls later t in ground arith
]
