-- ===== src/Loans/Table.antt =====
-- The table of loans as a whole: which rows may stand beside each other, and what one row is.
use lendoor_stellar.Common.{
  ℕ, ◌≡◌, refl, Bool, true, false, not, ◌&&◌, ◌||◌, Option, none, some, List, [], ◌∷◌, Text,
  text_eq, eq_of_text_eq, text_eq_refl, text_eq_iff, ◌==◌, if◌then◌else◌, All, arith, Bool-cases,
  is_none, inl, inr, sym,
}
pub mod Latest
use mathlib.Core.Path.{subst}
use lendoor_stellar.Loans.{
  LoanStatus, opened, repaid_on_time, repaid_late, defaulted_in_grace, defaulted, Loan, is_repaid,
  same_hash, find_loan, save_loan, is_opened,
}

-- Two rows have two identifiers, and no transaction opened or closed both.
abbrev pub is_apart : Loan → Loan → Bool
is_apart l m =
    not (l.id == m.id)
    && not (same_hash l.open_tx_hash m.open_tx_hash)
    && not (same_hash l.close_tx_hash m.close_tx_hash)

-- `a ⇒ b`
abbrev pub implies : Bool → Bool → Bool
implies true b = b
implies false b = true

-- Whether the flag agrees with the status.
abbrev pub flag_agrees : LoanStatus → Bool → Bool
flag_agrees repaid_on_time b = b
flag_agrees _ b = not b

-- A row is on time exactly if its status says so, a repaid row has a closing time, and a row with a
-- closing transaction is repaid.
abbrev pub is_consistent : Loan → Bool
is_consistent l =
    flag_agrees l.status l.is_on_time
    && implies (is_repaid l.status) (not (is_none l.closed_at))
    && implies (not (is_none l.close_tx_hash)) (is_repaid l.status)

-- Every row is apart from the later ones and consistent.
abbrev pub IsTable : List Loan → Type 0
IsTable [] = Unit {0}
IsTable (l ∷ ls) = All (λ m. is_apart l m ≡ true) ls × (is_consistent l ≡ true) × IsTable ls

pub same_hash_sym : (a b : Option Text) → same_hash a b ≡ same_hash b a
same_hash_sym none none = refl
same_hash_sym none (some b) = refl
same_hash_sym (some a) none = refl
same_hash_sym (some a) (some b) = ground (arith, text_eq_iff a b, text_eq_iff b a)

-- Hashes that are the same are the same as the same ones.
pub same_hash_left :
    (a : Option Text) (h : Text) (b : Option Text)
    → same_hash a (some h) ≡ true
    → same_hash (some h) b ≡ same_hash a b
same_hash_left none h b e = absurd (ground arith)
same_hash_left (some k) h b e = rw (eq_of_text_eq k h e) refl

pub is_apart_sym : (l m : Loan) → is_apart l m ≡ true → is_apart m l ≡ true
is_apart_sym l m h = ground (
  arith,
  same_hash_sym l.open_tx_hash m.open_tx_hash,
  same_hash_sym l.close_tx_hash m.close_tx_hash,
)

-- A row that may replace the row of its identifier: it is apart from every other row.
abbrev pub Fits : Loan → List Loan → Type 0
Fits u = All (λ m. (if m.id == u.id then true else is_apart u m) ≡ true)

save-other :
    (u : Loan) (l : Loan) (ls : List Loan)
    → (l.id == u.id) ≡ false
    → Fits u (l ∷ ls)
    → All (λ m. is_apart l m ≡ true) ls
    → All (λ m. is_apart l m ≡ true) (save_loan u ls)
save-other u l [] e f a = tt
save-other u l (m ∷ ls) e (f, (g, fs)) (a, others) = elim (Bool-cases (m.id == u.id)) [
  | inl same ↦ rw same (is_apart_sym u l (ground arith), save-other u l ls e (f, fs) others)
  | inr other ↦ rw other (a, save-other u l ls e (f, fs) others)
]

save-same :
    (u l : Loan) (ls : List Loan)
    → l.id ≡ u.id
    → Fits u ls
    → All (λ m. is_apart l m ≡ true) ls
    → All (λ m. is_apart u m ≡ true) (save_loan u ls)
save-same u l [] e f a = tt
save-same u l (m ∷ ls) e (f, fs) (a, others) = elim (Bool-cases (m.id == u.id)) [
  | inl same ↦ absurd (ground arith)
  | inr other ↦ rw other (ground arith, save-same u l ls e fs others)
]

-- Saving a consistent row that fits keeps the table.
pub save_loan-IsTable :
    (u : Loan) (ls : List Loan)
    → is_consistent u ≡ true
    → Fits u ls
    → IsTable ls
    → IsTable (save_loan u ls)
save_loan-IsTable u [] c f t = tt
save_loan-IsTable u (l ∷ ls) c (f, fs) (a, d, t) = elim (Bool-cases (l.id == u.id)) [
  | inl same ↦ rw same (save-same u l ls (ground arith) fs a, c, save_loan-IsTable u ls c fs t)
  | inr other ↦ rw other (save-other u l ls other (f, fs) a, d, save_loan-IsTable u ls c fs t)
]

-- A row that is found fits.
pub Fits-head : (l : Loan) (ls : List Loan) → All (λ m. is_apart l m ≡ true) ls → Fits l ls
Fits-head l [] a = tt
Fits-head l (m ∷ ls) (a, others) = (ground arith, Fits-head l ls others)

found_later :
    (l u : Loan) (p : Loan → Bool) (ls : List Loan)
    → find_loan p ls ≡ some u
    → All (λ m. is_apart l m ≡ true) ls
    → is_apart l u ≡ true
found_later l u p [] e a = absurd (ground arith)
found_later l u p (m ∷ ls) e (a, others) = ground (arith, found_later l u p ls)

found_head :
    (p : Loan → Bool) (u l : Loan) (ls : List Loan)
    → find_loan p (l ∷ ls) ≡ some u
    → p l ≡ true
    → l ≡ u
found_head p u l ls e y = ground arith

found_tail :
    (p : Loan → Bool) (u l : Loan) (ls : List Loan)
    → find_loan p (l ∷ ls) ≡ some u
    → p l ≡ false
    → find_loan p ls ≡ some u
found_tail p u l ls e n = ground arith

pub apart_head :
    (u l : Loan) → is_apart l u ≡ true → (if l.id == u.id then true else is_apart u l) ≡ true
apart_head u l a = ground (arith, is_apart_sym l u a)

pub find_loan-Fits :
    (p : Loan → Bool) (u : Loan) (ls : List Loan) → find_loan p ls ≡ some u → IsTable ls → Fits u ls
find_loan-Fits p u [] e t = tt
find_loan-Fits p u (l ∷ ls) e (a, c, t) = elim (Bool-cases (p l)) [
  | inl found ↦
      subst (λ v. Fits v (l ∷ ls)) (found_head p u l ls e found) (ground arith, Fits-head l ls a)
  | inr later ↦ (
    apart_head u l (found_later l u p ls (found_tail p u l ls e later) a),
    find_loan-Fits p u ls (found_tail p u l ls e later) t,
  )
]

-- A row that is saved keeps its place if only its closing hash is new, and no other row has it.
pub Fits-close :
    (fresh u : Loan) (ls : List Loan)
    → u.id ≡ fresh.id
    → u.open_tx_hash ≡ fresh.open_tx_hash
    → Fits fresh ls
    → All
        (λ m.
          (if m.id == u.id then true else not (same_hash u.close_tx_hash m.close_tx_hash)) ≡ true)
        ls
    → Fits u ls
Fits-close fresh u [] i o f c = tt
Fits-close fresh u (m ∷ ls) i o (f, fs) (c, cs) = (ground arith, Fits-close fresh u ls i o fs cs)

-- A row that is found passes the test.
pub find_loan-holds :
    (p : Loan → Bool) (u : Loan) (ls : List Loan) → find_loan p ls ≡ some u → p u ≡ true
find_loan-holds p u [] e = absurd (ground arith)
find_loan-holds p u (l ∷ ls) e = elim (Bool-cases (p l)) [
  | inl found ↦ subst (λ v. p v ≡ true) (found_head p u l ls e found) found
  | inr later ↦ find_loan-holds p u ls (found_tail p u l ls e later)
]

-- A row that is saved is found by its identifier, and every other row as before.
pub find_loan-save :
    (u f : Loan) (i : ℕ) (ls : List Loan)
    → find_loan (λ l. l.id == i) ls ≡ some f
    → u.id ≡ i
    → find_loan (λ l. l.id == i) (save_loan u ls) ≡ some u
find_loan-save u f i [] e same = absurd (ground arith)
find_loan-save u f i (l ∷ ls) e same = elim (Bool-cases (l.id == i)) [
  | inl found ↦ ground arith
  | inr later ↦
      let rest = find_loan-save u f i ls (found_tail (λ l. l.id == i) f l ls e later) same in
      ground arith
]

pub find_loan-save_other :
    (u : Loan) (i : ℕ) (ls : List Loan)
    → (u.id == i) ≡ false
    → find_loan (λ l. l.id == i) (save_loan u ls) ≡ find_loan (λ l. l.id == i) ls
find_loan-save_other u i [] other = refl
find_loan-save_other u i (l ∷ ls) other =
    let rest = find_loan-save_other u i ls other in ground arith

-- A query that finds nothing passed every row over.
pub find_loan-none :
    (p : Loan → Bool) (ls : List Loan) → find_loan p ls ≡ none → All (λ m. p m ≡ false) ls
find_loan-none p [] e = tt
find_loan-none p (l ∷ ls) e = elim (Bool-cases (p l)) [
  | inl found ↦ absurd (ground arith)
  | inr later ↦ (later, find_loan-none p ls (ground arith))
]
