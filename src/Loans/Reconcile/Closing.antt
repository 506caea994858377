-- ===== src/Loans/Reconcile/Closing.antt =====
-- What closing a row by an event does, and that it keeps the table.
use lendoor_stellar.Common.{
  ℕ, ◌≡◌, refl, inl, inr, true, false, not, Option, none, some, List, [], ◌∷◌, Text, ◌==◌,
  if◌then◌else◌, All, arith, Bool-cases, sym, and_then-eq-some, guard-eq-some,
}
use mathlib.Core.Path.{subst}
use lendoor_stellar.Cctp.Transfer.{is_falsy}
use lendoor_stellar.Loans.{Loan, find_loan, save_loan, same_hash}
use lendoor_stellar.Loans.Table.{
  is_apart, is_consistent, IsTable, Fits, save_loan-IsTable, find_loan-Fits, Fits-close,
  same_hash_left, same_hash_sym,
}
use lendoor_stellar.Loans.Reconcile.{
  ClosedEvent, is_another, holder_of, closed_by, close_row, close_in_table, closer_loan,
  is_reconcilable,
}

hash_apart :
    (l m : Loan) (h : Text) (i : ℕ)
    → same_hash l.close_tx_hash (some h) ≡ true
    → is_apart l m ≡ true
    → (if m.id == i then true else not (same_hash (some h) m.close_tx_hash)) ≡ true
hash_apart l m h i e a = ground (arith, same_hash_left l.close_tx_hash h m.close_tx_hash e)

others_hash :
    (l : Loan) (h : Text) (i : ℕ) (ls : List Loan)
    → same_hash l.close_tx_hash (some h) ≡ true
    → All (λ m. is_apart l m ≡ true) ls
    → All (λ m. (if m.id == i then true else not (same_hash (some h) m.close_tx_hash)) ≡ true) ls
others_hash l h i [] e a = tt
others_hash l h i (m ∷ ls) e (a, others) = (hash_apart l m h i e a, others_hash l h i ls e others)

head_id :
    (event : ClosedEvent) (i : ℕ) (l : Loan) (ls : List Loan)
    → same_hash l.close_tx_hash (some event.tx_hash) ≡ true
    → is_another i (holder_of (l ∷ ls) event) ≡ false
    → (l.id == i) ≡ true
head_id event i l ls e h = ground arith

holder_later :
    (event : ClosedEvent) (i : ℕ) (l : Loan) (ls : List Loan)
    → same_hash l.close_tx_hash (some event.tx_hash) ≡ false
    → is_another i (holder_of (l ∷ ls) event) ≡ false
    → is_another i (holder_of ls event) ≡ false
holder_later event i l ls e h = ground arith

-- No row but the one of this identifier has the hash.
holder-All :
    (event : ClosedEvent) (i : ℕ) (ls : List Loan)
    → IsTable ls
    → is_another i (holder_of ls event) ≡ false
    → All
        (λ m.
          (if m.id == i then true else not (same_hash (some event.tx_hash) m.close_tx_hash)) ≡ true)
        ls
holder-All event i [] t h = tt
holder-All event i (l ∷ ls) (a, c, t) h =
    elim (Bool-cases (same_hash l.close_tx_hash (some event.tx_hash))) [
      | inl e ↦ (rw (head_id event i l ls e h) refl, others_hash l event.tx_hash i ls e a)
      | inr e ↦ (
        ground (arith, same_hash_sym l.close_tx_hash (some event.tx_hash)),
        holder-All event i ls t (holder_later event i l ls e h),
      )
    ]

closed_by-consistent :
    (fresh : Loan) (event : ClosedEvent) → is_consistent (closed_by fresh event) ≡ true
unfolding closed_by
closed_by-consistent fresh event = ground arith

-- What a saved row tells of the tests that it passed.
pub close_row-eq-some :
    (loans : List Loan) (fresh row : Loan) (found : Option ClosedEvent)
    → close_row loans fresh found ≡ some row
    → (event : ClosedEvent) × (found ≡ some event)
      × (row ≡ closed_by fresh event)
      × (is_falsy fresh.close_tx_hash ≡ true)
      × (is_another fresh.id (closer_loan loans fresh event) ≡ false)
      × (is_another fresh.id (holder_of loans event) ≡ false)
unfolding close_row
close_row-eq-some loans fresh row none e = absurd (ground arith)
close_row-eq-some loans fresh row (some event) e =
    let (a, f) = guard-eq-some (not (is_falsy fresh.close_tx_hash)) _ e in
    let (b, g) = guard-eq-some (not (is_reconcilable fresh.status)) _ f in
    let (c, h) = guard-eq-some (is_another fresh.id (closer_loan loans fresh event)) _ g in
    let (d, k) = guard-eq-some (is_another fresh.id (holder_of loans event)) _ h in
    (event, refl, ground arith, ground arith, c, d)

pub close_in_table-eq-some :
    (loans : List Loan) (id : ℕ) (row : Loan) (found : Option ClosedEvent)
    → close_in_table loans id found ≡ some row
    → (fresh : Loan) × (find_loan (λ l. l.id == id) loans ≡ some fresh)
      × (close_row loans fresh found ≡ some row)
unfolding close_in_table
close_in_table-eq-some loans id row found e =
    and_then-eq-some (find_loan (λ l. l.id == id) loans) (λ fresh. close_row loans fresh found) e

-- Closing a row by an event keeps the table: the event's transaction closes no second row.
pub close_in_table-IsTable :
    (loans : List Loan) (id : ℕ) (row : Loan) (found : Option ClosedEvent)
    → close_in_table loans id found ≡ some row
    → IsTable loans
    → IsTable (save_loan row loans)
unfolding closed_by
close_in_table-IsTable loans id row found e t =
    let (fresh, at, closed) = close_in_table-eq-some loans id row found e in
    let (event, _, made, _, _, free) = close_row-eq-some loans fresh row found closed in
    let fits : Fits (closed_by fresh event) loans =
      Fits-close fresh (closed_by fresh event) loans refl refl
        (find_loan-Fits (λ l. l.id == id) fresh loans at t)
        (holder-All event fresh.id loans t free) in
    save_loan-IsTable row loans
      (subst (λ r. is_consistent r ≡ true) (sym made) (closed_by-consistent fresh event))
      (subst (λ r. Fits r loans) (sym made) fits) t
