-- ===== src/Cctp/Transfer/Reconcile.antt =====
-- What one reconciliation step does to a row.
use lendoor_stellar.Common.{
  ◌≡◌, refl, ◌≢◌, Bool, true, false, Option, some, Text, arith, ok, is_ok, eq-ok_of_is_ok,
}
use lendoor_stellar.Cctp.Errors.{iris_error}
use lendoor_stellar.Cctp.Transfer.{
  pending, delivered, failed, Transfer, IrisStatus, waiting, complete, backoff, error, is_falsy,
  reconcile,
}
use lendoor_stellar.Cctp.Transfer.Legal.{SameTransfer, eq_of_state_eq}

-- Whatever Iris answers and whatever the chain says, reconciling never throws: no path of it asks
-- for an illegal transition.
pub is_ok-reconcile :
    (t : Transfer) (iris : IrisStatus) (used : Bool) → is_ok (reconcile t iris used) ≡ true
unfolding reconcile
is_ok-reconcile t waiting used = ground arith
is_ok-reconcile t (complete a m) used = ground arith
is_ok-reconcile t (backoff n) used = ground arith
is_ok-reconcile t (error m) used = ground arith

pub consumed_delivers :
    (t : Transfer) (iris : IrisStatus) (u : Transfer)
    → reconcile t iris true ≡ ok u
    → u.state ≡ delivered
unfolding reconcile
consumed_delivers t waiting u h = ground (arith, eq_of_state_eq t.state delivered)
consumed_delivers t (complete a m) u h = ground (arith, eq_of_state_eq t.state delivered)
consumed_delivers t (backoff n) u h = ground (arith, eq_of_state_eq t.state delivered)
consumed_delivers t (error m) u h = ground (arith, eq_of_state_eq t.state delivered)

pub reconcile-SameTransfer :
    (t : Transfer) (iris : IrisStatus) (used : Bool) (u : Transfer)
    → reconcile t iris used ≡ ok u
    → SameTransfer t u
unfolding reconcile
reconcile-SameTransfer t waiting used u h = ground arith
reconcile-SameTransfer t (complete a m) used u h = ground arith
reconcile-SameTransfer t (backoff n) used u h = ground arith
reconcile-SameTransfer t (error m) used u h = ground arith

-- While the nonce is not consumed a step never delivers a row, and touches only pending rows.
pub reconcile_unconsumed :
    (t : Transfer) (iris : IrisStatus) (u : Transfer)
    → reconcile t iris false ≡ ok u
    → (t.state ≢ pending → u ≡ t) × (u.state ≡ delivered → t.state ≡ delivered)
unfolding reconcile
reconcile_unconsumed t waiting u h = ground (arith, eq_of_state_eq t.state pending)
reconcile_unconsumed t (complete a m) u h = ground (arith, eq_of_state_eq t.state pending)
reconcile_unconsumed t (backoff n) u h = ground (arith, eq_of_state_eq t.state pending)
reconcile_unconsumed t (error m) u h = ground (arith, eq_of_state_eq t.state pending)

-- A row becomes failed in a step only if it was pending, its nonce is not consumed, and Iris gave
-- a terminal error, which the row then records.
pub reconcile_fails :
    (t : Transfer) (iris : IrisStatus) (used : Bool) (u : Transfer)
    → reconcile t iris used ≡ ok u
    → t.state ≢ failed
    → u.state ≡ failed
    → (m : Text) × (iris ≡ error m)
      × (t.state ≡ pending)
      × (used ≡ false)
      × (u.last_error ≡ some (iris_error m))
unfolding reconcile
reconcile_fails t waiting used u h n f = ground (arith, eq_of_state_eq t.state failed)
reconcile_fails t (complete a m) used u h n f = ground (arith, eq_of_state_eq t.state failed)
reconcile_fails t (backoff k) used u h n f = ground (arith, eq_of_state_eq t.state failed)
reconcile_fails t (error m) used u h n f = (
  m,
  refl,
  ground (arith, eq_of_state_eq t.state failed, eq_of_state_eq t.state pending),
  ground (arith, eq_of_state_eq t.state failed),
  ground (arith, eq_of_state_eq t.state failed),
)

-- The attestation of the poll that saw the consumed nonce is not lost.
pub reconcile_keeps_attestation :
    (t : Transfer) (a : Text) (m : Option Text) (u : Transfer)
    → reconcile t (complete a m) true ≡ ok u
    → t.state ≢ delivered
    → is_falsy t.attestation ≡ true
    → is_falsy (some a) ≡ false
    → u.attestation ≡ some a
unfolding reconcile
reconcile_keeps_attestation t a m u h n f g = ground (arith, eq_of_state_eq t.state delivered)

-- A consumed nonce always ends in the delivered state: whatever Iris answers, and from every state, a
-- failed row included, the reconciliation throws nothing and returns a delivered row.
pub reconcile_delivers :
    (t : Transfer) (iris : IrisStatus)
    → (u : Transfer) × (reconcile t iris true ≡ ok u) × (u.state ≡ delivered)
reconcile_delivers t iris =
    let (u, e) = eq-ok_of_is_ok (reconcile t iris true) (is_ok-reconcile t iris true) in
    (u, e, consumed_delivers t iris u e)

-- Reconciling a second time, on the same chain truth, changes nothing more once it is consumed.
pub reconcile_twice :
    (t : Transfer) (iris iris' : IrisStatus) (used : Bool) (u : Transfer)
    → reconcile t iris true ≡ ok u
    → reconcile u iris' used ≡ ok u
unfolding reconcile
reconcile_twice t iris iris' used u h = ground (arith, consumed_delivers t iris u h)

-- Reconciling never records a mint or a deposit.
pub reconcile-hashes :
    (t : Transfer) (iris : IrisStatus) (used : Bool) (u : Transfer)
    → reconcile t iris used ≡ ok u
    → (u.deposit_tx_hash ≡ t.deposit_tx_hash) × (u.mint_tx_hash ≡ t.mint_tx_hash)
unfolding reconcile
reconcile-hashes t waiting used u h = ground arith
reconcile-hashes t (complete a m) used u h = ground arith
reconcile-hashes t (backoff n) used u h = ground arith
reconcile-hashes t (error m) used u h = ground arith
