-- ===== src/Cctp/Transfer/Legal.antt =====
-- What `transition` does on every edge of the table.
use lendoor_stellar.Common.{◌≡◌, refl, ◌≢◌, ◌⊎◌, true, false, arith, ok, err, is_ok, ◌||◌}
use lendoor_stellar.Cctp.Transfer.{
  State, pending, attested, submitting, delivered, failed, state_eq, is_legal, Transfer, Patch,
  apply_patch, illegal, transition,
}

pub eq_of_state_eq : (s u : State) → state_eq s u ≡ true → s ≡ u
eq_of_state_eq pending pending h = refl
eq_of_state_eq attested attested h = refl
eq_of_state_eq submitting submitting h = refl
eq_of_state_eq delivered delivered h = refl
eq_of_state_eq failed failed h = refl
eq_of_state_eq s u h = ground arith

pub state_eq_refl : (s : State) → state_eq s s ≡ true
state_eq_refl pending = refl
state_eq_refl _ = refl

-- The part of a row that no transition may touch.
pub record SameTransfer (t u : Transfer) : Type 0 where
  pub nonce : u.nonce ≡ t.nonce
  pub source_domain : u.source_domain ≡ t.source_domain
  pub destination_domain : u.destination_domain ≡ t.destination_domain
  pub burn_tx_hash : u.burn_tx_hash ≡ t.burn_tx_hash
  pub amount_usdc6 : u.amount_usdc6 ≡ t.amount_usdc6
  pub beneficiary : u.beneficiary ≡ t.beneficiary

-- What a transition that does not throw has done.
pub record Applied (t : Transfer) (to : State) (p : Patch) (u : Transfer) : Type 0 where
  pub state : u.state ≡ to
  pub edge : (t.state ≡ to) ⊎ (is_legal t.state to ≡ true)
  pub same : SameTransfer t u
  pub attempts : u.attempts ≡ t.attempts
  pub attestation : u.attestation ≡ (apply_patch t p).attestation
  pub message : u.message ≡ (apply_patch t p).message
  pub mint_tx_hash : u.mint_tx_hash ≡ (apply_patch t p).mint_tx_hash
  pub deposit_tx_hash : u.deposit_tx_hash ≡ (apply_patch t p).deposit_tx_hash

-- A transition that succeeds arrives at the state that was asked for, over a legal edge or in
-- place, writes exactly the patch, and leaves the nonce, the domains, the burn hash, the amount,
-- the beneficiary and the attempt count alone.
pub transition-Applied :
    (t : Transfer) (to : State) (p : Patch) (u : Transfer)
    → transition t to p ≡ ok u
    → Applied t to p u
unfolding transition
transition-Applied t to p u h = ground (arith, eq_of_state_eq t.state to)

-- Between two different states with no legal edge a transition throws, and the error names the
-- edge and the row.
pub transition_illegal :
    (t : Transfer) (to : State) (p : Patch)
    → t.state ≢ to
    → is_legal t.state to ≡ false
    → transition t to p ≡ err (illegal t.state to t.nonce)
unfolding transition
transition_illegal t to p h k = ground (arith, eq_of_state_eq t.state to)

-- A transition succeeds exactly in place or over a legal edge.
pub is_ok-transition :
    (t : Transfer) (to : State) (p : Patch)
    → is_ok (transition t to p) ≡ (state_eq t.state to || is_legal t.state to)
unfolding transition
is_ok-transition t to p = ground arith
