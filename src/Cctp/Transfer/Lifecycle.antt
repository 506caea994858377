-- ===== src/Cctp/Transfer/Lifecycle.antt =====
-- Every history of a row: any sequence of transitions and reconciliation steps.
use lendoor_stellar.Common.{◌≡◌, refl, ◌⊎◌, Bool, arith, ok, ◌∙◌}
use lendoor_stellar.Cctp.Transfer.{
  State, delivered, failed, Transfer, Patch, transition, IrisStatus, waiting, complete, backoff,
  error, reconcile,
}
use lendoor_stellar.Cctp.Transfer.Legal.{SameTransfer, eq_of_state_eq, transition-Applied}
use lendoor_stellar.Cctp.Transfer.Reconcile.{reconcile-SameTransfer}

pub data Step (t u : Transfer) : Type 0 where
  move : (to : State) (p : Patch) → transition t to p ≡ ok u → Step t u
  poll : (iris : IrisStatus) (used : Bool) → reconcile t iris used ≡ ok u → Step t u

pub data Reach (t : Transfer) : Transfer → Type 0 where
  here : Reach t t
  next : {u v : Transfer} → Reach t u → Step u v → Reach t v

Step-SameTransfer : (t u : Transfer) → Step t u → SameTransfer t u
Step-SameTransfer t u (move to p h) = (transition-Applied t to p u h).same
Step-SameTransfer t u (poll iris used h) = reconcile-SameTransfer t iris used u h

SameTransfer-trans : (t u v : Transfer) → SameTransfer t u → SameTransfer u v → SameTransfer t v
SameTransfer-trans t u v a b = record {
  nonce = b.nonce ∙ a.nonce;
  source_domain = b.source_domain ∙ a.source_domain;
  destination_domain = b.destination_domain ∙ a.destination_domain;
  burn_tx_hash = b.burn_tx_hash ∙ a.burn_tx_hash;
  amount_usdc6 = b.amount_usdc6 ∙ a.amount_usdc6;
  beneficiary = b.beneficiary ∙ a.beneficiary;
}

-- Through its whole history a row keeps its nonce, domains, burn hash, amount and beneficiary.
pub Reach-SameTransfer : (t u : Transfer) → Reach t u → SameTransfer t u
Reach-SameTransfer t t' here = record {
  nonce = refl;
  source_domain = refl;
  destination_domain = refl;
  burn_tx_hash = refl;
  amount_usdc6 = refl;
  beneficiary = refl;
}
Reach-SameTransfer t v (next {u = u} r s) =
    SameTransfer-trans t u v (Reach-SameTransfer t u r) (Step-SameTransfer u v s)

Step-delivered : (t u : Transfer) → Step t u → t.state ≡ delivered → u.state ≡ delivered
unfolding transition reconcile
Step-delivered t u (move to p h) d = ground (arith, eq_of_state_eq t.state to)
Step-delivered t u (poll iris used h) d = ground arith

-- Delivered is terminal: no history leads a delivered row to another state.
pub Reach-delivered : (t u : Transfer) → Reach t u → t.state ≡ delivered → u.state ≡ delivered
Reach-delivered t t' here d = d
Reach-delivered t v (next {u = u} r s) d = Step-delivered u v s (Reach-delivered t u r d)

-- The states that a failed row can have later.
abbrev pub IsClosed : State → Type 0
IsClosed s = (s ≡ delivered) ⊎ (s ≡ failed)

Step-IsClosed : (t u : Transfer) → Step t u → IsClosed t.state → IsClosed u.state
unfolding transition reconcile
Step-IsClosed t u (move to p h) d = ground (arith, eq_of_state_eq t.state to)
Step-IsClosed t u (poll waiting used h) d = ground arith
Step-IsClosed t u (poll (complete a m) used h) d = ground arith
Step-IsClosed t u (poll (backoff n) used h) d = ground arith
Step-IsClosed t u (poll (error m) used h) d = ground arith

-- A failed row is never queued again: later it is failed or delivered.
pub Reach-IsClosed : (t u : Transfer) → Reach t u → IsClosed t.state → IsClosed u.state
Reach-IsClosed t t' here d = d
Reach-IsClosed t v (next {u = u} r s) d = Step-IsClosed u v s (Reach-IsClosed t u r d)
