-- ===== src/Cctp/Executor/Monad.antt =====
-- Calls over the executor's ports: they read the network's answers, log what they ask of it, and
-- may throw. What was asked stays asked after a throw.
use lendoor_stellar.Common.{ℕ, Bool, Option, none, some, List, [], ◌∷◌, ◌++◌, Text, Result, ok, err}
use lendoor_stellar.Cctp.Transfer.{State, TransitionError, IrisStatus}
use lendoor_stellar.Cctp.Delivery.{ScVal}

-- One request to a port.
pub data Call : Type 0 where
  iris_query : ℕ → Text → Call
  nonce_query : Text → Call
  invoke : Text → Text → List ScVal → Call

-- The answers of the ports; `none` is a rejected promise.
pub record Network : Type 0 where
  pub iris : ℕ → Text → Option IrisStatus
  pub nonce_used : Text → Option Bool
  pub submitted : Text → Text → List ScVal → Option Text

pub data Thrown : Type 0 where
  not_attested : State → Thrown
  no_message : Text → Thrown
  illegal_transition : TransitionError → Thrown
  bad_argument : Thrown
  iris_failed nonce_failed : Thrown
  submit_failed : Text → Text → Thrown

-- What was asked of the network comes before the result is known, so the log is threaded outside it.
abbrev pub Action : Type 0 → Type 0
Action A = Network → List Call → Result Thrown A × List Call

module _ {A : Type 0} where
  abbrev pub or_thrown : Option A → Thrown → Result Thrown A
  or_thrown (some answer) e = ok answer
  or_thrown none e = err e

  abbrev pub lift : Result TransitionError A → Action A
  lift (err illegal_edge) net log = (err (illegal_transition illegal_edge), log)
  lift (ok row) net log = (ok row, log)

  abbrev pub build_args : Result (Unit {0}) A → Action A
  build_args (err unbuilt) net log = (err bad_argument, log)
  build_args (ok args) net log = (ok args, log)

  abbrev pub throw : Thrown → Action A
  throw e net log = (err e, log)

  abbrev pub pure : A → Action A
  pure value net log = (ok value, log)

-- The next action, on the log that the first one leaves, unless that one threw.
abbrev pub resume :
    {A C : Type 0}
    → Result Thrown A × List Call
    → (A → Action C)
    → Network
    → Result Thrown C × List Call
resume (err e, asked) next net = (err e, asked)
resume (ok value, asked) next net = next value net asked

infixl 5 ◌>>=◌
abbrev pub ◌>>=◌ : {A C : Type 0} → Action A → (A → Action C) → Action C
◌>>=◌ first next net log = resume (first net log) next net

abbrev pub get_attestation : ℕ → Text → Action IrisStatus
get_attestation domain hash net log =
    (or_thrown (net.iris domain hash) iris_failed, log ++ (iris_query domain hash ∷ []))

abbrev pub is_nonce_used : Text → Action Bool
is_nonce_used nonce net log =
    (or_thrown (net.nonce_used nonce) nonce_failed, log ++ (nonce_query nonce ∷ []))

abbrev pub submit : Text → Text → List ScVal → Action Text
submit contract method args net log = (
  or_thrown (net.submitted contract method args) (submit_failed contract method),
  log ++ (invoke contract method args ∷ []),
)
