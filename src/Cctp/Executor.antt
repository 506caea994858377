-- ===== src/Cctp/Executor.antt =====
-- backend/src/cctp/cctp-executor.ts: polling and delivery of one transfer. What the ports answer
-- during one call is an argument, `Network`; the calls that the executor makes are kept in a log.
pub mod Monad
pub mod Branches
pub mod Safety
pub mod Recovery
pub use Monad.*
use lendoor_stellar.Common.{
  ℕ, Bool, true, false, not, ◌&&◌, ◌||◌, Option, none, some, List, [], ◌∷◌, Text, codes, text_eq,
  if◌then◌else◌, Result, ok, err,
}
use lendoor_stellar.Cctp.Errors.{plan_error, nonce_mismatch, wrong_recipient}
use lendoor_stellar.Cctp.Strkey.{StrKey}
use lendoor_stellar.Cctp.Chains.{StellarConfig}
use lendoor_stellar.Cctp.Transfer.{
  State, attested, submitting, delivered, failed, state_eq, Transfer, Patch, no_patch, is_falsy,
  complete, transition, reconcile,
}
use lendoor_stellar.Cctp.Delivery.{DeliveryPlan, deposit_from_sc_vals, plan_delivery}

-- CctpExecutorDeps without its ports
pub record Deps : Type 0 where
  pub keys : StrKey
  pub config : StellarConfig
  pub relayer_address : Text
  pub vault_contract_id : Text

-- The string in a field that has been tested to be truthy.
abbrev pub text_of : Option Text → Text
text_of none = []
text_of (some s) = s

module _ (deps : Deps) where
  -- CctpExecutor.poll
  unfoldable pub poll : Transfer → Action Transfer
  poll t = do
    iris ← get_attestation t.source_domain t.burn_tx_hash
    used ← is_nonce_used t.nonce
    lift (reconcile t iris used)

  -- CctpExecutor.depositToVault
  unfoldable pub deposit_to_vault : Transfer → DeliveryPlan → Action Text
  deposit_to_vault t plan = do
    args ←
        build_args (deposit_from_sc_vals deps.keys deps.relayer_address t.beneficiary plan.amount7)
    submit deps.vault_contract_id (codes "deposit_from") args

  -- The branch of `deliver` for a nonce that is already consumed.
  unfoldable pub deliver_consumed : Transfer → DeliveryPlan → Bool → Action Transfer
  deliver_consumed t plan direct = do
    cur ←
        (if not direct && is_falsy t.deposit_tx_hash
          then deposit_to_vault t plan >>= (λ hash.
            lift (transition t t.state (record no_patch { deposit_tx_hash = some (some hash) })))
          else pure t)
    lift (reconcile cur (complete (text_of t.attestation) none) true)

  -- The branch that mints.
  unfoldable pub deliver_mint : Transfer → DeliveryPlan → Bool → Action Transfer
  deliver_mint t plan direct = do
    started ← lift (transition t submitting no_patch)
    mint ← submit deps.config.cctp_forwarder (codes "mint_and_forward") plan.mint_args
    minted ←
        lift (transition started submitting (record no_patch { mint_tx_hash = some (some mint) }))
    cur ←
        (if not direct
          then deposit_to_vault t plan >>= (λ hash.
            lift (
              transition minted submitting
                (record no_patch { deposit_tx_hash = some (some hash) })))
          else pure minted)
    lift (transition cur delivered no_patch)

  -- `deliver` from the valid plan on.
  unfoldable pub deliver_plan : Transfer → DeliveryPlan → Action Transfer
  deliver_plan t plan =
      let direct = text_eq plan.forward_recipient t.beneficiary in
      if not (text_eq plan.nonce t.nonce)
      then lift (
          transition t failed
            (record no_patch { last_error = some (some (nonce_mismatch plan.nonce t.nonce)) }))
      else if not direct && not (text_eq plan.forward_recipient deps.relayer_address)
      then lift (
          transition t failed
            (record no_patch { last_error = some (some (wrong_recipient plan.forward_recipient)) }))
      else is_nonce_used plan.nonce
        >>= (λ used. if used then deliver_consumed t plan direct else deliver_mint t plan direct)

  -- CctpExecutor.deliver
  unfoldable pub deliver : Transfer → Action Transfer
  deliver t =
      if not (state_eq t.state attested) || is_falsy t.attestation
      then throw (not_attested t.state)
      else if is_falsy t.message
      then throw (no_message t.nonce)
      else elim (plan_delivery deps.keys (text_of t.message) (text_of t.attestation) deps.config) [
        | err e ↦
            lift (transition t failed (record no_patch { last_error = some (some (plan_error e)) }))
        | ok plan ↦ deliver_plan t plan
      ]
