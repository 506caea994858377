-- ===== src/Cctp/Executor/Recovery.antt =====
-- Retries: what a delivery does after a crash, how often it mints, and what polling skips.
use lendoor_stellar.Common.{
  Result-cases, ℕ, ◌+◌, ◌≤◌, ◌≡◌, refl, ◌≢◌, inl, inr, Bool, true, false, none, some, List, [], ◌∷◌,
  ◌++◌, Text, codes, arith, ok, err, text_eq, text_eq_iff, if◌then◌else◌, eq-ok_of_is_ok, ◌∙◌,
}
use lendoor_stellar.Cctp.Transfer.{
  attested, delivered, Transfer, is_falsy, IrisStatus, transition, reconcile,
}
use lendoor_stellar.Cctp.Delivery.{ScVal, DeliveryPlan, plan_delivery, deposit_from_sc_vals}
use lendoor_stellar.Cctp.Executor.{
  Call, iris_query, nonce_query, invoke, Network, not_attested, Deps, text_of, poll,
  deposit_to_vault, deliver_consumed, deliver_mint, deliver_plan, deliver,
}
use lendoor_stellar.Cctp.Transfer.Reconcile.{is_ok-reconcile, consumed_delivers, reconcile-hashes}

abbrev pub is_mint : Call → ℕ
is_mint (invoke contract method args) = if text_eq method (codes "mint_and_forward") then 1 else 0
is_mint _ = 0

-- How often `mint_and_forward` was submitted.
abbrev pub mints : List Call → ℕ
mints [] = 0
mints (c ∷ log) = is_mint c + mints log

mints-append : (xs ys : List Call) → mints (xs ++ ys) ≡ mints xs + mints ys
mints-append [] ys = omega arith
mints-append (c ∷ xs) ys = omega (arith, mints-append xs ys)

-- A delivered row is not delivered again.
deliver_delivered :
    (deps : Deps) (net : Network) (t : Transfer) (log : List Call)
    → t.state ≡ delivered
    → deliver deps t net log ≡ (err (not_attested delivered), log)
unfolding deliver
deliver_delivered deps net t log d = ground arith

module _ (deps : Deps) (net : Network) (t : Transfer) where
  mints-deposit :
      (plan : DeliveryPlan) (log : List Call)
      → mints (deposit_to_vault deps t plan net log).1 ≡ mints log
  unfolding deposit_to_vault
  mints-deposit plan log =
      elim (Result-cases
        (deposit_from_sc_vals deps.keys deps.relayer_address t.beneficiary plan.amount7)) [
          | inl (args, e) ↦ rw e (
              omega (
                arith,
                mints-append log (invoke deps.vault_contract_id (codes "deposit_from") args ∷ []),
              ))
          | inr (bad, e) ↦ rw e refl
        ]

  mints-consumed :
      (plan : DeliveryPlan) (direct : Bool) (log : List Call)
      → mints (deliver_consumed deps t plan direct net log).1 ≡ mints log
  unfolding deliver_consumed
  mints-consumed plan direct log = ground (arith, mints-deposit plan log)

  mints-mint :
      (plan : DeliveryPlan) (direct : Bool) (log : List Call)
      → mints (deliver_mint deps t plan direct net log).1 ≤ mints log + 1
  unfolding deliver_mint
  mints-mint plan direct log =
      let minted =
        log ++ (invoke deps.config.cctp_forwarder (codes "mint_and_forward") plan.mint_args ∷ []) in
      ground (
        arith,
        mints-deposit plan minted,
        mints-append log
            (invoke deps.config.cctp_forwarder (codes "mint_and_forward") plan.mint_args ∷ []),
      )

  mints-plan :
      (plan : DeliveryPlan) (log : List Call)
      → (mints (deliver_plan deps t plan net log).1 ≤ mints log + 1)
        × (net.nonce_used t.nonce ≢ some false
            → mints (deliver_plan deps t plan net log).1 ≡ mints log)
  unfolding deliver_plan transition
  mints-plan plan log =
      let direct = text_eq plan.forward_recipient t.beneficiary in
      let asked = log ++ (nonce_query plan.nonce ∷ []) in
      let counted = mints-append log (nonce_query plan.nonce ∷ []) in
      (
        ground (arith, counted, mints-mint plan direct asked, mints-consumed plan direct asked),
        ground (
          arith,
          counted,
          text_eq_iff plan.nonce t.nonce,
          mints-mint plan direct asked,
          mints-consumed plan direct asked,
        ),
      )

  -- However a delivery ends, it submits at most one mint, and none unless the chain has answered
  -- that the nonce of the row is unused.
  pub deliver-mints_once :
      (log : List Call)
      → (mints (deliver deps t net log).1 ≤ mints log + 1)
        × (net.nonce_used t.nonce ≢ some false → mints (deliver deps t net log).1 ≡ mints log)
  unfolding deliver transition
  deliver-mints_once log =
      elim (Result-cases
        (plan_delivery deps.keys (text_of t.message) (text_of t.attestation) deps.config)) [
          | inl (plan, p) ↦
              (ground (arith, (mints-plan plan log).0), ground (arith, (mints-plan plan log).1))
          | inr (bad, p) ↦ (ground arith, ground arith)
        ]

  -- After a crash between the mint and the deposit, delivering again makes exactly the missing
  -- deposit: the nonce is asked for, no mint is submitted, and the row is delivered with the hash of
  -- the deposit.
  pub deliver_resumes :
      (plan : DeliveryPlan) (args : List ScVal) (hash : Text) (log : List Call)
      → t.state ≡ attested
      → is_falsy t.attestation ≡ false
      → is_falsy t.message ≡ false
      → is_falsy t.deposit_tx_hash ≡ true
      → plan_delivery deps.keys (text_of t.message) (text_of t.attestation) deps.config ≡ ok plan
      → plan.nonce ≡ t.nonce
      → plan.forward_recipient ≡ deps.relayer_address
      → plan.forward_recipient ≢ t.beneficiary
      → net.nonce_used plan.nonce ≡ some true
      → deposit_from_sc_vals deps.keys deps.relayer_address t.beneficiary plan.amount7 ≡ ok args
      → net.submitted deps.vault_contract_id (codes "deposit_from") args ≡ some hash
      → deliver deps t net log ≡ (
        ok (record t { deposit_tx_hash = some hash; last_error = none; state = delivered }),
        (log ++ (nonce_query plan.nonce ∷ []))
            ++ (invoke deps.vault_contract_id (codes "deposit_from") args ∷ []),
      )
  unfolding deliver deliver_plan deliver_consumed deposit_to_vault transition reconcile
  deliver_resumes plan args hash log a f m d p n r b u e s = ground (
    arith,
    text_eq_iff plan.nonce t.nonce,
    text_eq_iff plan.forward_recipient deps.relayer_address,
    text_eq_iff plan.forward_recipient t.beneficiary,
  )

  -- Polling the same row instead loses the deposit: for every attested row with no recorded deposit
  -- whose nonce is consumed, a poll that Iris answers returns a delivered row still with no recorded
  -- deposit, having submitted nothing, and every later delivery of that row throws.
  pub poll_skips_deposit :
      (iris : IrisStatus) (log : List Call)
      → t.state ≡ attested
      → t.deposit_tx_hash ≡ none
      → net.iris t.source_domain t.burn_tx_hash ≡ some iris
      → net.nonce_used t.nonce ≡ some true
      → (u : Transfer) × (poll deps t net log ≡ (
        ok u,
        (log ++ (iris_query t.source_domain t.burn_tx_hash ∷ [])) ++ (nonce_query t.nonce ∷ []),
      ))
        × (u.state ≡ delivered)
        × (u.deposit_tx_hash ≡ none)
        × ((net' : Network) (log' : List Call)
            → deliver deps u net' log' ≡ (err (not_attested delivered), log'))
  unfolding poll
  poll_skips_deposit iris log a d i n =
      let (u, e) = eq-ok_of_is_ok (reconcile t iris true) (is_ok-reconcile t iris true) in
      let done = consumed_delivers t iris u e in
      let kept = (reconcile-hashes t iris true u e).0 in
      (u, ground arith, done, kept ∙ d, λ net' log'. deliver_delivered deps net' u log' done)
