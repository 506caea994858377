-- ===== src/Cctp/Executor/Branches.antt =====
-- What the two branches of a delivery have done when they end.
use lendoor_stellar.Common.{
  ◌≡◌, refl, ◌≢◌, ◌⊎◌, inl, inr, Bool, true, false, some, List, [], ◌∷◌, Text, codes, arith, ok,
  Result-cases, Bool-cases, Option-cases, text_eq, if◌then◌else◌, ◌++◌,
}
use lendoor_stellar.Cctp.Transfer.{
  attested, delivered, failed, Transfer, is_falsy, transition, reconcile,
}
use lendoor_stellar.Cctp.Delivery.{ScVal, DeliveryPlan, deposit_from_sc_vals, plan_delivery}
use lendoor_stellar.Cctp.Executor.{
  Call, nonce_query, Network, Deps, text_of, deposit_to_vault, deliver_consumed, deliver_mint,
  deliver_plan,
}

module _ (deps : Deps) (net : Network) (t : Transfer) where
  -- The deposit into the vault that is recorded as `hash`.
  pub record IsDeposit (plan : DeliveryPlan) (u : Transfer) : Type 0 where
    pub args : List ScVal
    pub hash : Text
    pub built :
        deposit_from_sc_vals deps.keys deps.relayer_address t.beneficiary plan.amount7 ≡ ok args
    pub sent : net.submitted deps.vault_contract_id (codes "deposit_from") args ≡ some hash
    pub recorded : u.deposit_tx_hash ≡ some hash

  pub record IsMint (plan : DeliveryPlan) (u : Transfer) : Type 0 where
    pub unused : net.nonce_used t.nonce ≡ some false
    pub hash : Text
    pub sent :
        net.submitted deps.config.cctp_forwarder (codes "mint_and_forward") plan.mint_args
        ≡ some hash
    pub recorded : u.mint_tx_hash ≡ some hash

  pub record IsDelivery (u : Transfer) : Type 0 where
    pub plan : DeliveryPlan
    pub planned :
        plan_delivery deps.keys (text_of t.message) (text_of t.attestation) deps.config ≡ ok plan
    pub nonce : plan.nonce ≡ t.nonce
    pub recipient :
        (plan.forward_recipient ≡ t.beneficiary) ⊎ (plan.forward_recipient ≡ deps.relayer_address)
    pub minted : (net.nonce_used t.nonce ≡ some true) ⊎ IsMint plan u
    pub deposited :
        (plan.forward_recipient ≡ t.beneficiary)
        ⊎ (is_falsy t.deposit_tx_hash ≡ false)
        ⊎ IsDeposit plan u

  deposit_to_vault-IsDeposit :
      (plan : DeliveryPlan) (log log' : List Call) (hash : Text)
      → deposit_to_vault deps t plan net log ≡ (ok hash, log')
      → (args : List ScVal) × (deposit_from_sc_vals deps.keys deps.relayer_address t.beneficiary
            plan.amount7
          ≡ ok args)
        × (net.submitted deps.vault_contract_id (codes "deposit_from") args ≡ some hash)
  unfolding deposit_to_vault
  deposit_to_vault-IsDeposit plan log log' hash h =
      elim (Result-cases
        (deposit_from_sc_vals deps.keys deps.relayer_address t.beneficiary plan.amount7)) [
          | inl (args, e) ↦ (args, e, ground arith)
          | inr (bad, e) ↦ ground arith
        ]

  -- The mint that a run of `deliver_mint` makes, whatever its mode.
  mint-sent :
      (plan : DeliveryPlan) (direct : Bool) (log log' : List Call) (u : Transfer)
      → t.state ≡ attested
      → deliver_mint deps t plan direct net log ≡ (ok u, log')
      → (hash : Text) × (net.submitted deps.config.cctp_forwarder
            (codes "mint_and_forward")
            plan.mint_args
          ≡ some hash)
        × (u.mint_tx_hash ≡ some hash)
        × (u.state ≡ delivered)
  unfolding deliver_mint deposit_to_vault transition
  mint-sent plan direct log log' u a h =
      elim (Option-cases
        (net.submitted deps.config.cctp_forwarder (codes "mint_and_forward") plan.mint_args)) [
          | inl down ↦ ground arith
          | inr (hash, e) ↦ (hash, e, ground arith, ground arith)
        ]

  pub mint-delivered :
      (plan : DeliveryPlan) (direct : Bool) (log log' : List Call) (u : Transfer)
      → t.state ≡ attested
      → deliver_mint deps t plan direct net log ≡ (ok u, log')
      → u.state ≡ delivered
  mint-delivered plan direct log log' u a h =
      let (hash, sent, recorded, done) = mint-sent plan direct log log' u a h in done

  mint-deposited :
      (plan : DeliveryPlan) (log log' : List Call) (u : Transfer)
      → t.state ≡ attested
      → deliver_mint deps t plan false net log ≡ (ok u, log')
      → IsDeposit plan u
  unfolding deliver_mint deposit_to_vault transition
  mint-deposited plan log log' u a h =
      elim (Result-cases
        (deposit_from_sc_vals deps.keys deps.relayer_address t.beneficiary plan.amount7)) [
          | inr (bad, e) ↦ ground arith
          | inl (args, e) ↦
              elim (Option-cases
                (net.submitted deps.vault_contract_id (codes "deposit_from") args)) [
                  | inl down ↦ ground arith
                  | inr (hash, f) ↦ record {
                    args = args;
                    hash = hash;
                    built = e;
                    sent = f;
                    recorded = ground arith;
                  }
                ]
        ]

  pub consumed-delivered :
      (plan : DeliveryPlan) (direct : Bool) (log log' : List Call) (u : Transfer)
      → t.state ≡ attested
      → is_falsy t.attestation ≡ false
      → deliver_consumed deps t plan direct net log ≡ (ok u, log')
      → u.state ≡ delivered
  unfolding deliver_consumed deposit_to_vault transition reconcile
  consumed-delivered plan direct log log' u a f h = ground arith

  consumed-deposited :
      (plan : DeliveryPlan) (log log' : List Call) (u : Transfer)
      → t.state ≡ attested
      → is_falsy t.attestation ≡ false
      → is_falsy t.deposit_tx_hash ≡ true
      → deliver_consumed deps t plan false net log ≡ (ok u, log')
      → IsDeposit plan u
  unfolding deliver_consumed deposit_to_vault transition reconcile
  consumed-deposited plan log log' u a f d h =
      elim (Result-cases
        (deposit_from_sc_vals deps.keys deps.relayer_address t.beneficiary plan.amount7)) [
          | inr (bad, e) ↦ ground arith
          | inl (args, e) ↦
              elim (Option-cases
                (net.submitted deps.vault_contract_id (codes "deposit_from") args)) [
                  | inl down ↦ ground arith
                  | inr (hash, g) ↦ record {
                    args = args;
                    hash = hash;
                    built = e;
                    sent = g;
                    recorded = ground arith;
                  }
                ]
        ]

  -- Both branches at once, for a mode that is `direct`.
  abbrev pub Settled : DeliveryPlan → Bool → Transfer → Type 0
  Settled plan direct u =
      (u.state ≡ delivered)
      × ((net.nonce_used t.nonce ≡ some true) ⊎ IsMint plan u)
      × ((direct ≡ true) ⊎ (is_falsy t.deposit_tx_hash ≡ false) ⊎ IsDeposit plan u)

  pub consumed-Settled :
      (plan : DeliveryPlan) (direct : Bool) (log log' : List Call) (u : Transfer)
      → t.state ≡ attested
      → is_falsy t.attestation ≡ false
      → net.nonce_used t.nonce ≡ some true
      → deliver_consumed deps t plan direct net log ≡ (ok u, log')
      → Settled plan direct u
  consumed-Settled plan true log log' u a f n h =
      (consumed-delivered plan true log log' u a f h, inl n, inl refl)
  consumed-Settled plan false log log' u a f n h = (
    consumed-delivered plan false log log' u a f h,
    inl n,
    elim (Bool-cases (is_falsy t.deposit_tx_hash)) [
      | inl missing ↦ inr (inr (consumed-deposited plan log log' u a f missing h))
      | inr there ↦ inr (inl there)
    ],
  )

  pub mint-Settled :
      (plan : DeliveryPlan) (direct : Bool) (log log' : List Call) (u : Transfer)
      → t.state ≡ attested
      → net.nonce_used t.nonce ≡ some false
      → deliver_mint deps t plan direct net log ≡ (ok u, log')
      → Settled plan direct u
  mint-Settled plan direct log log' u a n h =
      let (hash, sent, recorded, done) = mint-sent plan direct log log' u a h in
      let minted : IsMint plan u = record {
        unused = n;
        hash = hash;
        sent = sent;
        recorded = recorded;
      } in
      (
        done,
        inr minted,
        elim (Bool-cases direct) [
          | inl d ↦ inl d
          | inr d ↦ inr (inr (mint-deposited plan log log' u a (rw d at h)))
        ],
      )

  -- What the checks of `deliver_plan` have let pass when the row does not end as failed.
  pub plan_checks :
      (plan : DeliveryPlan) (log log' : List Call) (u : Transfer)
      → t.state ≡ attested
      → deliver_plan deps t plan net log ≡ (ok u, log')
      → u.state ≢ failed
      → (used : Bool) × (net.nonce_used plan.nonce ≡ some used)
        × (text_eq plan.nonce t.nonce ≡ true)
        × ((text_eq plan.forward_recipient t.beneficiary ≡ true)
            ⊎ (text_eq plan.forward_recipient deps.relayer_address ≡ true))
        × ((if used
                then deliver_consumed deps t plan (text_eq plan.forward_recipient t.beneficiary)
                else deliver_mint deps t plan (text_eq plan.forward_recipient t.beneficiary))
              net
              (log ++ (nonce_query plan.nonce ∷ []))
            ≡ (ok u, log'))
  unfolding deliver_plan transition
  plan_checks plan log log' u a h nf = elim (Option-cases (net.nonce_used plan.nonce)) [
    | inl down ↦ ground arith
    | inr (used, e) ↦ (used, e, ground arith, ground arith, ground arith)
  ]
