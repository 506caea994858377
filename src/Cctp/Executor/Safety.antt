-- ===== src/Cctp/Executor/Safety.antt =====
-- What a delivery guarantees, for every answer of the network.
use lendoor_stellar.Common.{
  ◌≡◌, ◌≢◌, ◌⊎◌, inl, inr, Bool, true, false, some, List, [], ◌∷◌, arith, ok, text_eq,
  eq_of_text_eq, ap, sym, ◌∙◌, ◌++◌, if◌then◌else◌, Result-cases,
}
use lendoor_stellar.Cctp.Transfer.{attested, delivered, failed, Transfer, is_falsy, transition}
use lendoor_stellar.Cctp.Transfer.Legal.{eq_of_state_eq}
use lendoor_stellar.Cctp.Delivery.{DeliveryPlan, plan_delivery}
use lendoor_stellar.Cctp.Executor.{
  Call, nonce_query, Network, Deps, text_of, deliver_plan, deliver, deliver_consumed, deliver_mint,
}
use lendoor_stellar.Cctp.Executor.Branches.{
  IsDelivery, consumed-Settled, mint-Settled, plan_checks, consumed-delivered, mint-delivered,
}

module _ (deps : Deps) (net : Network) (t : Transfer) where
  -- Once the checks are passed, the branch that the oracle's answer chooses settles the row.
  branch-IsDelivery :
      (plan : DeliveryPlan) (used : Bool) (log log' : List Call) (u : Transfer)
      → plan_delivery deps.keys (text_of t.message) (text_of t.attestation) deps.config ≡ ok plan
      → t.state ≡ attested
      → is_falsy t.attestation ≡ false
      → plan.nonce ≡ t.nonce
      → net.nonce_used t.nonce ≡ some used
      → (plan.forward_recipient ≡ t.beneficiary) ⊎ (plan.forward_recipient ≡ deps.relayer_address)
      → (if used
            then deliver_consumed deps t plan (text_eq plan.forward_recipient t.beneficiary)
            else deliver_mint deps t plan (text_eq plan.forward_recipient t.beneficiary))
          net log
        ≡ (ok u, log')
      → IsDelivery deps net t u × (u.state ≡ delivered)
  branch-IsDelivery plan true log log' u p a f n e r h =
      let (done, minted, deposited) = consumed-Settled deps net t plan _ log log' u a f e h in
      (
        record {
          plan = plan;
          planned = p;
          nonce = n;
          recipient = r;
          minted = minted;
          deposited = elim deposited [ inl d ↦ inl (eq_of_text_eq _ _ d) | inr d ↦ inr d ];
        },
        done,
      )
  branch-IsDelivery plan false log log' u p a f n e r h =
      let (done, minted, deposited) = mint-Settled deps net t plan _ log log' u a e h in
      (
        record {
          plan = plan;
          planned = p;
          nonce = n;
          recipient = r;
          minted = minted;
          deposited = elim deposited [ inl d ↦ inl (eq_of_text_eq _ _ d) | inr d ↦ inr d ];
        },
        done,
      )

  plan-IsDelivery :
      (plan : DeliveryPlan) (log log' : List Call) (u : Transfer)
      → plan_delivery deps.keys (text_of t.message) (text_of t.attestation) deps.config ≡ ok plan
      → t.state ≡ attested
      → is_falsy t.attestation ≡ false
      → deliver_plan deps t plan net log ≡ (ok u, log')
      → u.state ≢ failed
      → IsDelivery deps net t u × (u.state ≡ delivered)
  plan-IsDelivery plan log log' u p a f h nf =
      let (used, e, n, r, run) = plan_checks deps net t plan log log' u a h nf in
      let same = eq_of_text_eq plan.nonce t.nonce n in
      branch-IsDelivery plan used (log ++ (nonce_query plan.nonce ∷ [])) log' u p a f same
        (ap net.nonce_used (sym same) ∙ e)
        (elim r [ inl d ↦ inl (eq_of_text_eq _ _ d) | inr d ↦ inr (eq_of_text_eq _ _ d) ]) run

  deliver_checks :
      (log log' : List Call) (u : Transfer)
      → deliver deps t net log ≡ (ok u, log')
      → (t.state ≡ attested) × (is_falsy t.attestation ≡ false)
  unfolding deliver
  deliver_checks log log' u h = ground (arith, eq_of_state_eq t.state attested)

  -- A delivery that returns a row which is not failed was for a row in the state attested that has an
  -- attestation; the row is delivered, and the plan of its message carries the row's nonce and forwards to the beneficiary or to the
  -- relayer; either the nonce was already consumed, or it was not and the mint was submitted and its
  -- hash recorded; and if the plan does not forward to the beneficiary, either a deposit was recorded
  -- before, or one for the beneficiary over ten times the burnt amount was submitted and its hash
  -- recorded.
  pub deliver-IsDelivery :
      (log log' : List Call) (u : Transfer)
      → deliver deps t net log ≡ (ok u, log')
      → u.state ≢ failed
      → (t.state ≡ attested)
        × (is_falsy t.attestation ≡ false)
        × IsDelivery deps net t u
        × (u.state ≡ delivered)
  unfolding deliver transition
  deliver-IsDelivery log log' u h nf =
      let (a, f) = deliver_checks log log' u h in
      elim (Result-cases
        (plan_delivery deps.keys (text_of t.message) (text_of t.attestation) deps.config)) [
          | inl (plan, p) ↦
              let (d, done) = plan-IsDelivery plan log log' u p a f (ground arith) nf in
              (a, f, d, done)
          | inr (bad, p) ↦ ground arith
        ]

  plan_fails_unspent :
      (plan : DeliveryPlan) (log log' : List Call) (u : Transfer)
      → t.state ≡ attested
      → is_falsy t.attestation ≡ false
      → deliver_plan deps t plan net log ≡ (ok u, log')
      → u.state ≡ failed
      → log' ≡ log
  unfolding deliver_plan transition
  plan_fails_unspent plan log log' u a f h e =
      let direct = text_eq plan.forward_recipient t.beneficiary in
      let asked = log ++ (nonce_query plan.nonce ∷ []) in
      ground (
        arith,
        consumed-delivered deps net t plan direct asked log' u a f,
        mint-delivered deps net t plan direct asked log' u a,
      )

  -- A row that a delivery marks as failed has cost nothing: no port was asked for anything.
  pub deliver_fails_unspent :
      (log log' : List Call) (u : Transfer)
      → deliver deps t net log ≡ (ok u, log')
      → u.state ≡ failed
      → log' ≡ log
  unfolding deliver transition
  deliver_fails_unspent log log' u h f =
      let (a, g) = deliver_checks log log' u h in
      elim (Result-cases
        (plan_delivery deps.keys (text_of t.message) (text_of t.attestation) deps.config)) [
          | inl (plan, p) ↦ plan_fails_unspent plan log log' u a g (ground arith) f
          | inr (bad, p) ↦ ground arith
        ]
