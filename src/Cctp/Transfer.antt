-- ===== src/Cctp/Transfer.antt =====
-- backend/src/cctp/cctp-transfer.ts: the transfer row, its legal transitions, the reading of an
-- Iris answer and the reconciliation step.
-- An optional string field is an `Option`; a key of a patch is `none` when it is absent, and
-- `some v` when it is present, `some none` being a key that is present with value `undefined`.
pub mod Legal
pub mod Reconcile
pub mod Iris
pub mod Lifecycle
use lendoor_stellar.Common.{
  ℕ, ◌+◌, ◌-◌, ◌*◌, Bool, true, false, not, ◌&&◌, ◌||◌, Option, none, some, List, [], ◌∷◌, map, any,
  Text, codes, text_eq, ltb, leb, ◌==◌, if◌then◌else◌, Result, ok, err, ◌>>=◌,
}
use lendoor_stellar.Cctp.Errors.{Diagnostic, iris_error}

pub data State : Type 0 where
  pending attested submitting delivered failed : State

abbrev pub state_eq : State → State → Bool
state_eq pending pending = true
state_eq attested attested = true
state_eq submitting submitting = true
state_eq delivered delivered = true
state_eq failed failed = true
state_eq _ _ = false

abbrev pub stellar_domain : ℕ
stellar_domain = 27

abbrev pub base_sepolia_domain : ℕ
base_sepolia_domain = 6

-- LEGAL_TRANSITIONS
abbrev pub legal_transitions : State → List State
legal_transitions pending = attested ∷ failed ∷ []
legal_transitions attested = submitting ∷ failed ∷ []
legal_transitions submitting = delivered ∷ submitting ∷ attested ∷ failed ∷ []
legal_transitions delivered = []
legal_transitions failed = delivered ∷ []

-- `LEGAL_TRANSITIONS[from].includes(to)`
abbrev pub is_legal : State → State → Bool
is_legal from to = any (λ s. state_eq s to) (legal_transitions from)

pub record Transfer : Type 0 where
  pub nonce : Text
  pub source_domain : ℕ
  pub destination_domain : ℕ
  pub burn_tx_hash : Text
  pub amount_usdc6 : ℕ
  pub beneficiary : Text
  pub state : State
  pub attestation : Option Text
  pub message : Option Text
  pub mint_tx_hash : Option Text
  pub deposit_tx_hash : Option Text
  pub last_error : Option Diagnostic
  pub attempts : ℕ

pub record Patch : Type 0 where
  pub attestation : Option (Option Text)
  pub message : Option (Option Text)
  pub mint_tx_hash : Option (Option Text)
  pub deposit_tx_hash : Option (Option Text)
  pub last_error : Option (Option Diagnostic)

-- `{}`
abbrev pub no_patch : Patch
no_patch = record {
  attestation = none;
  message = none;
  mint_tx_hash = none;
  deposit_tx_hash = none;
  last_error = none;
}

abbrev pub is_absent {ℓ} : {A : Type ℓ} → Option A → Bool
is_absent none = true
is_absent (some _) = false

-- `Object.keys(patch).length === 0`
abbrev pub is_empty_patch : Patch → Bool
is_empty_patch p =
    is_absent p.attestation
    && is_absent p.message
    && is_absent p.mint_tx_hash
    && is_absent p.deposit_tx_hash
    && is_absent p.last_error

abbrev pub overwrite {ℓ} : {A : Type ℓ} → Option A → A → A
overwrite none old = old
overwrite (some new) old = new

-- `{ ...t, ...patch }`
abbrev pub apply_patch : Transfer → Patch → Transfer
apply_patch t p = record t {
  attestation = overwrite p.attestation t.attestation;
  message = overwrite p.message t.message;
  mint_tx_hash = overwrite p.mint_tx_hash t.mint_tx_hash;
  deposit_tx_hash = overwrite p.deposit_tx_hash t.deposit_tx_hash;
  last_error = overwrite p.last_error t.last_error;
}

-- IllegalCctpTransition
pub data TransitionError : Type 0 where
  illegal : State → State → Text → TransitionError

-- `to !== 'failed' && !('lastError' in patch) ? { lastError: undefined } : {}`
abbrev cleared : Transfer → State → Patch → Transfer
cleared t to p =
    if not (state_eq to failed) && is_absent p.last_error then record t { last_error = none } else t

unfoldable pub transition : Transfer → State → Patch → Result TransitionError Transfer
transition t to p =
    if state_eq t.state to && is_empty_patch p
    then ok t
    else if state_eq t.state to && not (is_legal t.state to)
    then ok (apply_patch t p)
    else if not (is_legal t.state to)
    then err (illegal t.state to t.nonce)
    else ok (record (apply_patch (cleared t to p) p) { state = to })

-- IrisAttestationStatus
pub data IrisStatus : Type 0 where
  waiting : IrisStatus
  complete : Text → Option Text → IrisStatus
  backoff : ℕ → IrisStatus
  error : Text → IrisStatus

pub record HttpBody : Type 0 where
  pub attestation : Option Text
  pub status : Option Text
  pub error : Option Text
  pub message : Option Text

-- A string that is missing or empty is falsy.
abbrev pub is_falsy : Option Text → Bool
is_falsy none = true
is_falsy (some []) = true
is_falsy (some (_ ∷ _)) = false

-- `toUpperCase` on one code point, as far as a result in "A" to "Z" goes: of the code points that
-- are not ASCII only the dotless i gives a letter of "PENDING".
abbrev pub to_upper : ℕ → ℕ
to_upper c = if leb b'a' c && leb c b'z' then c - 32 else if c == 305 then b'I' else c

-- The last three conjuncts of `ready`.
abbrev pub is_real_attestation : Option Text → Bool
is_real_attestation none = false
is_real_attestation (some a) =
    not (is_falsy (some a)) && not (text_eq (map to_upper a) (codes "PENDING"))

-- `status === undefined || status === 'complete'`
abbrev pub is_complete_status : Option Text → Bool
is_complete_status none = true
is_complete_status (some s) = text_eq s (codes "complete")

abbrev pub empty_body : HttpBody
empty_body = record { attestation = none; status = none; error = none; message = none }

-- `retryAfterSeconds ?? 5`
abbrev seconds_or_5 : Option ℕ → ℕ
seconds_or_5 none = 5
seconds_or_5 (some s) = s

-- The answer to a 200, and the terminal one to a 400.
abbrev status_of_200 : HttpBody → IrisStatus
status_of_200 b =
    if is_complete_status b.status
    then elim b.attestation [
      | none ↦ waiting
      | some a ↦ if is_real_attestation (some a) then complete a b.message else waiting
    ]
    else waiting

abbrev status_of_rest : ℕ → HttpBody → IrisStatus
status_of_rest http b =
    if http == 400
    then elim b.error [
      | none ↦ backoff 30000
      | some e ↦ if is_falsy (some e) then backoff 30000 else error e
    ]
    else backoff 30000

-- A missing body behaves as one with no field.
abbrev pub body_or_empty : Option HttpBody → HttpBody
body_or_empty none = empty_body
body_or_empty (some b) = b

unfoldable pub iris_status_from_http : ℕ → Option HttpBody → Option ℕ → IrisStatus
iris_status_from_http http body retry_after_seconds =
    if http == 200
    then status_of_200 (body_or_empty body)
    else if http == 404
    then waiting
    else if http == 429
    then backoff (seconds_or_5 retry_after_seconds * 1000)
    else if http == 401 || http == 403
    then backoff 60000
    else if leb 500 http
    then waiting
    else status_of_rest http (body_or_empty body)

-- `{ attestation: iris.attestation, message: iris.message }` if Iris is complete, else `{}`
abbrev pub attestation_patch : IrisStatus → Patch
attestation_patch (complete a m) = record no_patch { attestation = some (some a); message = some m }
attestation_patch _ = no_patch

-- The assignment between the two transitions, under `cur.state === 'attested'`.
abbrev keep_attestation : IrisStatus → Transfer → Transfer
keep_attestation (complete a m) cur =
    if state_eq cur.state attested && is_falsy cur.attestation
    then record cur { attestation = some a; message = m }
    else cur
keep_attestation _ cur = cur

-- `if (cur.state === from) cur = transition(cur, to, patch)`
abbrev advance_from : State → State → Patch → Transfer → Result TransitionError Transfer
advance_from from to p cur = if state_eq cur.state from then transition cur to p else ok cur

-- The body of the branch for a consumed nonce, on a row that is not failed.
reconcile_consumed : Transfer → IrisStatus → Result TransitionError Transfer
unfolding transition
reconcile_consumed t iris = do
  cur ← advance_from pending attested (attestation_patch iris) t
  cur' ← advance_from attested submitting no_patch (keep_attestation iris cur)
  let final_patch = if is_falsy cur'.attestation then attestation_patch iris else no_patch
  transition cur' delivered final_patch

-- The `switch` on a row whose nonce is not consumed, or that is delivered.
reconcile_pending : Transfer → IrisStatus → Result TransitionError Transfer
unfolding transition
reconcile_pending t (complete a m) = transition t attested (attestation_patch (complete a m))
reconcile_pending t (error m) =
    transition t failed (record no_patch { last_error = some (some (iris_error m)) })
reconcile_pending t _ = ok (record t { attempts = t.attempts + 1 })

unfoldable pub reconcile : Transfer → IrisStatus → Bool → Result TransitionError Transfer
unfolding reconcile_consumed reconcile_pending transition
reconcile t iris nonce_used =
    if nonce_used && not (state_eq t.state delivered)
    then (if state_eq t.state failed
        then transition t delivered (attestation_patch iris)
        else reconcile_consumed t iris)
    else if state_eq t.state pending
    then reconcile_pending t iris
    else ok t
