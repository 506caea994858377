-- ===== src/Identity/Kyc.antt =====
-- backend/src/kyc: the service that verifies an identity (kyc.service.ts), the stand-in vendor
-- (fake-kyc.provider.ts) and the gate in front of credit (kyc-gate.ts).
-- The users table is a function of the wallet, a unique column; `findOne` by wallet and `update` by
-- the id of the row found are a lookup and a write at that wallet. The vendor behind the port is a
-- parameter with a state of its own; its calls may fail. `new Date()` is an argument.
pub mod Progress
use lendoor_stellar.Common.{
  ℕ, Bool, true, false, not, ◌&&◌, ◌||◌, Option, none, some, List, [], ◌∷◌, ◌++◌, Text, codes,
  text_eq, if◌then◌else◌, Result, ok, err,
}
use lendoor_stellar.Wallet.{normalize_wallet}
use lendoor_stellar.Cctp.Transfer.{is_falsy}

-- The values of the column kycStatus; `not_started` is 'none'.
pub data KycStatus : Type 0 where
  not_started pending approved rejected : KycStatus

-- KycDecision, 'pending', 'approved' and 'rejected'
pub data KycDecision : Type 0 where
  undecided approval rejection : KycDecision

pub record User : Type 0 where
  pub wallet_address : Text
  pub kyc_status : KycStatus
  pub kyc_session_id : Option Text
  pub kyc_provider : Option Text
  pub kyc_approved_at : Option ℕ

pub record KycSession : Type 0 where
  pub session_id : Text
  pub verification_url : Text

-- KycProviderPort, over a vendor's state
pub record KycProvider (V : Type 0) : Type 0 where
  pub name : Text
  pub create_session : V → Text → Option (KycSession × V)
  pub get_decision : V → Text → Option KycDecision

abbrev pub Users : Type 0
Users = Text → Option User

abbrev pub update_user : Users → Text → User → Users
update_user users wallet u = λ w. if text_eq w wallet then some u else users w

pub data KycError : Type 0 where
  bad_wallet user_not_found vendor_failed : KycError

pub record KycReply : Type 0 where
  pub status : KycStatus
  pub session_id : Option Text
  pub verification_url : Option Text

abbrev pub just_status : KycStatus → KycReply
just_status s = record { status = s; session_id = none; verification_url = none }

unfoldable pub find_user_or_throw : Users → Text → Result KycError (Text × User)
unfolding normalize_wallet
find_user_or_throw users addr = elim (normalize_wallet addr) [
  | err _ ↦ err bad_wallet
  | ok wallet ↦ elim (users wallet) [ none ↦ err user_not_found | some u ↦ ok (wallet, u) ]
]

abbrev pub is_approved : KycStatus → Bool
is_approved approved = true
is_approved _ = false

abbrev pub is_pending : KycStatus → Bool
is_pending pending = true
is_pending _ = false

-- A reply, or the exception, with the table and the vendor that the call leaves behind.
abbrev pub KycOutcome : Type 0 → Type 0
KycOutcome V = Result KycError KycReply × Users × V

module _ {V : Type 0} (provider : KycProvider V) where
  abbrev open_session : Text → User → Users → V → KycOutcome V
  open_session wallet user users v = elim (provider.create_session v user.wallet_address) [
    | none ↦ (err vendor_failed, users, v)
    | some (session, v') ↦ (
      ok (record {
        status = pending;
        session_id = some session.session_id;
        verification_url = some session.verification_url;
      }),
      update_user users wallet (record user {
        kyc_status = pending;
        kyc_session_id = some session.session_id;
        kyc_provider = some provider.name;
      }),
      v',
    )
  ]

  -- start, on the row that is found
  abbrev pub start_row : Text → User → Users → V → KycOutcome V
  start_row wallet user users v =
      if is_approved user.kyc_status
      then (ok (just_status approved), users, v)
      else if is_pending user.kyc_status && not (is_falsy user.kyc_session_id)
      then (
        ok (record { status = pending; session_id = user.kyc_session_id; verification_url = none }),
        users,
        v,
      )
      else open_session wallet user users v

  unfoldable pub start : Text → Users → V → KycOutcome V
  unfolding find_user_or_throw
  start addr users v = elim (find_user_or_throw users addr) [
    | err e ↦ (err e, users, v)
    | ok (wallet, user) ↦ start_row wallet user users v
  ]

  -- What status does with the vendor's decision.
  abbrev pub record_decision : ℕ → KycDecision → Text → User → Users → V → KycOutcome V
  record_decision now approval wallet user users v = (
    ok (just_status approved),
    update_user users wallet (record user { kyc_status = approved; kyc_approved_at = some now }),
    v,
  )
  record_decision now rejection wallet user users v = (
    ok (just_status rejected),
    update_user users wallet (record user { kyc_status = rejected; kyc_session_id = none }),
    v,
  )
  record_decision now undecided wallet user users v = (ok (just_status pending), users, v)

  abbrev pub status_row : ℕ → Text → User → Users → V → KycOutcome V
  status_row now wallet user users v = elim user.kyc_session_id [
    | none ↦ (ok (just_status user.kyc_status), users, v)
    | some sid ↦
        if not (is_pending user.kyc_status) || is_falsy (some sid)
        then (ok (just_status user.kyc_status), users, v)
        else elim (provider.get_decision v sid) [
          | none ↦ (err vendor_failed, users, v)
          | some d ↦ record_decision now d wallet user users v
        ]
  ]

  unfoldable pub status : ℕ → Text → Users → V → KycOutcome V
  unfolding find_user_or_throw
  status now addr users v = elim (find_user_or_throw users addr) [
    | err e ↦ (err e, users, v)
    | ok (wallet, user) ↦ status_row now wallet user users v
  ]

-- assertKycGate: whether the flag KYC_GATE_ENABLED is on, and the row; false is the exception.
unfoldable pub kyc_gate_passes : Bool → User → Bool
kyc_gate_passes enabled user = not enabled || is_approved user.kyc_status

-- FakeKycProvider: the map of sessions, newest first, and the identifiers still to be drawn.
pub record FakeVendor : Type 0 where
  pub sessions : List (Text × KycDecision)
  pub uuids : List Text

abbrev lookup_session : Text → List (Text × KycDecision) → Option KycDecision
lookup_session sid [] = none
lookup_session sid ((s, d) ∷ rest) = if text_eq s sid then some d else lookup_session sid rest

unfoldable pub fake_create_session : FakeVendor → Text → Option (KycSession × FakeVendor)
fake_create_session v wallet = elim v.uuids [
  | [] ↦ none
  | uuid ∷ uuids ↦
      let session_id = codes "fake-" ++ uuid in
      some (
        record {
          session_id = session_id;
          verification_url =
              codes "https://kyc.invalid/fake/" ++ session_id ++ codes "?wallet=" ++ wallet;
        },
        record { sessions = (session_id, undecided) ∷ v.sessions; uuids = uuids },
      )
]

abbrev decision_or_pending : Option KycDecision → KycDecision
decision_or_pending none = undecided
decision_or_pending (some d) = d

unfoldable pub fake_get_decision : Bool → FakeVendor → Text → Option KycDecision
fake_get_decision auto_approve v session_id =
    if auto_approve
    then some approval
    else some (decision_or_pending (lookup_session session_id v.sessions))

unfoldable pub resolve : Text → KycDecision → FakeVendor → FakeVendor
resolve session_id d v = record v { sessions = (session_id, d) ∷ v.sessions }

unfoldable pub fake_kyc_provider : Bool → KycProvider FakeVendor
unfolding fake_create_session fake_get_decision
fake_kyc_provider auto_approve = record {
  name = codes "fake";
  create_session = fake_create_session;
  get_decision = fake_get_decision auto_approve;
}

-- The parts of an outcome.
abbrev pub reply_of : {V : Type 0} → KycOutcome V → Result KycError KycReply
reply_of (r, users, v) = r

abbrev pub users_after : {V : Type 0} → KycOutcome V → Users
users_after (r, users, v) = users

abbrev pub vendor_after : {V : Type 0} → KycOutcome V → V
vendor_after (r, users, v) = v
