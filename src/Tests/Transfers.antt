-- ===== src/Tests/Transfers.antt =====
-- The transfer row: transitions, reconciliation, Iris.
use lendoor_stellar.Common.{ok, ℕ, ◌≡◌, refl, inr, true, none, some, [], ◌∷◌, codes, is_ok}
use lendoor_stellar.Cctp.Errors.{iris_error}
use lendoor_stellar.Cctp.Transfer.{
  submitting, delivered, failed, Transfer, waiting, HttpBody, reconcile,
}
use lendoor_stellar.Cctp.Transfer.Legal.{SameTransfer}
use lendoor_stellar.Cctp.Transfer.Reconcile.{is_ok-reconcile, reconcile_delivers}
use lendoor_stellar.Cctp.Transfer.Lifecycle.{
  Reach, here, next, Step, Reach-SameTransfer, Reach-delivered, Reach-IsClosed, IsClosed,
}
use lendoor_stellar.Cctp.IrisClient.{HttpResponse, IrisMessage}
use lendoor_stellar.Tests.Sample.{pending_row, attested_row}

abbrev submitting_row : Transfer
submitting_row = record attested_row { state = submitting }

abbrev delivered_row : Transfer
delivered_row = record attested_row { state = delivered }

abbrev refused_row : Transfer
refused_row = record pending_row {
  state = failed;
  last_error = some (iris_error (codes "bad message"));
}

is_ok-reconcile_example : is_ok (reconcile pending_row waiting true) ≡ true
is_ok-reconcile_example = is_ok-reconcile pending_row waiting true

reconcile_delivers_example :
    (u : Transfer) × (reconcile refused_row waiting true ≡ ok u) × (u.state ≡ delivered)
reconcile_delivers_example = reconcile_delivers refused_row waiting

abbrev good_body : HttpBody
good_body = record {
  attestation = some (codes "0xaa");
  status = some (codes "complete");
  error = none;
  message = none;
}

abbrev bad_body : HttpBody
bad_body = record {
  attestation = none;
  status = none;
  error = some (codes "bad message");
  message = none;
}

abbrev bad_request : ℕ
bad_request = 400

abbrev history : Reach attested_row delivered_row
unfolding reconcile
history = next here (Step.poll waiting true refl)

Reach-SameTransfer_example : SameTransfer attested_row delivered_row
Reach-SameTransfer_example = Reach-SameTransfer attested_row delivered_row history

Reach-delivered_example : delivered_row.state ≡ delivered
Reach-delivered_example = Reach-delivered delivered_row delivered_row here refl

abbrev late_delivery :
    Reach refused_row (record refused_row { state = delivered; last_error = none })
unfolding reconcile
late_delivery = next here (Step.poll waiting true refl)

Reach-IsClosed_example : IsClosed delivered
Reach-IsClosed_example =
    Reach-IsClosed refused_row (record refused_row { state = delivered; last_error = none })
      late_delivery (inr refl)

abbrev not_json : HttpResponse
not_json = record {
  status = 400;
  retry_after = none;
  json = some (record { messages = none; error = some (codes "bad message") });
}

abbrev waiting_message : IrisMessage
waiting_message = record {
  status = some (codes "pending");
  attestation = some (codes "PENDING");
  message = none;
}

abbrev ready_message : IrisMessage
ready_message = record {
  status = some (codes "complete");
  attestation = some (codes "0xaa");
  message = none;
}

abbrev two_messages : HttpResponse
two_messages = record {
  status = 200;
  retry_after = none;
  json = some (record { messages = some (waiting_message ∷ ready_message ∷ []); error = none });
}
