-- ===== src/Cctp/Transfer/Iris.antt =====
-- What an HTTP answer of Iris may do to a transfer.
use lendoor_stellar.Common.{
  ℕ, ◌≡◌, ◌≢◌, Bool, true, false, Option, none, some, Text, codes, map, arith, text_eq_iff, ok,
}
use lendoor_stellar.Cctp.Transfer.{
  pending, failed, Transfer, complete, error, HttpBody, body_or_empty, is_falsy, to_upper,
  is_real_attestation, is_complete_status, iris_status_from_http, reconcile,
}
use lendoor_stellar.Cctp.Transfer.Reconcile.{reconcile_fails}

-- What makes an answer complete.
pub record IsReady (http : ℕ) (b : HttpBody) (a : Text) (m : Option Text) : Type 0 where
  pub http_ok : http ≡ 200
  pub attestation : b.attestation ≡ some a
  pub message : b.message ≡ m
  pub real : is_real_attestation (some a) ≡ true
  pub status : is_complete_status b.status ≡ true

-- An answer is complete only for a 200 whose body has status "complete" or none, and an attestation
-- that is neither empty nor the sentinel; it then carries the body's attestation and message.
pub iris_complete-IsReady :
    (http : ℕ) (body : Option HttpBody) (retry : Option ℕ) (a : Text) (m : Option Text)
    → iris_status_from_http http body retry ≡ complete a m
    → IsReady http (body_or_empty body) a m
unfolding iris_status_from_http
iris_complete-IsReady http none retry a m h = ground arith
iris_complete-IsReady http (some b) retry a m h = ground arith

-- The sentinel "PENDING", in any case, is never a real attestation.
pub sentinel_not_real :
    (a : Text) → map to_upper a ≡ codes "PENDING" → is_real_attestation (some a) ≡ false
sentinel_not_real a e = ground (arith, text_eq_iff (map to_upper a) (codes "PENDING"))

-- Only a 400 with an explicit error text is terminal: every other status waits or backs off.
pub iris_error_only_400 :
    (http : ℕ) (body : Option HttpBody) (retry : Option ℕ) (m : Text)
    → iris_status_from_http http body retry ≡ error m
    → (http ≡ 400) × ((body_or_empty body).error ≡ some m) × (is_falsy (some m) ≡ false)
unfolding iris_status_from_http
iris_error_only_400 http none retry m h = ground arith
iris_error_only_400 http (some b) retry m h = ground arith

-- So no HTTP answer but a 400 with an error text can make a poll fail a transfer.
pub poll_fails_only_400 :
    (t : Transfer) (http : ℕ) (body : Option HttpBody) (retry : Option ℕ) (used : Bool)
    (u : Transfer)
    → reconcile t (iris_status_from_http http body retry) used ≡ ok u
    → t.state ≢ failed
    → u.state ≡ failed
    → (http ≡ 400) × (t.state ≡ pending) × (used ≡ false)
poll_fails_only_400 t http body retry used u h n f =
    let (m, e, was_pending, unused, _) =
      reconcile_fails t (iris_status_from_http http body retry) used u h n f in
    ((iris_error_only_400 http body retry m e).0, was_pending, unused)
