-- ===== src/Cctp/IrisClient.antt =====
-- backend/src/cctp/iris-client.ts: the HTTP client of Iris. `fetch` answers with `none` when it
-- rejects; a body that is no JSON is `none`, and so is a missing field. The retry-after header is
-- kept as the number that `Number.parseInt` reads in it.
use lendoor_stellar.Common.{
  ℕ, ◌≡◌, refl, Bool, true, false, ◌&&◌, Option, none, some, List, [], ◌∷◌, Text, codes, text_eq,
  ◌==◌, if◌then◌else◌, arith, Option-cases, inl, inr, sym, ◌∙◌,
}
use lendoor_stellar.Cctp.Transfer.{
  IrisStatus, complete, backoff, error, HttpBody, is_real_attestation, iris_status_from_http,
}
use lendoor_stellar.Cctp.Transfer.Iris.{iris_error_only_400}

pub record IrisMessage : Type 0 where
  pub status : Option Text
  pub attestation : Option Text
  pub message : Option Text

pub record IrisBody : Type 0 where
  pub messages : Option (List IrisMessage)
  pub error : Option Text

pub record HttpResponse : Type 0 where
  pub status : ℕ
  pub retry_after : Option ℕ
  pub json : Option IrisBody

abbrev pub is_complete : Option Text → Bool
is_complete none = false
is_complete (some s) = text_eq s (codes "complete")

-- The predicate of `messages.find`.
abbrev pub is_ready : IrisMessage → Bool
is_ready m = is_complete m.status && is_real_attestation m.attestation

-- `messages.find(ready) ?? messages[0]`
abbrev pub find_ready : List IrisMessage → Option IrisMessage
find_ready [] = none
find_ready (m ∷ ms) = if is_ready m then some m else find_ready ms

abbrev pub or_first : Option IrisMessage → List IrisMessage → Option IrisMessage
or_first (some m) ms = some m
or_first none [] = none
or_first none (m ∷ ms) = some m

abbrev pub messages_of : Option IrisBody → List IrisMessage
messages_of none = []
messages_of (some b) = elim b.messages [ none ↦ [] | some ms ↦ ms ]

abbrev pub error_of : Option IrisBody → Option Text
error_of none = none
error_of (some b) = b.error

-- `Number.parseInt(…) || undefined`
abbrev pub positive_seconds : Option ℕ → Option ℕ
positive_seconds none = none
positive_seconds (some s) = if s == 0 then none else some s

abbrev pub flat_body : Option IrisMessage → Option Text → HttpBody
flat_body none e = record { attestation = none; status = none; error = e; message = none }
flat_body (some m) e = record {
  attestation = m.attestation;
  status = m.status;
  error = e;
  message = m.message;
}

-- HttpIrisClient.getAttestation, on the answer of `fetch`
unfoldable pub get_attestation_http : Option HttpResponse → IrisStatus
get_attestation_http none = backoff 15000
get_attestation_http (some r) =
    let messages = messages_of r.json in
    iris_status_from_http r.status
      (some (flat_body (or_first (find_ready messages) messages) (error_of r.json)))
      (positive_seconds r.retry_after)

flat_body-error : (o : Option IrisMessage) (e : Option Text) → (flat_body o e).error ≡ e
flat_body-error none e = refl
flat_body-error (some m) e = refl

-- Neither a failed fetch nor any answer but a 400 with an error text is terminal.
pub client_error_only_400 :
    (r : Option HttpResponse) (m : Text)
    → get_attestation_http r ≡ error m
    → (a : HttpResponse) × (r ≡ some a) × (a.status ≡ 400) × (error_of a.json ≡ some m)
unfolding get_attestation_http
client_error_only_400 none m h = cc
client_error_only_400 (some r) m h =
    let messages = messages_of r.json in
    let flat = flat_body (or_first (find_ready messages) messages) (error_of r.json) in
    let (bad, named, _) =
      iris_error_only_400 r.status (some flat) (positive_seconds r.retry_after) m h in
    (r, refl, bad, sym (flat_body-error _ _) ∙ named)

find_ready-some :
    (ms : List IrisMessage) (m : IrisMessage) → find_ready ms ≡ some m → is_ready m ≡ true
find_ready-some [] m h = cc
find_ready-some (x ∷ ms) m h = ground (arith, find_ready-some ms m)

-- If a 200 lists a ready message among others, the client answers with the first ready one,
-- wherever it stands.
pub client_finds_ready :
    (r : HttpResponse) (m : IrisMessage)
    → r.status ≡ 200
    → find_ready (messages_of r.json) ≡ some m
    → (a : Text) × (m.attestation ≡ some a) × (get_attestation_http (some r) ≡ complete a m.message)
unfolding get_attestation_http iris_status_from_http
client_finds_ready r m s f = elim (Option-cases m.attestation) [
  | inl missing ↦ ground (arith, find_ready-some (messages_of r.json) m f)
  | inr (a, e) ↦ (a, e, ground (arith, find_ready-some (messages_of r.json) m f))
]
