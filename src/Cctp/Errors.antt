-- ===== src/Cctp/Errors.antt =====
-- The errors of backend/src/cctp as data. The source's message strings name the case and its
-- values; the model keeps these and leaves the wording out.
use lendoor_stellar.Common.{ℕ, Text}

-- `CctpMessageError` of cctp-message.ts and stellar-mint.ts, a constructor for each message.
pub data MessageError : Type 0 where
  not_hex : MessageError
  short_body : ℕ → MessageError
  short_message : ℕ → MessageError
  not_stellar_address : Text → MessageError
  short_hook : ℕ → MessageError
  hook_length : MessageError
  not_contract : Text → MessageError
  bad_mint_recipient : Text → MessageError
  bad_destination_caller : Text → MessageError
  wrong_domain : ℕ → MessageError
  zero_amount : MessageError
  empty_attestation : MessageError

-- What `lastError` of a transfer holds, by who wrote it.
pub data Diagnostic : Type 0 where
  iris_error : Text → Diagnostic
  plan_error : MessageError → Diagnostic
  nonce_mismatch : Text → Text → Diagnostic
  wrong_recipient : Text → Diagnostic
