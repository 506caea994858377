-- ===== src/WalletLink/Codes.antt =====
-- backend/src/wallet-link/wallet-link.service.ts: the code by e-mail and the link session.
use lendoor_stellar.Common.{
  ℕ, suc, ◌+◌, Bool, false, not, ◌&&◌, ◌||◌, Option, none, some, List, [], ◌∷◌, ◌++◌, Text, text_eq,
  length, ltb, leb, ◌==◌, if◌then◌else◌, Result, ok, err, find_row, update_rows, delete_rows,
}
use lendoor_stellar.Wallet.{trim, is_space, all_chars}
use lendoor_stellar.WalletLink.{
  WalletLinkSession, LinkUser, LinkState, LinkError, is_session_of, trimmed, invalid_email,
  throttled, invalid_code, too_many_attempts, invalid_link_session, link_session_expired,
}

-- [^@\s]
abbrev is_plain : ℕ → Bool
is_plain c = not (c == b'@') && not (is_space c)

-- The text before and after the first `@`.
abbrev pub split_at_sign : Text → Option (Text × Text)
split_at_sign [] = none
split_at_sign (c ∷ s) =
    let rest = split_at_sign s in
    if c == b'@'
    then some ([], s)
    else elim rest [ none ↦ none | some (before, after) ↦ some (c ∷ before, after) ]

-- A dot with a character before it and one after it.
abbrev pub has_inner_dot : Text → Bool
has_inner_dot [] = false
has_inner_dot (c ∷ []) = false
has_inner_dot (c ∷ d ∷ []) = false
has_inner_dot (c ∷ d ∷ e ∷ s) = d == b'.' || has_inner_dot (d ∷ e ∷ s)

-- /^[^@\s]+@[^@\s]+\.[^@\s]+$/
unfoldable pub is_email : Text → Bool
is_email s = elim (split_at_sign s) [
  | none ↦ false
  | some (before, after) ↦
      not (length before == 0)
      && all_chars is_plain before
      && all_chars is_plain after
      && has_inner_dot after
]

abbrev pub is_mail_of : Text → LinkUser → Bool
is_mail_of email user = is_text user.email || is_text user.lemon_email
  where
    is_text : Option Text → Bool
    is_text none = false
    is_text (some mail) = text_eq mail email

abbrev pub keep_users : (LinkUser → Bool) → List LinkUser → List LinkUser
keep_users p users = delete_rows (λ user. not (p user)) users

-- The code is drawn, its hash is stored, and any token is gone.
abbrev pub challenged : ℕ → Text → ℕ → WalletLinkSession → WalletLinkSession
challenged user_id code_hash now row = record row {
  user_id = some user_id;
  otp_code_hash = some code_hash;
  otp_expires_at = some (now + 600000);
  otp_attempt_count = 0;
  last_otp_sent_at = some now;
  token = none;
  token_expires_at = none;
}

abbrev pub new_session : Text → WalletLinkSession
new_session email = record {
  email = email;
  user_id = none;
  otp_code_hash = none;
  otp_expires_at = none;
  otp_attempt_count = 0;
  last_otp_sent_at = none;
  token = none;
  token_expires_at = none;
}

abbrev pub is_throttled : ℕ → WalletLinkSession → Bool
is_throttled now row = elim row.last_otp_sent_at [
  | none ↦ false
  | some sent ↦ ltb now (sent + 60000)
]

-- The session that is found changed and saved.
abbrev pub save_session : Text → (WalletLinkSession → WalletLinkSession) → LinkState → LinkState
save_session email change s = record s {
  sessions = update_rows (is_session_of email) change s.sessions;
}

abbrev pub challenge : Text → ℕ → Text → ℕ → LinkState → Result LinkError (Option ℕ) × LinkState
challenge email user_id code_hash now s = elim (find_row (is_session_of email) s.sessions) [
  | none ↦ (
    ok (some (now + 600000)),
    record s {
      sessions = s.sessions ++ (challenged user_id code_hash now (new_session email) ∷ []);
    },
  )
  | some row ↦
      if is_throttled now row
      then (err throttled, s)
      else (ok (some (now + 600000)), save_session email (challenged user_id code_hash now) s)
]

abbrev pub challenge_only :
    List LinkUser → Text → Text → ℕ → LinkState → Result LinkError (Option ℕ) × LinkState
challenge_only (user ∷ []) email code_hash now s = challenge email user.id code_hash now s
challenge_only _ email code_hash now s = (ok none, s)

-- start: the answer is the time until which the code is good, where one was drawn.
unfoldable pub start :
    (Text → Text) → Text → ℕ → Option Text → LinkState → Result LinkError (Option ℕ) × LinkState
unfolding is_email trim
start hash_otp code now email_raw s =
    let email = trimmed email_raw in
    if not (is_email email)
    then (err invalid_email, s)
    else challenge_only (keep_users (is_mail_of email) s.users) email (hash_otp code) now s

-- What a session answers.
pub record LinkSession : Type 0 where
  pub link_session : Text
  pub user_id : ℕ
  pub email : Text
  pub lendoor_address : Option Text

abbrev pub trimmed_code : Option Text → Text
trimmed_code none = []
trimmed_code (some code) = trim code

-- The challenge of a row, if it has one with a user.
abbrev pub challenge_parts : Option Text → Option ℕ → Option ℕ → Option (Text × ℕ × ℕ)
challenge_parts (some (c ∷ hash)) (some expires) (some user_id) = some (c ∷ hash, expires, user_id)
challenge_parts _ _ _ = none

abbrev pub challenge_of : WalletLinkSession → Option (Text × ℕ × ℕ)
challenge_of row = challenge_parts row.otp_code_hash row.otp_expires_at row.user_id

abbrev pub failed_attempt : WalletLinkSession → WalletLinkSession
failed_attempt row = record row { otp_attempt_count = suc row.otp_attempt_count }

-- The token is stored and the code is spent.
abbrev pub opened : Text → ℕ → WalletLinkSession → WalletLinkSession
opened drawn now row = record row {
  token = some drawn;
  token_expires_at = some (now + 900000);
  otp_code_hash = none;
  otp_expires_at = none;
  otp_attempt_count = 0;
}

abbrev pub address_of : ℕ → List LinkUser → Option Text
address_of user_id users = elim (find_row (λ user. user.id == user_id) users) [
  | none ↦ none
  | some user ↦ user.wallet_address
]

-- What is tested before the code, on the row of the e-mail.
unfoldable pub check_session :
    ℕ → Text → LinkState → Result LinkError (WalletLinkSession × Text × ℕ)
check_session now email s = elim (find_row (is_session_of email) s.sessions) [
  | none ↦ err invalid_code
  | some row ↦ elim (challenge_of row) [
    | none ↦ err invalid_code
    | some (hash, expires, user_id) ↦
        if ltb expires now
        then err invalid_code
        else if leb 5 row.otp_attempt_count
        then err too_many_attempts
        else ok (row, hash, user_id)
  ]
]

unfoldable pub session :
    (Text → Text)
    → Text
    → ℕ
    → Option Text
    → Option Text
    → LinkState
    → Result LinkError LinkSession × LinkState
unfolding check_session trim
session hash_otp drawn now email_raw code s =
    let email = trimmed email_raw in
    elim (check_session now email s) [
      | err e ↦ (err e, s)
      | ok (row, hash, user_id) ↦
          if not (text_eq hash (hash_otp (trimmed_code code)))
          then (err invalid_code, save_session email failed_attempt s)
          else (
            ok (record {
              link_session = drawn;
              user_id = user_id;
              email = email;
              lendoor_address = address_of user_id s.users;
            }),
            save_session email (opened drawn now) s,
          )
    ]

abbrev pub is_token_of : Text → WalletLinkSession → Bool
is_token_of token row = elim row.token [ none ↦ false | some stored ↦ text_eq stored token ]

-- The user of a session and the end of its token.
abbrev pub holder_of : WalletLinkSession → Option (ℕ × ℕ)
holder_of row = elim row.user_id [
  | none ↦ none
  | some user_id ↦ elim row.token_expires_at [ none ↦ none | some end ↦ some (user_id, end) ]
]

unfoldable pub validate_link_session : Text → ℕ → LinkState → Result LinkError ℕ
validate_link_session token now s = elim (find_row (is_token_of token) s.sessions) [
  | none ↦ err invalid_link_session
  | some row ↦ elim (holder_of row) [
    | none ↦ err invalid_link_session
    | some (user_id, end) ↦ if ltb end now then err link_session_expired else ok user_id
  ]
]
