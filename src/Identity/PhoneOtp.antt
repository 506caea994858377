-- ===== src/Identity/PhoneOtp.antt =====
-- backend/src/user/phone-otp.service.ts: the one-time code that verifies a phone.
-- The columns phoneOtpCode and phoneOtpExpiresAt of the row of each wallet; the time in
-- milliseconds and the digits drawn are arguments. Of the WhatsApp client only whether a send
-- succeeds matters.
use lendoor_stellar.Common.{
  ℕ, ◌+◌, ◌≡◌, Bool, true, false, not, ◌&&◌, Option, none, some, ◌∷◌, Text, text_eq, ltb, leb,
  if◌then◌else◌, Result, ok, err, arith, text_eq_refl, text_eq_iff, Result-cases, Bool-cases, refl,
  inl, inr,
}
use lendoor_stellar.Wallet.{normalize_wallet, WalletError}
use lendoor_stellar.Cctp.Transfer.{is_falsy}

pub record OtpRow : Type 0 where
  pub phone_otp_code : Option Text
  pub phone_otp_expires_at : Option ℕ

abbrev pub OtpTable : Type 0
OtpTable = Text → Option OtpRow

-- `update({ walletAddress }, patch)`, which changes nothing when there is no such row.
abbrev pub update_row : OtpTable → Text → OtpRow → OtpTable
update_row rows wallet r =
    λ w. if text_eq w wallet then elim (rows w) [ none ↦ none | some _ ↦ some r ] else rows w

-- How a code leaves the service.
pub data Sent : Type 0 where
  by_template by_text dev_log nowhere : Sent

-- Whether the client is configured, and whether its two calls succeed.
pub record Kapso : Type 0 where
  pub configured : Bool
  pub template_succeeds : Bool
  pub text_succeeds : Bool

abbrev send_code : Kapso → Bool → Sent
send_code kapso production =
    if kapso.configured && kapso.template_succeeds
    then by_template
    else if kapso.configured && kapso.text_succeeds
    then by_text
    else if not production
    then dev_log
    else nowhere

unfoldable pub send_verification :
    Kapso → Bool → Text → ℕ → Text → OtpTable → Result WalletError (Sent × OtpTable)
unfolding normalize_wallet
send_verification kapso production code now addr rows = elim (normalize_wallet addr) [
  | err e ↦ err e
  | ok wallet ↦ ok (
    send_code kapso production,
    update_row rows wallet
        (record { phone_otp_code = some code; phone_otp_expires_at = some (now + 600000) }),
  )
]

-- The test on the row that is found.
abbrev code_matches : OtpRow → Text → ℕ → Bool
code_matches r code now = elim r.phone_otp_code [
  | none ↦ false
  | some stored ↦ elim r.phone_otp_expires_at [
    | none ↦ false
    | some expires ↦ not (is_falsy (some stored)) && not (ltb expires now) && text_eq stored code
  ]
]

abbrev pub no_code : OtpRow
no_code = record { phone_otp_code = none; phone_otp_expires_at = none }

unfoldable pub check_verification :
    Text → ℕ → Text → OtpTable → Result WalletError (Bool × OtpTable)
unfolding normalize_wallet
check_verification code now addr rows = elim (normalize_wallet addr) [
  | err e ↦ err e
  | ok wallet ↦ elim (rows wallet) [
    | none ↦ ok (false, rows)
    | some r ↦
        if code_matches r code now
        then ok (true, update_row rows wallet no_code)
        else ok (false, rows)
  ]
]

-- A code that was accepted is spent: no code at all is accepted after it, at any time, until
-- another one is sent.
pub code_is_spent :
    (code again : Text) (now later : ℕ) (addr : Text) (rows after : OtpTable)
    → check_verification code now addr rows ≡ ok (true, after)
    → check_verification again later addr after ≡ ok (false, after)
unfolding check_verification normalize_wallet
code_is_spent code again now later addr rows after h = elim (Result-cases (normalize_wallet addr)) [
  | inl (wallet, e) ↦ ground (arith, text_eq_refl wallet, text_eq_iff code code)
  | inr (x, e) ↦ ground arith
]

past_limit : (limit later : ℕ) → ltb limit later ≡ true → leb later limit ≡ false
past_limit limit later h = ground arith

within_limit : (limit later : ℕ) → ltb limit later ≡ false → leb later limit ≡ true
within_limit limit later h = ground arith

-- The check where the row is the one that was sent.
check_sent :
    (c : ℕ) (code guess : Text) (now later : ℕ) (addr wallet : Text) (rows : OtpTable)
    → normalize_wallet addr ≡ ok wallet
    → rows wallet
      ≡ some
          (record { phone_otp_code = some (c ∷ code); phone_otp_expires_at = some (now + 600000) })
    → check_verification guess later addr rows ≡ (
        if text_eq (c ∷ code) guess && leb later (now + 600000)
        then ok (true, update_row rows wallet no_code)
        else ok (false, rows))
unfolding check_verification normalize_wallet
check_sent c code guess now later addr wallet rows e at =
    elim (Bool-cases (text_eq (c ∷ code) guess)) [
      | inl same ↦ elim (Bool-cases (ltb (now + 600000) later)) [
        | inl late ↦
            let l = past_limit (now + 600000) later late in
            rw (check_verification, e, at, same, late, l) refl
        | inr fresh ↦
            let l = within_limit (now + 600000) later fresh in
            rw (check_verification, e, at, same, fresh, l) refl
      ]
      | inr other ↦ elim (Bool-cases (ltb (now + 600000) later)) [
        | inl late ↦ rw (check_verification, e, at, other, late) refl
        | inr fresh ↦ rw (check_verification, e, at, other, fresh) refl
      ]
    ]

written_row :
    (kapso : Kapso) (production : Bool) (code : Text) (now : ℕ) (addr wallet : Text)
    (rows after : OtpTable) (sent : Sent) (r : OtpRow)
    → normalize_wallet addr ≡ ok wallet
    → rows wallet ≡ some r
    → send_verification kapso production code now addr rows ≡ ok (sent, after)
    → after wallet
      ≡ some (record { phone_otp_code = some code; phone_otp_expires_at = some (now + 600000) })
unfolding send_verification normalize_wallet
written_row kapso production code now addr wallet rows after sent r e f h =
    ground (arith, text_eq_refl wallet)

-- The code that was sent last lives ten minutes: until another one is sent or this one is spent, a check
-- answers true and spends the code if it is given that very code within ten minutes, and in every
-- other case answers false and changes nothing.
pub code_lives_ten_minutes :
    (kapso : Kapso) (production : Bool) (c : ℕ) (code guess : Text) (now later : ℕ) (addr : Text)
    (rows after : OtpTable) (sent : Sent) (r : OtpRow) (wallet : Text)
    → normalize_wallet addr ≡ ok wallet
    → rows wallet ≡ some r
    → send_verification kapso production (c ∷ code) now addr rows ≡ ok (sent, after)
    → check_verification guess later addr after ≡ (
        if text_eq (c ∷ code) guess && leb later (now + 600000)
        then ok (true, update_row after wallet no_code)
        else ok (false, after))
code_lives_ten_minutes kapso production c code guess now later addr rows after sent r wallet e f h =
    check_sent c code guess now later addr wallet after e
      (written_row kapso production (c ∷ code) now addr wallet rows after sent r e f h)
