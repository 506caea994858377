-- ===== src/Loans/Grant/Gates.antt =====
-- What `verify` of backend/src/loan/loan-verification.service.ts asks of a user.
use lendoor_stellar.Common.{
  ◌≡◌, refl, false, not, ◌&&◌, Option, some, List, Text, ok, err, inl, inr, is_none, Option-cases,
  Bool-cases, Result-cases, find_row, throw_if-eq-ok,
}
use lendoor_stellar.Cctp.Transfer.{is_falsy}
use lendoor_stellar.Wallet.{normalize_wallet}
use lendoor_stellar.Loans.Grant.{
  LineUser, LineState, Line, ChainCredit, UserPlatform, normalize_platform, effective_platform,
  on_platform, lacks_self_verification, is_farcaster, is_wallet_of, save_line, check_line, verify,
  invalid_wallet, user_not_found, email_required, work_type_required, terms_required,
  self_verification_required,
}

-- The user of the wallet has an e-mail and a kind of work, has accepted the terms or comes from
-- Farcaster, and is verified by Self if the platform that is saved is Farcaster.
pub record IsAdmitted (addr : Text) (platform : Option Text) (s : LineState) : Type 0 where
  pub wallet : Text
  pub user : LineUser
  pub normal : normalize_wallet addr ≡ ok wallet
  pub found : find_row (is_wallet_of wallet) s.users ≡ some user
  pub mail : is_falsy user.email ≡ false
  pub work : is_falsy user.work_type ≡ false
  pub terms :
      (is_none user.terms_accepted_at
        && not (is_farcaster (effective_platform (normalize_platform platform) user)))
      ≡ false
  pub verified : lacks_self_verification (on_platform (normalize_platform platform) user) ≡ false

check_line-passed :
    (asked : Option UserPlatform) (user current : LineUser) (users : List LineUser)
    {done : Unit {0}}
    → check_line asked user current users ≡ ok done
    → ((is_none user.terms_accepted_at && not (is_farcaster (effective_platform asked user)))
        ≡ false)
      × (lacks_self_verification current ≡ false)
unfolding check_line
check_line-passed asked user current users e =
    let (terms, e1) =
      throw_if-eq-ok
        (is_none user.terms_accepted_at && not (is_farcaster (effective_platform asked user)))
        terms_required _ e in
    let (verified, e2) =
      throw_if-eq-ok (lacks_self_verification current) self_verification_required _ e1 in
    (terms, verified)

-- Whoever is told of a line of credit, old, refreshed or first, has passed the gates: the user of the
-- wallet exists, has an e-mail and a kind of work, has accepted the terms or comes from Farcaster, and
-- is verified by Self if the platform that is saved for the user is Farcaster.
pub verify-IsAdmitted :
    (chain : ChainCredit) (addr : Text) (platform : Option Text) (s : LineState) (line : Line)
    → (verify chain addr platform s).0 ≡ ok line
    → IsAdmitted addr platform s
unfolding verify check_line
verify-IsAdmitted chain addr platform s line h =
    let asked = normalize_platform platform in
    elim (Result-cases (normalize_wallet addr)) [
      | inr (e, bad) ↦
          let no : (verify chain addr platform s).0 ≡ err invalid_wallet = rw (verify, bad) refl in
          absurd cc
      | inl (wallet, good) ↦ elim (Option-cases (find_row (is_wallet_of wallet) s.users)) [
        | inl absent ↦
            let no : (verify chain addr platform s).0 ≡ err user_not_found =
              rw (verify, good, absent) refl in
            absurd cc
        | inr (user, there) ↦ elim (Bool-cases (is_falsy user.email)) [
          | inl no_mail ↦
              let no : (verify chain addr platform s).0 ≡ err email_required =
                rw (verify, good, there, no_mail) refl in
              absurd cc
          | inr mail ↦ elim (Bool-cases (is_falsy user.work_type)) [
            | inl no_work ↦
                let no : (verify chain addr platform s).0 ≡ err work_type_required =
                  rw (verify, good, there, mail, no_work) refl in
                absurd cc
            | inr work ↦
                let saved = save_line wallet (on_platform asked) s in
                let current = on_platform asked user in
                elim (Result-cases (check_line asked user current saved.users)) [
                  | inr (e, refused) ↦
                      let no : (verify chain addr platform s).0 ≡ err e =
                        rw (verify, good, there, mail, work, refused) refl in
                      absurd cc
                  | inl (done, passed) ↦
                      let (terms, verified) =
                        check_line-passed asked user current saved.users passed in
                      record {
                        wallet = wallet;
                        user = user;
                        normal = good;
                        found = there;
                        mail = mail;
                        work = work;
                        terms = terms;
                        verified = verified;
                      }
                ]
          ]
        ]
      ]
    ]
