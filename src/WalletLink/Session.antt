-- ===== src/WalletLink/Session.antt =====
-- backend/src/wallet-link/wallet-link.service.ts: the token that a right code gives.
use mathlib.Core.Path.{subst}
use lendoor_stellar.Common.{
  ℕ, ◌+◌, ◌≡◌, refl, sym, true, false, Option, none, some, List, [], ◌∷◌, Text, text_eq,
  text_eq_refl, ltb, leb, if◌then◌else◌, ok, err, is_ok, inl, inr, arith, Bool-cases, find_row,
  update_rows,
}
use lendoor_stellar.WalletLink.{
  WalletLinkSession, LinkState, is_session_of, trimmed, invalid_code, link_session_expired,
}
use lendoor_stellar.WalletLink.Codes.{
  challenge_of, challenge_parts, check_session, session, opened, save_session, trimmed_code,
  is_token_of, validate_link_session, address_of,
}
use lendoor_stellar.WalletLink.Guesses.{saved}

module _ (email drawn : Text) (now : ℕ) where
  -- The row that is opened is the one that bears the token.
  token_row :
      (rows : List WalletLinkSession) {row : WalletLinkSession}
      → find_row (is_session_of email) rows ≡ some row
      → find_row (is_token_of drawn) rows ≡ none
      → find_row (is_token_of drawn) (update_rows (is_session_of email) (opened drawn now) rows)
        ≡ some (opened drawn now row)
  token_row [] e free = cc
  token_row (x ∷ rows) {row = row} e free = elim (Bool-cases (is_session_of email x)) [
    | inl is ↦ let same : x ≡ row = ground arith in rw (is, text_eq_refl drawn, same) refl
    | inr isnt ↦ elim (Bool-cases (is_token_of drawn x)) [
      | inl has ↦ ground arith
      | inr hasnt ↦ rw (isnt, hasnt) (token_row rows {row = row} (ground arith) (ground arith))
    ]
  ]

challenge_parts-user :
    (code : Option Text) (end user : Option ℕ) {hash : Text} {expires user_id : ℕ}
    → challenge_parts code end user ≡ some (hash, expires, user_id)
    → user ≡ some user_id
challenge_parts-user (some (c ∷ hash)) (some expires) (some user_id) e = cc
challenge_parts-user (some (c ∷ hash)) (some expires) none e = cc
challenge_parts-user (some (c ∷ hash)) none user e = cc
challenge_parts-user (some []) end user e = cc
challenge_parts-user none end user e = cc

spent :
    (row : WalletLinkSession) (drawn : Text) (now : ℕ) → challenge_of (opened drawn now row) ≡ none
spent row drawn now = refl

module _ (hash_otp : Text → Text) (drawn : Text) (now : ℕ) (email_raw code : Option Text)
    (row : WalletLinkSession) (hash : Text) (expires user_id : ℕ) (s : LinkState) where
  -- The right code of a challenge that lives and was guessed wrong fewer than five times.
  pub record IsRight : Type 0 where
    pub found : find_row (is_session_of (trimmed email_raw)) s.sessions ≡ some row
    pub challenge : challenge_of row ≡ some (hash, expires, user_id)
    pub alive : ltb expires now ≡ false
    pub tries : leb 5 row.otp_attempt_count ≡ false
    pub code_is : text_eq hash (hash_otp (trimmed_code code)) ≡ true

  opens :
      IsRight
      → session hash_otp drawn now email_raw code s ≡ (
        ok (record {
          link_session = drawn;
          user_id = user_id;
          email = trimmed email_raw;
          lendoor_address = address_of user_id s.users;
        }),
        save_session (trimmed email_raw) (opened drawn now) s,
      )
  unfolding session check_session
  opens right =
      let passed : check_session now (trimmed email_raw) s ≡ ok (row, hash, user_id) =
        rw (check_session, right.found, right.challenge, right.alive, right.tries) refl in
      rw (session, passed, right.code_is) refl

  spent_session :
      (again : Text) (later : ℕ) (guess : Option Text) (after : LinkState)
      → find_row (is_session_of (trimmed email_raw)) after.sessions ≡ some (opened drawn now row)
      → session hash_otp again later email_raw guess after ≡ (err invalid_code, after)
  unfolding session check_session
  spent_session again later guess after e =
      let refused : check_session later (trimmed email_raw) after ≡ err invalid_code =
        rw (check_session, e) refl in
      rw (session, refused) refl

  bearer :
      (later : ℕ) (after : LinkState)
      → challenge_of row ≡ some (hash, expires, user_id)
      → find_row (is_token_of drawn) after.sessions ≡ some (opened drawn now row)
      → validate_link_session drawn later after
        ≡ (if ltb (now + 900000) later then err link_session_expired else ok user_id)
  unfolding validate_link_session
  bearer later after challenge e =
      let user : row.user_id ≡ some user_id =
        challenge_parts-user row.otp_code_hash row.otp_expires_at row.user_id challenge in
      rw (validate_link_session, e, user) refl

  -- The right code, given in time and before five wrong ones, opens a link session for the user of
  -- the code: its token, if no session had it, names that user for 15 minutes and to nobody after
  -- them, and the code is spent, so that no code at all is accepted at any time until another one is
  -- sent.
  pub link_session_lives :
      (again : Text) (later : ℕ) (guess : Option Text)
      → IsRight
      → find_row (is_token_of drawn) s.sessions ≡ none
      → let after = (session hash_otp drawn now email_raw code s).1 in
        (is_ok (session hash_otp drawn now email_raw code s).0 ≡ true)
        × (validate_link_session drawn later after
            ≡ (if ltb (now + 900000) later then err link_session_expired else ok user_id))
        × (session hash_otp again later email_raw guess after ≡ (err invalid_code, after))
  link_session_lives again later guess right free =
      let e = opens right in
      let email = trimmed email_raw in
      let rows = update_rows (is_session_of email) (opened drawn now) s.sessions in
      let after = save_session email (opened drawn now) s in
      subst
        (λ r.
          (is_ok r.0 ≡ true)
          × (validate_link_session drawn later r.1
              ≡ (if ltb (now + 900000) later then err link_session_expired else ok user_id))
          × (session hash_otp again later email_raw guess r.1 ≡ (err invalid_code, r.1)))
        (sym e)
        (
          refl,
          bearer later after right.challenge
              (token_row email drawn now s.sessions right.found free),
          spent_session again later guess after
              (saved email (opened drawn now) s.sessions (λ r. refl) right.found),
        )
