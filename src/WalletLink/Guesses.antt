-- ===== src/WalletLink/Guesses.antt =====
-- backend/src/wallet-link/wallet-link.service.ts: how often a code may be guessed.
use mathlib.Core.Path.{subst}
use lendoor_stellar.Common.{
  ℕ, suc, ◌+◌, ◌≤◌, ◌≡◌, refl, ◌∙◌, true, false, Option, some, List, [], ◌∷◌, Text, text_eq, length,
  ltb, leb, min, ok, err, is_ok, inl, inr, arith, Bool-cases, find_row, update_rows, All,
  if◌then◌else◌,
}
use lendoor_stellar.WalletLink.{
  WalletLinkSession, LinkState, is_session_of, trimmed, too_many_attempts,
}
use lendoor_stellar.WalletLink.Codes.{
  challenge_of, trimmed_code, failed_attempt, check_session, session,
}

-- The states after guesses of the code of an e-mail, each at a time.
unfoldable pub guess_all :
    (Text → Text) → Text → Option Text → LinkState → List (ℕ × Option Text) → LinkState
unfolding session
guess_all hash_otp drawn email_raw s [] = s
guess_all hash_otp drawn email_raw s ((now, code) ∷ guesses) =
    guess_all hash_otp drawn email_raw (session hash_otp drawn now email_raw code s).1 guesses

-- A guess while the code lives, that is not the code.
abbrev pub IsWrongGuess : (Text → Text) → Text → ℕ → ℕ × Option Text → Type 0
IsWrongGuess hash_otp hash expires (now, code) =
    (now ≤ expires) × (text_eq hash (hash_otp (trimmed_code code)) ≡ false)

abbrev with_count : ℕ → WalletLinkSession → WalletLinkSession
with_count count row = record row { otp_attempt_count = count }

-- The row of the e-mail has had so many guesses at its code.
abbrev HasCount : Text → WalletLinkSession → ℕ → LinkState → Type 0
HasCount email row count s = find_row (is_session_of email) s.sessions ≡ some (with_count count row)

-- Saving a change of a row that keeps its e-mail.
pub saved :
    (email : Text) (change : WalletLinkSession → WalletLinkSession) (rows : List WalletLinkSession)
    {row : WalletLinkSession}
    → ((r : WalletLinkSession) → is_session_of email (change r) ≡ is_session_of email r)
    → find_row (is_session_of email) rows ≡ some row
    → find_row (is_session_of email) (update_rows (is_session_of email) change rows)
      ≡ some (change row)
saved email change [] keeps e = cc
saved email change (x ∷ xs) {row = row} keeps e = elim (Bool-cases (is_session_of email x)) [
  | inl is ↦
      let same : x ≡ row = ground arith in
      let is' : is_session_of email (change x) ≡ true = keeps x ∙ is in rw (is, is', same) refl
  | inr isnt ↦ rw (isnt, isnt) (saved email change xs keeps (ground arith))
]

module _ (hash_otp : Text → Text) (drawn : Text) (email_raw : Option Text) (row : WalletLinkSession)
    (hash : Text) (expires user_id : ℕ) where
  abbrev email : Text
  email = trimmed email_raw

  tested :
      (now count : ℕ) (s : LinkState)
      → challenge_of row ≡ some (hash, expires, user_id)
      → now ≤ expires
      → HasCount email row count s
      → check_session now email s
        ≡ (if leb 5 count then err too_many_attempts else ok (with_count count row, hash, user_id))
  unfolding check_session
  tested now count s challenge alive at =
      let fresh : ltb expires now ≡ false = ground arith in
      let there : challenge_of (with_count count row) ≡ some (hash, expires, user_id) = challenge in
      rw (check_session, at, there, fresh) refl

  wrong_guess :
      (now count : ℕ) (code : Option Text) (s : LinkState)
      → challenge_of row ≡ some (hash, expires, user_id)
      → IsWrongGuess hash_otp hash expires (now, code)
      → HasCount email row count s
      → HasCount email row
          (if leb 5 count then count else suc count)
          (session hash_otp drawn now email_raw code s).1
  unfolding session
  wrong_guess now count code s challenge wrong at = elim (Bool-cases (leb 5 count)) [
    | inl locked ↦
        let refused = tested now count s challenge wrong.0 at in
        rw (locked) (rw (session, refused, locked) at)
    | inr open_yet ↦
        let passed = tested now count s challenge wrong.0 at in
        rw (open_yet) (
          rw (session, passed, open_yet, wrong.1)
            (saved email failed_attempt s.sessions (λ r. refl) at))
  ]

  guesses_count :
      (count : ℕ) (guesses : List (ℕ × Option Text)) (s : LinkState)
      → challenge_of row ≡ some (hash, expires, user_id)
      → count ≤ 5
      → All (IsWrongGuess hash_otp hash expires) guesses
      → HasCount email row count s
      → HasCount email row
          (min (count + length guesses) 5)
          (guess_all hash_otp drawn email_raw s guesses)
  unfolding guess_all
  guesses_count count [] s challenge le wrong at =
      let same : count ≡ min (count + 0) 5 = omega arith in
      subst (λ n. HasCount email row n s) same at
  guesses_count count ((now, code) ∷ guesses) s challenge le wrong at =
      let next = if leb 5 count then count else suc count in
      let le' : next ≤ 5 = ground arith in
      let same : min (next + length guesses) 5 ≡ min (count + suc (length guesses)) 5 =
        ground arith in
      let after = (session hash_otp drawn now email_raw code s).1 in
      subst (λ n. HasCount email row n (guess_all hash_otp drawn email_raw after guesses)) same
        (guesses_count next guesses after challenge le' wrong.1
          (wrong_guess now count code s challenge wrong.0 at))

  -- After wrong guesses of a code that was just sent, at any times while it lives, the right code is
  -- still good, as long as it lives, if and only if the guesses were fewer than five.
  pub fifth_guess_locks :
      (guesses : List (ℕ × Option Text)) (later : ℕ) (code : Option Text) (s : LinkState)
      → challenge_of row ≡ some (hash, expires, user_id)
      → All (IsWrongGuess hash_otp hash expires) guesses
      → HasCount email row 0 s
      → later ≤ expires
      → text_eq hash (hash_otp (trimmed_code code)) ≡ true
      → is_ok
          (session hash_otp drawn later email_raw code
            (guess_all hash_otp drawn email_raw s guesses)).0
        ≡ ltb (length guesses) 5
  unfolding session
  fifth_guess_locks guesses later code s challenge wrong at alive right =
      let count = min (0 + length guesses) 5 in
      let after = guess_all hash_otp drawn email_raw s guesses in
      let tests =
        tested later count after challenge alive
          (guesses_count 0 guesses s challenge (omega arith) wrong at) in
      elim (Bool-cases (leb 5 count)) [
        | inl locked ↦
            let many : ltb (length guesses) 5 ≡ false = ground arith in
            rw (session, tests, locked, many) refl
        | inr open_yet ↦
            let few : ltb (length guesses) 5 ≡ true = ground arith in
            rw (session, tests, open_yet, right, few) refl
      ]
