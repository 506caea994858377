-- ===== src/Tests/Linking.antt =====
-- A user who links a wallet, with codes that are their own hashes.
use lendoor_stellar.Common.{
  ℕ, ◌+◌, ◌≡◌, refl, true, false, Option, none, some, List, [], ◌∷◌, ◌++◌, Text, codes, replicate,
  ltb, length, if◌then◌else◌, ok, err, is_ok, arith, ◌≢◌, find_row, text_eq,
}
use lendoor_stellar.Wallet.{trim}
use lendoor_stellar.WalletLink.{
  WalletLinkSession, WalletLinkNonce, LinkedExternalWallet, LinkState, invalid_code,
  link_session_expired, is_session_of, trimmed,
}
use lendoor_stellar.WalletLink.Codes.{session, trimmed_code, validate_link_session}
use lendoor_stellar.WalletLink.Wallets.{require_address, verify}
use lendoor_stellar.WalletLink.Guesses.{IsWrongGuess, guess_all, fifth_guess_locks}
use lendoor_stellar.WalletLink.Linked.{Call, Outside, run, IsProved, LinkedTo, verifies, cleans_up}
use lendoor_stellar.WalletLink.Sybil.{verify-IsProved, link_is_for_good}
use lendoor_stellar.WalletLink.Session.{IsRight, link_session_lives}
use lendoor_stellar.Tests.LedgerSample.{borrower}

abbrev mail : Option Text
mail = some (codes "a@b.co")

abbrev row : WalletLinkSession
row = record {
  email = codes "a@b.co";
  user_id = some 7;
  otp_code_hash = some (codes "123456");
  otp_expires_at = some 600000;
  otp_attempt_count = 0;
  last_otp_sent_at = some 0;
  token = none;
  token_expires_at = none;
}

abbrev nonce : WalletLinkNonce
nonce = record {
  user_id = 7;
  address = borrower;
  nonce = codes "n1";
  message = codes "hello";
  used = false;
  expires_at = 300000;
}

abbrev linked : LinkedExternalWallet
linked = record { user_id = 7; address = borrower; chain_id = 1; verified_at = 5 }

abbrev state : List LinkedExternalWallet → LinkState
state wallets = record {
  users = (record { id = 7; email = mail; lemon_email = none; wallet_address = none }) ∷ [];
  sessions = row ∷ [];
  nonces = nonce ∷ [];
  linked = wallets;
}

abbrev own_hash : Text → Text
own_hash code = code

abbrev wrong : ℕ × Option Text
wrong = (9, some (codes "000000"))

abbrev guesses : List (ℕ × Option Text)
guesses = wrong ∷ wrong ∷ wrong ∷ wrong ∷ wrong ∷ []

miss : IsWrongGuess own_hash (codes "123456") 600000 wrong
unfolding trim
miss = (omega arith, refl)

found : find_row (is_session_of (trimmed mail)) (row ∷ []) ≡ some row
unfolding trim
found = refl

right_code : text_eq (codes "123456") (own_hash (trimmed_code (some (codes "123456")))) ≡ true
unfolding trim
right_code = refl

fifth_guess_locks_example :
    is_ok
      (session own_hash
        (codes "tok")
        20
        mail
        (some (codes "123456"))
        (guess_all own_hash (codes "tok") mail (state []) guesses)).0
    ≡ ltb (length guesses) 5
fifth_guess_locks_example =
    fifth_guess_locks own_hash (codes "tok") mail row (codes "123456") 600000 7 guesses 20
      (some (codes "123456")) (state []) refl (miss, (miss, (miss, (miss, (miss, tt))))) found
      (omega arith) right_code

right :
    IsRight own_hash
      (codes "tok")
      20
      mail
      (some (codes "123456"))
      row
      (codes "123456")
      600000
      7
      (state [])
right = record { found = found; challenge = refl; alive = refl; tries = refl; code_is = right_code }

link_session_lives_example :
    let after = (session own_hash (codes "tok") 20 mail (some (codes "123456")) (state [])).1 in
    (is_ok (session own_hash (codes "tok") 20 mail (some (codes "123456")) (state [])).0 ≡ true)
    × (validate_link_session (codes "tok") 900 after
        ≡ (if ltb (20 + 900000) 900 then err link_session_expired else ok 7))
    × (session own_hash (codes "t2") 900 mail (some (codes "123456")) after
        ≡ (err invalid_code, after))
link_session_lives_example =
    link_session_lives own_hash (codes "tok") 20 mail (some (codes "123456")) row (codes "123456")
      600000 7 (state []) (codes "t2") 900 (some (codes "123456")) right refl

abbrev outside : Outside
outside = record {
  hash_otp = own_hash;
  decimal = λ n. [];
  iso = λ t. [];
  recover = λ message signature. some borrower;
}

abbrev ecdsa : Text
ecdsa = codes "0x" ++ replicate 130 49

verified :
    (verify outside.recover 9 7 (some borrower) 1 (codes "hello") ecdsa (state [])).0
    ≡ ok (borrower, 9)
unfolding verify
verified = refl

verify-IsProved_example :
    (address : Text) × (require_address (some borrower) ≡ ok address)
    × IsProved outside 9 7 address (codes "hello") ecdsa (state [])
    × (wallet : LinkedExternalWallet) × (wallet.user_id ≡ 7)
    × LinkedTo address wallet
        (verify outside.recover 9 7 (some borrower) 1 (codes "hello") ecdsa (state [])).1
verify-IsProved_example =
    verify-IsProved outside 9 7 (some borrower) 1 (codes "hello") ecdsa (state []) (borrower, 9)
      verified

is_address : require_address (some borrower) ≡ ok borrower
unfolding require_address
is_address = refl

another : linked.user_id ≢ 8
another e = omega (arith, e)

abbrev calls : List (ℕ × Call)
calls = (9, verifies 8 (some borrower) 1 (codes "hello") ecdsa) ∷ (10, cleans_up) ∷ []

link_is_for_good_example :
    LinkedTo borrower linked (run outside (state (linked ∷ [])) calls)
    × (is_ok
          (verify outside.recover 20 8
            (some borrower)
            1
            (codes "hello")
            ecdsa
            (run outside (state (linked ∷ [])) calls)).0
        ≡ false)
link_is_for_good_example =
    link_is_for_good outside 20 8 (some borrower) 1 (codes "hello") ecdsa calls borrower linked
      (state (linked ∷ [])) refl is_address another
