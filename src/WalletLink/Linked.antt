-- ===== src/WalletLink/Linked.antt =====
-- backend/src/wallet-link/wallet-link.service.ts: what a link needs, and that it stays.
use mathlib.Core.Path.{subst}
use lendoor_stellar.Common.{
  ℕ, ◌≡◌, refl, sym, true, false, not, Option, some, List, [], ◌∷◌, map, Text, text_eq, ltb, ◌==◌,
  ok, inl, inr, arith, Option-cases, Bool-cases, Result-cases, find_row, find_row-append, >>=-eq-ok,
  throw_if-eq-ok, or_throw, or_throw-eq-ok,
}
use lendoor_stellar.Wallet.{to_lower}
use lendoor_stellar.WalletLink.{
  WalletLinkNonce, LinkedExternalWallet, LinkState, unsupported_signature, nonce_not_found,
  nonce_expired, invalid_signature, signature_mismatch, LinkUser, is_session_of, trimmed,
}
use lendoor_stellar.WalletLink.Codes.{
  start, session, challenge, challenge_only, check_session, is_email, is_throttled, is_mail_of,
  keep_users, trimmed_code,
}
use lendoor_stellar.WalletLink.Wallets.{
  require_address, create_link_nonce, is_ecdsa, is_open_nonce, check_link, consume_nonce, is_row_of,
  is_unused, is_linked, linked_wallet, link, verify, cleanup,
}

-- Any call of the service, with what it draws.
pub data Call : Type 0 where
  starts : Text → Option Text → Call
  opens : Text → Option Text → Option Text → Call
  creates : Text → ℕ → Option Text → ℕ → Call
  verifies : ℕ → Option Text → ℕ → Text → Text → Call
  cleans_up : Call

-- The parameters: the hash, the written forms of a number and a time, and viem's signer.
pub record Outside : Type 0 where
  pub hash_otp : Text → Text
  pub decimal : ℕ → Text
  pub iso : ℕ → Text
  pub recover : Text → Text → Option Text

unfoldable pub step : Outside → LinkState → ℕ × Call → LinkState
unfolding start session create_link_nonce verify cleanup
step o s (now, starts code email) = (start o.hash_otp code now email s).1
step o s (now, opens drawn email code) = (session o.hash_otp drawn now email code s).1
step o s (now, creates drawn user_id address chain_id) =
    (create_link_nonce o.decimal o.iso drawn now user_id address chain_id s).1
step o s (now, verifies user_id address chain_id message signature) =
    (verify o.recover now user_id address chain_id message signature s).1
step o s (now, cleans_up) = cleanup now s

unfoldable pub run : Outside → LinkState → List (ℕ × Call) → LinkState
unfolding step
run o s [] = s
run o s (call ∷ calls) = run o (step o s call) calls

-- What a link to an address needs: a nonce of the user for the address and the message, not used and
-- not expired, and a signature of the message by the address.
pub record IsProved (o : Outside) (now user_id : ℕ) (address message signature : Text)
    (s : LinkState) : Type 0 where
  pub row : WalletLinkNonce
  pub found : find_row (is_open_nonce user_id address message) s.nonces ≡ some row
  pub alive : ltb row.expires_at now ≡ false
  pub signer : Text
  pub recovered : o.recover message signature ≡ some signer
  pub is_address : text_eq (map to_lower signer) address ≡ true

pub check_link-IsProved :
    (o : Outside) (now user_id : ℕ) (address message signature : Text) (s : LinkState)
    (row : WalletLinkNonce)
    → check_link o.recover now user_id address message signature s ≡ ok row
    → IsProved o now user_id address message signature s
unfolding check_link
check_link-IsProved o now user_id address message signature s row e =
    let (ecdsa, e1) = throw_if-eq-ok (not (is_ecdsa signature)) unsupported_signature _ e in
    let (found, opened, e2) =
      >>=-eq-ok
        (or_throw nonce_not_found (find_row (is_open_nonce user_id address message) s.nonces)) _
        e1 in
    let (alive, e3) = throw_if-eq-ok (ltb found.expires_at now) nonce_expired _ e2 in
    let (signer, recovered, e4) =
      >>=-eq-ok (or_throw invalid_signature (o.recover message signature)) _ e3 in
    let (same, e5) =
      throw_if-eq-ok (not (text_eq (map to_lower signer) address)) signature_mismatch _ e4 in
    record {
      row = found;
      found = or_throw-eq-ok nonce_not_found _ opened;
      alive = alive;
      signer = signer;
      recovered = or_throw-eq-ok invalid_signature _ recovered;
      is_address = ground (arith, same);
    }

-- The link of an address, found in the table.
abbrev pub LinkedTo : Text → LinkedExternalWallet → LinkState → Type 0
LinkedTo address row s = find_row (is_linked address) s.linked ≡ some row

link-keeps :
    (user_id : ℕ) (address other : Text) (chain_id now : ℕ) (row : LinkedExternalWallet)
    (s : LinkState)
    → LinkedTo other row s
    → LinkedTo other row (link user_id address chain_id now s).1
link-keeps user_id address other chain_id now row s h =
    elim (Option-cases (find_row (is_linked address) s.linked)) [
      | inl new ↦
          rw (link, new)
            (find_row-append (is_linked other) s.linked
              (linked_wallet user_id address chain_id now ∷ []) h)
      | inr (existing, there) ↦ elim (Bool-cases (existing.user_id == user_id)) [
        | inl own ↦ rw (link, there, own) h
        | inr foreign ↦ rw (link, there, foreign) h
      ]
    ]

verify-keeps :
    (o : Outside) (now user_id : ℕ) (address_raw : Option Text) (chain_id : ℕ)
    (message signature other : Text) (row : LinkedExternalWallet) (s : LinkState)
    → LinkedTo other row s
    → LinkedTo other row (verify o.recover now user_id address_raw chain_id message signature s).1
unfolding verify
verify-keeps o now user_id address_raw chain_id message signature other row s h =
    elim (Result-cases (require_address address_raw)) [
      | inr (e, bad) ↦ rw (verify, bad) h
      | inl (address, good) ↦
          elim (Result-cases (check_link o.recover now user_id address message signature s)) [
            | inr (e, refused) ↦ rw (verify, good, refused) h
            | inl (nonce, passed) ↦
                elim (Option-cases (find_row (is_unused nonce.nonce) s.nonces)) [
                  | inl late ↦ rw (verify, good, passed, late) h
                  | inr (r, there) ↦
                      rw (verify, good, passed, there)
                        (link-keeps user_id address other chain_id now row
                          (consume_nonce nonce.nonce s) h)
                ]
          ]
    ]

challenge-linked :
    (email : Text) (user_id : ℕ) (code_hash : Text) (now : ℕ) (s : LinkState)
    → (challenge email user_id code_hash now s).1.linked ≡ s.linked
challenge-linked email user_id code_hash now s =
    elim (Option-cases (find_row (is_session_of email) s.sessions)) [
      | inl new ↦ rw (challenge, new) refl
      | inr (row, there) ↦ elim (Bool-cases (is_throttled now row)) [
        | inl soon ↦ rw (challenge, there, soon) refl
        | inr late ↦ rw (challenge, there, late) refl
      ]
    ]

challenge_only-linked :
    (users : List LinkUser) (email code_hash : Text) (now : ℕ) (s : LinkState)
    → (challenge_only users email code_hash now s).1.linked ≡ s.linked
challenge_only-linked [] email code_hash now s = refl
challenge_only-linked (user ∷ []) email code_hash now s =
    challenge-linked email user.id code_hash now s
challenge_only-linked (user ∷ other ∷ users) email code_hash now s = refl

start-linked :
    (hash_otp : Text → Text) (code : Text) (now : ℕ) (email_raw : Option Text) (s : LinkState)
    → (start hash_otp code now email_raw s).1.linked ≡ s.linked
unfolding start
start-linked hash_otp code now email_raw s =
    let email = trimmed email_raw in
    elim (Bool-cases (is_email email)) [
      | inr bad ↦ rw (start, bad) refl
      | inl good ↦
          rw (start, good)
            (challenge_only-linked (keep_users (is_mail_of email) s.users) email (hash_otp code) now
              s)
    ]

session-linked :
    (hash_otp : Text → Text) (drawn : Text) (now : ℕ) (email_raw code : Option Text) (s : LinkState)
    → (session hash_otp drawn now email_raw code s).1.linked ≡ s.linked
unfolding session
session-linked hash_otp drawn now email_raw code s =
    elim (Result-cases (check_session now (trimmed email_raw) s)) [
      | inr (e, refused) ↦ rw (session, refused) refl
      | inl ((row, hash, user_id), passed) ↦
          elim (Bool-cases (text_eq hash (hash_otp (trimmed_code code)))) [
            | inl right ↦ rw (session, passed, right) refl
            | inr wrong ↦ rw (session, passed, wrong) refl
          ]
    ]

create_link_nonce-linked :
    (decimal iso : ℕ → Text) (drawn : Text) (now user_id : ℕ) (address_raw : Option Text)
    (chain_id : ℕ) (s : LinkState)
    → (create_link_nonce decimal iso drawn now user_id address_raw chain_id s).1.linked ≡ s.linked
unfolding create_link_nonce
create_link_nonce-linked decimal iso drawn now user_id address_raw chain_id s =
    elim (Result-cases (require_address address_raw)) [
      | inr (e, bad) ↦ rw (create_link_nonce, bad) refl
      | inl (address, good) ↦ elim (Option-cases (find_row (is_row_of drawn) s.nonces)) [
        | inl new ↦ rw (create_link_nonce, good, new) refl
        | inr (row, there) ↦ rw (create_link_nonce, good, there) refl
      ]
    ]

step-keeps :
    (o : Outside) (call : ℕ × Call) (address : Text) (row : LinkedExternalWallet) (s : LinkState)
    → LinkedTo address row s
    → LinkedTo address row (step o s call)
unfolding step cleanup
step-keeps o (now, starts code email) address row s h =
    subst (λ l. find_row (is_linked address) l ≡ some row)
      (sym (start-linked o.hash_otp code now email s)) h
step-keeps o (now, opens drawn email code) address row s h =
    subst (λ l. find_row (is_linked address) l ≡ some row)
      (sym (session-linked o.hash_otp drawn now email code s)) h
step-keeps o (now, creates drawn user_id raw chain_id) address row s h =
    subst (λ l. find_row (is_linked address) l ≡ some row)
      (sym (create_link_nonce-linked o.decimal o.iso drawn now user_id raw chain_id s)) h
step-keeps o (now, verifies user_id raw chain_id message signature) address row s h =
    verify-keeps o now user_id raw chain_id message signature address row s h
step-keeps o (now, cleans_up) address row s h = h

pub run-keeps :
    (o : Outside) (calls : List (ℕ × Call)) (address : Text) (row : LinkedExternalWallet)
    (s : LinkState)
    → LinkedTo address row s
    → LinkedTo address row (run o s calls)
unfolding run
run-keeps o [] address row s h = h
run-keeps o (call ∷ calls) address row s h =
    run-keeps o calls address row (step o s call) (step-keeps o call address row s h)
