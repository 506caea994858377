-- ===== src/WalletLink/Sybil.antt =====
-- backend/src/wallet-link/wallet-link.service.ts: a wallet belongs to the one user who proved it.
use mathlib.Core.Path.{subst}
use lendoor_stellar.Common.{
  ℕ, ◌≡◌, ◌≢◌, ◌⊎◌, refl, sym, ap, ◌∙◌, false, Option, none, some, List, [], ◌∷◌, ◌++◌, Text,
  text_eq_refl, ◌==◌, Result, ok, err, is_ok, inl, inr, arith, Option-cases, Bool-cases,
  Result-cases, find_row, ==_iff, ok_injective,
}
use lendoor_stellar.WalletLink.{
  LinkedExternalWallet, WalletLinkNonce, LinkState, LinkError, linked_to_another,
}
use lendoor_stellar.WalletLink.Wallets.{
  require_address, check_link, consume_nonce, is_unused, is_linked, linked_wallet, link, verify,
}
use lendoor_stellar.WalletLink.Linked.{
  Call, Outside, run, run-keeps, IsProved, check_link-IsProved, LinkedTo,
}

module _ (user_id : ℕ) (address : Text) (chain_id now : ℕ) (s : LinkState) where
  -- A new link is the first of its address.
  new_link :
      (rows : List LinkedExternalWallet)
      → find_row (is_linked address) rows ≡ none
      → find_row (is_linked address) (rows ++ (linked_wallet user_id address chain_id now ∷ []))
        ≡ some (linked_wallet user_id address chain_id now)
  new_link [] e = rw (text_eq_refl address) refl
  new_link (x ∷ rows) e = elim (Bool-cases (is_linked address x)) [
    | inl is ↦ ground arith
    | inr isnt ↦ rw isnt (new_link rows (ground arith))
  ]

  link-owns :
      (answer : Text × ℕ)
      → (link user_id address chain_id now s).0 ≡ ok answer
      → (row : LinkedExternalWallet) × (row.user_id ≡ user_id)
        × LinkedTo address row (link user_id address chain_id now s).1
  link-owns answer e = elim (Option-cases (find_row (is_linked address) s.linked)) [
    | inl new ↦
        (linked_wallet user_id address chain_id now, refl, rw (link, new) (new_link s.linked new))
    | inr (existing, there) ↦ elim (Bool-cases (existing.user_id == user_id)) [
      | inl own ↦ (existing, (==_iff existing.user_id user_id).0 own, rw (link, there, own) there)
      | inr foreign ↦
          let refused : (link user_id address chain_id now s).0 ≡ err linked_to_another =
            rw (link, there, foreign) refl in
          absurd cc
    ]
  ]

  link-refuses :
      (row : LinkedExternalWallet)
      → LinkedTo address row s
      → row.user_id ≢ user_id
      → is_ok (link user_id address chain_id now s).0 ≡ false
  link-refuses row there other = elim (Bool-cases (row.user_id == user_id)) [
    | inl own ↦ absurd (other ((==_iff row.user_id user_id).0 own))
    | inr foreign ↦ rw (link, there, foreign) refl
  ]

ok_or_refused :
    {r : Result LinkError (Text × ℕ)} {answer : Text × ℕ} → r ≡ ok answer → is_ok r ≡ false → ⊥
ok_or_refused e f = cc

module _ (o : Outside) (now user_id : ℕ) (address_raw : Option Text) (chain_id : ℕ)
    (message signature : Text) where
  -- What verify comes to, once its tests pass.
  linking :
      (address : Text) (nonce unused : WalletLinkNonce) (s : LinkState)
      → require_address address_raw ≡ ok address
      → check_link o.recover now user_id address message signature s ≡ ok nonce
      → find_row (is_unused nonce.nonce) s.nonces ≡ some unused
      → verify o.recover now user_id address_raw chain_id message signature s
        ≡ link user_id address chain_id now (consume_nonce nonce.nonce s)
  unfolding verify
  linking address nonce unused s good passed there = rw (verify, good, passed, there) refl

  -- The tests of verify, each passed or the call refused.
  verify-tests :
      (s : LinkState)
      → (is_ok (verify o.recover now user_id address_raw chain_id message signature s).0 ≡ false)
        ⊎ ((address : Text) × (nonce : WalletLinkNonce) × (unused : WalletLinkNonce)
            × (require_address address_raw ≡ ok address)
            × (check_link o.recover now user_id address message signature s ≡ ok nonce)
            × (find_row (is_unused nonce.nonce) s.nonces ≡ some unused))
  unfolding verify
  verify-tests s = elim (Result-cases (require_address address_raw)) [
    | inr (e, bad) ↦ inl (rw (verify, bad) refl)
    | inl (address, good) ↦
        elim (Result-cases (check_link o.recover now user_id address message signature s)) [
          | inr (e, refused) ↦ inl (rw (verify, good, refused) refl)
          | inl (nonce, passed) ↦ elim (Option-cases (find_row (is_unused nonce.nonce) s.nonces)) [
            | inl late ↦ inl (rw (verify, good, passed, late) refl)
            | inr (r, there) ↦ inr (address, nonce, r, good, passed, there)
          ]
        ]
  ]

  -- A link that is confirmed was proved: the user had a nonce for the address and the very message,
  -- not used and not expired, the message was signed by the address, and after the call the row
  -- that is found for the address is the user's.
  pub verify-IsProved :
      (s : LinkState) (answer : Text × ℕ)
      → (verify o.recover now user_id address_raw chain_id message signature s).0 ≡ ok answer
      → (address : Text) × (require_address address_raw ≡ ok address)
        × IsProved o now user_id address message signature s
        × (row : LinkedExternalWallet) × (row.user_id ≡ user_id)
        × LinkedTo address row
            (verify o.recover now user_id address_raw chain_id message signature s).1
  verify-IsProved s answer e = elim (verify-tests s) [
    | inl refused ↦ absurd (ok_or_refused e refused)
    | inr (address, nonce, unused, good, passed, there) ↦
        let same = linking address nonce unused s good passed there in
        let (row, own, linked) =
          link-owns user_id address chain_id now (consume_nonce nonce.nonce s) answer
            (sym (ap (λ r. r.0) same) ∙ e) in
        (
          address,
          good,
          check_link-IsProved o now user_id address message signature s nonce passed,
          row,
          own,
          subst (λ r. LinkedTo address row r.1) (sym same) linked,
        )
  ]

  -- A link is for good: once an address is linked to a user it stays so, by the same row, after any
  -- calls of the service at any times, and no call links it to another user.
  pub link_is_for_good :
      (calls : List (ℕ × Call)) (address : Text) (row : LinkedExternalWallet) (s : LinkState)
      → LinkedTo address row s
      → require_address address_raw ≡ ok address
      → row.user_id ≢ user_id
      → LinkedTo address row (run o s calls)
        × (is_ok
              (verify o.recover now user_id address_raw chain_id message signature
                (run o s calls)).0
            ≡ false)
  link_is_for_good calls address row s linked good other =
      let after = run o s calls in
      let stays = run-keeps o calls address row s linked in
      (
        stays,
        elim (verify-tests after) [
          | inl refused ↦ refused
          | inr (address', nonce, unused, good', passed, there) ↦
              let same = ok_injective (sym good' ∙ good) in
              let e = linking address' nonce unused after good' passed there in
              subst (λ r. is_ok r.0 ≡ false) (sym e)
                (link-refuses user_id address' chain_id now (consume_nonce nonce.nonce after) row
                  (subst (λ a. LinkedTo a row after) (sym same) stays) other)
        ],
      )
