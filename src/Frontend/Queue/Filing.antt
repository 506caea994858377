-- ===== src/Frontend/Queue/Filing.antt =====
-- Under which address an entry is filed, and that the queue returns it.
use lendoor_stellar.Common.{
  ℕ, ◌≡◌, refl, Bool, true, false, Option, none, some, List, [], ◌∷◌, ◌++◌, map, Text, text_eq,
  text_eq_refl, if◌then◌else◌, arith, Bool-cases, inl, inr,
}
use lendoor_stellar.Wallet.{trim, is_evm_address, all_chars, to_lower, is_space}
use lendoor_stellar.Wallet.Canonical.{
  is_visible, trim-visible, all_chars_mono, evm-visible, evm-lower, lower-lower,
}
use lendoor_stellar.Frontend.Queue.{
  is_base32_char, looks_like_account, normalize_wallet_address, Pending, Storage, write_all, keep,
  filed_under, is_of, get_pending_for_wallet, new_item, add_pending,
}

base32_char-visible : (c : ℕ) → is_base32_char c ≡ true → is_visible c ≡ true
unfolding is_base32_char is_visible is_space
base32_char-visible c h = ground arith

account-visible : (s : Text) → looks_like_account s ≡ true → all_chars is_visible s ≡ true
unfolding looks_like_account all_chars is_visible is_space
account-visible [] h = refl
account-visible (c ∷ s) h =
    ground (arith, all_chars_mono is_base32_char is_visible base32_char-visible s)

normalize_evm_address :
    (w : Text) → is_evm_address w ≡ true → normalize_wallet_address w ≡ some (map to_lower w)
unfolding normalize_wallet_address
normalize_evm_address w h = rw (trim-visible w (evm-visible w h), h) refl

normalize_account :
    (w : Text)
    → is_evm_address w ≡ false
    → looks_like_account w ≡ true
    → normalize_wallet_address w ≡ some w
unfolding normalize_wallet_address
normalize_account w h k = rw (trim-visible w (account-visible w k), h, k) refl

-- The normalised form of an address is its own normalised form.
pub normalize_wallet_address_idem :
    (a w : Text) → normalize_wallet_address a ≡ some w → normalize_wallet_address w ≡ some w
unfolding normalize_wallet_address
normalize_wallet_address_idem a w h = elim (Bool-cases (is_evm_address (trim a))) [
  | inl e ↦
      let f : w ≡ map to_lower (trim a) = ground arith in
      rw
        (
          f,
          normalize_evm_address (map to_lower (trim a)) (evm-lower (trim a) e),
          lower-lower (trim a),
        )
        refl
  | inr e ↦ let f : w ≡ trim a = ground arith in rw f (normalize_account (trim a) e (ground arith))
]

module _ {P : Type 0} where
  keep-append :
      (p : Pending P → Bool) (rs us : List (Pending P)) → keep p (rs ++ us) ≡ keep p rs ++ keep p us
  keep-append p [] us = refl
  keep-append p (r ∷ rs) us = ground (arith, keep-append p rs us)

  keep-last :
      (p : Pending P → Bool) (rs : List (Pending P)) (r : Pending P)
      → keep p (rs ++ (r ∷ [])) ≡ (if p r then keep p rs ++ (r ∷ []) else keep p rs)
  keep-last p [] r = ground arith
  keep-last p (q ∷ rs) r = ground (arith, keep-last p rs r)

  -- Whether a new entry is found under a normalised address.
  new_item-is_of :
      (id : Text) (now : ℕ) (wallet w u : Text) (payload : P) (tx_hash : Option Text)
      → normalize_wallet_address wallet ≡ some w
      → is_of u (new_item id now wallet payload tx_hash) ≡ text_eq w u
  new_item-is_of id now wallet w u payload tx_hash e =
      rw (filed_under, e, is_of, normalize_wallet_address_idem wallet w e) refl

  -- On a storage that can be written, an entry added under any spelling of an address is the last
  -- one that is returned for every spelling of it, after those that were returned before.
  pub add_then_get :
      (id : Text) (now : ℕ) (wallet spelling w : Text) (payload : P) (tx_hash : Option Text)
      (st : Storage P)
      → st.writable ≡ true
      → normalize_wallet_address wallet ≡ some w
      → normalize_wallet_address spelling ≡ some w
      → (let (item, after) = add_pending id now wallet payload tx_hash st in
          get_pending_for_wallet spelling after ≡ get_pending_for_wallet spelling st ++ (item ∷ []))
  unfolding add_pending get_pending_for_wallet
  add_then_get id now wallet spelling w payload tx_hash st h e f =
      let g = new_item-is_of id now wallet w w payload tx_hash e in
      rw
        (
          h,
          filed_under,
          f,
          keep-last (is_of w) st.items (new_item id now wallet payload tx_hash),
          g,
          text_eq_refl w,
        )
        refl

  -- An entry added under one address does not show among those of another one.
  pub add_elsewhere :
      (id : Text) (now : ℕ) (wallet other w u : Text) (payload : P) (tx_hash : Option Text)
      (st : Storage P)
      → normalize_wallet_address wallet ≡ some w
      → normalize_wallet_address other ≡ some u
      → text_eq w u ≡ false
      → get_pending_for_wallet other (add_pending id now wallet payload tx_hash st).1
        ≡ get_pending_for_wallet other st
  unfolding add_pending get_pending_for_wallet
  add_elsewhere id now wallet other w u payload tx_hash st e f h =
      let g = new_item-is_of id now wallet w u payload tx_hash e in
      let k = keep-last (is_of u) st.items (new_item id now wallet payload tx_hash) in
      elim (Bool-cases st.writable) [
        | inl a ↦ rw (a, filed_under, f, k, g, h) refl
        | inr a ↦ rw (write_all, a) refl
      ]

  -- An entry filed under a text that is no address is returned for no text.
  pub bad_address_is_lost :
      (id : Text) (now : ℕ) (wallet any_wallet : Text) (payload : P) (tx_hash : Option Text)
      (st : Storage P)
      → normalize_wallet_address wallet ≡ none
      → get_pending_for_wallet any_wallet (add_pending id now wallet payload tx_hash st).1
        ≡ get_pending_for_wallet any_wallet st
  unfolding add_pending get_pending_for_wallet
  bad_address_is_lost id now wallet any_wallet payload tx_hash st e =
      let v = filed_under any_wallet in
      let g : is_of v (new_item id now wallet payload tx_hash) ≡ false =
        rw (filed_under, e, is_of, e) refl in
      let k = keep-last (is_of v) st.items (new_item id now wallet payload tx_hash) in
      elim (Bool-cases st.writable) [ inl a ↦ rw (a, k, g) refl | inr a ↦ rw (write_all, a) refl ]
