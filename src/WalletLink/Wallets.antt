-- ===== src/WalletLink/Wallets.antt =====
-- backend/src/wallet-link/wallet-link.service.ts: the nonce that a wallet signs, and the link.
use lendoor_stellar.Common.{
  ℕ, ◌+◌, Bool, true, false, not, ◌&&◌, ◌||◌, Option, none, some, [], ◌∷◌, ◌++◌, map, Text, text_eq,
  codes, length, ltb, leb, ◌==◌, if◌then◌else◌, Result, ok, err, throw_if, or_throw, ◌>>=◌, ◌>>◌,
  find_row, update_rows, delete_rows,
}
use lendoor_stellar.Wallet.{trim, to_lower, all_chars}
use lendoor_stellar.WalletLink.{
  WalletLinkSession, WalletLinkNonce, LinkedExternalWallet, LinkState, LinkError, trimmed,
  invalid_address, unsupported_signature, nonce_not_found, nonce_expired, invalid_signature,
  signature_mismatch, nonce_already_used, linked_to_another, duplicate_key,
}

abbrev is_lower_hex : ℕ → Bool
is_lower_hex c = (leb b'0' c && leb c b'9') || (leb b'a' c && leb c b'f')

-- /^0x[0-9a-f]{40}$/
abbrev is_lower_address : Text → Bool
is_lower_address (a ∷ b ∷ s) = a == b'0' && b == b'x' && length s == 40 && all_chars is_lower_hex s
is_lower_address _ = false

unfoldable pub require_address : Option Text → Result LinkError Text
unfolding trim all_chars
require_address raw =
    let a = trimmed raw in if not (is_lower_address a) then err invalid_address else ok a

-- The message of a nonce, on the written forms of the chain's number and of the time.
abbrev pub message_to_sign : Text → Text → Text → Text → Text
message_to_sign address chain nonce issued =
    codes "By signing, you are proving you own this wallet and linking it to your Lendoor account. "
    ++ codes "This does not initiate a transaction or cost any fees."
    ++ (10 ∷ 10 ∷ codes "Domain: link.lendoor.xyz")
    ++ (10 ∷ codes "Wallet: ")
    ++ address
    ++ (10 ∷ codes "Chain ID: ")
    ++ chain
    ++ (10 ∷ codes "Nonce: ")
    ++ nonce
    ++ (10 ∷ codes "Issued At: ")
    ++ issued

abbrev pub is_row_of : Text → WalletLinkNonce → Bool
is_row_of nonce row = text_eq row.nonce nonce

abbrev pub is_unused : Text → WalletLinkNonce → Bool
is_unused nonce row = is_row_of nonce row && not row.used

-- createNonce: the nonce and its message; the index on the nonces refuses one that is there.
unfoldable pub create_link_nonce :
    (ℕ → Text)
    → (ℕ → Text)
    → Text
    → ℕ
    → ℕ
    → Option Text
    → ℕ
    → LinkState
    → Result LinkError (Text × Text) × LinkState
unfolding require_address
create_link_nonce decimal iso drawn now user_id address_raw chain_id s =
    elim (require_address address_raw) [
      | err e ↦ (err e, s)
      | ok address ↦ elim (find_row (is_row_of drawn) s.nonces) [
        | some _ ↦ (err duplicate_key, s)
        | none ↦
            let message = message_to_sign address (decimal chain_id) drawn (iso now) in
            (
              ok (drawn, message),
              record s {
                nonces =
                    s.nonces
                    ++ ((record {
                      user_id = user_id;
                      address = address;
                      nonce = drawn;
                      message = message;
                      used = false;
                      expires_at = now + 300000;
                    })
                        ∷ []);
              },
            )
      ]
    ]

-- 132 characters that begin with "0x"
abbrev pub is_ecdsa : Text → Bool
is_ecdsa (a ∷ b ∷ s) = a == b'0' && b == b'x' && length s == 130
is_ecdsa _ = false

-- `{ userId, address, message, used: false }`
abbrev pub is_open_nonce : ℕ → Text → Text → WalletLinkNonce → Bool
is_open_nonce user_id address message row =
    row.user_id == user_id
    && text_eq row.address address
    && text_eq row.message message
    && not row.used

-- The row of the nonce, once its signature is that of the address.
unfoldable pub check_link :
    (Text → Text → Option Text)
    → ℕ
    → ℕ
    → Text
    → Text
    → Text
    → LinkState
    → Result LinkError WalletLinkNonce
check_link recover now user_id address message signature s = do
  throw_if (not (is_ecdsa signature)) unsupported_signature
  row ← or_throw nonce_not_found (find_row (is_open_nonce user_id address message) s.nonces)
  throw_if (ltb row.expires_at now) nonce_expired
  recovered ← or_throw invalid_signature (recover message signature)
  throw_if (not (text_eq (map to_lower recovered) address)) signature_mismatch
  ok row

abbrev pub used_row : WalletLinkNonce → WalletLinkNonce
used_row row = record row { used = true }

-- The statement that spends a nonce that is not used.
abbrev pub consume_nonce : Text → LinkState → LinkState
consume_nonce nonce s = record s { nonces = update_rows (is_unused nonce) used_row s.nonces }

abbrev pub is_linked : Text → LinkedExternalWallet → Bool
is_linked address row = text_eq row.address address

abbrev pub linked_wallet : ℕ → Text → ℕ → ℕ → LinkedExternalWallet
linked_wallet user_id address chain_id now = record {
  user_id = user_id;
  address = address;
  chain_id = chain_id;
  verified_at = now;
}

-- After the nonce is spent: an address of another user is refused, and a new one is linked.
abbrev pub link : ℕ → Text → ℕ → ℕ → LinkState → Result LinkError (Text × ℕ) × LinkState
link user_id address chain_id now s = elim (find_row (is_linked address) s.linked) [
  | some existing ↦
      if not (existing.user_id == user_id)
      then (err linked_to_another, s)
      else (ok (address, existing.verified_at), s)
  | none ↦ (
    ok (address, now),
    record s { linked = s.linked ++ (linked_wallet user_id address chain_id now ∷ []) },
  )
]

unfoldable pub verify :
    (Text → Text → Option Text)
    → ℕ
    → ℕ
    → Option Text
    → ℕ
    → Text
    → Text
    → LinkState
    → Result LinkError (Text × ℕ) × LinkState
unfolding require_address check_link
verify recover now user_id address_raw chain_id message signature s =
    elim (require_address address_raw) [
      | err e ↦ (err e, s)
      | ok address ↦ elim (check_link recover now user_id address message signature s) [
        | err e ↦ (err e, s)
        | ok row ↦ elim (find_row (is_unused row.nonce) s.nonces) [
          | none ↦ (err nonce_already_used, s)
          | some _ ↦ link user_id address chain_id now (consume_nonce row.nonce s)
        ]
      ]
    ]

abbrev is_stale : ℕ → WalletLinkSession → Bool
is_stale now row = elim row.token_expires_at [ none ↦ false | some end ↦ ltb end now ]

abbrev no_token : WalletLinkSession → WalletLinkSession
no_token row = record row { token = none; token_expires_at = none }

unfoldable pub cleanup : ℕ → LinkState → LinkState
cleanup now s = record s {
  nonces = delete_rows (λ row. ltb row.expires_at now) s.nonces;
  sessions = update_rows (is_stale now) no_token s.sessions;
}
