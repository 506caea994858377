-- ===== src/Cctp/Strkey.antt =====
-- What the bridge uses of @stellar/stellar-sdk, which is not in this repository: the checks and the
-- decoding of `StrKey`, when `new Address(a)` does not throw, and when `nativeToScVal(n, { type:
-- 'i128' })` does not.
use lendoor_stellar.Common.{ℕ, ◌<◌, ◌≡◌, Bool, true, ◌||◌, List, Text, length}
use lendoor_stellar.Cctp.Utf8.{IsAscii}

pub record StrKey : Type 0 where
  pub is_valid_ed25519_public_key : Text → Bool
  pub is_valid_contract : Text → Bool
  pub is_valid_med25519_public_key : Text → Bool
  pub decode_contract : Text → List ℕ
  pub is_address : Text → Bool
  pub fits_i128 : ℕ → Bool

-- A G, C or M address.
abbrev pub is_stellar_address : StrKey → Text → Bool
is_stellar_address k a =
    k.is_valid_ed25519_public_key a || k.is_valid_contract a || k.is_valid_med25519_public_key a

-- SEP-23, strkeys: base 32 text of at most 69 characters.
pub record IsStrKey (k : StrKey) : Type 0 where
  pub ascii : (a : Text) → is_stellar_address k a ≡ true → IsAscii a
  pub short : (a : Text) → is_stellar_address k a ≡ true → length a < 70
