-- ===== src/Wallet.antt =====
-- Wallet addresses: backend/src/common/stellar-strkey.ts and backend/src/common/normalize-wallet.ts.
-- JavaScript's bitwise operators work on 32 bits, which is written out; the bytes of a `Buffer` are
-- numbers below 256, and those of the CRC register stay below 2 ^ 16 by its masks.
pub mod Canonical
use lendoor_stellar.Common.{
  ℕ, zero, suc, ◌+◌, ◌-◌, ◌*◌, ◌/◌, ◌%◌, ◌^◌, Bool, true, false, not, ◌&&◌, ◌||◌, Option, none,
  some, List, [], ◌∷◌, map, Text, leb, ltb, ◌==◌, if◌then◌else◌, length, take, drop, get_or, Result,
  ok, err,
}

-- BASE32_ALPHABET.indexOf
unfoldable pub base32_index : ℕ → Option ℕ
base32_index c =
    if leb b'A' c && leb c b'Z'
    then some (c - b'A')
    else if leb b'2' c && leb c b'7'
    then some (c - 24)
    else none

-- The loop of decodeBase32: the value, the number of bits in it, and the characters left.
unfoldable pub base32_loop : ℕ → ℕ → Text → Option (List ℕ)
unfolding base32_index
base32_loop value bits [] = some []
base32_loop value bits (c ∷ s) = elim (base32_index c) [
  | none ↦ none
  | some idx ↦
      let value' = (value * 32 + idx) % 2 ^ 32 in
      let bits' = bits + 5 in
      elim (base32_loop value' (if leb 8 bits' then bits' - 8 else bits') s) [
        | none ↦ none
        | some rest ↦ some (if leb 8 bits' then (value' / 2 ^ (bits' - 8) % 256) ∷ rest else rest)
      ]
]

unfoldable pub decode_base32 : Text → Option (List ℕ)
unfolding base32_loop
decode_base32 input = base32_loop 0 0 input

-- `a ^ b` on the low `w` bits
abbrev pub xor_bits : ℕ → ℕ → ℕ → ℕ
xor_bits zero a b = 0
xor_bits (suc w) a b = (a + b) % 2 + 2 * xor_bits w (a / 2) (b / 2)

-- One of the eight rounds on a byte.
abbrev pub crc_round : ℕ → ℕ
crc_round crc = if leb 32768 crc then xor_bits 16 (crc * 2 % 65536) 4129 else crc * 2 % 65536

abbrev pub crc_rounds : ℕ → ℕ → ℕ
crc_rounds zero crc = crc
crc_rounds (suc n) crc = crc_rounds n (crc_round crc)

abbrev pub crc_loop : ℕ → List ℕ → ℕ
crc_loop crc [] = crc
crc_loop crc (byte ∷ bytes) = crc_loop (crc_rounds 8 (xor_bits 16 crc (byte * 256))) bytes

unfoldable pub crc16_xmodem : List ℕ → ℕ
crc16_xmodem bytes = crc_loop 0 bytes

-- `none` stands for the error that the caller catches.
unfoldable pub decode_stellar_public_key : Text → Option (List ℕ)
unfolding decode_base32 crc16_xmodem
decode_stellar_public_key account_id = elim (decode_base32 account_id) [
  | none ↦ none
  | some decoded ↦
      if not (length decoded == 35)
      then none
      else if not (get_or decoded 0 0 == 48)
      then none
      else if not
          (get_or decoded 33 0 + 256 * get_or decoded 34 0 == crc16_xmodem (take 33 decoded))
      then none
      else some (take 32 (drop 1 decoded))
]

abbrev pub is_some {ℓ} : {A : Type ℓ} → Option A → Bool
is_some none = false
is_some (some _) = true

unfoldable pub is_valid_stellar_public_key : Text → Bool
unfolding decode_stellar_public_key
is_valid_stellar_public_key account_id = is_some (decode_stellar_public_key account_id)

-- The white space that `String.prototype.trim` removes.
unfoldable pub is_space : ℕ → Bool
is_space c =
    (leb 9 c && leb c 13)
    || c == 32
    || c == 160
    || c == 5760
    || (leb 8192 c && leb c 8202)
    || c == 8232
    || c == 8233
    || c == 8239
    || c == 8287
    || c == 12288
    || c == 65279

unfoldable pub trim_start : Text → Text
unfolding is_space
trim_start [] = []
trim_start (c ∷ s) = if is_space c then trim_start s else c ∷ s

unfoldable pub cons_unless_blank : ℕ → Text → Text
unfolding is_space
cons_unless_blank c [] = if is_space c then [] else c ∷ []
cons_unless_blank c (d ∷ s) = c ∷ d ∷ s

unfoldable pub trim_end : Text → Text
unfolding cons_unless_blank
trim_end [] = []
trim_end (c ∷ s) = cons_unless_blank c (trim_end s)

unfoldable pub trim : Text → Text
unfolding trim_start trim_end
trim s = trim_end (trim_start s)

unfoldable pub is_hex : ℕ → Bool
is_hex c = (leb b'0' c && leb c b'9') || (leb b'a' c && leb c b'f') || (leb b'A' c && leb c b'F')

unfoldable pub all_chars : (ℕ → Bool) → Text → Bool
all_chars p [] = true
all_chars p (c ∷ s) = p c && all_chars p s

-- EVM_WALLET_ADDRESS_PATTERN: "0x" and 40 hexadecimal digits
unfoldable pub is_evm_address : Text → Bool
unfolding all_chars is_hex
is_evm_address (a ∷ b ∷ s) = a == b'0' && b == b'x' && length s == 40 && all_chars is_hex s
is_evm_address _ = false

-- `toLowerCase` on ASCII, which is all that the pattern lets through.
abbrev pub to_lower : ℕ → ℕ
to_lower c = if leb b'A' c && leb c b'Z' then c + 32 else c

-- The exception that these functions throw.
pub data WalletError : Type 0 where
  invalid_wallet_address : WalletError

unfoldable pub normalize_wallet : Text → Result WalletError Text
unfolding trim is_evm_address is_valid_stellar_public_key
normalize_wallet addr =
    let w = trim addr in
    if is_evm_address w
    then ok (map to_lower w)
    else if is_valid_stellar_public_key w
    then ok w
    else err invalid_wallet_address

-- normalizeWalletOrNull, on an address that may be missing
unfoldable pub normalize_wallet_or_null : Option Text → Option Text
unfolding normalize_wallet trim
normalize_wallet_or_null none = none
normalize_wallet_or_null (some addr) = elim (trim addr) [
  | [] ↦ none
  | c ∷ s ↦ elim (normalize_wallet (c ∷ s)) [ ok w ↦ some w | err _ ↦ none ]
]
