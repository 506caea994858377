-- ===== src/Cctp/Message/Hex.antt =====
-- Hexadecimal text and bytes.
use lendoor_stellar.Common.{
  ℕ, ◌/◌, ◌%◌, ◌<◌, ◌≡◌, refl, true, List, [], ◌∷◌, Text, All, length, arith, ok, ◌==◌, ap,
  cons_path,
}
use lendoor_stellar.Cctp.Message.{
  hex_value, hex_digit, is_hex_digit, all_hex, from_hex, to_hex, strip_0x, hex_to_bytes,
  bytes_to_hex,
}

abbrev pub IsBytes : List ℕ → Type 0
IsBytes = All (λ b. b < 256)

hex_digit-IsHexDigit : (v : ℕ) → v < 16 → is_hex_digit (hex_digit v) ≡ true
unfolding is_hex_digit hex_digit
hex_digit-IsHexDigit v h = ground arith

hex_value-hex_digit : (v : ℕ) → v < 16 → hex_value (hex_digit v) ≡ v
unfolding hex_value hex_digit
hex_value-hex_digit v h = ground arith

all_hex-to_hex : (bs : List ℕ) → IsBytes bs → all_hex (to_hex bs) ≡ true
unfolding all_hex to_hex
all_hex-to_hex [] h = refl
all_hex-to_hex (b ∷ bs) (k, h) =
    rw (hex_digit-IsHexDigit (b / 16) (omega arith), hex_digit-IsHexDigit (b % 16) (omega arith))
      (all_hex-to_hex bs h)

length-to_hex : (bs : List ℕ) → length (to_hex bs) % 2 ≡ 0
unfolding to_hex
length-to_hex [] = refl
length-to_hex (b ∷ bs) = omega (arith, length-to_hex bs)

from_hex-to_hex : (bs : List ℕ) → IsBytes bs → from_hex (to_hex bs) ≡ bs
unfolding from_hex to_hex
from_hex-to_hex [] h = refl
from_hex-to_hex (b ∷ bs) (k, h) =
    cons_path
      (omega (
        arith,
        hex_value-hex_digit (b / 16) (omega arith),
        hex_value-hex_digit (b % 16) (omega arith),
      ))
      (from_hex-to_hex bs h)

-- Decoding the text that encodes some bytes gives these bytes back.
pub hex_to_bytes-bytes_to_hex : (bs : List ℕ) → IsBytes bs → hex_to_bytes (bytes_to_hex bs) ≡ ok bs
unfolding hex_to_bytes bytes_to_hex
hex_to_bytes-bytes_to_hex bs h =
    rw (ap (λ n. n == 0) (length-to_hex bs), all_hex-to_hex bs h, from_hex-to_hex bs h)

hex_value-lt : (c : ℕ) → is_hex_digit c ≡ true → hex_value c < 16
unfolding is_hex_digit hex_value
hex_value-lt c h = ground arith

from_hex-IsBytes : (s : Text) → all_hex s ≡ true → IsBytes (from_hex s)
unfolding from_hex all_hex
from_hex-IsBytes [] h = tt
from_hex-IsBytes (a ∷ []) h = tt
from_hex-IsBytes (a ∷ b ∷ s) h = ground (arith, hex_value-lt a, hex_value-lt b, from_hex-IsBytes s)

-- Whatever the text, what is decoded is a list of bytes.
pub hex_to_bytes-IsBytes : (s : Text) (bs : List ℕ) → hex_to_bytes s ≡ ok bs → IsBytes bs
unfolding hex_to_bytes
hex_to_bytes-IsBytes s bs h = ground (arith, from_hex-IsBytes (strip_0x s))
