-- ===== src/Cctp/Message.antt =====
-- backend/src/cctp/cctp-message.ts: hexadecimal text, the CCTP V2 message, the forwarder's hook
-- data, and the guard on the forwarder's fields. A `Uint8Array` is a list of numbers below 256.
pub mod Hex
pub mod Layout
pub mod RoundTrip
pub mod Hook
use lendoor_stellar.Common.{
  ℕ, zero, suc, ◌+◌, ◌-◌, ◌*◌, ◌/◌, ◌%◌, ◌^◌, Bool, true, false, not, ◌&&◌, ◌||◌, List, [], ◌∷◌,
  ◌++◌, Text, codes, text_eq, leb, ltb, ◌==◌, if◌then◌else◌, length, get_or, take, drop, replicate,
  Result, ok, err, ◌>>=◌, ◌>>◌, throw_if,
}
use lendoor_stellar.Cctp.Errors.{
  MessageError, not_hex, short_body, short_message, not_stellar_address, short_hook, hook_length,
  not_contract, bad_mint_recipient, bad_destination_caller,
}
use lendoor_stellar.Cctp.Utf8.{utf8_encode, utf8_decode}
use lendoor_stellar.Cctp.Strkey.{StrKey, is_stellar_address}

pub record Header : Type 0 where
  pub version : ℕ
  pub source_domain : ℕ
  pub destination_domain : ℕ
  pub nonce : Text
  pub sender : List ℕ
  pub recipient : List ℕ
  pub destination_caller : List ℕ
  pub min_finality_threshold : ℕ
  pub finality_threshold_executed : ℕ

pub record BurnBody : Type 0 where
  pub version : ℕ
  pub burn_token : List ℕ
  pub mint_recipient : List ℕ
  pub amount : ℕ
  pub message_sender : List ℕ
  pub max_fee : ℕ
  pub fee_executed : ℕ
  pub expiration_block : ℕ
  pub hook_data : List ℕ

abbrev pub header_bytes : ℕ
header_bytes = 148

abbrev pub body_fixed_bytes : ℕ
body_fixed_bytes = 228

-- `bytes.slice(from, to)` and `bytes.slice(from)` is `drop from bytes`
abbrev pub slice : List ℕ → ℕ → ℕ → List ℕ
slice bytes from to = take (to - from) (drop from bytes)

-- The four shifted bytes have no bit in common, so `|` adds them; `>>> 0` reads them modulo 2^32.
unfoldable pub u32 : List ℕ → ℕ → ℕ
u32 bytes offset =
    (get_or (drop offset bytes) 0 0 * 2 ^ 24
      + get_or (drop offset bytes) 1 0 * 2 ^ 16
      + get_or (drop offset bytes) 2 0 * 2 ^ 8
      + get_or (drop offset bytes) 3 0)
    % 2 ^ 32

-- The loop of `u256` with `n` rounds left, on the bytes from its index on.
pub u256_loop : ℕ → List ℕ → ℕ → ℕ
u256_loop zero bytes value = value
u256_loop (suc n) [] value = u256_loop n [] (value * 2 ^ 8)
u256_loop (suc n) (b ∷ bytes) value = u256_loop n bytes (value * 2 ^ 8 + b)

unfoldable pub u256 : List ℕ → ℕ → ℕ
unfolding u256_loop
u256 bytes offset = u256_loop 32 (drop offset bytes) 0

abbrev within : ℕ → ℕ → ℕ → Bool
within lo hi c = leb lo c && leb c hi

-- `/[0-9a-fA-F]/`
is_hex_digit : ℕ → Bool
is_hex_digit c = within b'0' b'9' c || within b'a' b'f' c || within b'A' b'F' c

all_hex : Text → Bool
unfolding is_hex_digit
all_hex [] = true
all_hex (c ∷ s) = is_hex_digit c && all_hex s

hex_value : ℕ → ℕ
hex_value c = if leb c b'9' then c - b'0' else if leb c b'F' then c - 55 else c - 87

-- `Buffer.from(clean, 'hex')` on an even number of digits
from_hex : Text → List ℕ
unfolding hex_value
from_hex (a ∷ b ∷ s) = (hex_value a * 16 + hex_value b) ∷ from_hex s
from_hex _ = []

strip_0x : Text → Text
strip_0x (a ∷ b ∷ s) = if a == b'0' && b == b'x' then s else a ∷ b ∷ s
strip_0x s = s

unfoldable pub hex_to_bytes : Text → Result MessageError (List ℕ)
unfolding strip_0x all_hex from_hex
hex_to_bytes hex =
    let clean = strip_0x hex in
    if not (length clean % 2 == 0) || not (all_hex clean) then err not_hex else ok (from_hex clean)

hex_digit : ℕ → ℕ
hex_digit v = if ltb v 10 then b'0' + v else 87 + v

-- `Buffer.toString('hex')`
to_hex : List ℕ → Text
unfolding hex_digit
to_hex [] = []
to_hex (b ∷ bytes) = hex_digit (b / 16) ∷ hex_digit (b % 16) ∷ to_hex bytes

unfoldable pub bytes_to_hex : List ℕ → Text
unfolding to_hex
bytes_to_hex bytes = b'0' ∷ b'x' ∷ to_hex bytes

-- The record that `parseCctpBurnBody` returns.
pub burn_body_of : List ℕ → BurnBody
unfolding u32 u256
burn_body_of body = record {
  version = u32 body 0;
  burn_token = slice body 4 36;
  mint_recipient = slice body 36 68;
  amount = u256 body 68;
  message_sender = slice body 100 132;
  max_fee = u256 body 132;
  fee_executed = u256 body 164;
  expiration_block = u256 body 196;
  hook_data = drop body_fixed_bytes body;
}

unfoldable pub parse_cctp_burn_body : List ℕ → Result MessageError BurnBody
unfolding burn_body_of
parse_cctp_burn_body body =
    if ltb (length body) body_fixed_bytes
    then err (short_body (length body))
    else ok (burn_body_of body)

unfoldable pub parse_header : List ℕ → Header
unfolding u32 bytes_to_hex
parse_header bytes = record {
  version = u32 bytes 0;
  source_domain = u32 bytes 4;
  destination_domain = u32 bytes 8;
  nonce = bytes_to_hex (slice bytes 12 44);
  sender = slice bytes 44 76;
  recipient = slice bytes 76 108;
  destination_caller = slice bytes 108 140;
  min_finality_threshold = u32 bytes 140;
  finality_threshold_executed = u32 bytes 144;
}

unfoldable pub parse_cctp_message : Text → Result MessageError (Header × BurnBody)
unfolding hex_to_bytes parse_header parse_cctp_burn_body
parse_cctp_message message_hex = do
  bytes ← hex_to_bytes message_hex
  throw_if (ltb (length bytes) header_bytes) (short_message (length bytes))
  body ← parse_cctp_burn_body (drop header_bytes bytes)
  ok (parse_header bytes, body)

abbrev pub hook_magic_bytes : ℕ
hook_magic_bytes = 24

abbrev pub hook_version : ℕ
hook_version = 0

abbrev pub hook_header_bytes : ℕ
hook_header_bytes = 32

-- `DataView.setUint32`, big-endian
unfoldable pub set_uint32 : ℕ → List ℕ
set_uint32 v = (v / 2 ^ 24 % 256) ∷ (v / 2 ^ 16 % 256) ∷ (v / 2 ^ 8 % 256) ∷ (v % 256) ∷ []

pub record HookData : Type 0 where
  pub version : ℕ
  pub forward_recipient : Text
  pub payload : List ℕ

-- `equalBytes`: equal lengths, and equal at every index
abbrev pub equal_bytes : List ℕ → List ℕ → Bool
equal_bytes = text_eq

module _ (keys : StrKey) where
  abbrev pub assert_stellar_address : Text → Result MessageError (Unit {0})
  assert_stellar_address addr =
      throw_if (not (is_stellar_address keys addr)) (not_stellar_address addr)

  unfoldable pub build_forwarder_hook_data : Text → List ℕ → Result MessageError (List ℕ)
  build_forwarder_hook_data forward_recipient payload = do
    assert_stellar_address forward_recipient
    let recipient_bytes = utf8_encode forward_recipient
    ok (
        replicate hook_magic_bytes 0
        ++ (set_uint32 hook_version
            ++ (set_uint32 (length recipient_bytes) ++ (recipient_bytes ++ payload))))

  unfoldable pub parse_forwarder_hook_data : List ℕ → Result MessageError HookData
  parse_forwarder_hook_data hook_data = do
    throw_if (ltb (length hook_data) hook_header_bytes) (short_hook (length hook_data))
    let version = u32 hook_data hook_magic_bytes
    let size = u32 hook_data (hook_magic_bytes + 4)
    throw_if (ltb (length hook_data) (hook_header_bytes + size)) hook_length
    let forward_recipient =
        utf8_decode (slice hook_data hook_header_bytes (hook_header_bytes + size))
    assert_stellar_address forward_recipient
    ok (record {
      version = version;
      forward_recipient = forward_recipient;
      payload = drop (hook_header_bytes + size) hook_data;
    })

  unfoldable pub contract_address_to_bytes32 : Text → Result MessageError (List ℕ)
  contract_address_to_bytes32 contract_id = do
    throw_if (not (keys.is_valid_contract contract_id)) (not_contract contract_id)
    ok (keys.decode_contract contract_id)

  unfoldable pub assert_forwarder_fields :
      (mint_recipient destination_caller : List ℕ) → Text → Result MessageError (Unit {0})
  unfolding contract_address_to_bytes32
  assert_forwarder_fields mint_recipient destination_caller forwarder_contract_id = do
    forwarder ← contract_address_to_bytes32 forwarder_contract_id
    throw_if (not (equal_bytes mint_recipient forwarder)) (bad_mint_recipient forwarder_contract_id)
    throw_if (not (equal_bytes destination_caller forwarder))
        (bad_destination_caller forwarder_contract_id)
