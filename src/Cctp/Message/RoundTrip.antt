-- ===== src/Cctp/Message/RoundTrip.antt =====
-- Parsing a message that is laid out as Circle documents gives back every field.
use lendoor_stellar.Common.{
  ℕ, ◌+◌, ◌<◌, ◌^◌, ◌≡◌, refl, List, ◌++◌, length, take, drop, drop-field, take-field, arith, ap,
  ◌∙◌, ok, ltb, false, length-append,
}
use lendoor_stellar.Cctp.Message.{
  Header, BurnBody, u32, u256, u256_loop, set_uint32, bytes_to_hex, parse_header, burn_body_of,
  parse_cctp_burn_body, parse_cctp_message,
}
use lendoor_stellar.Cctp.Message.Hex.{hex_to_bytes-bytes_to_hex}
use lendoor_stellar.Cctp.Message.Layout.{
  be_bytes, length-be_bytes, encode_header, encode_body, IsBytes32, IsHeader, IsBody,
  u32-set_uint32, u256_loop-field, IsBytes-encode_body, IsBytes-encode_header,
}

-- Four fields of 32 bytes in a row, and what follows them.
module _ (a b c d t : List ℕ) (ha : length a ≡ 32) (hb : length b ≡ 32) (hc : length c ≡ 32)
    (hd : length d ≡ 32) where
  abbrev blocks : List ℕ
  blocks = a ++ (b ++ (c ++ (d ++ t)))

  drop-1 : drop 32 blocks ≡ b ++ (c ++ (d ++ t))
  drop-1 = drop-field 32 0 a _ ha

  drop-2 : drop 64 blocks ≡ c ++ (d ++ t)
  drop-2 = drop-field 32 32 a _ ha ∙ drop-field 32 0 b _ hb

  drop-3 : drop 96 blocks ≡ d ++ t
  drop-3 = drop-field 32 64 a _ ha ∙ drop-field 32 32 b _ hb ∙ drop-field 32 0 c _ hc

  drop-4 : (k : ℕ) → drop (32 + (32 + (32 + (32 + k)))) blocks ≡ drop k t
  drop-4 k =
      drop-field 32 (32 + (32 + (32 + k))) a _ ha
      ∙ drop-field 32 (32 + (32 + k)) b _ hb
      ∙ drop-field 32 (32 + k) c _ hc
      ∙ drop-field 32 k d t hd

  take-1 : take 32 blocks ≡ a
  take-1 = take-field 32 a _ ha

  take-2 : take 32 (drop 32 blocks) ≡ b
  take-2 = ap (take 32) drop-1 ∙ take-field 32 b _ hb

  take-3 : take 32 (drop 64 blocks) ≡ c
  take-3 = ap (take 32) drop-2 ∙ take-field 32 c _ hc

  take-4 : take 32 (drop 96 blocks) ≡ d
  take-4 = ap (take 32) drop-3 ∙ take-field 32 d t hd

-- Reading a number at an offset where its field stands.
u32-at :
    (bytes : List ℕ) (offset v : ℕ) (rest : List ℕ)
    → drop offset bytes ≡ set_uint32 v ++ rest
    → v < 2 ^ 32
    → u32 bytes offset ≡ v
unfolding u32
u32-at bytes offset v rest e h = rw e (u32-set_uint32 v rest h)

u256-at :
    (bytes : List ℕ) (offset v : ℕ) (rest : List ℕ)
    → drop offset bytes ≡ be_bytes 32 v ++ rest
    → v < 256 ^ 32
    → u256 bytes offset ≡ v
unfolding u256
u256-at bytes offset v rest e h = ap (λ bs. u256_loop 32 bs 0) e ∙ u256_loop-field v rest h

parse_header-encode_header :
    (h : Header) (nonce rest : List ℕ)
    → IsHeader h
    → IsBytes32 nonce
    → parse_header (encode_header h nonce rest) ≡ record h { nonce = bytes_to_hex nonce }
unfolding parse_header encode_header set_uint32
parse_header-encode_header h nonce rest k n =
    let hn = n.0 in
    let hs = k.sender.0 in
    let hr = k.recipient.0 in
    let hd = k.destination_caller.0 in
    let bytes = encode_header h nonce rest in
    let tail =
      set_uint32 h.min_finality_threshold ++ (set_uint32 h.finality_threshold_executed ++ rest) in
    let after =
      λ (m : ℕ). drop-4 nonce h.sender h.recipient h.destination_caller tail hn hs hr hd m in
    λ i. record {
      version = u32-at bytes 0 h.version _ refl k.version i;
      source_domain = u32-at bytes 4 h.source_domain _ refl k.source_domain i;
      destination_domain = u32-at bytes 8 h.destination_domain _ refl k.destination_domain i;
      nonce =
          bytes_to_hex (take-1 nonce h.sender h.recipient h.destination_caller tail hn hs hr hd i);
      sender = take-2 nonce h.sender h.recipient h.destination_caller tail hn hs hr hd i;
      recipient = take-3 nonce h.sender h.recipient h.destination_caller tail hn hs hr hd i;
      destination_caller =
          take-4 nonce h.sender h.recipient h.destination_caller tail hn hs hr hd i;
      min_finality_threshold =
          u32-at bytes 140 h.min_finality_threshold _ (after 0) k.min_finality_threshold i;
      finality_threshold_executed =
          u32-at bytes 144 h.finality_threshold_executed _ (after 4) k.finality_threshold_executed
            i;
    }

length-field :
    (n k : ℕ) (xs ys : List ℕ) → length xs ≡ n → length ys ≡ k → length (xs ++ ys) ≡ n + k
length-field n k xs ys e f = omega (arith, length-append xs ys, e, f)

length-encode_body : (b : BurnBody) → IsBody b → length (encode_body b) ≡ 228 + length b.hook_data
unfolding encode_body set_uint32
length-encode_body b h = omega (
  arith,
  length-append {0},
  h.burn_token.0,
  h.mint_recipient.0,
  h.message_sender.0,
  length-be_bytes,
)

burn_body_of-encode_body : (b : BurnBody) → IsBody b → burn_body_of (encode_body b) ≡ b
unfolding burn_body_of encode_body set_uint32
burn_body_of-encode_body b h =
    let ht = h.burn_token.0 in
    let hr = h.mint_recipient.0 in
    let ha = length-be_bytes 32 b.amount in
    let hs = h.message_sender.0 in
    let hm = length-be_bytes 32 b.max_fee in
    let hf = length-be_bytes 32 b.fee_executed in
    let he = length-be_bytes 32 b.expiration_block in
    let amount = be_bytes 32 b.amount in
    let fee = be_bytes 32 b.max_fee in
    let executed = be_bytes 32 b.fee_executed in
    let expiration = be_bytes 32 b.expiration_block in
    let tail = fee ++ (executed ++ (expiration ++ b.hook_data)) in
    let bytes = encode_body b in
    let after =
      λ (m : ℕ). drop-4 b.burn_token b.mint_recipient amount b.message_sender tail ht hr ha hs m in
    λ i. record {
      version = u32-at bytes 0 b.version _ refl h.version i;
      burn_token = take-1 b.burn_token b.mint_recipient amount b.message_sender tail ht hr ha hs i;
      mint_recipient =
          take-2 b.burn_token b.mint_recipient amount b.message_sender tail ht hr ha hs i;
      amount =
          u256-at bytes 68 b.amount _
            (drop-2 b.burn_token b.mint_recipient amount b.message_sender tail ht hr ha hs) h.amount
            i;
      message_sender =
          take-4 b.burn_token b.mint_recipient amount b.message_sender tail ht hr ha hs i;
      max_fee = u256-at bytes 132 b.max_fee _ (after 0) h.max_fee i;
      fee_executed =
          u256-at bytes 164 b.fee_executed _ (after 32 ∙ drop-field 32 0 fee _ hm) h.fee_executed i;
      expiration_block =
          u256-at bytes 196 b.expiration_block _
            (after 64 ∙ drop-field 32 32 fee _ hm ∙ drop-field 32 0 executed _ hf)
            h.expiration_block i;
      hook_data =
          (after 96
              ∙ drop-field 32 64 fee _ hm
              ∙ drop-field 32 32 executed _ hf
              ∙ drop-field 32 0 expiration b.hook_data he)
            i;
    }

parse_cctp_burn_body-encode_body :
    (b : BurnBody) → IsBody b → parse_cctp_burn_body (encode_body b) ≡ ok b
unfolding parse_cctp_burn_body
parse_cctp_burn_body-encode_body b h =
    let long : ltb (length (encode_body b)) 228 ≡ false = ground (arith, length-encode_body b h) in
    rw long (ap ok (burn_body_of-encode_body b h))

length-encode_header :
    (h : Header) (nonce rest : List ℕ)
    → IsHeader h
    → IsBytes32 nonce
    → length (encode_header h nonce rest) ≡ 148 + length rest
unfolding encode_header set_uint32
length-encode_header h nonce rest k n =
    omega (arith, length-append {0}, n.0, k.sender.0, k.recipient.0, k.destination_caller.0)

drop-header :
    (h : Header) (nonce rest : List ℕ)
    → IsHeader h
    → IsBytes32 nonce
    → drop 148 (encode_header h nonce rest) ≡ rest
unfolding encode_header set_uint32
drop-header h nonce rest k n =
    drop-4 nonce h.sender h.recipient h.destination_caller _ n.0 k.sender.0 k.recipient.0
      k.destination_caller.0 8

-- A message that is laid out as Circle documents, from a header whose 32-bit fields and 32-byte
-- fields fit, a 32-byte nonce and a body that fits, parses to exactly this header, with the nonce in
-- hexadecimal, and this body, hook data included.
pub parse_cctp_message-encode :
    (h : Header) (nonce : List ℕ) (b : BurnBody)
    → IsHeader h
    → IsBytes32 nonce
    → IsBody b
    → parse_cctp_message (bytes_to_hex (encode_header h nonce (encode_body b)))
      ≡ ok (record h { nonce = bytes_to_hex nonce }, b)
unfolding parse_cctp_message
parse_cctp_message-encode h nonce b k n w =
    let bytes = encode_header h nonce (encode_body b) in
    let size = length-encode_header h nonce (encode_body b) k n in
    let long : ltb (length bytes) 148 ≡ false = ground (arith, size) in
    let decoded =
      hex_to_bytes-bytes_to_hex bytes
        (IsBytes-encode_header h nonce (encode_body b) k n.1 (IsBytes-encode_body b w)) in
    rw (
      decoded,
      long,
      drop-header h nonce (encode_body b) k n,
      parse_cctp_burn_body-encode_body b w,
      parse_header-encode_header h nonce (encode_body b) k n,
    )
