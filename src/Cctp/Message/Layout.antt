-- ===== src/Cctp/Message/Layout.antt =====
-- The layout of a CCTP V2 message, as the header comment of cctp-message.ts gives it, written down
-- as an encoder that the parser is compared with.
use lendoor_stellar.Common.{
  ℕ, zero, suc, ◌+◌, ◌*◌, ◌/◌, ◌%◌, ◌^◌, ◌<◌, ◌≡◌, refl, List, [], ◌∷◌, ◌++◌, length, arith, ap,
  ◌∙◌, All-append,
}
use native.Mathlib.Nat.{pow-suc, div-div-eq-div-mul, div-add-mod, mod-eq_of_lt}
use lendoor_stellar.Cctp.Message.{Header, BurnBody, u32, u256_loop, set_uint32}
use lendoor_stellar.Cctp.Message.Hex.{IsBytes}

-- The last `n` base-256 digits of a number, the highest first.
unfoldable pub be_bytes : ℕ → ℕ → List ℕ
be_bytes zero v = []
be_bytes (suc n) v = (v / 256 ^ n % 256) ∷ be_bytes n v

pub length-be_bytes : (n v : ℕ) → length (be_bytes n v) ≡ n
unfolding be_bytes
length-be_bytes zero v = refl
length-be_bytes (suc n) v = omega (arith, length-be_bytes n v)

-- version | sourceDomain | destinationDomain | nonce | sender | recipient | destinationCaller |
-- minFinalityThreshold | finalityThresholdExecuted
unfoldable pub encode_header : Header → List ℕ → List ℕ → List ℕ
encode_header h nonce rest =
    set_uint32 h.version
    ++ (set_uint32 h.source_domain
        ++ (set_uint32 h.destination_domain
            ++ (nonce
                ++ (h.sender
                    ++ (h.recipient
                        ++ (h.destination_caller
                            ++ (set_uint32 h.min_finality_threshold
                                ++ (set_uint32 h.finality_threshold_executed ++ rest))))))))

-- version | burnToken | mintRecipient | amount | messageSender | maxFee | feeExecuted |
-- expirationBlock | hookData
unfoldable pub encode_body : BurnBody → List ℕ
encode_body b =
    set_uint32 b.version
    ++ (b.burn_token
        ++ (b.mint_recipient
            ++ (be_bytes 32 b.amount
                ++ (b.message_sender
                    ++ (be_bytes 32 b.max_fee
                        ++ (be_bytes 32 b.fee_executed
                            ++ (be_bytes 32 b.expiration_block ++ b.hook_data)))))))

abbrev pub IsBytes32 : List ℕ → Type 0
IsBytes32 bs = (length bs ≡ 32) × IsBytes bs

pub record IsHeader (h : Header) : Type 0 where
  pub version : h.version < 2 ^ 32
  pub source_domain : h.source_domain < 2 ^ 32
  pub destination_domain : h.destination_domain < 2 ^ 32
  pub sender : IsBytes32 h.sender
  pub recipient : IsBytes32 h.recipient
  pub destination_caller : IsBytes32 h.destination_caller
  pub min_finality_threshold : h.min_finality_threshold < 2 ^ 32
  pub finality_threshold_executed : h.finality_threshold_executed < 2 ^ 32

pub record IsBody (b : BurnBody) : Type 0 where
  pub version : b.version < 2 ^ 32
  pub burn_token : IsBytes32 b.burn_token
  pub mint_recipient : IsBytes32 b.mint_recipient
  pub amount : b.amount < 256 ^ 32
  pub message_sender : IsBytes32 b.message_sender
  pub max_fee : b.max_fee < 256 ^ 32
  pub fee_executed : b.fee_executed < 256 ^ 32
  pub expiration_block : b.expiration_block < 256 ^ 32
  pub hook_data : IsBytes b.hook_data

-- A written 32-bit field is read back at its offset.
pub u32-set_uint32 : (v : ℕ) (rest : List ℕ) → v < 2 ^ 32 → u32 (set_uint32 v ++ rest) 0 ≡ v
unfolding u32 set_uint32
u32-set_uint32 v rest h = omega arith

mod_digits : (v d : ℕ) → v % (d * 256) ≡ v / d % 256 * d + v % d
mod_digits v d = omega (
  arith,
  div-add-mod v (d * 256),
  ap (λ (t : ℕ). d * t) (div-add-mod (v / d) 256),
  div-add-mod v d,
  ap (λ (t : ℕ). d * 256 * t) (div-div-eq-div-mul v d 256),
)

-- The loop reads the digits that `be_bytes` writes.
pub u256_loop-be_bytes :
    (n v acc : ℕ) (rest : List ℕ)
    → u256_loop n (be_bytes n v ++ rest) acc ≡ acc * 256 ^ n + v % 256 ^ n
unfolding u256_loop be_bytes
u256_loop-be_bytes zero v acc rest = omega arith
u256_loop-be_bytes (suc n) v acc rest =
    u256_loop-be_bytes n v (acc * 2 ^ 8 + v / 256 ^ n % 256) rest
    ∙ rw (pow-suc 256 n) (omega (arith, mod_digits v (256 ^ n)))

-- A written 256-bit field is read back.
pub u256_loop-field :
    (v : ℕ) (rest : List ℕ) → v < 256 ^ 32 → u256_loop 32 (be_bytes 32 v ++ rest) 0 ≡ v
u256_loop-field v rest h = u256_loop-be_bytes 32 v 0 rest ∙ omega (arith, mod-eq_of_lt h)

pub IsBytes-set_uint32 : (v : ℕ) (rest : List ℕ) → IsBytes rest → IsBytes (set_uint32 v ++ rest)
unfolding set_uint32
IsBytes-set_uint32 v rest h = (omega arith, (omega arith, (omega arith, (omega arith, h))))

IsBytes-be_bytes : (n v : ℕ) (rest : List ℕ) → IsBytes rest → IsBytes (be_bytes n v ++ rest)
unfolding be_bytes
IsBytes-be_bytes zero v rest h = h
IsBytes-be_bytes (suc n) v rest h = (omega arith, IsBytes-be_bytes n v rest h)

IsBytes-append : (xs ys : List ℕ) → IsBytes xs → IsBytes ys → IsBytes (xs ++ ys)
IsBytes-append = All-append (λ b. b < 256)

pub IsBytes-encode_body : (b : BurnBody) → IsBody b → IsBytes (encode_body b)
unfolding encode_body
IsBytes-encode_body b h = IsBytes-set_uint32 b.version _ (
    IsBytes-append b.burn_token _ h.burn_token.1 (
      IsBytes-append b.mint_recipient _ h.mint_recipient.1 (
        IsBytes-be_bytes 32 b.amount _ (
          IsBytes-append b.message_sender _ h.message_sender.1 (
            IsBytes-be_bytes 32 b.max_fee _ (
              IsBytes-be_bytes 32 b.fee_executed _
                (IsBytes-be_bytes 32 b.expiration_block _ h.hook_data)))))))

pub IsBytes-encode_header :
    (h : Header) (nonce rest : List ℕ)
    → IsHeader h
    → IsBytes nonce
    → IsBytes rest
    → IsBytes (encode_header h nonce rest)
unfolding encode_header
IsBytes-encode_header h nonce rest k n r = IsBytes-set_uint32 h.version _ (
    IsBytes-set_uint32 h.source_domain _ (
      IsBytes-set_uint32 h.destination_domain _ (
        IsBytes-append nonce _ n (
          IsBytes-append h.sender _ k.sender.1 (
            IsBytes-append h.recipient _ k.recipient.1 (
              IsBytes-append h.destination_caller _ k.destination_caller.1 (
                IsBytes-set_uint32 h.min_finality_threshold _
                  (IsBytes-set_uint32 h.finality_threshold_executed rest r))))))))
