-- ===== src/Cctp/Message/Hook.antt =====
-- The forwarder's hook data, and the guard on the forwarder's fields.
use lendoor_stellar.Common.{
  ℕ, ◌+◌, ◌-◌, ◌<◌, ◌≡◌, refl, true, false, List, ◌++◌, Text, length, length-append, take, drop,
  drop-field, ◌>>=◌, drop-append, take-append, arith, ap, ◌∙◌, ok, ltb, text_eq_iff, ◌↔◌, replicate,
}
use lendoor_stellar.Cctp.Utf8.{utf8_encode_ascii, utf8_decode_ascii}
use lendoor_stellar.Cctp.Strkey.{StrKey, IsStrKey, is_stellar_address}
use lendoor_stellar.Cctp.Message.{
  u32, set_uint32, HookData, slice, build_forwarder_hook_data, parse_forwarder_hook_data,
  assert_forwarder_fields,
}

module _ (keys : StrKey) where
  -- The bytes of a hook, for a recipient that is its own encoding.
  hook_bytes : Text → List ℕ → List ℕ
  hook_bytes r payload =
      replicate 24 0 ++ (set_uint32 0 ++ (set_uint32 (length r) ++ (r ++ payload)))

  hook_size :
      (r : Text) (payload : List ℕ) → length r < 70 → u32 (hook_bytes r payload) 28 ≡ length r
  unfolding hook_bytes set_uint32 u32
  hook_size r payload h = omega arith

  hook_version_lem : (r : Text) (payload : List ℕ) → u32 (hook_bytes r payload) 24 ≡ 0
  unfolding hook_bytes set_uint32 u32
  hook_version_lem r payload = refl

  length-hook_bytes :
      (r : Text) (payload : List ℕ) → length (hook_bytes r payload) ≡ 32 + length r + length payload
  unfolding hook_bytes set_uint32
  length-hook_bytes r payload = omega (arith, length-append r payload)

  drop-hook_bytes :
      (r : Text) (payload : List ℕ) → drop (32 + length r) (hook_bytes r payload) ≡ payload
  unfolding hook_bytes set_uint32
  drop-hook_bytes r payload =
      let front = replicate 24 0 ++ (set_uint32 0 ++ set_uint32 (length r)) in
      drop-field 32 (length r) front (r ++ payload) refl ∙ drop-append r payload

  take-hook_bytes :
      (r : Text) (payload : List ℕ) → slice (hook_bytes r payload) 32 (32 + length r) ≡ r
  unfolding hook_bytes set_uint32
  take-hook_bytes r payload =
      let e : 32 + length r - 32 ≡ length r = omega arith in
      ap (λ n. take n (r ++ payload)) e ∙ take-append r payload

  build-hook_bytes :
      (r : Text) (payload : List ℕ)
      → IsStrKey keys
      → is_stellar_address keys r ≡ true
      → build_forwarder_hook_data keys r payload ≡ ok (hook_bytes r payload)
  unfolding hook_bytes build_forwarder_hook_data
  build-hook_bytes r payload k v = rw (v, utf8_encode_ascii r (k.ascii r v))

  parse-hook_bytes :
      (r : Text) (payload : List ℕ)
      → IsStrKey keys
      → is_stellar_address keys r ≡ true
      → parse_forwarder_hook_data keys (hook_bytes r payload)
        ≡ ok (record { version = 0; forward_recipient = r; payload = payload })
  unfolding parse_forwarder_hook_data
  parse-hook_bytes r payload k v =
      let size = length-hook_bytes r payload in
      let long : ltb (length (hook_bytes r payload)) 32 ≡ false = ground (arith, size) in
      let fits : ltb (length (hook_bytes r payload)) (32 + length r) ≡ false =
        ground (arith, size) in
      rw (
        long,
        hook_version_lem r payload,
        hook_size r payload (k.short r v),
        fits,
        take-hook_bytes r payload,
        utf8_decode_ascii r (k.ascii r v),
        v,
        drop-hook_bytes r payload,
      )

-- The hook data that is built for a valid Stellar address parses back to version 0, this address
-- and this payload.
pub parse-build_forwarder_hook_data :
    (keys : StrKey) (r : Text) (payload : List ℕ)
    → IsStrKey keys
    → is_stellar_address keys r ≡ true
    → (build_forwarder_hook_data keys r payload >>= parse_forwarder_hook_data keys)
      ≡ ok (record { version = 0; forward_recipient = r; payload = payload })
parse-build_forwarder_hook_data keys r payload k v =
    rw (build-hook_bytes keys r payload k v) (parse-hook_bytes keys r payload k v)

-- Hook data that parses names a valid Stellar address, whatever bytes it came from.
pub parse_forwarder_hook_data-IsAddress :
    (keys : StrKey) (bytes : List ℕ) (hook : HookData)
    → parse_forwarder_hook_data keys bytes ≡ ok hook
    → is_stellar_address keys hook.forward_recipient ≡ true
unfolding parse_forwarder_hook_data
parse_forwarder_hook_data-IsAddress keys bytes hook h = ground arith

-- The guard lets exactly those messages pass whose mint recipient and destination caller are both
-- the bytes of the forwarder, which must be a valid contract address.
pub assert_forwarder_fields_iff :
    (keys : StrKey) (mint caller : List ℕ) (forwarder : Text)
    → (assert_forwarder_fields keys mint caller forwarder ≡ ok tt) ↔ (
        (keys.is_valid_contract forwarder ≡ true)
        × (mint ≡ keys.decode_contract forwarder)
        × (caller ≡ keys.decode_contract forwarder))
unfolding assert_forwarder_fields
assert_forwarder_fields_iff keys mint caller forwarder = ground (
  arith,
  text_eq_iff mint (keys.decode_contract forwarder),
  text_eq_iff caller (keys.decode_contract forwarder),
)
