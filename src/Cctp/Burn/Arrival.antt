-- ===== src/Cctp/Burn/Arrival.antt =====
-- backend/src/cctp/evm-burn.ts and stellar-mint.ts: what is burned can be delivered.
use mathlib.Core.Path.{subst}
use lendoor_stellar.Common.{
  ℕ, zero, suc, replicate, ◌*◌, ◌<◌, ◌≡◌, refl, sym, ap, ◌∙◌, true, false, List, [], ◌∷◌, ◌++◌,
  Text, ◌==◌, length, Result, ok, err, inl, inr, arith, Bool-cases, >>=-eq-ok, >>-eq-ok,
  throw_if-eq-ok, ok_injective, ==_iff, All-append, ◌>>=◌,
}
use lendoor_stellar.Cctp.Errors.{MessageError, not_stellar_address}
use lendoor_stellar.Cctp.Strkey.{StrKey, IsStrKey, is_stellar_address}
use lendoor_stellar.Cctp.Chains.{StellarConfig}
use lendoor_stellar.Cctp.Utf8.{IsAscii, utf8_encode_ascii}
use lendoor_stellar.Cctp.Message.{
  Header, BurnBody, hex_to_bytes, bytes_to_hex, contract_address_to_bytes32,
  assert_forwarder_fields, build_forwarder_hook_data, parse_forwarder_hook_data, parse_cctp_message,
  set_uint32,
}
use lendoor_stellar.Cctp.Message.Hex.{IsBytes, hex_to_bytes-bytes_to_hex}
use lendoor_stellar.Cctp.Message.Layout.{
  encode_header, encode_body, IsBytes32, IsHeader, IsBody, IsBytes-encode_header,
  IsBytes-encode_body, IsBytes-set_uint32,
}
use lendoor_stellar.Cctp.Message.RoundTrip.{parse_cctp_message-encode}
use lendoor_stellar.Cctp.Message.Hook.{parse-build_forwarder_hook_data, assert_forwarder_fields_iff}
use lendoor_stellar.Cctp.Delivery.{plan_delivery, mint_and_forward_sc_vals}
use lendoor_stellar.Cctp.Burn.{
  BurnArgs, BurnToStellarPlan, DepositForBurnWithHook, build_burn_to_stellar, within, not_positive,
}

-- Circle's protocol: the message of a burn carries the fields of the call, and no other amount.
pub record IsMessageOf (burn : DepositForBurnWithHook) (h : Header) (b : BurnBody) : Type 0 where
  pub destination_domain : h.destination_domain ≡ burn.destination_domain
  pub destination_caller : bytes_to_hex h.destination_caller ≡ burn.destination_caller
  pub mint_recipient : bytes_to_hex b.mint_recipient ≡ burn.mint_recipient
  pub amount : b.amount ≡ burn.amount
  pub hook_data : bytes_to_hex b.hook_data ≡ burn.hook_data

bytes_to_hex-injective :
    (xs ys : List ℕ) → IsBytes xs → IsBytes ys → bytes_to_hex xs ≡ bytes_to_hex ys → xs ≡ ys
bytes_to_hex-injective xs ys hx hy e =
    ok_injective
      (sym (hex_to_bytes-bytes_to_hex xs hx) ∙ ap hex_to_bytes e ∙ hex_to_bytes-bytes_to_hex ys hy)

within-eq-ok : {A : Type 0} (r : Result MessageError A) {a : A} → within r ≡ ok a → r ≡ ok a
within-eq-ok (ok a) e = ap ok (ok_injective e)
within-eq-ok (err x) e = absurd cc

-- What a plan was built from.
record IsBuilt (keys : StrKey) (args : BurnArgs) (plan : BurnToStellarPlan) : Type 0 where
  forwarder32 : List ℕ
  hook : List ℕ
  positive : (args.amount_usdc6 == 0) ≡ false
  decoded : contract_address_to_bytes32 keys args.forwarder_contract_id ≡ ok forwarder32
  guarded : assert_forwarder_fields keys forwarder32 forwarder32 args.forwarder_contract_id ≡ ok tt
  hooked : build_forwarder_hook_data keys args.forward_recipient [] ≡ ok hook
  amount : plan.burn_data.amount ≡ args.amount_usdc6
  domain : plan.burn_data.destination_domain ≡ args.stellar_domain
  recipient : plan.burn_data.mint_recipient ≡ bytes_to_hex forwarder32
  caller : plan.burn_data.destination_caller ≡ bytes_to_hex forwarder32
  carried : plan.burn_data.hook_data ≡ bytes_to_hex hook

build-IsBuilt :
    (keys : StrKey) (args : BurnArgs) (plan : BurnToStellarPlan)
    → build_burn_to_stellar keys args ≡ ok plan
    → IsBuilt keys args plan
unfolding build_burn_to_stellar
build-IsBuilt keys args plan e =
    let (positive, e1) = throw_if-eq-ok (args.amount_usdc6 == 0) not_positive _ e in
    let (forwarder32, decoded, e2) =
      >>=-eq-ok (within (contract_address_to_bytes32 keys args.forwarder_contract_id)) _ e1 in
    let (guarded, e3) =
      >>-eq-ok
        (within (assert_forwarder_fields keys forwarder32 forwarder32 args.forwarder_contract_id)) _
        e2 in
    let (hook, hooked, e4) =
      >>=-eq-ok (within (build_forwarder_hook_data keys args.forward_recipient [])) _ e3 in
    let same = ok_injective e4 in
    record {
      forwarder32 = forwarder32;
      hook = hook;
      positive = positive;
      decoded = within-eq-ok _ decoded;
      guarded = within-eq-ok _ guarded;
      hooked = within-eq-ok _ hooked;
      amount = ap (λ p. p.burn_data.amount) (sym same);
      domain = ap (λ p. p.burn_data.destination_domain) (sym same);
      recipient = ap (λ p. p.burn_data.mint_recipient) (sym same);
      caller = ap (λ p. p.burn_data.destination_caller) (sym same);
      carried = ap (λ p. p.burn_data.hook_data) (sym same);
    }

IsBytes-zeros : (n : ℕ) → IsBytes (replicate n 0)
IsBytes-zeros zero = tt
IsBytes-zeros (suc n) = (omega arith, IsBytes-zeros n)

IsBytes-ascii : (s : Text) → IsAscii s → IsBytes s
IsBytes-ascii [] h = tt
IsBytes-ascii (c ∷ s) h = (omega (arith, h.0), IsBytes-ascii s h.1)

hook-IsBytes :
    (keys : StrKey) (r : Text) (hook : List ℕ)
    → IsStrKey keys
    → build_forwarder_hook_data keys r [] ≡ ok hook
    → (is_stellar_address keys r ≡ true) × IsBytes hook
unfolding build_forwarder_hook_data
hook-IsBytes keys r hook k e = elim (Bool-cases (is_stellar_address keys r)) [
  | inr bad ↦
      let refused : build_forwarder_hook_data keys r [] ≡ err (not_stellar_address r) =
        rw (build_forwarder_hook_data, bad) refl in
      absurd cc
  | inl good ↦
      let ascii = k.ascii r good in
      let built : build_forwarder_hook_data keys r []
          ≡ ok (replicate 24 0 ++ (set_uint32 0 ++ (set_uint32 (length r) ++ (r ++ [])))) =
        rw (build_forwarder_hook_data, good, utf8_encode_ascii r ascii) refl in
      (
        good,
        subst IsBytes (ok_injective (sym built ∙ e)) (
            All-append (λ c. c < 256) (replicate 24 0) _ (IsBytes-zeros 24)
              (IsBytes-set_uint32 0 _ (
                IsBytes-set_uint32 (length r) _
                  (All-append (λ c. c < 256) r [] (IsBytes-ascii r ascii) tt)))),
      )
]

nonempty : (n : ℕ) → (suc n == 0) ≡ false
nonempty n = ground arith

parsed_hook :
    (keys : StrKey) (r : Text) (hook : List ℕ)
    → IsStrKey keys
    → is_stellar_address keys r ≡ true
    → build_forwarder_hook_data keys r [] ≡ ok hook
    → parse_forwarder_hook_data keys hook
      ≡ ok (record { version = 0; forward_recipient = r; payload = [] })
parsed_hook keys r hook k address hooked =
    subst
      (λ built.
        (built >>= parse_forwarder_hook_data keys)
        ≡ ok (record { version = 0; forward_recipient = r; payload = [] }))
      hooked (parse-build_forwarder_hook_data keys r [] k address)

-- A delivery plan from what its steps give.
planned :
    (keys : StrKey) (config : StellarConfig) (message_hex attestation_hex : Text) (h : Header)
    (b : BurnBody) (r : Text) (amount : ℕ) (message attestation : List ℕ)
    → parse_cctp_message message_hex ≡ ok (h, b)
    → (h.destination_domain == config.domain) ≡ true
    → assert_forwarder_fields keys b.mint_recipient h.destination_caller config.cctp_forwarder
      ≡ ok tt
    → b.amount ≡ amount
    → (amount == 0) ≡ false
    → parse_forwarder_hook_data keys b.hook_data
      ≡ ok (record { version = 0; forward_recipient = r; payload = [] })
    → hex_to_bytes message_hex ≡ ok message
    → hex_to_bytes attestation_hex ≡ ok attestation
    → (length attestation == 0) ≡ false
    → plan_delivery keys message_hex attestation_hex config
      ≡ ok (record {
        nonce = h.nonce;
        source_domain = h.source_domain;
        amount_usdc6 = amount;
        amount7 = amount * 10;
        forward_recipient = r;
        mint_args = mint_and_forward_sc_vals message attestation;
      })
unfolding plan_delivery
planned keys config message_hex attestation_hex h b r amount message attestation parsed domain guard
      same positive hook decoded attested some_bytes =
    rw (plan_delivery, parsed, domain, guard, same, positive, hook, decoded, attested, some_bytes)
      refl

module _ (keys : StrKey) (args : BurnArgs) (plan : BurnToStellarPlan) (h : Header) (nonce : List ℕ)
    (b : BurnBody) (k : IsStrKey keys) (head : IsHeader h) (body : IsBody b) where
  -- The fields of a message of a burn, from those of the plan.
  caller_is :
      (forwarder32 : List ℕ)
      → IsBytes forwarder32
      → plan.burn_data.destination_caller ≡ bytes_to_hex forwarder32
      → IsMessageOf plan.burn_data h b
      → h.destination_caller ≡ forwarder32
  caller_is forwarder32 bytes e m =
      bytes_to_hex-injective h.destination_caller forwarder32 head.destination_caller.1 bytes
        (m.destination_caller ∙ e)

  recipient_is :
      (forwarder32 : List ℕ)
      → IsBytes forwarder32
      → plan.burn_data.mint_recipient ≡ bytes_to_hex forwarder32
      → IsMessageOf plan.burn_data h b
      → b.mint_recipient ≡ forwarder32
  recipient_is forwarder32 bytes e m =
      bytes_to_hex-injective b.mint_recipient forwarder32 body.mint_recipient.1 bytes
        (m.mint_recipient ∙ e)

  hook_is :
      (hook : List ℕ)
      → IsBytes hook
      → plan.burn_data.hook_data ≡ bytes_to_hex hook
      → IsMessageOf plan.burn_data h b
      → b.hook_data ≡ hook
  hook_is hook bytes e m =
      bytes_to_hex-injective b.hook_data hook body.hook_data bytes (m.hook_data ∙ e)

  -- What is burned can be delivered: if a plan of a burn is built for a forwarder and a recipient, and
  -- a message laid out as Circle documents carries the fields of its call, then the delivery plan of
  -- that message with any attestation that is hexadecimal and not empty succeeds on a configuration
  -- with that domain and that forwarder, names the recipient of the burn, and asks for ten times its
  -- amount, the seven decimals of Stellar for the six of the EVM side. Contract strkeys decode to
  -- bytes, and strkeys are short ASCII text.
  pub burn_arrives :
      (config : StellarConfig) (attestation_hex : Text) (a : ℕ) (attestation : List ℕ)
      → ((c : Text) → keys.is_valid_contract c ≡ true → IsBytes (keys.decode_contract c))
      → build_burn_to_stellar keys args ≡ ok plan
      → IsMessageOf plan.burn_data h b
      → IsBytes32 nonce
      → args.stellar_domain ≡ config.domain
      → args.forwarder_contract_id ≡ config.cctp_forwarder
      → hex_to_bytes attestation_hex ≡ ok (a ∷ attestation)
      → let message = encode_header h nonce (encode_body b) in
        plan_delivery keys (bytes_to_hex message) attestation_hex config
        ≡ ok (record {
          nonce = bytes_to_hex nonce;
          source_domain = h.source_domain;
          amount_usdc6 = args.amount_usdc6;
          amount7 = args.amount_usdc6 * 10;
          forward_recipient = args.forward_recipient;
          mint_args = mint_and_forward_sc_vals message (a ∷ attestation);
        })
  burn_arrives config attestation_hex a attestation decodes built m n domain forwarder attested =
      let w = build-IsBuilt keys args plan built in
      let (valid, fwd, same) =
        (assert_forwarder_fields_iff keys w.forwarder32 w.forwarder32 args.forwarder_contract_id).0
          w.guarded in
      let bytes : IsBytes w.forwarder32 = subst IsBytes (sym fwd) (decodes _ valid) in
      let (address, hook_bytes) = hook-IsBytes keys args.forward_recipient w.hook k w.hooked in
      let caller = caller_is w.forwarder32 bytes w.caller m in
      let recipient = recipient_is w.forwarder32 bytes w.recipient m in
      let hook = hook_is w.hook hook_bytes w.carried m in
      let amount : b.amount ≡ args.amount_usdc6 = m.amount ∙ w.amount in
      let message = encode_header h nonce (encode_body b) in
      planned keys config (bytes_to_hex message) attestation_hex
        (record h { nonce = bytes_to_hex nonce }) b args.forward_recipient args.amount_usdc6 message
        (a ∷ attestation) (parse_cctp_message-encode h nonce b head n body)
        ((==_iff h.destination_domain config.domain).1 (m.destination_domain ∙ w.domain ∙ domain))
        (rw (recipient, caller, ← forwarder) w.guarded) amount w.positive
        (rw hook (parsed_hook keys args.forward_recipient w.hook k address w.hooked))
        (hex_to_bytes-bytes_to_hex message
          (IsBytes-encode_header h nonce (encode_body b) head n.1 (IsBytes-encode_body b body)))
        attested (nonempty (length attestation))
