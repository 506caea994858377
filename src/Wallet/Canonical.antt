-- ===== src/Wallet/Canonical.antt =====
-- `normalizeWallet` gives a canonical form.
use lendoor_stellar.Common.{
  ℕ, suc, ◌+◌, ◌-◌, ◌*◌, ◌%◌, ◌^◌, ◌≡◌, refl, true, false, some, List, [], ◌∷◌, map, Text, arith,
  Bool, not, ok, ap, length, Bool-cases, Option-cases, leb, if◌then◌else◌, inl, inr, cons_path,
}
use lendoor_stellar.Wallet.{
  base32_index, base32_loop, decode_base32, decode_stellar_public_key, is_valid_stellar_public_key,
  is_space, trim_start, cons_unless_blank, trim_end, trim, is_hex, all_chars, is_evm_address,
  to_lower, normalize_wallet,
}

unfoldable pub is_visible : ℕ → Bool
unfolding is_space
is_visible c = not (is_space c)

trim_end-visible : (s : Text) → all_chars is_visible s ≡ true → trim_end s ≡ s
unfolding trim_end all_chars cons_unless_blank is_visible
trim_end-visible [] h = refl
trim_end-visible (c ∷ []) h = ground arith
trim_end-visible (c ∷ d ∷ s) h = ap (cons_unless_blank c) (trim_end-visible (d ∷ s) (ground arith))

pub trim-visible : (s : Text) → all_chars is_visible s ≡ true → trim s ≡ s
unfolding trim trim_start all_chars is_visible
trim-visible [] h = refl
trim-visible (c ∷ s) h = ground (arith, trim_end-visible (c ∷ s) h)

pub all_chars_mono :
    (p q : ℕ → Bool)
    → ((c : ℕ) → p c ≡ true → q c ≡ true)
    → (s : Text) → all_chars p s ≡ true
    → all_chars q s ≡ true
unfolding all_chars
all_chars_mono p q f [] h = refl
all_chars_mono p q f (c ∷ s) h = ground (arith, f c, all_chars_mono p q f s)

base32-visible :
    (s : Text) (v b : ℕ) (bs : List ℕ) → base32_loop v b s ≡ some bs → all_chars is_visible s ≡ true
unfolding base32_loop base32_index all_chars is_visible is_space
base32-visible [] v b bs h = refl
base32-visible (c ∷ s) v b bs h = elim (Option-cases (base32_index c)) [
  | inl e ↦ ground arith
  | inr (i, e) ↦
      let v' = (v * 32 + i) % 2 ^ 32 in
      let b' = if leb 8 (b + 5) then b + 5 - 8 else b + 5 in
      elim (Option-cases (base32_loop v' b' s)) [
        | inl f ↦ ground arith
        | inr (rest, f) ↦ ground (arith, base32-visible s v' b' rest f)
      ]
]

is_hex-visible : (c : ℕ) → is_hex c ≡ true → is_visible c ≡ true
unfolding is_hex is_visible is_space
is_hex-visible c h = ground arith

pub evm-visible : (s : Text) → is_evm_address s ≡ true → all_chars is_visible s ≡ true
unfolding is_evm_address all_chars is_visible is_space
evm-visible [] h = refl
evm-visible (a ∷ []) h = cc
evm-visible (a ∷ b ∷ s) h = ground (arith, all_chars_mono is_hex is_visible is_hex-visible s)

stellar-visible : (s : Text) → is_valid_stellar_public_key s ≡ true → all_chars is_visible s ≡ true
unfolding is_valid_stellar_public_key decode_stellar_public_key decode_base32
stellar-visible s h = elim (Option-cases (base32_loop 0 0 s)) [
  | inl e ↦ ground arith
  | inr (bs, e) ↦ base32-visible s 0 0 bs e
]

all_hex-lower : (s : Text) → all_chars is_hex s ≡ true → all_chars is_hex (map to_lower s) ≡ true
unfolding all_chars is_hex
all_hex-lower [] h = refl
all_hex-lower (c ∷ s) h = ground (arith, all_hex-lower s)

length-lower : (s : Text) → length (map to_lower s) ≡ length s
length-lower [] = refl
length-lower (c ∷ s) = ap suc (length-lower s)

pub lower-lower : (s : Text) → map to_lower (map to_lower s) ≡ map to_lower s
lower-lower [] = refl
lower-lower (c ∷ s) = cons_path (ground arith) (lower-lower s)

pub evm-lower : (s : Text) → is_evm_address s ≡ true → is_evm_address (map to_lower s) ≡ true
unfolding is_evm_address
evm-lower [] h = cc
evm-lower (a ∷ []) h = cc
evm-lower (a ∷ b ∷ s) h = ground (arith, all_hex-lower s, length-lower s)

normalize_evm : (w : Text) → is_evm_address w ≡ true → normalize_wallet w ≡ ok (map to_lower w)
unfolding normalize_wallet
normalize_evm w h = rw (trim-visible w (evm-visible w h), h) refl

normalize_stellar :
    (w : Text)
    → is_evm_address w ≡ false
    → is_valid_stellar_public_key w ≡ true
    → normalize_wallet w ≡ ok w
unfolding normalize_wallet
normalize_stellar w h k = rw (trim-visible w (stellar-visible w k), h, k) refl

-- The normalised form of an address is its own normalised form.
pub normalize_wallet_idem : (a w : Text) → normalize_wallet a ≡ ok w → normalize_wallet w ≡ ok w
unfolding normalize_wallet
normalize_wallet_idem a w h = elim (Bool-cases (is_evm_address (trim a))) [
  | inl e ↦
      (let f : w ≡ map to_lower (trim a) = ground arith in
        rw (f, normalize_evm (map to_lower (trim a)) (evm-lower (trim a) e), lower-lower (trim a))
          refl)
  | inr e ↦
      (let f : w ≡ trim a = ground arith in rw f (normalize_stellar (trim a) e (ground arith)))
]
