-- ===== src/Cctp/Utf8.antt =====
-- The language's `TextEncoder` and `TextDecoder` (WHATWG UTF-8, with replacement, the byte order
-- mark dropped), over code points.
use lendoor_stellar.Common.{
  ℕ, ◌+◌, ◌-◌, ◌*◌, ◌/◌, ◌%◌, ◌<◌, ◌≡◌, refl, ◌&&◌, not, List, [], ◌∷◌, ◌++◌, Text, All, ltb, leb,
  ◌==◌, if◌then◌else◌, arith,
}

encode_point : ℕ → List ℕ
encode_point c =
    if ltb c 0x80
    then c ∷ []
    else if ltb c 0x800
    then (0xC0 + c / 64) ∷ (0x80 + c % 64) ∷ []
    else if ltb c 0x10000
    then (0xE0 + c / 4096) ∷ (0x80 + c / 64 % 64) ∷ (0x80 + c % 64) ∷ []
    else (0xF0 + c / 262144) ∷ (0x80 + c / 4096 % 64) ∷ (0x80 + c / 64 % 64) ∷ (0x80 + c % 64) ∷ []

unfoldable pub utf8_encode : Text → List ℕ
unfolding encode_point
utf8_encode [] = []
utf8_encode (c ∷ cs) = encode_point c ++ utf8_encode cs

-- `needed` continuation bytes are still to come, the next of them between `lower` and `upper`.
record Decoder : Type 0 where
  needed : ℕ
  point : ℕ
  lower : ℕ
  upper : ℕ

abbrev idle : Decoder
idle = record { needed = 0; point = 0; lower = 0x80; upper = 0xBF }

abbrev replacement : ℕ
replacement = 0xFFFD

-- The first byte of a sequence.
start : ℕ → Text × Decoder
start b =
    if ltb b 0x80
    then (b ∷ [], idle)
    else if leb 0xC2 b && leb b 0xDF
    then ([], record idle { needed = 1; point = b - 0xC0 })
    else if leb 0xE0 b && leb b 0xEF
    then (
      [],
      record {
        needed = 2;
        point = b - 0xE0;
        lower = if b == 0xE0 then 0xA0 else 0x80;
        upper = if b == 0xED then 0x9F else 0xBF;
      },
    )
    else if leb 0xF0 b && leb b 0xF4
    then (
      [],
      record {
        needed = 3;
        point = b - 0xF0;
        lower = if b == 0xF0 then 0x90 else 0x80;
        upper = if b == 0xF4 then 0x8F else 0xBF;
      },
    )
    else (replacement ∷ [], idle)

-- One byte: a byte that cannot continue the sequence closes it by a replacement and starts anew.
decode_step : Decoder → ℕ → Text × Decoder
unfolding start
decode_step d b =
    if d.needed == 0
    then start b
    else if not (leb d.lower b && leb b d.upper)
    then (replacement ∷ (start b).0, (start b).1)
    else if d.needed == 1
    then ((d.point * 64 + b % 64) ∷ [], idle)
    else ([], record idle { needed = d.needed - 1; point = d.point * 64 + b % 64 })

decode_from : Decoder → List ℕ → Text
unfolding decode_step
decode_from d [] = if d.needed == 0 then [] else replacement ∷ []
decode_from d (b ∷ bs) = let (out, d') = decode_step d b in out ++ decode_from d' bs

drop_mark : List ℕ → List ℕ
drop_mark (a ∷ b ∷ c ∷ bs) = if a == 0xEF && b == 0xBB && c == 0xBF then bs else a ∷ b ∷ c ∷ bs
drop_mark bs = bs

unfoldable pub utf8_decode : List ℕ → Text
unfolding decode_from drop_mark
utf8_decode bs = decode_from idle (drop_mark bs)

abbrev pub IsAscii : List ℕ → Type 0
IsAscii = All (λ c. c < 128)

pub utf8_encode_ascii : (s : Text) → IsAscii s → utf8_encode s ≡ s
unfolding utf8_encode
utf8_encode_ascii [] h = refl
utf8_encode_ascii (c ∷ cs) h = ground (arith, utf8_encode_ascii cs h.1)

decode_from_ascii : (s : List ℕ) → IsAscii s → decode_from idle s ≡ s
unfolding decode_from
decode_from_ascii [] h = refl
decode_from_ascii (c ∷ cs) h = ground (arith, decode_from_ascii cs h.1)

drop_mark_ascii : (s : List ℕ) → IsAscii s → drop_mark s ≡ s
unfolding drop_mark
drop_mark_ascii [] h = refl
drop_mark_ascii (a ∷ []) h = refl
drop_mark_ascii (a ∷ b ∷ []) h = refl
drop_mark_ascii (a ∷ b ∷ c ∷ cs) h = ground arith

pub utf8_decode_ascii : (s : List ℕ) → IsAscii s → utf8_decode s ≡ s
unfolding utf8_decode
utf8_decode_ascii s h = rw (drop_mark_ascii s h) (decode_from_ascii s h)

-- A character of four bytes, and a truncated one.
decode_tests :
    (utf8_decode (0xF0 ∷ 0x9F ∷ 0x98 ∷ 0x80 ∷ 0x41 ∷ []) ≡ 0x1F600 ∷ 0x41 ∷ [])
    × (utf8_decode (0xE2 ∷ 0x82 ∷ 0x41 ∷ []) ≡ replacement ∷ 0x41 ∷ [])
    × (utf8_encode (0x1F600 ∷ []) ≡ 0xF0 ∷ 0x9F ∷ 0x98 ∷ 0x80 ∷ [])
unfolding utf8_decode utf8_encode
decode_tests = (refl, refl, refl)
