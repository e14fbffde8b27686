-- ===== src/Pairing/Hex.antt =====
-- kvm-protocol/src/pairing.rs: bytes as hexadecimal text, for handing an identity over, and back.
-- The source cuts the text at even byte offsets; a cut inside a character is a panic.
use thekvm.Prelude.{
  ℕ, ◌+◌, ◌-◌, ◌*◌, ◌/◌, ◌%◌, ◌<◌, ◌≡◌, refl, ap, Bool, true, false, not, ◌&&◌, ◌||◌, Option, none,
  some, List, [], ◌∷◌, ltb, leb, ◌==◌, if◌then◌else◌, length, All, arith,
}
use thekvm.Prelude.Text.{Text, trim, utf8, is_hexdigit}
use thekvm.Prelude.Trim.{hex-IsTrimmed, trim_unchanged}

-- The digits of `format!("{b:02x}")`.
unfoldable pub hex_digit : ℕ → ℕ
hex_digit d = if ltb d 10 then 48 + d else 87 + d

unfoldable pub hex_encode : List ℕ → Text
unfolding hex_digit
hex_encode [] = []
hex_encode (b ∷ bytes) = hex_digit (b / 16) ∷ (hex_digit (b % 16) ∷ hex_encode bytes)

pub data HexResult : Type 0 where
  decoded : List ℕ → HexResult
  odd_length not_hexadecimal cut_character : HexResult

-- `char::to_digit(16)`
unfoldable pub digit_of : ℕ → Option ℕ
digit_of c =
    if leb 48 c && leb c 57
    then some (c - 48)
    else if leb 97 c && leb c 102
    then some (c - 87)
    else if leb 65 c && leb c 70
    then some (c - 55)
    else none

abbrev pub plus_sign : ℕ
plus_sign = 43

abbrev pub join_digits : Option ℕ → Option ℕ → Option ℕ
join_digits (some a) (some b) = some (a * 16 + b)
join_digits _ _ = none

-- `u8::from_str_radix(_, 16)` of two bytes, which takes a leading plus sign.
unfoldable pub pair_value : ℕ → ℕ → Option ℕ
pair_value a b = if a == plus_sign then digit_of b else join_digits (digit_of a) (digit_of b)

-- A byte within a character.
unfoldable pub is_continuation : ℕ → Bool
is_continuation b = leb 0x80 b && ltb b 0xc0

abbrev pub starts_inside : List ℕ → Bool
starts_inside [] = false
starts_inside (b ∷ bytes) = is_continuation b

-- What the pair gives before what follows it.
abbrev pub with_byte : Option ℕ → HexResult → HexResult
with_byte none rest = not_hexadecimal
with_byte (some v) (decoded bytes) = decoded (v ∷ bytes)
with_byte (some v) other = other

unfoldable pub decode_pairs : List ℕ → HexResult
unfolding is_continuation
decode_pairs [] = decoded []
decode_pairs (a ∷ []) = cut_character
decode_pairs (a ∷ (b ∷ bytes)) =
    let rest = with_byte (pair_value a b) (decode_pairs bytes) in
    if is_continuation a || starts_inside bytes then cut_character else rest

unfoldable pub hex_decode : Text → HexResult
hex_decode hex =
    let bytes = utf8 (trim hex) in
    if not (length bytes % 2 == 0) then odd_length else decode_pairs bytes

hex_digit_is : (d : ℕ) → d < 16 → is_hexdigit (hex_digit d) ≡ true
unfolding hex_digit is_hexdigit
hex_digit_is d h = ground arith

hex_digit_value : (d : ℕ) → d < 16 → digit_of (hex_digit d) ≡ some d
unfolding hex_digit digit_of
hex_digit_value d h = ground arith

hex_digit_plain :
    (d : ℕ)
    → d < 16
    → (ltb (hex_digit d) 128 ≡ true)
      × ((hex_digit d == plus_sign) ≡ false)
      × (is_continuation (hex_digit d) ≡ false)
unfolding hex_digit is_continuation
hex_digit_plain d h = ground arith

hex_encode-hex :
    (bytes : List ℕ) → All (λ b. b < 256) bytes → All (λ c. is_hexdigit c ≡ true) (hex_encode bytes)
unfolding hex_encode
hex_encode-hex [] h = tt
hex_encode-hex (b ∷ bytes) (h, hs) = (
  hex_digit_is (b / 16) (omega arith),
  (hex_digit_is (b % 16) (omega arith), hex_encode-hex bytes hs),
)

utf8-hex_encode :
    (bytes : List ℕ) → All (λ b. b < 256) bytes → utf8 (hex_encode bytes) ≡ hex_encode bytes
unfolding utf8 hex_encode
utf8-hex_encode [] h = refl
utf8-hex_encode (b ∷ bytes) (h, hs) =
    let high = hex_digit_plain (b / 16) (omega arith) in
    let low = hex_digit_plain (b % 16) (omega arith) in
    rw (high.0, low.0, utf8-hex_encode bytes hs) refl

even-hex_encode : (bytes : List ℕ) → length (hex_encode bytes) % 2 ≡ 0
unfolding hex_encode
even-hex_encode [] = refl
even-hex_encode (b ∷ bytes) = omega (arith, even-hex_encode bytes)

outside-hex_encode :
    (bytes : List ℕ) → All (λ b. b < 256) bytes → starts_inside (hex_encode bytes) ≡ false
unfolding hex_encode
outside-hex_encode [] h = refl
outside-hex_encode (b ∷ bytes) (h, hs) = (hex_digit_plain (b / 16) (omega arith)).2

pair_value-hex_digit :
    (b : ℕ) → b < 256 → pair_value (hex_digit (b / 16)) (hex_digit (b % 16)) ≡ some b
unfolding pair_value
pair_value-hex_digit b h =
    let (small, plain, start) = hex_digit_plain (b / 16) (omega arith) in
    let whole : b / 16 * 16 + b % 16 ≡ b = omega arith in
    rw (plain, hex_digit_value (b / 16) (omega arith), hex_digit_value (b % 16) (omega arith))
      (ap some whole)

decode_pairs-hex_encode :
    (bytes : List ℕ) → All (λ b. b < 256) bytes → decode_pairs (hex_encode bytes) ≡ decoded bytes
unfolding decode_pairs hex_encode
decode_pairs-hex_encode [] h = refl
decode_pairs-hex_encode (b ∷ bytes) (h, hs) =
    let (small, plain, start) = hex_digit_plain (b / 16) (omega arith) in
    rw
      (
        start,
        outside-hex_encode bytes hs,
        pair_value-hex_digit b h,
        decode_pairs-hex_encode bytes hs,
      )
      refl

-- Bytes that are written as hexadecimal text are read back.
pub hex_decode-hex_encode :
    (bytes : List ℕ) → All (λ b. b < 256) bytes → hex_decode (hex_encode bytes) ≡ decoded bytes
unfolding hex_decode
hex_decode-hex_encode bytes h =
    let text = hex_encode bytes in
    let trimmed = trim_unchanged text (hex-IsTrimmed text (hex_encode-hex bytes h)) in
    rw
      (
        hex_decode,
        trimmed,
        utf8-hex_encode bytes h,
        even-hex_encode bytes,
        decode_pairs-hex_encode bytes h,
      )
      refl
