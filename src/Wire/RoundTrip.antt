-- ===== src/Wire/RoundTrip.antt =====
-- Encoding a pointer event as a datagram and decoding it.
use thekvm.Prelude.{ℕ, ◌^◌, ◌<◌, ◌≤◌, ◌≡◌, refl, ap, ◌∙◌, List, ◌∷◌, ◌++◌, length, arith}
use mathlib.Core.Path.{subst}
use native.Mathlib.Nat.{mod-eq_of_lt}
use thekvm.Prelude.Int.{ℤ}
use thekvm.Prelude.Result.{Result, ok}
use thekvm.Event.{InputEvent, mouse_move, wheel, smooth_wheel}
use thekvm.Wire.{
  fields, DatagramInput, DatagramError, encode_input_datagram, decode_input_datagram, decode_body,
  decode_fields, read_u64, read_i32, read_i16, max_datagram_size,
}
use thekvm.Prelude.Slices.{slice}
use thekvm.Wire.Bytes.{
  be_bytes, read_be, to_word, from_word, IsInt, read_be-be_bytes, from_word-to_word, to_word-lt,
}

-- The fields fit their integer types.
abbrev pub Fits : InputEvent → Type 0
Fits (mouse_move dx dy) = IsInt 4 dx × IsInt 4 dy
Fits (wheel x y) = IsInt 2 x × IsInt 2 y
Fits (smooth_wheel x y) = IsInt 4 x × IsInt 4 y
Fits _ = Unit

unsigned : (n v : ℕ) → v < 256 ^ n → read_be (be_bytes n v) ≡ v
unsigned n v h = read_be-be_bytes n v ∙ mod-eq_of_lt h

signed : (n : ℕ) (a : ℤ) → 0 < n → IsInt n a → from_word n (read_be (be_bytes n (to_word n a))) ≡ a
signed n a p h =
    ap (from_word n) (unsigned n (to_word n a) (to_word-lt n a p h)) ∙ from_word-to_word n a p h

abbrev packet : ℕ → InputEvent → Result DatagramError DatagramInput
packet sequence event = ok (record { sequence = sequence; event = event })

same_packet :
    (kind : ℤ → ℤ → InputEvent) (s s' : ℕ) (a a' b b' : ℤ)
    → s ≡ s'
    → a ≡ a'
    → b ≡ b'
    → packet s (kind a b) ≡ packet s' (kind a' b')
same_packet kind s s' a a' b b' e f g = cc

decode_move :
    (sequence : ℕ) (a b : ℤ)
    → sequence < 2 ^ 64
    → IsInt 4 a
    → IsInt 4 b
    → decode_input_datagram (1 ∷ (1 ∷ be_bytes 8 sequence) ++ fields 4 a b)
      ≡ packet sequence (mouse_move a b)
unfolding decode_input_datagram decode_body decode_fields read_u64 read_i32 be_bytes slice
decode_move sequence a b h ha hb =
    same_packet mouse_move (read_be (be_bytes 8 sequence)) sequence
      (from_word 4 (read_be (be_bytes 4 (to_word 4 a)))) a
      (from_word 4 (read_be (be_bytes 4 (to_word 4 b)))) b (unsigned 8 sequence h)
      (signed 4 a (omega arith) ha) (signed 4 b (omega arith) hb)

decode_wheel :
    (sequence : ℕ) (a b : ℤ)
    → sequence < 2 ^ 64
    → IsInt 2 a
    → IsInt 2 b
    → decode_input_datagram (1 ∷ (2 ∷ be_bytes 8 sequence) ++ fields 2 a b)
      ≡ packet sequence (wheel a b)
unfolding decode_input_datagram decode_body decode_fields read_u64 read_i16 be_bytes slice
decode_wheel sequence a b h ha hb =
    same_packet wheel (read_be (be_bytes 8 sequence)) sequence
      (from_word 2 (read_be (be_bytes 2 (to_word 2 a)))) a
      (from_word 2 (read_be (be_bytes 2 (to_word 2 b)))) b (unsigned 8 sequence h)
      (signed 2 a (omega arith) ha) (signed 2 b (omega arith) hb)

decode_smooth_wheel :
    (sequence : ℕ) (a b : ℤ)
    → sequence < 2 ^ 64
    → IsInt 4 a
    → IsInt 4 b
    → decode_input_datagram (1 ∷ (3 ∷ be_bytes 8 sequence) ++ fields 4 a b)
      ≡ packet sequence (smooth_wheel a b)
unfolding decode_input_datagram decode_body decode_fields read_u64 read_i32 be_bytes slice
decode_smooth_wheel sequence a b h ha hb =
    same_packet smooth_wheel (read_be (be_bytes 8 sequence)) sequence
      (from_word 4 (read_be (be_bytes 4 (to_word 4 a)))) a
      (from_word 4 (read_be (be_bytes 4 (to_word 4 b)))) b (unsigned 8 sequence h)
      (signed 4 a (omega arith) ha) (signed 4 b (omega arith) hb)

-- What the round trip says of the bytes of one packet.
abbrev Returns : ℕ → InputEvent → List ℕ → Type 0
Returns sequence event bytes =
    (decode_input_datagram bytes ≡ packet sequence event) × (length bytes ≤ max_datagram_size)

ok_inj :
    (xs ys : List ℕ) (a b : Result DatagramError (List ℕ)) → a ≡ ok xs → b ≡ ok ys → a ≡ b → xs ≡ ys
ok_inj xs ys a b e f g = cc

round_trip :
    (sequence : ℕ) (event : InputEvent) (bytes : List ℕ)
    → sequence < 2 ^ 64
    → Fits event
    → encode_input_datagram (record { sequence = sequence; event = event }) ≡ ok bytes
    → Returns sequence event bytes
unfolding encode_input_datagram be_bytes
round_trip sequence (mouse_move a b) bytes h (ha, hb) made =
    subst (Returns sequence (mouse_move a b)) (ok_inj _ bytes _ _ refl refl made)
      (decode_move sequence a b h ha hb, omega arith)
round_trip sequence (wheel a b) bytes h (ha, hb) made =
    subst (Returns sequence (wheel a b)) (ok_inj _ bytes _ _ refl refl made)
      (decode_wheel sequence a b h ha hb, omega arith)
round_trip sequence (smooth_wheel a b) bytes h (ha, hb) made =
    subst (Returns sequence (smooth_wheel a b)) (ok_inj _ bytes _ _ refl refl made)
      (decode_smooth_wheel sequence a b h ha hb, omega arith)
round_trip sequence _ bytes h fits made = cc

-- A datagram that the encoder makes of a packet whose fields fit their integer types is within the
-- size limit, and the decoder gives the packet back.
pub decode-encode_input_datagram :
    (p : DatagramInput) (bytes : List ℕ)
    → p.sequence < 2 ^ 64
    → Fits p.event
    → encode_input_datagram p ≡ ok bytes
    → (decode_input_datagram bytes ≡ ok p) × (length bytes ≤ max_datagram_size)
decode-encode_input_datagram p bytes h fits made = round_trip p.sequence p.event bytes h fits made
