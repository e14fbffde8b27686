-- ===== src/Wire.antt =====
-- kvm-protocol/src/wire.rs: the binary datagrams of pointer events. Bytes are numbers below 256,
-- and a fixed-width integer is its value.
pub mod Bytes
pub mod Message
pub mod RoundTrip
use thekvm.Prelude.{
  ℕ, ◌-◌, ◌+◌, ◌^◌, ◌<◌, Bool, true, false, not, ◌&&◌, List, [], ◌∷◌, ◌++◌, ltb, ◌==◌,
  if◌then◌else◌, length,
}
use thekvm.Prelude.Int.{ℤ, pos, negsuc}
use thekvm.Prelude.Result.{Result, ok, err}
use thekvm.Event.{InputEvent, mouse_move, wheel, smooth_wheel}
use thekvm.Prelude.Slices.{slice}
use thekvm.Wire.Bytes.{be_bytes, read_be, to_word, from_word}

abbrev pub max_datagram_size : ℕ
max_datagram_size = 1200

abbrev pub datagram_version : ℕ
datagram_version = 1

abbrev pub datagram_mouse_move : ℕ
datagram_mouse_move = 1

abbrev pub datagram_wheel : ℕ
datagram_wheel = 2

abbrev pub datagram_smooth_wheel : ℕ
datagram_smooth_wheel = 3

-- 1 + 1 + 8 + 4 + 4, 1 + 1 + 8 + 2 + 2
abbrev pub datagram_mouse_move_size : ℕ
datagram_mouse_move_size = 18

abbrev pub datagram_wheel_size : ℕ
datagram_wheel_size = 14

abbrev pub datagram_smooth_wheel_size : ℕ
datagram_smooth_wheel_size = 18

pub record DatagramInput : Type 0 where
  pub sequence : ℕ
  pub event : InputEvent

-- The errors, one for each message of the source.
pub data DatagramError : Type 0 where
  not_a_pointer_event invalid_size empty_datagram unsupported_version missing_kind
        invalid_kind_or_size :
      DatagramError

-- Two fields of `size` bytes each.
abbrev pub fields : ℕ → ℤ → ℤ → List ℕ
fields size a b = be_bytes size (to_word size a) ++ be_bytes size (to_word size b)

unfoldable pub encode_input_datagram : DatagramInput → Result DatagramError (List ℕ)
unfolding be_bytes to_word
encode_input_datagram packet =
    let header : ℕ → List ℕ = λ kind. datagram_version ∷ (kind ∷ be_bytes 8 packet.sequence) in
    elim packet.event [
      | mouse_move dx dy ↦ ok (header datagram_mouse_move ++ fields 4 dx dy)
      | wheel x y ↦ ok (header datagram_wheel ++ fields 2 x y)
      | smooth_wheel x y ↦ ok (header datagram_smooth_wheel ++ fields 4 x y)
      | _ ↦ err not_a_pointer_event
    ]

unfoldable pub read_u64 : List ℕ → ℕ
unfolding read_be
read_u64 bytes = read_be bytes

unfoldable pub read_i32 : List ℕ → ℤ
unfolding read_be from_word
read_i32 bytes = from_word 4 (read_be bytes)

unfoldable pub read_i16 : List ℕ → ℤ
unfolding read_be from_word
read_i16 bytes = from_word 2 (read_be bytes)

-- The kind and the size together choose the fields.
unfoldable pub decode_fields : ℕ → List ℕ → Result DatagramError DatagramInput
unfolding read_u64 read_i32 read_i16 slice
decode_fields kind payload =
    let sequence = read_u64 (slice 2 10 payload) in
    if kind == datagram_mouse_move && (length payload == datagram_mouse_move_size)
    then ok (record {
      sequence = sequence;
      event = mouse_move (read_i32 (slice 10 14 payload)) (read_i32 (slice 14 18 payload));
    })
    else if kind == datagram_wheel && (length payload == datagram_wheel_size)
    then ok (record {
      sequence = sequence;
      event = wheel (read_i16 (slice 10 12 payload)) (read_i16 (slice 12 14 payload));
    })
    else if kind == datagram_smooth_wheel && (length payload == datagram_smooth_wheel_size)
    then ok (record {
      sequence = sequence;
      event = smooth_wheel (read_i32 (slice 10 14 payload)) (read_i32 (slice 14 18 payload));
    })
    else err invalid_kind_or_size

unfoldable pub decode_body : List ℕ → Result DatagramError DatagramInput
unfolding decode_fields
decode_body [] = err empty_datagram
decode_body (version ∷ []) =
    if not (version == datagram_version) then err unsupported_version else err missing_kind
decode_body (version ∷ (kind ∷ rest)) =
    if not (version == datagram_version)
    then err unsupported_version
    else decode_fields kind (version ∷ (kind ∷ rest))

unfoldable pub decode_input_datagram : List ℕ → Result DatagramError DatagramInput
unfolding decode_body
decode_input_datagram payload =
    if ltb max_datagram_size (length payload) then err invalid_size else decode_body payload
