-- ===== src/Wire/Message/FrameTrip.antt =====
-- kvm-protocol/src/wire.rs: a frame that is written and read, and any bytes that are read.
use thekvm.Prelude.{
  ℕ, ◌+◌, ◌<◌, ◌≤◌, ◌≡◌, refl, ap, sym, ◌∙◌, false, ◌||◌, Option, none, some, List, [], ◌++◌, ltb,
  ◌==◌, if◌then◌else◌, length, length-append, arith, inl, inr, Bool-cases,
}
use mathlib.Core.Path.{subst}
use native.Mathlib.Nat.{mod-eq_of_lt}
use thekvm.Prelude.Result.{Result, ok, err, Result-cases}
use thekvm.Prelude.Slices.{take, drop, take-append, drop-append, length-drop}
use thekvm.Wire.Bytes.{be_bytes, read_be, read_be-be_bytes, be_bytes-length}
use thekvm.Wire.Message.{WireMessage, validate_message, max_frame_size}
use thekvm.Wire.Message.Acceptance.{IsAcceptable, validate_message_iff}
use thekvm.Wire.Message.Frame.{
  Json, IsJson, FrameError, frame_of, write_frame, read_message, read_payload, read_frame,
  invalid_message, invalid_frame_size, unexpected_eof,
}

skip_test : {A : Type 0} (n : ℕ) (x y : A) → 4 ≤ n → (if ltb n 4 then x else y) ≡ y
skip_test n x y h = ground arith

frame-long : (n : ℕ) (bytes : List ℕ) → 4 ≤ length (be_bytes 4 n ++ bytes)
unfolding be_bytes
frame-long n bytes = omega arith

read_payload-message :
    (json : Json) (message : WireMessage) (payload rest : List ℕ)
    → json.from_slice payload ≡ some message
    → validate_message message ≡ ok tt
    → 0 < length payload
    → length payload ≤ 65536
    → read_payload json (length payload) (payload ++ rest) ≡ (ok (some message), rest)
unfolding read_payload
read_payload-message json message payload rest e v p small =
    let fits : (length payload == 0 || ltb 65536 (length payload)) ≡ false = ground arith in
    let there : ltb (length (payload ++ rest)) (length payload) ≡ false =
      ground (arith, length-append payload rest) in
    rw (fits, there, take-append payload rest, drop-append payload rest, e, read_message, v) refl

read_frame-size :
    (json : Json) (payload rest : List ℕ)
    → length payload ≤ 65536
    → read_frame json ((be_bytes 4 (length payload) ++ payload) ++ rest)
      ≡ read_payload json (length payload) (payload ++ rest)
unfolding read_frame be_bytes take drop
read_frame-size json payload rest small =
    let size : read_be (be_bytes 4 (length payload)) ≡ length payload =
      read_be-be_bytes 4 (length payload) ∙ mod-eq_of_lt (omega arith) in
    skip_test (length (be_bytes 4 (length payload) ++ (payload ++ rest))) _ _
      (frame-long (length payload) (payload ++ rest))
    ∙ ap (λ n. read_payload json n (payload ++ rest)) size

same_frame : (xs ys : List ℕ) (r : Result FrameError (List ℕ)) → r ≡ ok xs → r ≡ ok ys → xs ≡ ys
same_frame xs ys r e f = cc

frame_of-ok :
    (coded : Option (List ℕ)) (frame : List ℕ)
    → frame_of coded ≡ ok frame
    → (payload : List ℕ) × (coded ≡ some payload)
      × (length payload ≤ 65536)
      × (be_bytes 4 (length payload) ++ payload ≡ frame)
unfolding frame_of
frame_of-ok none frame e = cc
frame_of-ok (some payload) frame e = elim (Bool-cases (ltb 65536 (length payload))) [
  | inl large ↦ ground arith
  | inr small ↦
      let made : frame_of (some payload) ≡ ok (be_bytes 4 (length payload) ++ payload) =
        rw small refl in
      (payload, refl, ground arith, same_frame _ frame (frame_of (some payload)) made e)
]

write_frame-ok :
    (json : Json) (message : WireMessage) (frame : List ℕ)
    → write_frame json message ≡ ok frame
    → (validate_message message ≡ ok tt) × (frame_of (json.to_vec message) ≡ ok frame)
unfolding write_frame
write_frame-ok json message frame e = elim (Result-cases (validate_message message)) [
  | inl (u, v) ↦
      let made : write_frame json message ≡ frame_of (json.to_vec message) =
        rw (write_frame, v) refl in
      (v, sym made ∙ e)
  | inr (x, v) ↦
      let failed : write_frame json message ≡ err (invalid_message x) = rw (write_frame, v) refl in
      cc
]

-- A frame that is written, under a coding that reads what it writes and writes no empty payload, is
-- read back as its message, whatever follows it in the stream, and what follows is left; the
-- message is acceptable and the frame has at most 65540 bytes.
pub read_frame-write_frame :
    (json : Json) (law : IsJson json) (message : WireMessage) (frame rest : List ℕ)
    → write_frame json message ≡ ok frame
    → (read_frame json (frame ++ rest) ≡ (ok (some message), rest))
      × IsAcceptable message
      × (length frame ≤ 65540)
read_frame-write_frame json law message frame rest e =
    let (v, f) = write_frame-ok json message frame e in
    let (payload, coded, small, made) = frame_of-ok (json.to_vec message) frame f in
    let read = law.reads message payload coded in
    let p = law.not_empty message payload coded in
    (
      ap (λ bytes. read_frame json (bytes ++ rest)) (sym made)
          ∙ read_frame-size json payload rest small
          ∙ read_payload-message json message payload rest read v p small,
      (validate_message_iff message).0 v,
      omega (
        arith,
        ap length made,
        length-append (be_bytes 4 (length payload)) payload,
        be_bytes-length 4 (length payload),
      ),
    )

read_message-ok :
    (decoded : Option WireMessage) (message : WireMessage)
    → read_message decoded ≡ ok (some message)
    → IsAcceptable message
unfolding read_message
read_message-ok none message e = cc
read_message-ok (some m) message e = elim (Result-cases (validate_message m)) [
  | inl (u, v) ↦
      let made : read_message (some m) ≡ ok (some m) = rw (read_message, v) refl in
      let same : m ≡ message = cc in subst IsAcceptable same ((validate_message_iff m).0 v)
  | inr (x, v) ↦
      let failed : read_message (some m) ≡ err (invalid_message x) = rw (read_message, v) refl in cc
]

read_payload-ok :
    (json : Json) (size : ℕ) (bytes rest : List ℕ) (message : WireMessage)
    → read_payload json size bytes ≡ (ok (some message), rest)
    → IsAcceptable message × (0 < size) × (size ≤ 65536) × (length rest + size ≡ length bytes)
unfolding read_payload
read_payload-ok json size bytes rest message e =
    elim (Bool-cases (size == 0 || ltb max_frame_size size)) [
      | inl wrong ↦
          let failed : read_payload json size bytes ≡ (err invalid_frame_size, bytes) =
            rw (read_payload, wrong) refl in
          cc
      | inr right ↦ elim (Bool-cases (ltb (length bytes) size)) [
        | inl short ↦
            let failed : read_payload json size bytes ≡ (err unexpected_eof, []) =
              rw (read_payload, right, short) refl in
            cc
        | inr there ↦
            let made : read_payload json size bytes
                ≡ (read_message (json.from_slice (take size bytes)), drop size bytes) =
              rw (read_payload, right, there) refl in
            let first : read_message (json.from_slice (take size bytes)) ≡ ok (some message) = cc in
            let left : drop size bytes ≡ rest = cc in
            (
              read_message-ok (json.from_slice (take size bytes)) message first,
              ground arith,
              ground arith,
              ground (arith, length-drop size bytes, ap length left),
            )
      ]
    ]

-- Whatever the bytes of the stream and the coding, a message that is read is acceptable, and its
-- frame has 5 to 65540 bytes.
pub read_frame-IsAcceptable :
    (json : Json) (bytes rest : List ℕ) (message : WireMessage)
    → read_frame json bytes ≡ (ok (some message), rest)
    → IsAcceptable message × (length rest + 5 ≤ length bytes) × (length bytes ≤ length rest + 65540)
unfolding read_frame
read_frame-IsAcceptable json bytes rest message e = elim (Bool-cases (ltb (length bytes) 4)) [
  | inl short ↦
      let failed : read_frame json bytes ≡ (ok none, []) = rw (read_frame, short) refl in cc
  | inr there ↦
      let made : read_frame json bytes ≡ read_payload json (read_be (take 4 bytes)) (drop 4 bytes) =
        rw (read_frame, there) refl in
      let (good, p, small, l) =
        read_payload-ok json (read_be (take 4 bytes)) (drop 4 bytes) rest message (sym made ∙ e) in
      (good, ground (arith, length-drop 4 bytes), ground (arith, length-drop 4 bytes))
]
