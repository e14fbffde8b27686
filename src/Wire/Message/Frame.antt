-- ===== src/Wire/Message/Frame.antt =====
-- kvm-protocol/src/wire.rs: writing a message as a frame and reading it. The JSON coding is a
-- library's: a parameter. The stream is the bytes that are still to come before it ends.
use thekvm.Prelude.{
  ℕ, ◌<◌, ◌≡◌, ◌||◌, Option, none, some, List, [], ◌++◌, ltb, ◌==◌, if◌then◌else◌, length,
}
use thekvm.Prelude.Result.{Result, ok, err}
use thekvm.Prelude.Slices.{take, drop}
use thekvm.Wire.Bytes.{be_bytes, read_be}
use thekvm.Wire.Message.{WireMessage, MessageError, validate_message, max_frame_size}

pub record Json : Type 0 where
  pub to_vec : WireMessage → Option (List ℕ)
  pub from_slice : List ℕ → Option WireMessage

-- What is known of the coding: what it writes is not empty, and is read back.
pub record IsJson (json : Json) : Type 0 where
  pub reads :
      (message : WireMessage) (bytes : List ℕ)
      → json.to_vec message ≡ some bytes
      → json.from_slice bytes ≡ some message
  pub not_empty :
      (message : WireMessage) (bytes : List ℕ) → json.to_vec message ≡ some bytes → 0 < length bytes

pub data FrameError : Type 0 where
  invalid_message : MessageError → FrameError
  not_encodable frame_too_large : FrameError
  invalid_frame_size unexpected_eof bad_json : FrameError

unfoldable pub frame_of : Option (List ℕ) → Result FrameError (List ℕ)
unfolding be_bytes
frame_of none = err not_encodable
frame_of (some payload) =
    if ltb max_frame_size (length payload)
    then err frame_too_large
    else ok (be_bytes 4 (length payload) ++ payload)

-- The bytes that are written.
unfoldable pub write_frame : Json → WireMessage → Result FrameError (List ℕ)
unfolding frame_of validate_message
write_frame json message = elim (validate_message message) [
  | err e ↦ err (invalid_message e)
  | ok u ↦ frame_of (json.to_vec message)
]

unfoldable pub read_message : Option WireMessage → Result FrameError (Option WireMessage)
unfolding validate_message
read_message none = err bad_json
read_message (some message) = elim (validate_message message) [
  | err e ↦ err (invalid_message e)
  | ok u ↦ ok (some message)
]

abbrev pub Read : Type 0
Read = Result FrameError (Option WireMessage) × List ℕ

-- The payload after its size.
unfoldable pub read_payload : Json → ℕ → List ℕ → Read
unfolding read_message take drop
read_payload json size bytes =
    if size == 0 || ltb max_frame_size size
    then (err invalid_frame_size, bytes)
    else if ltb (length bytes) size
    then (err unexpected_eof, [])
    else (read_message (json.from_slice (take size bytes)), drop size bytes)

-- A stream that ends before a header is no error. The outcome, and what is left of the stream.
unfoldable pub read_frame : Json → List ℕ → Read
unfolding read_payload read_be take drop
read_frame json bytes =
    if ltb (length bytes) 4
    then (ok none, [])
    else read_payload json (read_be (take 4 bytes)) (drop 4 bytes)
