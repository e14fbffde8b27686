-- ===== src/Clipboard/Delivery.antt =====
-- kvm-daemon/src/service.rs: a text that is sent on the stream and received.
use thekvm.Prelude.{
  ℕ, ◌^◌, ◌<◌, ◌≤◌, ◌≡◌, refl, ap, sym, Bool, true, false, some, List, [], ◌∷◌, ◌++◌, ltb, length,
  All, arith,
}
use mathlib.Core.Path.{subst}
use thekvm.Prelude.Result.{ok}
use thekvm.Prelude.Text.{Text, byte_length}
use thekvm.Wire.Bytes.{be_bytes}
use thekvm.Wire.Message.{WireMessage, validate_message}
use thekvm.Wire.Message.Acceptance.{IsAcceptable, validate_message_iff}
use thekvm.Wire.Message.Frame.{Json, frame_of, write_frame}
use thekvm.Clipboard.{text_messages, send_clipboard_text}
use thekvm.Clipboard.Stream.{Sent, send_all}
use thekvm.Clipboard.Receiver.{Receiver, receive_all}
use thekvm.Clipboard.Transfer.{Arrived, receive_all-text_messages}
use thekvm.Clipboard.Sending.{text_messages-IsAcceptable}

module _ (json : Json) where
  -- The coding of the message fits a frame.
  abbrev pub IsCoded : WireMessage → Type 0
  IsCoded m = (payload : List ℕ) × (json.to_vec m ≡ some payload) × (length payload ≤ 65536)

  write_frame-IsCoded :
      (m : WireMessage)
      → IsAcceptable m
      → IsCoded m
      → (frame : List ℕ) × (write_frame json m ≡ ok frame)
  unfolding write_frame frame_of
  write_frame-IsCoded m good (payload, coded, small) =
      let valid : validate_message m ≡ ok tt = (validate_message_iff m).1 good in
      let fits : ltb 65536 (length payload) ≡ false = ground arith in
      (be_bytes 4 (length payload) ++ payload, rw (valid, coded, write_frame, fits, frame_of) refl)

  module _ (takes : WireMessage → Bool) where
    send_all-ok :
        (messages : List WireMessage)
        → All IsAcceptable messages
        → All IsCoded messages
        → All (λ m. takes m ≡ true) messages
        → send_all json takes messages ≡ (messages, ok tt)
    unfolding send_all
    send_all-ok [] good coded through = refl
    send_all-ok (m ∷ messages) (g, good) (c, coded) (o, through) =
        let (frame, e) = write_frame-IsCoded m g c in
        rw (e, o, send_all-ok messages good coded through) refl

    -- A text that is sent arrives, at a receiver that takes part and has applied only older
    -- revisions, whatever transfer it had through, when the text has at most 16 MiB and is within the
    -- receiver's cap, the coding of each of its messages has at most 64 KiB, and the stream takes
    -- them: the send succeeds, and afterwards the text is the receiver's latest paste, the revision
    -- the last applied one, and the pieces in the relay make up the text.
    pub receive_all-send_clipboard_text :
        (r : Receiver) (revision : ℕ) (text : Text)
        → r.clipboard_enabled ≡ true
        → r.remote_revision < revision
        → byte_length text ≤ r.clipboard_max_bytes
        → byte_length text ≤ 16777216
        → length text < 2 ^ 32
        → All IsCoded (text_messages revision text)
        → All (λ m. takes m ≡ true) (text_messages revision text)
        → ((send_clipboard_text json takes revision text).1 ≡ ok tt)
          × Arrived (receive_all r (send_clipboard_text json takes revision text).0) revision text
    unfolding send_clipboard_text
    receive_all-send_clipboard_text r revision text on newer fits most short coded through =
        let sent =
          send_all-ok (text_messages revision text)
            (text_messages-IsAcceptable revision text most short) coded through in
        (
          ap (λ (s : Sent). s.1) sent,
          subst (λ (s : Sent). Arrived (receive_all r s.0) revision text) (sym sent)
              (receive_all-text_messages r revision text on newer fits short),
        )
