-- ===== src/Tests/ClipboardRuns.antt =====
-- Runs of the clipboard: a receiver that has applied revision 4, in the middle of another transfer.
use thekvm.Clipboard.Cutting.{IsChunk, split_clipboard_chunks_lem}
use thekvm.Clipboard.{split_clipboard_chunks}
use thekvm.Prelude.Slices.{concat}
use thekvm.Prelude.{All, ◌≡◌, refl, true, none, arith}
use thekvm.Prelude.Text.{codes, byte_length, utf8_width}
use thekvm.Wire.Message.{clipboard_chunk}
use thekvm.Clipboard.{ClipboardAssembly, send_clipboard_text}
use thekvm.Clipboard.Image.{image_closed}
use thekvm.Clipboard.Receiver.{Receiver, receive, receive_all}
use thekvm.Clipboard.Bounded.{IsCapped, receive-IsCapped}
use thekvm.Prelude.{ℕ, Bool, false, Option, some, List, ◌∷◌}
use thekvm.Prelude.Result.{ok}
use thekvm.Wire.Bytes.{be_bytes}
use thekvm.Wire.Message.{
  WireMessage, clipboard_text, validate_message, check_names, check_geometry, check_clipboard,
}
use thekvm.Wire.Message.Frame.{Json, frame_of, write_frame}
use thekvm.Clipboard.{text_messages}
use thekvm.Clipboard.Stream.{stalled, send_all}
use thekvm.Clipboard.Transfer.{Arrived}
use thekvm.Clipboard.Delivery.{receive_all-send_clipboard_text}
use thekvm.Clipboard.Failing.{IsUntouched, send_clipboard_text_fails}

abbrev half_way : ClipboardAssembly
half_way = record {
  revision = 5;
  total_bytes = 9;
  expected_chunks = 2;
  next_index = 1;
  received_bytes = 2;
  buffer = codes "ab";
}

abbrev peer : Receiver
peer = record {
  clipboard_enabled = true;
  clipboard_max_bytes = 100;
  remote_revision = 4;
  text_assembly = half_way;
  image_assembly = image_closed;
  latest_clipboard = none;
  latest_image = none;
  relay = none;
}

-- A coding that knows short texts.
abbrev text_to_vec : WireMessage → Option (List ℕ)
text_to_vec (clipboard_text revision text) = some (1 ∷ text)
text_to_vec _ = none

abbrev text_json : Json
text_json = record { to_vec = text_to_vec; from_slice = λ bytes. none }

abbrev takes_all : WireMessage → Bool
takes_all m = true

receive_all-send_clipboard_text_example :
    ((send_clipboard_text text_json takes_all 6 (codes "paste")).1 ≡ ok tt)
    × Arrived
        (receive_all peer (send_clipboard_text text_json takes_all 6 (codes "paste")).0)
        6
        (codes "paste")
unfolding byte_length utf8_width text_messages
receive_all-send_clipboard_text_example =
    receive_all-send_clipboard_text text_json takes_all peer 6 (codes "paste") refl (omega arith)
      (omega arith) (omega arith) (omega arith) ((1 ∷ codes "paste", refl, omega arith), tt)
      (refl, tt)

-- The stream takes nothing in time.
send_clipboard_text_fails_example :
    IsUntouched peer
      (receive_all peer (send_clipboard_text text_json (λ m. false) 6 (codes "paste")).0)
unfolding send_clipboard_text text_messages send_all write_frame validate_message check_names
    check_geometry check_clipboard frame_of be_bytes byte_length utf8_width
send_clipboard_text_fails_example =
    send_clipboard_text_fails text_json (λ m. false) peer 6 (codes "paste") stalled refl

receive-IsCapped_example : IsCapped (receive peer (clipboard_chunk 5 1 (codes "cd")))
unfolding byte_length utf8_width
receive-IsCapped_example =
    receive-IsCapped peer (clipboard_chunk 5 1 (codes "cd"))
      ((refl, omega arith, omega arith), (refl, omega arith, omega arith))

split_clipboard_chunks_lem_example :
    (concat (split_clipboard_chunks (codes "paste")) ≡ codes "paste")
    × All IsChunk (split_clipboard_chunks (codes "paste"))
split_clipboard_chunks_lem_example = split_clipboard_chunks_lem (codes "paste")
