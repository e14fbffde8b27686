-- ===== src/Clipboard/Initial.antt =====
-- kvm-daemon/src/service.rs: sending a change of the local clipboard, and the last known state when an
-- episode opens. A send that fails ends the call.
use thekvm.Prelude.{
  ℕ, ◌+◌, ◌%◌, ◌^◌, Bool, Option, none, some, List, [], ◌++◌, ltb, leb, if◌then◌else◌,
}
use thekvm.Prelude.Result.{Result, ok, err}
use thekvm.Wire.Message.Frame.{Json}
use thekvm.Clipboard.Stream.{SendError, Sent}
use thekvm.Prelude.Text.{Text, byte_length}
use thekvm.Wire.Message.{WireMessage}
use thekvm.Clipboard.{send_clipboard_text}
use thekvm.Clipboard.Image.{ImagePaste, send_clipboard_image}

pub data ClipboardChanged : Type 0 where
  text_changed : Text → ClipboardChanged
  image_changed : ImagePaste → ClipboardChanged

pub record ClipboardInitial : Type 0 where
  pub text : Option Text
  pub image : Option ImagePaste

abbrev pub next_revision : ℕ → ℕ
next_revision revision = (revision + 1) % 2 ^ 64

abbrev pub changed_bytes : ClipboardChanged → ℕ
changed_bytes (text_changed text) = byte_length text
changed_bytes (image_changed paste) = byte_length paste.png_base64

-- What was written, and the new revision with the change, or nothing when it is over the cap.
abbrev pub Change : Type 0
Change = List WireMessage × Result SendError (Option (ℕ × ClipboardChanged))

abbrev pub change_result : ℕ → ClipboardChanged → Sent → Change
change_result revision change (messages, ok u) = (messages, ok (some (revision, change)))
change_result revision change (messages, err e) = (messages, err e)

-- What was written, the revision that the caller has afterwards, and the outcome.
abbrev pub Known : Type 0
Known = List WireMessage × ℕ × Result SendError (Unit {0})

abbrev pub known_result : ℕ → Sent → Known
known_result revision (messages, result) = (messages, revision, result)

-- The second half is sent when the first was.
abbrev pub then_known : Known → (ℕ → Known) → Known
then_known (messages, revision, err e) next = (messages, revision, err e)
then_known (messages, revision, ok u) next =
    let (more, after, result) = next revision in (messages ++ more, after, result)

module _ (json : Json) (takes : WireMessage → Bool) where
  unfoldable pub send_change : ℕ → ClipboardChanged → Sent
  unfolding send_clipboard_text send_clipboard_image
  send_change revision (text_changed text) = send_clipboard_text json takes revision text
  send_change revision (image_changed paste) = send_clipboard_image json takes revision paste

  unfoldable pub send_clipboard_change : ℕ → ClipboardChanged → ℕ → Change
  unfolding byte_length send_change
  send_clipboard_change revision change max_bytes =
      if ltb max_bytes (changed_bytes change)
      then ([], ok none)
      else change_result (next_revision revision) change
          (send_change (next_revision revision) change)

  -- One half of the state, when there is one and it is within the cap.
  unfoldable pub send_known : Option ClipboardChanged → ℕ → ℕ → Known
  unfolding byte_length send_change
  send_known none max_bytes revision = ([], revision, ok tt)
  send_known (some change) max_bytes revision =
      if leb (changed_bytes change) max_bytes
      then known_result (next_revision revision) (send_change (next_revision revision) change)
      else ([], revision, ok tt)

abbrev pub known_text : Option Text → Option ClipboardChanged
known_text none = none
known_text (some text) = some (text_changed text)

abbrev pub known_image : Option ImagePaste → Option ClipboardChanged
known_image none = none
known_image (some paste) = some (image_changed paste)

-- The text first, then the image.
unfoldable pub send_initial_clipboard :
    Json → (WireMessage → Bool) → ClipboardInitial → ℕ → ℕ → Known
unfolding send_known
send_initial_clipboard json takes initial revision max_bytes =
    then_known (send_known json takes (known_text initial.text) max_bytes revision)
      (send_known json takes (known_image initial.image) max_bytes)
