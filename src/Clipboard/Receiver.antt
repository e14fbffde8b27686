-- ===== src/Clipboard/Receiver.antt =====
-- kvm-daemon/src/service.rs: the clipboard messages in the loop of run_capture_stream. Handing a paste to
-- the session's agent is a call of the operating system, and its failure is only logged.
use thekvm.Prelude.{
  ℕ, Bool, not, ◌&&◌, Option, some, List, [], ◌∷◌, ltb, leb, if◌then◌else◌, length,
}
use thekvm.Prelude.Text.{Text, byte_length}
use thekvm.Prelude.Slices.{chunks}
use thekvm.Wire.Message.{
  WireMessage, clipboard_text, clipboard_start, clipboard_chunk, clipboard_end, clipboard_image,
  clipboard_image_start, clipboard_image_chunk, clipboard_image_end,
}
use thekvm.Clipboard.{
  ClipboardAssembly, ClipboardFeed, ready, feed_start, feed_chunk, feed_end, cut_rounds,
  clipboard_chunk_bytes,
}
use thekvm.Clipboard.Image.{
  ImagePaste, ImageAssembly, ImageFeed, image_ready, feed_image_start, feed_image_chunk,
  feed_image_end,
}

pub data ClipboardKind : Type 0 where
  text_kind image_png : ClipboardKind

pub record RelayPaste : Type 0 where
  pub revision : ℕ
  pub kind : ClipboardKind
  pub chunks : List Text
  pub total_bytes : ℕ
  pub width : ℕ
  pub height : ℕ

-- A base64 payload is ASCII: a code point is a byte.
unfoldable pub split_relay_payload : Text → ClipboardKind → List Text
unfolding byte_length
split_relay_payload payload kind =
    if leb (byte_length payload) clipboard_chunk_bytes then payload ∷ [] else elim kind [
      | text_kind ↦ cut_rounds (length payload) payload
      | image_png ↦ chunks clipboard_chunk_bytes payload
    ]

-- The loop's variables, with the slot of the relay.
pub record Receiver : Type 0 where
  pub clipboard_enabled : Bool
  pub clipboard_max_bytes : ℕ
  pub remote_revision : ℕ
  pub text_assembly : ClipboardAssembly
  pub image_assembly : ImageAssembly
  pub latest_clipboard : Option Text
  pub latest_image : Option ImagePaste
  pub relay : Option RelayPaste

unfoldable pub stash_inbound_clipboard : Receiver → ℕ → ClipboardKind → Text → ℕ → ℕ → Receiver
unfolding split_relay_payload byte_length
stash_inbound_clipboard r revision kind payload width height = record r {
  relay = some (record {
    revision = revision;
    kind = kind;
    chunks = split_relay_payload payload kind;
    total_bytes = byte_length payload;
    width = width;
    height = height;
  });
}

unfoldable pub apply_inbound_clipboard : Receiver → ℕ → Text → Receiver
unfolding stash_inbound_clipboard
apply_inbound_clipboard r revision text =
    let stashed =
      stash_inbound_clipboard (record r { remote_revision = revision }) revision text_kind text 0
        0 in
    record stashed { latest_clipboard = some text }

unfoldable pub apply_inbound_clipboard_image : Receiver → ℕ → ImagePaste → Receiver
unfolding stash_inbound_clipboard
apply_inbound_clipboard_image r revision paste =
    let stashed =
      stash_inbound_clipboard (record r { remote_revision = revision }) revision image_png
        paste.png_base64 paste.width paste.height in
    record stashed { latest_image = some paste }

-- Only revisions newer than the last applied one are looked at.
abbrev pub is_current : Receiver → ℕ → Bool
is_current r revision = r.clipboard_enabled && ltb r.remote_revision revision

unfoldable pub end_text : Receiver → ℕ → ClipboardAssembly × ClipboardFeed → Receiver
unfolding apply_inbound_clipboard
end_text r revision (a, feed) =
    let kept : Receiver = record r { text_assembly = a } in
    elim feed [ ready text ↦ apply_inbound_clipboard kept revision text | _ ↦ kept ]

unfoldable pub end_image : Receiver → ℕ → ImageAssembly × ImageFeed → Receiver
unfolding apply_inbound_clipboard_image
end_image r revision (a, feed) =
    let kept : Receiver = record r { image_assembly = a } in
    elim feed [ image_ready paste ↦ apply_inbound_clipboard_image kept revision paste | _ ↦ kept ]

unfoldable pub receive : Receiver → WireMessage → Receiver
unfolding feed_start feed_chunk feed_end feed_image_start feed_image_chunk feed_image_end end_text
    end_image apply_inbound_clipboard apply_inbound_clipboard_image byte_length
receive r (clipboard_text revision text) =
    if is_current r revision && not (ltb r.clipboard_max_bytes (byte_length text))
    then apply_inbound_clipboard r revision text
    else r
receive r (clipboard_start revision total count) =
    let (a, feed) = feed_start r.text_assembly revision total count r.clipboard_max_bytes in
    if is_current r revision then record r { text_assembly = a } else r
receive r (clipboard_chunk revision index bytes) =
    let (a, feed) = feed_chunk r.text_assembly revision index bytes in
    if is_current r revision then record r { text_assembly = a } else r
receive r (clipboard_end revision) =
    if is_current r revision then end_text r revision (feed_end r.text_assembly revision) else r
receive r (clipboard_image i) =
    if is_current r i.revision && not (ltb r.clipboard_max_bytes (byte_length i.png_base64))
    then apply_inbound_clipboard_image r i.revision
        (record { png_base64 = i.png_base64; width = i.width; height = i.height })
    else r
receive r (clipboard_image_start s) =
    let (a, feed) =
      feed_image_start r.image_assembly s.revision s.total_bytes s.chunks s.width s.height
        r.clipboard_max_bytes in
    if is_current r s.revision then record r { image_assembly = a } else r
receive r (clipboard_image_chunk revision index bytes) =
    let (a, feed) = feed_image_chunk r.image_assembly revision index bytes in
    if is_current r revision then record r { image_assembly = a } else r
receive r (clipboard_image_end revision) =
    if is_current r revision
    then end_image r revision (feed_image_end r.image_assembly revision)
    else r
receive r _ = r

unfoldable pub receive_all : Receiver → List WireMessage → Receiver
unfolding receive
receive_all r [] = r
receive_all r (m ∷ messages) = receive_all (receive r m) messages
