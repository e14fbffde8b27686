-- ===== src/Clipboard/Image.antt =====
-- kvm-daemon/src/service.rs: an image paste as messages, and the assembly of a chunked one. Base64 is
-- ASCII: a code point is a byte.
use thekvm.Prelude.{
  ℕ, Bool, suc, ◌+◌, ◌%◌, ◌^◌, not, ◌||◌, List, [], ◌∷◌, ◌++◌, ltb, leb, ◌==◌, if◌then◌else◌,
  length,
}
use thekvm.Prelude.Text.{Text, byte_length}
use thekvm.Prelude.Slices.{chunks}
use thekvm.Wire.Message.{
  WireMessage, clipboard_image, clipboard_image_start, clipboard_image_chunk, clipboard_image_end,
  max_clipboard_text_bytes,
}
use thekvm.Wire.Message.Frame.{Json}
use thekvm.Clipboard.Stream.{Sent, send_all}
use thekvm.Clipboard.{clipboard_chunk_bytes}

pub record ImagePaste : Type 0 where
  pub png_base64 : Text
  pub width : ℕ
  pub height : ℕ

unfoldable pub split_base64_chunks : Text → List Text
unfolding byte_length chunks
split_base64_chunks encoded =
    if leb (byte_length encoded) clipboard_chunk_bytes
    then encoded ∷ []
    else chunks clipboard_chunk_bytes encoded

unfoldable pub image_chunk_messages : ℕ → ℕ → List Text → List WireMessage
image_chunk_messages revision index [] = clipboard_image_end revision ∷ []
image_chunk_messages revision index (bytes ∷ rest) =
    clipboard_image_chunk revision (index % 2 ^ 32) bytes
    ∷ image_chunk_messages revision (suc index) rest

-- The messages of an image, in the order of the sends.
unfoldable pub image_messages : ℕ → ImagePaste → List WireMessage
unfolding split_base64_chunks image_chunk_messages byte_length
image_messages revision paste =
    let pieces = split_base64_chunks paste.png_base64 in
    if leb (byte_length paste.png_base64) max_clipboard_text_bytes
    then clipboard_image (record {
      revision = revision;
      width = paste.width;
      height = paste.height;
      png_base64 = paste.png_base64;
    })
      ∷ []
    else clipboard_image_start (record {
      revision = revision;
      total_bytes = byte_length paste.png_base64;
      chunks = length pieces % 2 ^ 32;
      width = paste.width;
      height = paste.height;
    })
      ∷ image_chunk_messages revision 0 pieces

unfoldable pub send_clipboard_image : Json → (WireMessage → Bool) → ℕ → ImagePaste → Sent
unfolding image_messages send_all
send_clipboard_image json takes revision paste = send_all json takes (image_messages revision paste)

pub record ImageAssembly : Type 0 where
  pub revision : ℕ
  pub total_bytes : ℕ
  pub expected_chunks : ℕ
  pub next_index : ℕ
  pub received_bytes : ℕ
  pub buffer : Text
  pub width : ℕ
  pub height : ℕ

pub data ImageFeed : Type 0 where
  image_dropped image_pending : ImageFeed
  image_ready : ImagePaste → ImageFeed

abbrev pub image_closed : ImageAssembly
image_closed = record {
  revision = 0;
  total_bytes = 0;
  expected_chunks = 0;
  next_index = 0;
  received_bytes = 0;
  buffer = [];
  width = 0;
  height = 0;
}

unfoldable pub feed_image_start : ImageAssembly → ℕ → ℕ → ℕ → ℕ → ℕ → ℕ → ImageAssembly × ImageFeed
feed_image_start a revision total_bytes count width height max_bytes =
    if total_bytes == 0
      || ltb max_bytes total_bytes
      || count == 0
      || width == 0
      || height == 0
      || ltb 16384 width
      || ltb 16384 height
    then (image_closed, image_dropped)
    else (
      record image_closed {
        revision = revision;
        total_bytes = total_bytes;
        expected_chunks = count;
        width = width;
        height = height;
      },
      image_pending,
    )

unfoldable pub feed_image_chunk : ImageAssembly → ℕ → ℕ → Text → ImageAssembly × ImageFeed
unfolding byte_length
feed_image_chunk a revision index bytes =
    if not (revision == a.revision)
      || a.expected_chunks == 0
      || not (index == a.next_index)
      || ltb a.total_bytes (a.received_bytes + byte_length bytes)
    then (image_closed, image_dropped)
    else (
      record a {
        buffer = a.buffer ++ bytes;
        received_bytes = a.received_bytes + byte_length bytes;
        next_index = (a.next_index + 1) % 2 ^ 32;
      },
      image_pending,
    )

unfoldable pub feed_image_end : ImageAssembly → ℕ → ImageAssembly × ImageFeed
feed_image_end a revision =
    if not (revision == a.revision)
      || a.expected_chunks == 0
      || not (a.next_index == a.expected_chunks)
      || not (a.received_bytes == a.total_bytes)
    then (image_closed, image_dropped)
    else (
      image_closed,
      image_ready (record { png_base64 = a.buffer; width = a.width; height = a.height }),
    )
