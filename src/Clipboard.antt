-- ===== src/Clipboard.antt =====
-- kvm-daemon/src/service.rs: a clipboard paste as messages, and the receiver that puts the chunks of a
-- large paste together. A string is its code points, and its length is that of its UTF-8.
pub mod Stream
pub mod Image
pub mod Offer
pub mod Initial
pub mod Receiver
pub mod Cutting
pub mod Bounded
pub mod Assembling
pub mod Transfer
pub mod Sending
pub mod Delivery
pub mod Failing
use thekvm.Prelude.{
  ℕ, zero, suc, ◌+◌, ◌-◌, ◌%◌, ◌^◌, Bool, true, false, not, ◌&&◌, ◌||◌, Option, none, some, List,
  [], ◌∷◌, ◌++◌, ltb, leb, ◌==◌, if◌then◌else◌, length,
}
use thekvm.Prelude.Text.{Text, utf8_width, byte_length}
use thekvm.Wire.Message.Frame.{Json}
use thekvm.Clipboard.Stream.{Sent, send_all}
use thekvm.Wire.Message.{
  WireMessage, clipboard_text, clipboard_start, clipboard_chunk, clipboard_end,
  max_clipboard_text_bytes,
}

abbrev pub clipboard_chunk_bytes : ℕ
clipboard_chunk_bytes = 49152

-- The longest prefix of at most `room` bytes that ends at a boundary of code points, and the rest.
unfoldable pub cut : ℕ → Text → Text × Text
unfolding utf8_width
cut room [] = ([], [])
cut room (c ∷ s) =
    let (front, back) = cut (room - utf8_width c) s in
    if leb (utf8_width c) room then (c ∷ front, back) else ([], c ∷ s)

-- The loop over the rest of the text; there are no more rounds than code points.
unfoldable pub cut_rounds : ℕ → Text → List Text
unfolding cut
cut_rounds zero s = []
cut_rounds (suc n) [] = []
cut_rounds (suc n) (c ∷ s) =
    let (front, back) = cut clipboard_chunk_bytes (c ∷ s) in front ∷ cut_rounds n back

unfoldable pub split_clipboard_chunks : Text → List Text
unfolding cut_rounds byte_length
split_clipboard_chunks text =
    if leb (byte_length text) clipboard_chunk_bytes
    then text ∷ []
    else cut_rounds (length text) text

-- The chunks as messages, from an index on.
unfoldable pub chunk_messages : ℕ → ℕ → List Text → List WireMessage
chunk_messages revision index [] = clipboard_end revision ∷ []
chunk_messages revision index (bytes ∷ chunks) =
    clipboard_chunk revision (index % 2 ^ 32) bytes ∷ chunk_messages revision (suc index) chunks

-- The messages of a text, in the order of the sends.
unfoldable pub text_messages : ℕ → Text → List WireMessage
unfolding split_clipboard_chunks chunk_messages byte_length
text_messages revision text =
    let chunks = split_clipboard_chunks text in
    if leb (byte_length text) max_clipboard_text_bytes
    then clipboard_text revision text ∷ []
    else clipboard_start revision (byte_length text) (length chunks % 2 ^ 32)
      ∷ chunk_messages revision 0 chunks

unfoldable pub send_clipboard_text : Json → (WireMessage → Bool) → ℕ → Text → Sent
unfolding text_messages send_all
send_clipboard_text json takes revision text = send_all json takes (text_messages revision text)

pub record ClipboardAssembly : Type 0 where
  pub revision : ℕ
  pub total_bytes : ℕ
  pub expected_chunks : ℕ
  pub next_index : ℕ
  pub received_bytes : ℕ
  pub buffer : Text

pub data ClipboardFeed : Type 0 where
  dropped pending : ClipboardFeed
  ready : Text → ClipboardFeed

abbrev pub closed : ClipboardAssembly
closed = record {
  revision = 0;
  total_bytes = 0;
  expected_chunks = 0;
  next_index = 0;
  received_bytes = 0;
  buffer = [];
}

unfoldable pub feed_start : ClipboardAssembly → ℕ → ℕ → ℕ → ℕ → ClipboardAssembly × ClipboardFeed
feed_start a revision total_bytes chunks max_bytes =
    if total_bytes == 0 || ltb max_bytes total_bytes || chunks == 0 then (closed, dropped) else (
      record closed { revision = revision; total_bytes = total_bytes; expected_chunks = chunks },
      pending,
    )

-- The counters are far from the ends of their types: the received bytes stay within the total.
unfoldable pub feed_chunk : ClipboardAssembly → ℕ → ℕ → Text → ClipboardAssembly × ClipboardFeed
unfolding byte_length
feed_chunk a revision index bytes =
    if not (revision == a.revision)
      || a.expected_chunks == 0
      || not (index == a.next_index)
      || ltb a.total_bytes (a.received_bytes + byte_length bytes)
    then (closed, dropped)
    else (
      record a {
        buffer = a.buffer ++ bytes;
        received_bytes = a.received_bytes + byte_length bytes;
        next_index = (a.next_index + 1) % 2 ^ 32;
      },
      pending,
    )

unfoldable pub feed_end : ClipboardAssembly → ℕ → ClipboardAssembly × ClipboardFeed
feed_end a revision =
    if not (revision == a.revision)
      || a.expected_chunks == 0
      || not (a.next_index == a.expected_chunks)
      || not (a.received_bytes == a.total_bytes)
    then (closed, dropped)
    else (closed, ready a.buffer)
