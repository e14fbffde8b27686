-- ===== src/Clipboard/Assembling.antt =====
-- kvm-daemon/src/service.rs: the assembly of a chunked text at the receiver.
use thekvm.Prelude.{
  ℕ, suc, ◌+◌, ◌%◌, ◌^◌, ◌<◌, ◌≤◌, ◌≡◌, refl, ap, sym, ◌∙◌, true, false, ◌||◌, List, [], ◌∷◌, ◌++◌,
  ltb, ◌==◌, ==_refl, length, arith,
}
use mathlib.Core.List.{append_assoc, append-nil}
use native.Mathlib.Nat.{mod-eq_of_lt}
use thekvm.Prelude.Text.{Text, byte_length}
use thekvm.Prelude.Slices.{concat}
use thekvm.Wire.Message.{clipboard_text, clipboard_start, clipboard_chunk, clipboard_end}
use thekvm.Clipboard.{
  ClipboardAssembly, pending, ready, closed, feed_start, feed_chunk, feed_end, chunk_messages,
}
use thekvm.Clipboard.Receiver.{
  Receiver, receive, receive_all, end_text, apply_inbound_clipboard, is_current,
}
use thekvm.Clipboard.Cutting.{byte_length-append}

-- The assembly waits for these chunks.
abbrev pub Awaits : ClipboardAssembly → ℕ → List Text → Type 0
Awaits a revision rest =
    (a.revision ≡ revision)
    × (0 < a.expected_chunks)
    × (a.expected_chunks < 2 ^ 32)
    × (a.next_index + length rest ≡ a.expected_chunks)
    × (a.received_bytes + byte_length (concat rest) ≡ a.total_bytes)

-- The assembly after the next chunk.
abbrev pub advance : ClipboardAssembly → Text → ClipboardAssembly
advance a bytes = record a {
  buffer = a.buffer ++ bytes;
  received_bytes = a.received_bytes + byte_length bytes;
  next_index = (a.next_index + 1) % 2 ^ 32;
}

feed_chunk-advance :
    (a : ClipboardAssembly) (revision : ℕ) (bytes : Text) (rest : List Text)
    → Awaits a revision (bytes ∷ rest)
    → feed_chunk a revision (a.next_index % 2 ^ 32) bytes ≡ (advance a bytes, pending)
unfolding feed_chunk concat
feed_chunk-advance a revision bytes rest (same, p, small, count, total) =
    let i : a.next_index % 2 ^ 32 ≡ a.next_index = mod-eq_of_lt (omega arith) in
    let fits : ltb a.total_bytes (a.received_bytes + byte_length bytes) ≡ false =
      ground (arith, byte_length-append bytes (concat rest)) in
    let begun : (a.expected_chunks == 0) ≡ false = ground arith in
    let revisions : (revision == a.revision) ≡ true = ground arith in
    rw (i, fits, begun, revisions, ==_refl a.next_index) refl

Awaits-advance :
    (a : ClipboardAssembly) (revision : ℕ) (bytes : Text) (rest : List Text)
    → Awaits a revision (bytes ∷ rest)
    → Awaits (advance a bytes) revision rest
unfolding concat
Awaits-advance a revision bytes rest (same, p, small, count, total) =
    let i : (a.next_index + 1) % 2 ^ 32 ≡ a.next_index + 1 = mod-eq_of_lt (omega arith) in
    (same, p, small, omega arith, omega (arith, byte_length-append bytes (concat rest)))

feed_end-ready :
    (a : ClipboardAssembly) (revision : ℕ)
    → Awaits a revision []
    → feed_end a revision ≡ (closed, ready a.buffer)
unfolding feed_end concat byte_length
feed_end-ready a revision (same, p, small, count, total) =
    let begun : (a.expected_chunks == 0) ≡ false = ground arith in
    let revisions : (revision == a.revision) ≡ true = ground arith in
    let every : (a.next_index == a.expected_chunks) ≡ true = ground arith in
    let exact : (a.received_bytes == a.total_bytes) ≡ true = ground arith in
    rw (begun, revisions, every, exact) refl

suc_add : (n : ℕ) → suc n ≡ n + 1
suc_add n = omega arith

-- The receiver after a paste.
abbrev pub pasted : Receiver → ℕ → Text → Receiver
pasted r revision text = apply_inbound_clipboard (record r { text_assembly = closed }) revision text

abbrev advanced : Receiver → Text → Receiver
advanced r bytes = record r { text_assembly = advance r.text_assembly bytes }

receive-chunk :
    (r : Receiver) (revision : ℕ) (bytes : Text) (rest : List Text)
    → is_current r revision ≡ true
    → Awaits r.text_assembly revision (bytes ∷ rest)
    → receive r (clipboard_chunk revision (r.text_assembly.next_index % 2 ^ 32) bytes)
      ≡ advanced r bytes
unfolding receive
receive-chunk r revision bytes rest now h =
    rw (now, feed_chunk-advance r.text_assembly revision bytes rest h) refl

receive-end :
    (r : Receiver) (revision : ℕ)
    → is_current r revision ≡ true
    → Awaits r.text_assembly revision []
    → receive r (clipboard_end revision) ≡ pasted r revision r.text_assembly.buffer
unfolding receive end_text
receive-end r revision now h = rw (now, feed_end-ready r.text_assembly revision h) refl

pub receive-chunks :
    (rest : List Text) (r : Receiver) (revision index : ℕ)
    → is_current r revision ≡ true
    → Awaits r.text_assembly revision rest
    → index ≡ r.text_assembly.next_index
    → receive_all r (chunk_messages revision index rest)
      ≡ pasted r revision (r.text_assembly.buffer ++ concat rest)
unfolding receive_all chunk_messages concat
receive-chunks [] r revision index now h e =
    receive-end r revision now h ∙ ap (pasted r revision) (sym (append-nil r.text_assembly.buffer))
receive-chunks (bytes ∷ rest) r revision index now h e =
    let a = r.text_assembly in
    let (same, p, small, count, total) = h in
    let i : suc index ≡ (a.next_index + 1) % 2 ^ 32 =
      suc_add index ∙ ap (λ n. n + 1) e ∙ sym (mod-eq_of_lt (omega arith)) in
    ap (λ r'. receive_all r' (chunk_messages revision (suc index) rest))
      (ap (λ n. receive r (clipboard_chunk revision (n % 2 ^ 32) bytes)) e
        ∙ receive-chunk r revision bytes rest now h)
    ∙ receive-chunks rest (advanced r bytes) revision (suc index) now
        (Awaits-advance a revision bytes rest h) i
    ∙ ap (pasted r revision) (append_assoc a.buffer bytes (concat rest))

-- The opening of a transfer within the cap.
abbrev pub opened : ℕ → ℕ → ℕ → ClipboardAssembly
opened revision total count = record closed {
  revision = revision;
  total_bytes = total;
  expected_chunks = count;
}

pub receive-start :
    (r : Receiver) (revision total count : ℕ)
    → is_current r revision ≡ true
    → 0 < total
    → total ≤ r.clipboard_max_bytes
    → 0 < count
    → receive r (clipboard_start revision total count)
      ≡ record r { text_assembly = opened revision total count }
unfolding receive feed_start
receive-start r revision total count now p fits q =
    let good : (total == 0 || ltb r.clipboard_max_bytes total || count == 0) ≡ false =
      ground arith in
    rw (now, good) refl

pub receive-text :
    (r : Receiver) (revision : ℕ) (text : Text)
    → is_current r revision ≡ true
    → byte_length text ≤ r.clipboard_max_bytes
    → receive r (clipboard_text revision text) ≡ apply_inbound_clipboard r revision text
unfolding receive
receive-text r revision text now fits =
    let small : ltb r.clipboard_max_bytes (byte_length text) ≡ false = ground arith in
    rw (now, small) refl
