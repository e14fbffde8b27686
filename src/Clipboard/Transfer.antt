-- ===== src/Clipboard/Transfer.antt =====
-- kvm-daemon/src/service.rs: a text that is sent and received.
use thekvm.Prelude.{
  ℕ, ◌%◌, ◌^◌, ◌<◌, ◌≤◌, ◌≡◌, refl, ap, sym, ◌∙◌, true, false, Option, some, none, List, [], ◌∷◌,
  leb, length, arith, Bool-cases, inl, inr,
}
use mathlib.Core.Path.{subst}
use native.Mathlib.Nat.{mod-eq_of_lt}
use thekvm.Prelude.Text.{Text, byte_length}
use thekvm.Prelude.Slices.{concat}
use thekvm.Wire.Message.{clipboard_text, clipboard_start}
use thekvm.Clipboard.{closed, chunk_messages, text_messages, split_clipboard_chunks}
use thekvm.Clipboard.Receiver.{
  Receiver, receive_all, apply_inbound_clipboard, is_current, stash_inbound_clipboard,
  split_relay_payload, text_kind,
}
use thekvm.Clipboard.Cutting.{split_clipboard_chunks_lem, cut_rounds-length}
use thekvm.Clipboard.Assembling.{
  Awaits, opened, pasted, receive-chunks, receive-start, receive-text,
}

-- What the relay holds, in one piece.
pub relayed : Receiver → Option Text
relayed r = elim r.relay [ none ↦ none | some p ↦ some (concat p.chunks) ]

split_relay_payload_lem : (text : Text) → concat (split_relay_payload text text_kind) ≡ text
unfolding split_relay_payload split_clipboard_chunks
split_relay_payload_lem text = (split_clipboard_chunks_lem text).0

-- The text is the latest paste, and the relay holds it.
abbrev pub Arrived : Receiver → ℕ → Text → Type 0
Arrived r revision text =
    (r.latest_clipboard ≡ some text) × (r.remote_revision ≡ revision) × (relayed r ≡ some text)

apply-Arrived :
    (r : Receiver) (revision : ℕ) (text : Text)
    → Arrived (apply_inbound_clipboard r revision text) revision text
unfolding apply_inbound_clipboard stash_inbound_clipboard relayed
apply-Arrived r revision text = (refl, refl, ap some (split_relay_payload_lem text))

pub send_small :
    (revision : ℕ) (text : Text)
    → leb (byte_length text) 49152 ≡ true
    → text_messages revision text ≡ clipboard_text revision text ∷ []
unfolding text_messages
send_small revision text e = rw e refl

pub pieces_count :
    (text : Text)
    → leb (byte_length text) 49152 ≡ false
    → length (split_clipboard_chunks text) ≤ length text
unfolding split_clipboard_chunks
pieces_count text e = rw e (cut_rounds-length (length text) text)

pub some_pieces : (pieces : List Text) → 0 < byte_length (concat pieces) → 0 < length pieces
unfolding concat byte_length
some_pieces [] h = absurd (omega arith)
some_pieces (p ∷ pieces) h = omega arith

pub send_large :
    (revision : ℕ) (text : Text)
    → leb (byte_length text) 49152 ≡ false
    → length text < 2 ^ 32
    → text_messages revision text
      ≡ clipboard_start revision (byte_length text) (length (split_clipboard_chunks text))
        ∷ chunk_messages revision 0 (split_clipboard_chunks text)
unfolding text_messages
send_large revision text e short =
    let n : length (split_clipboard_chunks text) % 2 ^ 32 ≡ length (split_clipboard_chunks text) =
      mod-eq_of_lt (omega (arith, pieces_count text e)) in
    rw e refl
    ∙ ap
        (λ k.
          clipboard_start revision (byte_length text) k
          ∷ chunk_messages revision 0 (split_clipboard_chunks text))
        n

receive-large :
    (r : Receiver) (revision : ℕ) (text : Text)
    → is_current r revision ≡ true
    → byte_length text ≤ r.clipboard_max_bytes
    → length text < 2 ^ 32
    → leb (byte_length text) 49152 ≡ false
    → receive_all r (text_messages revision text) ≡ pasted r revision text
unfolding receive_all byte_length
receive-large r revision text now fits short large =
    let pieces = split_clipboard_chunks text in
    let whole : concat pieces ≡ text = (split_clipboard_chunks_lem text).0 in
    let p : 49152 < byte_length text = ground arith in
    let n : 0 < length pieces = some_pieces pieces (omega (arith, ap byte_length whole)) in
    let a = opened revision (byte_length text) (length pieces) in
    let begun : Receiver = record r { text_assembly = a } in
    let waits : Awaits a revision pieces = (
      refl,
      n,
      omega (arith, pieces_count text large),
      omega arith,
      omega (arith, ap byte_length whole),
    ) in
    ap (receive_all r) (send_large revision text large short)
    ∙ ap (λ r'. receive_all r' (chunk_messages revision 0 pieces))
        (receive-start r revision (byte_length text) (length pieces) now (omega arith) fits n)
    ∙ receive-chunks pieces begun revision 0 now waits refl
    ∙ ap (pasted r revision) whole

-- All messages of a text, at a receiver that takes part and has applied only older revisions.
pub receive_all-text_messages :
    (r : Receiver) (revision : ℕ) (text : Text)
    → r.clipboard_enabled ≡ true
    → r.remote_revision < revision
    → byte_length text ≤ r.clipboard_max_bytes
    → length text < 2 ^ 32
    → Arrived (receive_all r (text_messages revision text)) revision text
unfolding receive_all
receive_all-text_messages r revision text on newer fits short =
    let now : is_current r revision ≡ true = ground arith in
    elim (Bool-cases (leb (byte_length text) 49152)) [
      | inl small ↦
          subst (λ r'. Arrived r' revision text)
            (sym (
              ap (receive_all r) (send_small revision text small)
              ∙ receive-text r revision text now fits))
            (apply-Arrived r revision text)
      | inr large ↦
          subst (λ r'. Arrived r' revision text)
            (sym (receive-large r revision text now fits short large))
            (apply-Arrived (record r { text_assembly = closed }) revision text)
    ]
