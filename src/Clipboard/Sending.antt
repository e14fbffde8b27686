-- ===== src/Clipboard/Sending.antt =====
-- kvm-daemon/src/service.rs: the messages of a paste against the validation of wire.rs.
use thekvm.Prelude.{
  ℕ, suc, ◌+◌, ◌*◌, ◌^◌, ◌<◌, ◌≤◌, ◌≡◌, sym, ap, List, [], ◌∷◌, leb, length, All, arith, Bool-cases,
  inl, inr,
}
use mathlib.Core.Path.{subst}
use thekvm.Prelude.Text.{Text, byte_length}
use thekvm.Prelude.Slices.{concat}
use thekvm.Wire.Message.Acceptance.{IsAcceptable}
use thekvm.Clipboard.{chunk_messages, text_messages, split_clipboard_chunks}
use thekvm.Clipboard.Cutting.{IsChunk, byte_length-append, split_clipboard_chunks_lem}
use thekvm.Clipboard.Transfer.{send_small, send_large, some_pieces}

more : (n m : ℕ) → m ≤ n * 49152 → 49152 + m ≤ suc n * 49152
more n m h = grind arith

chunks_cover :
    (pieces : List Text) → All IsChunk pieces → byte_length (concat pieces) ≤ length pieces * 49152
unfolding concat byte_length
chunks_cover [] h = omega arith
chunks_cover (p ∷ pieces) (h, hs) =
    let step = more (length pieces) (byte_length (concat pieces)) (chunks_cover pieces hs) in
    omega (arith, byte_length-append p (concat pieces))

chunk_messages-IsAcceptable :
    (revision index : ℕ) (pieces : List Text)
    → All IsChunk pieces
    → All IsAcceptable (chunk_messages revision index pieces)
unfolding chunk_messages
chunk_messages-IsAcceptable revision index [] h = (tt, tt)
chunk_messages-IsAcceptable revision index (p ∷ pieces) (h, hs) =
    (h, chunk_messages-IsAcceptable revision (suc index) pieces hs)

-- Every message of a text of at most 16 MiB is acceptable to the validation of both ends.
pub text_messages-IsAcceptable :
    (revision : ℕ) (text : Text)
    → byte_length text ≤ 16777216
    → length text < 2 ^ 32
    → All IsAcceptable (text_messages revision text)
unfolding byte_length
text_messages-IsAcceptable revision text most short =
    elim (Bool-cases (leb (byte_length text) 49152)) [
      | inl small ↦
          subst (All IsAcceptable) (sym (send_small revision text small)) (ground arith, tt)
      | inr large ↦
          let pieces = split_clipboard_chunks text in
          let (whole, fit) = split_clipboard_chunks_lem text in
          let p : 49152 < byte_length text = ground arith in
          let total : byte_length (concat pieces) ≡ byte_length text = ap byte_length whole in
          subst (All IsAcceptable) (sym (send_large revision text large short)) (
            (most, some_pieces pieces (omega arith), omega (arith, chunks_cover pieces fit)),
            chunk_messages-IsAcceptable revision 0 pieces fit,
          )
    ]
