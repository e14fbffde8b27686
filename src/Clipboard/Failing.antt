-- ===== src/Clipboard/Failing.antt =====
-- kvm-daemon/src/service.rs: a send that fails before its last message.
use thekvm.Prelude.{
  ℕ, suc, ◌%◌, ◌^◌, ◌≡◌, refl, ap, ◌∙◌, sym, Bool, List, [], ◌∷◌, leb, length, Bool-cases, inl, inr,
}
use mathlib.Core.Path.{subst}
use thekvm.Prelude.Result.{Result, ok, err}
use thekvm.Prelude.Text.{Text, byte_length}
use thekvm.Wire.Message.{
  WireMessage, clipboard_start, clipboard_chunk, clipboard_end, clipboard_text,
}
use thekvm.Wire.Message.Frame.{Json, write_frame}
use thekvm.Clipboard.{chunk_messages, split_clipboard_chunks, text_messages, send_clipboard_text}
use thekvm.Clipboard.Stream.{SendError, Sent, written, then_send, send_all}
use thekvm.Clipboard.Receiver.{Receiver, receive, receive_all, is_current}

-- The receiver has the paste that it had.
abbrev pub IsUntouched : Receiver → Receiver → Type 0
IsUntouched r r' =
    (r'.latest_clipboard ≡ r.latest_clipboard)
    × (r'.remote_revision ≡ r.remote_revision)
    × (r'.relay ≡ r.relay)

receive-chunk-IsUntouched :
    (r : Receiver) (revision index : ℕ) (bytes : Text)
    → IsUntouched r (receive r (clipboard_chunk revision index bytes))
unfolding receive
receive-chunk-IsUntouched r revision index bytes = elim (Bool-cases (is_current r revision)) [
  | inl e ↦ rw e (refl, refl, refl)
  | inr e ↦ rw e (refl, refl, refl)
]

receive-start-IsUntouched :
    (r : Receiver) (revision total count : ℕ)
    → IsUntouched r (receive r (clipboard_start revision total count))
unfolding receive
receive-start-IsUntouched r revision total count = elim (Bool-cases (is_current r revision)) [
  | inl e ↦ rw e (refl, refl, refl)
  | inr e ↦ rw e (refl, refl, refl)
]

IsUntouched-trans : (a b c : Receiver) → IsUntouched a b → IsUntouched b c → IsUntouched a c
IsUntouched-trans a b c (x, y, z) (x', y', z') = (x' ∙ x, y' ∙ y, z' ∙ z)

-- What arrives of a message and those after it.
then_send-IsUntouched :
    (m : WireMessage) (rest : Sent) (w : Result SendError (Unit {0})) (e : SendError) (r : Receiver)
    → IsUntouched r (receive r m)
    → (rest.1 ≡ err e → IsUntouched (receive r m) (receive_all (receive r m) rest.0))
    → (then_send m rest w).1 ≡ err e
    → IsUntouched r (receive_all r (then_send m rest w).0)
unfolding receive_all
then_send-IsUntouched m rest (ok u) e r first later failed =
    IsUntouched-trans r (receive r m) (receive_all (receive r m) rest.0) first (later failed)
then_send-IsUntouched m rest (err x) e r first later failed = (refl, refl, refl)

-- A single message is written, or nothing is.
last_fails :
    (m : WireMessage) (w : Result SendError (Unit {0})) (e : SendError)
    → (then_send m ([], ok tt) w).1 ≡ err e
    → (then_send m ([], ok tt) w).0 ≡ []
last_fails m (ok u) e failed = cc
last_fails m (err x) e failed = refl

module _ (json : Json) (takes : WireMessage → Bool) where
  single_fails :
      (m : WireMessage) (e : SendError) (r : Receiver)
      → (send_all json takes (m ∷ [])).1 ≡ err e
      → IsUntouched r (receive_all r (send_all json takes (m ∷ [])).0)
  unfolding send_all receive_all
  single_fails m e r failed =
      subst (λ ms. IsUntouched r (receive_all r ms))
        (sym (last_fails m (written (takes m) (write_frame json m)) e failed)) (refl, refl, refl)

  chunks_fail :
      (pieces : List Text) (revision index : ℕ) (e : SendError) (r : Receiver)
      → (send_all json takes (chunk_messages revision index pieces)).1 ≡ err e
      → IsUntouched r (receive_all r (send_all json takes (chunk_messages revision index pieces)).0)
  unfolding send_all chunk_messages
  chunks_fail [] revision index e r failed = single_fails (clipboard_end revision) e r failed
  chunks_fail (p ∷ pieces) revision index e r failed =
      let m = clipboard_chunk revision (index % 2 ^ 32) p in
      then_send-IsUntouched m (send_all json takes (chunk_messages revision (suc index) pieces))
        (written (takes m) (write_frame json m)) e r
        (receive-chunk-IsUntouched r revision (index % 2 ^ 32) p)
        (chunks_fail pieces revision (suc index) e (receive r m)) failed

  messages_fail :
      (revision : ℕ) (text : Text) (e : SendError) (r : Receiver)
      → (send_all json takes (text_messages revision text)).1 ≡ err e
      → IsUntouched r (receive_all r (send_all json takes (text_messages revision text)).0)
  unfolding text_messages send_all
  messages_fail revision text e r failed = elim (Bool-cases (leb (byte_length text) 49152)) [
    | inl small ↦
        let one : text_messages revision text ≡ clipboard_text revision text ∷ [] =
          rw (text_messages, small) refl in
        subst (λ ms. IsUntouched r (receive_all r (send_all json takes ms).0)) (sym one)
          (single_fails (clipboard_text revision text) e r
            (ap (λ ms. (send_all json takes ms).1) (sym one) ∙ failed))
    | inr large ↦
        let pieces = split_clipboard_chunks text in
        let m = clipboard_start revision (byte_length text) (length pieces % 2 ^ 32) in
        let many : text_messages revision text ≡ m ∷ chunk_messages revision 0 pieces =
          rw (text_messages, large) refl in
        subst (λ ms. IsUntouched r (receive_all r (send_all json takes ms).0)) (sym many)
          (then_send-IsUntouched m (send_all json takes (chunk_messages revision 0 pieces))
            (written (takes m) (write_frame json m)) e r
            (receive-start-IsUntouched r revision (byte_length text) (length pieces % 2 ^ 32))
            (chunks_fail pieces revision 0 e (receive r m))
            (ap (λ ms. (send_all json takes ms).1) (sym many) ∙ failed))
  ]

  -- A text whose send fails, since a message is refused or the stream does not take it, is never
  -- half applied: after what was written of it, any receiver has the latest paste, the revision and
  -- the paste in the relay that it had.
  pub send_clipboard_text_fails :
      (r : Receiver) (revision : ℕ) (text : Text) (e : SendError)
      → (send_clipboard_text json takes revision text).1 ≡ err e
      → IsUntouched r (receive_all r (send_clipboard_text json takes revision text).0)
  unfolding send_clipboard_text
  send_clipboard_text_fails r revision text e failed = messages_fail revision text e r failed
