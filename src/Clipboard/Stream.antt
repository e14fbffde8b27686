-- ===== src/Clipboard/Stream.antt =====
-- kvm-daemon/src/service.rs: the messages of a paste on the reliable stream, with `write_frame(..)?` for
-- each: the first message that is refused, or that the stream does not take, ends the send.
use thekvm.Prelude.{ℕ, Bool, true, false, List, [], ◌∷◌}
use thekvm.Prelude.Result.{Result, ok, err}
use thekvm.Wire.Message.{WireMessage}
use thekvm.Wire.Message.Frame.{Json, FrameError, write_frame}

pub data SendError : Type 0 where
  refused : FrameError → SendError
  stalled : SendError

-- The messages that were written, in order, and the outcome.
abbrev pub Sent : Type 0
Sent = List WireMessage × Result SendError (Unit {0})

abbrev pub written : Bool → Result FrameError (List ℕ) → Result SendError (Unit {0})
written takes (err e) = err (refused e)
written true (ok frame) = ok tt
written false (ok frame) = err stalled

abbrev pub then_send : WireMessage → Sent → Result SendError (Unit {0}) → Sent
then_send m rest (ok u) = (m ∷ rest.0, rest.1)
then_send m rest (err e) = ([], err e)

-- `takes m`: the stream takes the frame of `m` whole, before the two seconds of the send are over.
module _ (json : Json) (takes : WireMessage → Bool) where
  unfoldable pub send_all : List WireMessage → Sent
  unfolding write_frame
  send_all [] = ([], ok tt)
  send_all (m ∷ messages) = then_send m (send_all messages) (written (takes m) (write_frame json m))
