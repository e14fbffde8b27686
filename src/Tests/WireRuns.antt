-- ===== src/Tests/WireRuns.antt =====
-- Runs of the message validation and of the frames, with a toy coding that knows two messages.
use thekvm.Prelude.{
  ℕ, ◌≡◌, ◌↔◌, ◌≤◌, ◌<◌, refl, Option, none, some, List, [], ◌∷◌, ◌++◌, arith, length,
}
use mathlib.Core.Path.{subst}
use thekvm.Prelude.Result.{ok}
use thekvm.Wire.Message.{WireMessage, ping, release_all, clipboard_start, validate_message}
use thekvm.Wire.Message.Acceptance.{IsAcceptable, validate_message_iff}
use thekvm.Wire.Message.Frame.{Json, IsJson, write_frame, read_frame}
use thekvm.Wire.Message.FrameTrip.{read_frame-write_frame}

abbrev toy_to_vec : WireMessage → Option (List ℕ)
toy_to_vec (ping n) = some (1 ∷ (n ∷ []))
toy_to_vec release_all = some (2 ∷ [])
toy_to_vec _ = none

abbrev toy_from_slice : List ℕ → Option WireMessage
toy_from_slice (k ∷ (n ∷ [])) = some (ping n)
toy_from_slice (k ∷ []) = some release_all
toy_from_slice _ = none

abbrev toy_json : Json
toy_json = record { to_vec = toy_to_vec; from_slice = toy_from_slice }

toy_reads :
    (m : WireMessage) (bytes : List ℕ) → toy_to_vec m ≡ some bytes → toy_from_slice bytes ≡ some m
toy_reads (ping n) bytes e =
    let e' : 1 ∷ (n ∷ []) ≡ bytes = cc in subst (λ b. toy_from_slice b ≡ some (ping n)) e' refl
toy_reads release_all bytes e =
    let e' : 2 ∷ [] ≡ bytes = cc in subst (λ b. toy_from_slice b ≡ some release_all) e' refl
toy_reads _ bytes e = cc

validate_message_iff_example :
    (validate_message (clipboard_start 1 100_000 3) ≡ ok tt)
    ↔ IsAcceptable (clipboard_start 1 100_000 3)
validate_message_iff_example = validate_message_iff (clipboard_start 1 100_000 3)

toy_not_empty : (m : WireMessage) (bytes : List ℕ) → toy_to_vec m ≡ some bytes → 0 < length bytes
toy_not_empty (ping n) bytes e =
    let e' : 1 ∷ (n ∷ []) ≡ bytes = cc in subst (λ b. 0 < length b) e' (omega arith)
toy_not_empty release_all bytes e =
    let e' : 2 ∷ [] ≡ bytes = cc in subst (λ b. 0 < length b) e' (omega arith)
toy_not_empty _ bytes e = cc

toy_json-IsJson : IsJson toy_json
toy_json-IsJson = record { reads = toy_reads; not_empty = toy_not_empty }

abbrev ping_frame : List ℕ
ping_frame = 0 ∷ (0 ∷ (0 ∷ (2 ∷ (1 ∷ (7 ∷ [])))))

read_frame-write_frame_example :
    (read_frame toy_json (ping_frame ++ (9 ∷ [])) ≡ (ok (some (ping 7)), 9 ∷ []))
    × IsAcceptable (ping 7)
    × (length ping_frame ≤ 65540)
unfolding write_frame
read_frame-write_frame_example =
    read_frame-write_frame toy_json toy_json-IsJson (ping 7) ping_frame (9 ∷ []) refl
