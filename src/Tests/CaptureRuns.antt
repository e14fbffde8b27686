-- ===== src/Tests/CaptureRuns.antt =====
-- Runs of the capturing side: a held key that repeats and is released, and a pinch.
use thekvm.Prelude.{ℕ, ◌≡◌, true, false, Bool, List, [], ◌∷◌, All, arith}
use thekvm.Prelude.Int.{pos}
use thekvm.Event.{InputEvent, key, pinch, pinch_end, mouse_move}
use thekvm.Capture.{CapturedState, contains, usage_code}
use thekvm.Capture.Held.{captures, holds_all, IsOrdered, captures-holds_all}
use thekvm.Capture.Sending.{sends, is_gesture, holds_ctrl, sends_lem}

abbrev holding : CapturedState
holding = record { last_event_id = 3; keys = 4 ∷ (9 ∷ []); buttons = []; last_repeat = [] }

abbrev press : ℕ → Bool → InputEvent
press usage pressed = key (record { usage = usage; pressed = pressed; repeat = false })

captures-holds_all_example :
    IsOrdered (captures holding ((0, press 9 true) ∷ ((5, press 4 false) ∷ []))).0
    × (contains usage_code 4
          (captures holding ((0, press 9 true) ∷ ((5, press 4 false) ∷ []))).0.keys
        ≡ holds_all 4
            (contains usage_code 4 holding.keys)
            (captures holding ((0, press 9 true) ∷ ((5, press 4 false) ∷ []))).1)
captures-holds_all_example =
    captures-holds_all ((0, press 9 true) ∷ ((5, press 4 false) ∷ [])) holding 4
      (((omega arith, tt), (tt, tt)), tt)

abbrev gesture : List (InputEvent × Bool)
gesture =
    (pinch (pos 120), false) ∷ ((mouse_move (pos 1) (pos 0), false) ∷ ((pinch_end, false) ∷ []))

sends_lem_example :
    All (λ e. is_gesture e ≡ false) (sends false false gesture).0
    × (holds_ctrl false (sends false false gesture).0 ≡ (sends false false gesture).1)
sends_lem_example = sends_lem gesture false (tt, (tt, (tt, tt)))
