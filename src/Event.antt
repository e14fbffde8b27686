-- ===== src/Event.antt =====
-- kvm-core/src/event.rs: the platform-neutral input events.
use thekvm.Prelude.{ℕ, Bool, true, false, not, List}
use thekvm.Prelude.Int.{ℤ}

pub data MouseButton : Type 0 where
  left right middle back forward : MouseButton

pub record KeyEvent : Type 0 where
  pub usage : ℕ
  pub pressed : Bool
  pub repeat : Bool

pub data InputEvent : Type 0 where
  key : KeyEvent → InputEvent
  mouse_move : ℤ → ℤ → InputEvent
  mouse_button : MouseButton → Bool → InputEvent
  wheel : ℤ → ℤ → InputEvent
  smooth_wheel : ℤ → ℤ → InputEvent
  pinch : ℤ → InputEvent
  pinch_end : InputEvent

pub record InputPacket : Type 0 where
  pub sequence : ℕ
  pub event : InputEvent

-- The controls that are held.
pub record InputState : Type 0 where
  pub pressed_keys : List ℕ
  pub pressed_buttons : List MouseButton

-- A hold-ending event.
unfoldable pub is_release : InputEvent → Bool
is_release (key k) = not k.pressed
is_release (mouse_button b pressed) = not pressed
is_release pinch_end = true
is_release _ = false
