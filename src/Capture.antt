-- ===== src/Capture.antt =====
-- kvm-daemon/src/service.rs: the state of the capturing side, what each captured event makes of it, and
-- the events that are sent for it. A sorted set is a list in increasing order.
pub mod Sets
pub mod Held
pub mod Sending
use thekvm.Prelude.{
  ℕ, suc, ◌+◌, ◌-◌, ◌%◌, ◌^◌, Bool, true, false, not, ◌&&◌, ◌||◌, Option, none, some, List, [], ◌∷◌,
  ltb, leb, ◌==◌, if◌then◌else◌,
}
use thekvm.Prelude.Int.{ℤ, pos, negsuc}
use thekvm.Prelude.Dict.{Dict, get, put, remove}
use thekvm.Event.{
  InputEvent, KeyEvent, MouseButton, InputState, key, mouse_move, mouse_button, wheel, smooth_wheel,
  pinch, pinch_end, left, right, middle, back, forward,
}

-- The place of a button in the order of the source.
abbrev pub rank : MouseButton → ℕ
rank left = 0
rank right = 1
rank middle = 2
rank back = 3
rank forward = 4

module _ {ℓ} {A : Type ℓ} (code : A → ℕ) where
  unfoldable pub contains : A → List A → Bool
  contains x [] = false
  contains x (y ∷ ys) = code x == code y || contains x ys

  unfoldable pub insert : A → List A → List A
  insert x [] = x ∷ []
  insert x (y ∷ ys) =
      let rest = insert x ys in
      if code x == code y then y ∷ ys else if ltb (code x) (code y) then x ∷ (y ∷ ys) else y ∷ rest

  unfoldable pub delete : A → List A → List A
  delete x [] = []
  delete x (y ∷ ys) = let rest = delete x ys in if code x == code y then ys else y ∷ rest

-- A usage is its own code.
abbrev pub usage_code : ℕ → ℕ
usage_code u = u

-- The repeat stamps are instants in nanoseconds.
pub record CapturedState : Type 0 where
  pub last_event_id : ℕ
  pub keys : List ℕ
  pub buttons : List MouseButton
  pub last_repeat : Dict ℕ

pub record CapturedEvent : Type 0 where
  pub event : InputEvent
  pub event_id : ℕ

pub record CaptureSnapshot : Type 0 where
  pub state : InputState
  pub last_event_id : ℕ

abbrev pub repeat_throttle_window : ℕ
repeat_throttle_window = 33_000_000

unfoldable pub next_event_id : CapturedState → CapturedState × ℕ
next_event_id s = let id = (s.last_event_id + 1) % 2 ^ 64 in (record s { last_event_id = id }, id)

-- An event that is passed on takes the next id.
unfoldable pub forwarded : CapturedState → InputEvent → CapturedState × Option CapturedEvent
unfolding next_event_id
forwarded s event =
    let (next, id) = next_event_id s in (next, some (record { event = event; event_id = id }))

-- The last recorded repeat is too recent.
abbrev pub is_throttled : ℕ → Option ℕ → Bool
is_throttled now none = false
is_throttled now (some at) = ltb (now - at) repeat_throttle_window

unfoldable pub record_press : ℕ → CapturedState → KeyEvent → CapturedState × Option CapturedEvent
unfolding contains insert get put remove forwarded
record_press now s k =
    if contains usage_code k.usage s.keys
    then if is_throttled now (get s.last_repeat k.usage)
      then (s, none)
      else forwarded
          (record s {
            last_repeat = put s.last_repeat k.usage now;
            keys = insert usage_code k.usage s.keys;
          })
          (key (record k { repeat = true }))
    else forwarded
        (record s {
          last_repeat = remove s.last_repeat k.usage;
          keys = insert usage_code k.usage s.keys;
        })
        (key (record k { repeat = false }))

unfoldable pub record_release : CapturedState → KeyEvent → CapturedState × Option CapturedEvent
unfolding contains delete remove forwarded
record_release s k =
    let cleared : CapturedState = record s { last_repeat = remove s.last_repeat k.usage } in
    if not (contains usage_code k.usage s.keys)
    then (cleared, none)
    else forwarded (record cleared { keys = delete usage_code k.usage s.keys })
        (key (record k { repeat = false }))

-- The state after a captured event, and what is passed on.
unfoldable pub record_event : ℕ → CapturedState → InputEvent → CapturedState × Option CapturedEvent
unfolding record_press record_release insert delete forwarded
record_event now s (key k) = if k.pressed then record_press now s k else record_release s k
record_event now s (mouse_button button pressed) =
    forwarded
      (record s {
        buttons = if pressed then insert rank button s.buttons else delete rank button s.buttons;
      })
      (mouse_button button pressed)
record_event now s (pinch delta) = (s, none)
record_event now s pinch_end = (s, none)
record_event now s event = forwarded s event

unfoldable pub snapshot : CapturedState → CaptureSnapshot
snapshot s = record {
  state = record { pressed_keys = s.keys; pressed_buttons = s.buttons };
  last_event_id = s.last_event_id;
}

abbrev pub hid_left_ctrl : ℕ
hid_left_ctrl = 224

abbrev pub ctrl : Bool → InputEvent
ctrl pressed = key (record { usage = hid_left_ctrl; pressed = pressed; repeat = false })

abbrev pub is_zero : ℤ → Bool
is_zero (pos n) = n == 0
is_zero (negsuc n) = false

-- The events that are sent, and whether the synthetic Ctrl is held after them.
unfoldable pub pinch_expansion : InputEvent → Bool → Bool → List InputEvent × Bool
pinch_expansion (pinch delta) physical_ctrl_held pinch_held =
    let wheels = if is_zero delta then [] else smooth_wheel (pos 0) delta ∷ [] in
    if not pinch_held && not physical_ctrl_held
    then (ctrl true ∷ wheels, true)
    else (wheels, pinch_held)
pinch_expansion pinch_end physical_ctrl_held pinch_held =
    if pinch_held then (ctrl false ∷ [], false) else ([], pinch_held)
pinch_expansion event physical_ctrl_held pinch_held = (event ∷ [], pinch_held)

unfoldable pub pinch_for_send : InputEvent → Bool → Bool → Bool → List InputEvent × Bool
unfolding pinch_expansion
pinch_for_send (pinch delta) peer_handles_pinch physical_ctrl_held pinch_held =
    if peer_handles_pinch
    then (pinch delta ∷ [], pinch_held)
    else pinch_expansion (pinch delta) physical_ctrl_held pinch_held
pinch_for_send pinch_end peer_handles_pinch physical_ctrl_held pinch_held =
    if peer_handles_pinch
    then (pinch_end ∷ [], pinch_held)
    else pinch_expansion pinch_end physical_ctrl_held pinch_held
pinch_for_send event peer_handles_pinch physical_ctrl_held pinch_held =
    pinch_expansion event physical_ctrl_held pinch_held

unfoldable pub event_passes_barrier : ℕ → ℕ → Option ℕ → Bool → Bool
event_passes_barrier event_id discarded session_barrier release =
    release
    || (ltb discarded event_id
        && elim session_barrier [ none ↦ true | some barrier ↦ ltb barrier event_id ])
