-- ===== src/Capture/Sending.antt =====
-- kvm-daemon/src/service.rs: what the gestures of the capturing side become for a peer.
use thekvm.Prelude.{
  ◌≡◌, refl, ap, ◌∙◌, Bool, true, false, List, [], ◌∷◌, ◌++◌, ◌==◌, All, All-append, Bool-cases,
  inl, inr,
}
use thekvm.Prelude.Int.{pos, negsuc}
use thekvm.Event.{InputEvent, key, mouse_move, mouse_button, wheel, smooth_wheel, pinch, pinch_end}
use thekvm.Capture.{pinch_for_send, pinch_expansion, hid_left_ctrl}
use thekvm.Capture.Held.{holds_after}

-- The captured events, each with whether the physical Ctrl is held, for one peer; what is sent.
unfoldable pub sends : Bool → Bool → List (InputEvent × Bool) → List InputEvent × Bool
unfolding pinch_for_send
sends handles held [] = ([], held)
sends handles held ((event, physical) ∷ events) =
    let (out, next) = pinch_for_send event handles physical held in
    let (outs, last) = sends handles next events in (out ++ outs, last)

abbrev pub is_gesture : InputEvent → Bool
is_gesture (pinch delta) = true
is_gesture pinch_end = true
is_gesture _ = false

-- No key event of the left Ctrl.
abbrev pub IsOther : InputEvent × Bool → Type 0
IsOther (key k, physical) = (hid_left_ctrl == k.usage) ≡ false
IsOther (event, physical) = Unit

abbrev pub holds_ctrl : Bool → List InputEvent → Bool
holds_ctrl held [] = held
holds_ctrl held (event ∷ events) = holds_ctrl (holds_after hid_left_ctrl held event) events

holds_ctrl-append :
    (held : Bool) (xs ys : List InputEvent)
    → holds_ctrl held (xs ++ ys) ≡ holds_ctrl (holds_ctrl held xs) ys
holds_ctrl-append held [] ys = refl
holds_ctrl-append held (x ∷ xs) ys = holds_ctrl-append (holds_after hid_left_ctrl held x) xs ys

-- One event for a peer that does not handle gestures: no gesture is sent, and Ctrl is as the flag says.
abbrev Renders : Bool → List InputEvent × Bool → Type 0
Renders held (out, next) = All (λ e. is_gesture e ≡ false) out × (holds_ctrl held out ≡ next)

pinch-Renders :
    (event : InputEvent) (physical held : Bool)
    → IsOther (event, physical)
    → Renders held (pinch_for_send event false physical held)
unfolding pinch_for_send pinch_expansion
pinch-Renders (key k) physical held other = ((refl, tt), rw other refl)
pinch-Renders (mouse_move x y) physical held other = ((refl, tt), refl)
pinch-Renders (mouse_button button pressed) physical held other = ((refl, tt), refl)
pinch-Renders (wheel x y) physical held other = ((refl, tt), refl)
pinch-Renders (smooth_wheel x y) physical held other = ((refl, tt), refl)
pinch-Renders (pinch (pos n)) physical true other = elim (Bool-cases (n == 0)) [
  | inl e ↦ rw e (tt, refl)
  | inr e ↦ rw e ((refl, tt), refl)
]
pinch-Renders (pinch (pos n)) true false other = elim (Bool-cases (n == 0)) [
  | inl e ↦ rw e (tt, refl)
  | inr e ↦ rw e ((refl, tt), refl)
]
pinch-Renders (pinch (pos n)) false false other = elim (Bool-cases (n == 0)) [
  | inl e ↦ rw e ((refl, tt), refl)
  | inr e ↦ rw e ((refl, (refl, tt)), refl)
]
pinch-Renders (pinch (negsuc n)) physical true other = ((refl, tt), refl)
pinch-Renders (pinch (negsuc n)) true false other = ((refl, tt), refl)
pinch-Renders (pinch (negsuc n)) false false other = ((refl, (refl, tt)), refl)
pinch-Renders pinch_end physical true other = ((refl, tt), refl)
pinch-Renders pinch_end physical false other = (tt, refl)

-- For a peer that does not handle gestures, over any captured events in which the left Ctrl itself is
-- not pressed or released: no gesture is sent, and the events that are sent leave Ctrl held exactly
-- when the flag of the synthetic Ctrl says so.
pub sends_lem :
    (events : List (InputEvent × Bool)) (held : Bool)
    → All IsOther events
    → All (λ e. is_gesture e ≡ false) (sends false held events).0
      × (holds_ctrl held (sends false held events).0 ≡ (sends false held events).1)
unfolding sends
sends_lem [] held h = (tt, refl)
sends_lem ((event, physical) ∷ events) held (h, hs) =
    let (out, next) = pinch_for_send event false physical held in
    let (plain, e) = pinch-Renders event physical held h in
    let (rest, f) = sends_lem events next hs in
    (
      All-append (λ x. is_gesture x ≡ false) out (sends false next events).0 plain rest,
      holds_ctrl-append held out (sends false next events).0
          ∙ ap (λ b. holds_ctrl b (sends false next events).0) e
          ∙ f,
    )
