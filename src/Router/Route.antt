-- ===== src/Router/Route.antt =====
-- kvm-core/src/layout.rs: `EdgeRouter::route`, one input event through the topology. Two `expect`s of
-- the source, that the current screen and the crossing's target are in the layout, are given a value
-- here: without them the event stays local, and the cursor stops at the border.
use thekvm.Prelude.{ℕ, Option, none, some}
use thekvm.Event.{InputEvent, mouse_move}
use thekvm.Layout.{screen}
use thekvm.Router.{EdgeRouter, RoutedEvent, local, forward}
use thekvm.Router.Drive.{drive_motion}
use thekvm.Router.Cross.{local_motion}

unfoldable pub route_driven : ℕ → EdgeRouter → ℕ → InputEvent → EdgeRouter × RoutedEvent
unfolding drive_motion
route_driven now r target (mouse_move dx dy) = drive_motion now r target dx dy
route_driven now r target event = (r, forward target event)

unfoldable pub route_home : ℕ → EdgeRouter → InputEvent → EdgeRouter × RoutedEvent
unfolding local_motion
route_home now r (mouse_move dx dy) = elim (screen r.layout r.current_screen) [
  | none ↦ (r, local (mouse_move dx dy))
  | some s ↦ local_motion now r dx dy s
]
route_home now r event = (r, local event)

unfoldable pub route_by : ℕ → EdgeRouter → InputEvent → Option ℕ → EdgeRouter × RoutedEvent
unfolding route_driven route_home
route_by now r event (some target) = route_driven now r target event
route_by now r event none = route_home now r event

unfoldable pub route : ℕ → EdgeRouter → InputEvent → EdgeRouter × RoutedEvent
unfolding route_by
route now r event = route_by now r event r.active_remote
