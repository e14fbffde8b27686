-- ===== src/Router/Life.antt =====
-- Any sequence of the router's operations, from its construction on.
use thekvm.Prelude.{ℕ, ◌≡◌, ◌≢◌, Bool, some, find}
use thekvm.Prelude.Text.{Text}
use thekvm.Prelude.Result.{ok}
use thekvm.Geometry.{Edge, EdgeMode, DoubleEdgeStyle}
use thekvm.Event.{InputEvent}
use thekvm.Layout.{Screen, Layout}
use thekvm.Layout.Arrange.{is_peer}
use thekvm.Router.{EdgeRouter, new, seed_position}
use thekvm.Router.Home.{return_to_local, restore_local_at_edge, restore_local, handoff_to}
use thekvm.Router.Route.{route}
use thekvm.Router.Settings.{
  set_return_hold, set_handoff_grace, set_locked, set_edge_mode, set_double_style, set_layout,
  resync_if_local, adopt_local_screen_size, adopt_peer_screen_size,
}
use thekvm.Router.Invariant.{Inv, after}
use thekvm.Router.Invariant.Moves.{
  seed_position-Inv, return_to_local-Inv, restore_local_at_edge-Inv, restore_local-Inv,
  handoff_to-Inv, after_handoff,
}
use thekvm.Router.Invariant.Crossings.{LandsInside, route-Inv}
use thekvm.Router.Invariant.Changes.{new-Inv, resync_if_local-Inv, set_layout-Inv}
use thekvm.Router.Invariant.Sizes.{adopt_local_screen_size-Inv, adopt_peer_screen_size-Inv}

-- One call. An event is routed where crossings land inside their targets, and a peer's size is
-- adopted for a screen that is not the local one.
pub data Step (r : EdgeRouter) : EdgeRouter → Type 0 where
  routes : (now : ℕ) (event : InputEvent) → LandsInside r → Step r (route now r event).0
  seeds : (x y : ℕ) (gate : Bool) → Step r (after r (seed_position r x y gate))
  resyncs : (x y : ℕ) → Step r (resync_if_local r x y)
  returns : (from x y : ℕ) → Step r (after r (return_to_local r from x y))
  restores_at_edge :
      (now from : ℕ) (edge : Edge) → Step r (after r (restore_local_at_edge now r from edge))
  restores : (from : ℕ) → Step r (after r (restore_local r from))
  hands_off : (now target x y : ℕ) → Step r (after_handoff r (handoff_to now r target x y))
  arranges : (l : Layout) → Step r (after r (set_layout r l))
  adopts_local : (w h : ℕ) → Step r (adopt_local_screen_size r w h).0
  adopts_peer :
      (fingerprint : Text) (w h : ℕ)
      → ((p : Screen)
          → find (is_peer fingerprint) r.layout.screens ≡ some p
          → p.id ≢ r.local_screen)
      → Step r (adopt_peer_screen_size r fingerprint w h).0
  sets_hold : (hold : ℕ) → Step r (set_return_hold r hold)
  sets_grace : (grace : ℕ) → Step r (set_handoff_grace r grace)
  sets_locked : (locked : Bool) → Step r (set_locked r locked)
  sets_mode : (mode : EdgeMode) → Step r (set_edge_mode r mode)
  sets_style : (style : DoubleEdgeStyle) → Step r (set_double_style r style)

pub data Life (l : Layout) : EdgeRouter → Type 0 where
  born : (r : EdgeRouter) → new l ≡ ok r → Life l r
  next : {r r' : EdgeRouter} → Life l r → Step r r' → Life l r'

pub Step-Inv : {r r' : EdgeRouter} → Step r r' → Inv r → Inv r'
unfolding set_return_hold set_handoff_grace set_locked set_edge_mode set_double_style
Step-Inv {r} (routes now event lands) v = route-Inv now r event lands v
Step-Inv {r} (seeds x y gate) v = seed_position-Inv r x y gate v
Step-Inv {r} (resyncs x y) v = resync_if_local-Inv r x y v
Step-Inv {r} (returns from x y) v = return_to_local-Inv r from x y v
Step-Inv {r} (restores_at_edge now from edge) v = restore_local_at_edge-Inv now r from edge v
Step-Inv {r} (restores from) v = restore_local-Inv r from v
Step-Inv {r} (hands_off now target x y) v = handoff_to-Inv now r target x y v
Step-Inv {r} (arranges l) v = set_layout-Inv r l v
Step-Inv {r} (adopts_local w h) v = adopt_local_screen_size-Inv r w h v
Step-Inv {r} (adopts_peer fingerprint w h away) v =
    adopt_peer_screen_size-Inv r fingerprint w h away v
Step-Inv (sets_hold hold) v = v
Step-Inv (sets_grace grace) v = v
Step-Inv (sets_locked locked) v = v
Step-Inv (sets_mode mode) v = v
Step-Inv (sets_style style) v = v

-- From its construction on, after any sequence of operations in which events are routed only where
-- the style lands crossings inside their targets, and peers' sizes are adopted only for screens other
-- than the local one: the layout is valid, both cursors lie on their screens, a driven screen is the
-- current one and not the local one, and the push budget is below its threshold.
pub Life-Inv : (l : Layout) (r : EdgeRouter) → Life l r → Inv r
Life-Inv l r (born _ made) = new-Inv l r made
Life-Inv l r (next {r = q} life step) = Step-Inv step (Life-Inv l q life)
