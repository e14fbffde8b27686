-- ===== src/Router.antt =====
-- kvm-core/src/layout.rs, EdgeRouter: its state, readings, settings and cursor seeding. `Instant`s
-- and `Duration`s are numbers of nanoseconds, and an operation that reads the clock is given the
-- instant `now`. The push and overflow counters are i64s that never fall below 0.
pub mod Settings
pub mod Home
pub mod Drive
pub mod Cross
pub mod Route
pub mod Invariant
pub mod Life
pub mod Gates
pub mod Push
pub mod Returns
pub mod Agreement
use thekvm.Prelude.{
  ℕ, ◌+◌, ◌-◌, ◌*◌, ◌/◌, min, max, Bool, true, false, not, ◌&&◌, ◌||◌, Option, none, some, List, [],
  ◌∷◌, ltb, leb, ◌==◌, if◌then◌else◌, find, any, is_some, is_none, map,
}
use mathlib.Core.Option
use mathlib.Core.List.{head?}
use thekvm.Prelude.Result.{Result, ok, err, ◌>>=◌, ◌>>◌, fail_if, ok_or}
use thekvm.Geometry.{Edge, EdgeMode, double, DoubleEdgeStyle, mirror, distance_from_edge}
use thekvm.Layout.{Screen, Layout, LayoutError, screen, validate}
use thekvm.Layout.Crossing.{crossing_target_for}
use thekvm.Event.{InputEvent}

abbrev pub settle_px : ℕ
settle_px = 40

abbrev pub post_return_clear_px : ℕ
post_return_clear_px = 64

abbrev pub return_inset_px : ℕ
return_inset_px = 8

-- POST_RETURN_HOLD_MS, in nanoseconds.
abbrev pub post_return_hold : ℕ
post_return_hold = 250 * 1_000_000

abbrev pub edge_push_px : ℕ
edge_push_px = 8

abbrev pub phantom_start_guard_px : ℕ
phantom_start_guard_px = 64

abbrev pub return_push_px : ℕ
return_push_px = 64

abbrev pub return_edge_px : ℕ
return_edge_px = 20

abbrev pub resync_diverge_px : ℕ
resync_diverge_px = 2

pub data ClampReason : Type 0 where
  was_locked no_target in_startup_gate post_return push_budget : ClampReason

pub record ClampStamp : Type 0 where
  pub reason : ClampReason
  pub edge : Edge
  pub overflow : ℕ
  pub cursor_x : ℕ
  pub cursor_y : ℕ

pub record ResyncReset : Type 0 where
  pub jump_px : ℕ
  pub cursor_x : ℕ
  pub cursor_y : ℕ

pub record EdgeRouter : Type 0 where
  pub layout : Layout
  pub local_screen : ℕ
  pub current_screen : ℕ
  pub cursor_x : ℕ
  pub cursor_y : ℕ
  pub local_cursor_x : ℕ
  pub local_cursor_y : ℕ
  pub active_remote : Option ℕ
  pub entry_edge : Option Edge
  pub return_armed : Bool
  pub return_accum : ℕ
  pub return_edge : Option Edge
  pub return_edge_accum : ℕ
  pub edge_mode : EdgeMode
  pub double_style : DoubleEdgeStyle
  pub push_edge : Option Edge
  pub push_accum : ℕ
  pub return_hold : ℕ
  pub return_run_since : Option ℕ
  pub handoff_grace : ℕ
  pub handoff_at : Option ℕ
  pub locked : Bool
  pub startup_gate : Bool
  pub post_return_edge : Option Edge
  pub post_return_at : Option ℕ
  pub last_clamp : Option ClampStamp
  pub last_resync_reset : Option ResyncReset

pub data RoutedEvent : Type 0 where
  local : InputEvent → RoutedEvent
  forward : ℕ → InputEvent → RoutedEvent
  -- from, target, edge, target_x, target_y, event
  handoff : ℕ → ℕ → Edge → ℕ → ℕ → InputEvent → RoutedEvent
  -- from, edge, entry_edge, armed
  return_home : ℕ → Edge → Option Edge → Bool → RoutedEvent

pub data RouterError : Type 0 where
  invalid_layout : LayoutError → RouterError
  no_local_screen drive_active not_active unknown_target : RouterError

unfoldable pub map_err : Result LayoutError (Unit {0}) → Result RouterError (Unit {0})
map_err (ok u) = ok u
map_err (err e) = err (invalid_layout e)

-- The state of a router that has done nothing yet.
unfoldable pub fresh : Layout → ℕ → Screen → EdgeRouter
fresh l me s = record {
  layout = l;
  local_screen = me;
  current_screen = me;
  cursor_x = s.width / 2;
  cursor_y = s.height / 2;
  local_cursor_x = s.width / 2;
  local_cursor_y = s.height / 2;
  active_remote = none;
  entry_edge = none;
  return_armed = false;
  return_accum = 0;
  return_edge = none;
  return_edge_accum = 0;
  edge_mode = double;
  double_style = mirror;
  push_edge = none;
  push_accum = 0;
  return_hold = 0;
  return_run_since = none;
  handoff_grace = 0;
  handoff_at = none;
  locked = false;
  startup_gate = false;
  post_return_edge = none;
  post_return_at = none;
  last_clamp = none;
  last_resync_reset = none;
}

-- `self_screen`, or else the first screen.
unfoldable pub home_of : Layout → Option ℕ
home_of l = elim l.self_screen [
  | some me ↦ some me
  | none ↦ Option.map (λ s. s.id) (head? l.screens)
]

unfoldable pub new : Layout → Result RouterError EdgeRouter
unfolding fresh home_of map_err
new l = do
  map_err (validate l)
  me ← ok_or (home_of l) no_local_screen
  s ← ok_or (screen l me) no_local_screen
  ok (fresh l me s)

-- `when.elapsed()`: 0 if the instant lies ahead.
abbrev pub elapsed : ℕ → ℕ → ℕ
elapsed now since = now - since

unfoldable pub in_handoff_grace : ℕ → EdgeRouter → Bool
in_handoff_grace now r =
    not (r.handoff_grace == 0)
    && (elim r.handoff_at [ none ↦ false | some t ↦ ltb (elapsed now t) r.handoff_grace ])

unfoldable pub post_return_holds : ℕ → EdgeRouter → Bool
post_return_holds now r = elim r.post_return_at [
  | none ↦ false
  | some t ↦ ltb (elapsed now t) post_return_hold
]

unfoldable pub crossing_target : EdgeRouter → ℕ → Edge → Option ℕ
crossing_target r me edge = crossing_target_for r.layout me edge r.edge_mode

abbrev pub all_edges : List Edge
all_edges = Edge.left ∷ (Edge.right ∷ (Edge.top ∷ (Edge.bottom ∷ [])))

-- Whether the cursor is near an edge of the current screen that would open a crossing.
unfoldable pub near_crossing_edge : EdgeRouter → ℕ → Bool
unfolding crossing_target
near_crossing_edge r margin =
    if is_some r.active_remote || not (r.current_screen == r.local_screen) || r.locked
    then false
    else elim (screen r.layout r.current_screen) [
      | none ↦ false
      | some s ↦
          any
            (λ edge.
              leb (distance_from_edge edge r.cursor_x r.cursor_y s.width s.height) margin
              && is_some (crossing_target r r.current_screen edge))
            all_edges
    ]

unfoldable pub seed : EdgeRouter → ℕ → ℕ → Bool → Screen → EdgeRouter
unfolding crossing_target
seed r x y apply_gate s =
    let cx = min x (s.width - 1) in
    let cy = min y (s.height - 1) in
    record r {
      cursor_x = cx;
      cursor_y = cy;
      local_cursor_x = cx;
      local_cursor_y = cy;
      push_edge = none;
      push_accum = 0;
      last_clamp = none;
      last_resync_reset = none;
      post_return_edge = none;
      post_return_at = none;
      startup_gate =
          apply_gate
          && any
              (λ edge.
                is_some (crossing_target r r.local_screen edge)
                && ltb (distance_from_edge edge cx cy s.width s.height) edge_push_px)
              all_edges;
    }

unfoldable pub seed_position : EdgeRouter → ℕ → ℕ → Bool → Result RouterError EdgeRouter
unfolding seed
seed_position r x y apply_gate = do
  fail_if (is_some r.active_remote) drive_active
  s ← ok_or (screen r.layout r.local_screen) no_local_screen
  ok (seed r x y apply_gate s)

unfoldable pub set_local_cursor_position : EdgeRouter → ℕ → ℕ → Result RouterError EdgeRouter
unfolding seed_position
set_local_cursor_position r x y = seed_position r x y true

unfoldable pub place_local_cursor : EdgeRouter → ℕ → ℕ → Result RouterError EdgeRouter
unfolding seed_position
place_local_cursor r x y = seed_position r x y false
