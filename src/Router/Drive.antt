-- ===== src/Router/Drive.antt =====
-- kvm-core/src/layout.rs: `EdgeRouter::route` while a remote screen is driven: the virtual cursor and
-- the return home.
use thekvm.Prelude.{
  ℕ, ◌+◌, ◌-◌, min, Bool, true, false, not, ◌&&◌, ◌||◌, Option, none, some, ltb, leb, ◌==◌,
  if◌then◌else◌, is_some,
}
use thekvm.Prelude.Int.{ℤ, pos, pos_part, ◌+ℤ◌}
use thekvm.Prelude.Result.{ok, err}
use thekvm.Geometry.{
  Edge, left, right, edge_eq, is_edge, is_double, is_horizontal, DoubleEdgeStyle, mirror,
  fixed_left, fixed_right, edge_for_overflow, overflow_px, distance_from_edge, clamp_span,
}
use thekvm.Event.{InputEvent, mouse_move}
use thekvm.Layout.{Screen, screen, neighbor_for_edge, single_peer_screen}
use thekvm.Router.{
  EdgeRouter, RoutedEvent, forward, return_home, in_handoff_grace, elapsed, settle_px,
  return_edge_px, return_push_px,
}
use thekvm.Router.Home.{is_id, restore_local_at_edge}

-- `distance_from_edge(edge, ...) > 2`, and true when there is no edge.
abbrev pub off_edge : Option Edge → ℕ → ℕ → Screen → Bool
off_edge none x y s = true
off_edge (some edge) x y s = ltb 2 (distance_from_edge edge x y s.width s.height)

-- `a.or(b)`
abbrev pub or_else : Option Edge → Option Edge → Option Edge
or_else none b = b
or_else (some a) b = some a

unfoldable pub reset_return_run : EdgeRouter → EdgeRouter
reset_return_run r = record r {
  return_accum = 0;
  return_edge = none;
  return_edge_accum = 0;
  return_run_since = none;
}

-- Settling inside the entry edge arms the return.
unfoldable pub settles : EdgeRouter → Screen → Bool
settles r s = elim r.entry_edge [
  | none ↦ false
  | some entry ↦ leb settle_px (distance_from_edge entry r.cursor_x r.cursor_y s.width s.height)
]

-- A step that stays on the driven screen.
unfoldable pub drive_inside : EdgeRouter → ℕ → ℕ → Screen → EdgeRouter
unfolding reset_return_run settles
drive_inside r x y s =
    let moved = record r { cursor_x = x; cursor_y = y } in
    let run =
      if off_edge (or_else r.return_edge r.entry_edge) x y s
      then reset_return_run moved
      else moved in
    record run { return_armed = r.return_armed || settles run s }

unfoldable pub fixed_return_edge : DoubleEdgeStyle → Option Edge
fixed_return_edge mirror = none
fixed_return_edge fixed_left = some left
fixed_return_edge fixed_right = some right

-- Whether an edge of the driven screen leads home.
unfoldable pub faces_home : EdgeRouter → Edge → Bool
unfolding fixed_return_edge
faces_home r edge = elim (fixed_return_edge r.double_style) [
  | some fixed ↦ edge_eq edge fixed
  | none ↦
      is_id (neighbor_for_edge r.layout r.current_screen edge) r.local_screen
      || (is_double r.edge_mode
          && is_horizontal edge
          && not (r.current_screen == r.local_screen)
          && is_some (single_peer_screen r.layout))
]

unfoldable pub unarmed_entry : EdgeRouter → Edge → Bool
unarmed_entry r edge = is_edge r.entry_edge edge && not r.return_armed

-- The cursor pins at the border and the drive goes on.
unfoldable pub pin : EdgeRouter → ℤ → ℤ → Screen → EdgeRouter
pin r next_x next_y s = record r {
  cursor_x = clamp_span next_x s.width;
  cursor_y = clamp_span next_y s.height;
}

-- The return run after one more step past `edge`.
unfoldable pub extend_run : ℕ → EdgeRouter → Edge → ℕ → EdgeRouter
extend_run now r edge overflow =
    let credit = if r.return_armed then overflow else min overflow (return_push_px - 1) in
    if is_edge r.return_edge edge
    then record r { return_edge_accum = r.return_edge_accum + credit }
    else record r {
      return_edge = some edge;
      return_edge_accum = credit;
      return_run_since = some now;
    }

unfoldable pub held_long : ℕ → EdgeRouter → Bool
held_long now r =
    r.return_hold == 0
    || (elim r.return_run_since [ none ↦ false | some t ↦ leb r.return_hold (elapsed now t) ])

unfoldable pub return_threshold : EdgeRouter → ℕ
return_threshold r = if r.return_armed then return_edge_px else return_push_px

-- The result of `restore_local_at_edge` is dropped: on an error nothing has changed.
unfoldable pub go_home : ℕ → EdgeRouter → ℕ → Edge → EdgeRouter
go_home now r target edge = elim (restore_local_at_edge now r target edge) [
  | ok r' ↦ r'
  | err e ↦ r
]

-- An overflow of a home-facing edge that is not the disarmed entry edge.
unfoldable pub press_return :
    ℕ → EdgeRouter → ℕ → InputEvent → Edge → ℤ → ℤ → Screen → EdgeRouter × RoutedEvent
unfolding overflow_px extend_run held_long return_threshold go_home pin
press_return now r target event edge next_x next_y s =
    let run = extend_run now r edge (overflow_px edge next_x next_y s.width s.height) in
    if leb (return_threshold run) run.return_edge_accum
      && held_long now run
      && not (in_handoff_grace now run)
    then (
      go_home now run target edge,
      return_home r.current_screen edge r.entry_edge r.return_armed,
    )
    else (pin run next_x next_y s, forward target event)

-- The net overflow that an unarmed drive has saved up.
unfoldable pub escape_run : EdgeRouter → ℕ → EdgeRouter
escape_run r overflow = record r { return_accum = r.return_accum + overflow }

-- An overflow of the disarmed entry edge: the escape hatch.
unfoldable pub press_escape :
    ℕ → EdgeRouter → ℕ → InputEvent → Edge → ℤ → ℤ → Screen → EdgeRouter × RoutedEvent
unfolding overflow_px escape_run go_home pin
press_escape now r target event edge next_x next_y s =
    let run = escape_run r (overflow_px edge next_x next_y s.width s.height) in
    if leb return_push_px run.return_accum && not (in_handoff_grace now run)
    then (
      go_home now run target edge,
      return_home r.current_screen edge r.entry_edge r.return_armed,
    )
    else (pin run next_x next_y s, forward target event)

unfoldable pub drive_edge :
    ℕ → EdgeRouter → ℕ → InputEvent → Edge → ℤ → ℤ → Screen → EdgeRouter × RoutedEvent
unfolding faces_home unarmed_entry press_return press_escape pin reset_return_run
drive_edge now r target event edge next_x next_y s =
    if faces_home r edge
    then if unarmed_entry r edge
      then press_escape now r target event edge next_x next_y s
      else press_return now r target event edge next_x next_y s
    else (pin (reset_return_run r) next_x next_y s, forward target event)

-- One motion of the driven cursor.
unfoldable pub drive_motion : ℕ → EdgeRouter → ℕ → ℤ → ℤ → EdgeRouter × RoutedEvent
unfolding drive_inside drive_edge edge_for_overflow
drive_motion now r target dx dy =
    let event = mouse_move dx dy in
    elim (screen r.layout r.current_screen) [
      | none ↦ (r, forward target event)
      | some s ↦
          let next_x = pos r.cursor_x +ℤ dx in
          let next_y = pos r.cursor_y +ℤ dy in
          elim (edge_for_overflow next_x next_y s.width s.height) [
            | none ↦ (drive_inside r (pos_part next_x) (pos_part next_y) s, forward target event)
            | some edge ↦ drive_edge now r target event edge next_x next_y s
          ]
    ]
