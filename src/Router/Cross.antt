-- ===== src/Router/Cross.antt =====
-- kvm-core/src/layout.rs: `EdgeRouter::route` while control is local: clamping, the push budget and the
-- crossing itself.
use thekvm.Prelude.{
  ℕ, ◌+◌, ◌-◌, min, Bool, false, ◌&&◌, Option, none, some, ltb, leb, ◌==◌, if◌then◌else◌,
}
use thekvm.Prelude.Int.{ℤ, pos, pos_part, neg, sub_ℕ, clamp_i32, ◌+ℤ◌}
use thekvm.Geometry.{
  Edge, left, right, top, bottom, is_edge, entry_for_exit, edge_for_overflow, overflow_px,
  distance_from_edge, clamp_span,
}
use thekvm.Event.{InputEvent, mouse_move}
use thekvm.Layout.{Screen, screen}
use thekvm.Layout.Crossing.{landing}
use thekvm.Router.{
  EdgeRouter, RoutedEvent, local, handoff, ClampReason, was_locked, no_target, in_startup_gate,
  post_return, push_budget, crossing_target, near_crossing_edge, post_return_holds, edge_push_px,
  post_return_clear_px, phantom_start_guard_px,
}
use thekvm.Router.Drive.{off_edge}

-- The cursor stops at the border; the surviving part of the motion stays local.
unfoldable pub clamp_to_edge : EdgeRouter → ℤ → ℤ → ℕ → ℕ → ClampReason → EdgeRouter × RoutedEvent
unfolding clamp_span edge_for_overflow overflow_px
clamp_to_edge r next_x next_y width height reason =
    let x = clamp_span next_x width in
    let y = clamp_span next_y height in
    let edge : Edge = elim (edge_for_overflow next_x next_y width height) [
      | none ↦ left
      | some e ↦ e
    ] in
    (
      record r {
        cursor_x = x;
        cursor_y = y;
        local_cursor_x = x;
        local_cursor_y = y;
        last_clamp = some (record {
          reason = reason;
          edge = edge;
          overflow = overflow_px edge next_x next_y width height;
          cursor_x = x;
          cursor_y = y;
        });
      },
      local (mouse_move (clamp_i32 (sub_ℕ x r.cursor_x)) (clamp_i32 (sub_ℕ y r.cursor_y))),
    )

unfoldable pub drop_push : EdgeRouter → EdgeRouter
drop_push r = record r { push_edge = none; push_accum = 0 }

-- Whether a move to (x, y) comes far enough back from the edge that a return landed on.
unfoldable pub refractory_lifts : Option Edge → ℕ → ℕ → Screen → Bool
refractory_lifts none x y s = false
refractory_lifts (some edge) x y s =
    leb post_return_clear_px (distance_from_edge edge x y s.width s.height)

-- The push run and the refractory after a move inside.
unfoldable pub step_inside : EdgeRouter → ℕ → ℕ → Screen → EdgeRouter
unfolding refractory_lifts
step_inside r x y s =
    let off = off_edge r.push_edge x y s in
    let lifted = refractory_lifts r.post_return_edge x y s in
    record r {
      cursor_x = x;
      cursor_y = y;
      local_cursor_x = x;
      local_cursor_y = y;
      push_edge = if off then none else r.push_edge;
      push_accum = if off then 0 else r.push_accum;
      post_return_edge = if lifted then none else r.post_return_edge;
      post_return_at = if lifted then none else r.post_return_at;
    }

-- A step that stays on the local screen; off every crossable edge the fresh-entry gate is lifted.
unfoldable pub move_inside : EdgeRouter → ℕ → ℕ → Screen → EdgeRouter
unfolding step_inside
move_inside r x y s =
    let moved = step_inside r x y s in
    record moved {
      startup_gate = if near_crossing_edge moved edge_push_px then r.startup_gate else false;
    }

-- What one step past an edge adds to the push budget.
unfoldable pub push_credit : EdgeRouter → Edge → ℕ → Screen → ℕ
push_credit r edge overflow s =
    if leb (distance_from_edge edge r.cursor_x r.cursor_y s.width s.height) phantom_start_guard_px
    then overflow
    else min overflow (edge_push_px - 1)

unfoldable pub push_total : EdgeRouter → Edge → ℕ → ℕ
push_total r edge credit = if is_edge r.push_edge edge then r.push_accum + credit else credit

unfoldable pub remainder : Edge → ℕ → InputEvent
remainder left overflow = mouse_move (neg (clamp_i32 (pos overflow))) (pos 0)
remainder right overflow = mouse_move (clamp_i32 (pos overflow)) (pos 0)
remainder top overflow = mouse_move (pos 0) (neg (clamp_i32 (pos overflow)))
remainder bottom overflow = mouse_move (pos 0) (clamp_i32 (pos overflow))

-- The crossing is committed: control moves to (x, y) of the target.
unfoldable pub commit : ℕ → EdgeRouter → ℕ → Edge → ℕ → ℕ → EdgeRouter
unfolding drop_push entry_for_exit
commit now r target edge x y =
    let at_home = r.current_screen == r.local_screen in
    record (drop_push r) {
      post_return_edge = none;
      post_return_at = none;
      local_cursor_x = if at_home then r.cursor_x else r.local_cursor_x;
      local_cursor_y = if at_home then r.cursor_y else r.local_cursor_y;
      current_screen = target;
      cursor_x = x;
      cursor_y = y;
      active_remote = some target;
      entry_edge = some (entry_for_exit r.double_style edge);
      return_armed = false;
      return_accum = 0;
      return_edge = none;
      return_edge_accum = 0;
      return_run_since = none;
      handoff_at = some now;
    }

unfoldable pub open_crossing :
    ℕ → EdgeRouter → ℕ → Edge → ℕ → Screen → Screen → EdgeRouter × RoutedEvent
unfolding commit remainder landing
open_crossing now r target edge overflow s target_screen =
    let at = landing r.double_style edge r.cursor_x r.cursor_y s target_screen in
    (
      commit now r target edge at.0 at.1,
      handoff r.current_screen target edge at.0 at.1 (remainder edge overflow),
    )

-- A push past an edge that may open.
unfoldable pub push_edge_step :
    ℕ → EdgeRouter → ℕ → Edge → ℤ → ℤ → Screen → Option Screen → EdgeRouter × RoutedEvent
unfolding push_credit push_total overflow_px clamp_to_edge open_crossing
push_edge_step now r target edge next_x next_y s target_screen =
    let overflow = overflow_px edge next_x next_y s.width s.height in
    let total = push_total r edge (push_credit r edge overflow s) in
    let held =
      clamp_to_edge (record r { push_edge = some edge; push_accum = total }) next_x next_y s.width
        s.height push_budget in
    if ltb total edge_push_px
    then held
    else elim target_screen [ none ↦ held | some t ↦ open_crossing now r target edge overflow s t ]

-- The cursor stops and the push run is dropped.
unfoldable pub stop : EdgeRouter → ℤ → ℤ → Screen → ClampReason → EdgeRouter × RoutedEvent
unfolding drop_push clamp_to_edge
stop r next_x next_y s = clamp_to_edge (drop_push r) next_x next_y s.width s.height

-- A step past an edge of an unlocked screen, given the edge's target: the gates in the order of
-- the source.
unfoldable pub press_gates :
    ℕ → EdgeRouter → Edge → ℤ → ℤ → Screen → Option ℕ → EdgeRouter × RoutedEvent
unfolding stop push_edge_step
press_gates now r edge next_x next_y s none = stop r next_x next_y s no_target
press_gates now r edge next_x next_y s (some target) =
    if r.startup_gate
    then stop r next_x next_y s in_startup_gate
    else if is_edge r.post_return_edge edge && post_return_holds now r
    then stop r next_x next_y s post_return
    else push_edge_step now r target edge next_x next_y s (screen r.layout target)

-- A step past an edge of the local screen.
unfoldable pub press_edge : ℕ → EdgeRouter → Edge → ℤ → ℤ → Screen → EdgeRouter × RoutedEvent
unfolding stop press_gates
press_edge now r edge next_x next_y s =
    if r.locked
    then stop r next_x next_y s was_locked
    else press_gates now r edge next_x next_y s (crossing_target r r.current_screen edge)

-- A motion that leads to (next_x, next_y), given the edge that it overflows.
unfoldable pub local_step :
    ℕ → EdgeRouter → InputEvent → ℤ → ℤ → Screen → Option Edge → EdgeRouter × RoutedEvent
unfolding move_inside press_edge
local_step now r event next_x next_y s none =
    (move_inside r (pos_part next_x) (pos_part next_y) s, local event)
local_step now r event next_x next_y s (some edge) = press_edge now r edge next_x next_y s

-- One motion of the local cursor.
unfoldable pub local_motion : ℕ → EdgeRouter → ℤ → ℤ → Screen → EdgeRouter × RoutedEvent
unfolding local_step edge_for_overflow
local_motion now r dx dy s =
    let next_x = pos r.cursor_x +ℤ dx in
    let next_y = pos r.cursor_y +ℤ dy in
    local_step now r (mouse_move dx dy) next_x next_y s
      (edge_for_overflow next_x next_y s.width s.height)
