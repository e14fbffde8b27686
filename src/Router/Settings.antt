-- ===== src/Router/Settings.antt =====
-- kvm-core/src/layout.rs: settings and geometry changes of a running EdgeRouter.
use thekvm.Prelude.{
  ℕ, ◌+◌, ◌-◌, min, max, Bool, false, not, ◌||◌, Option, none, some, ltb, leb, ◌==◌, if◌then◌else◌,
  find, is_some, is_none, map,
}
use thekvm.Prelude.Text.{Text}
use thekvm.Prelude.Result.{Result, ok, ◌>>=◌, ◌>>◌, fail_if, ok_or}
use thekvm.Geometry.{Edge, EdgeMode, DoubleEdgeStyle, distance_from_edge}
use thekvm.Layout.{Screen, Layout, screen, set_screen_size, validate}
use thekvm.Layout.Arrange.{is_peer}
use thekvm.Router.{
  EdgeRouter, RouterError, drive_active, no_local_screen, map_err, resync_diverge_px,
}

unfoldable pub set_return_hold : EdgeRouter → ℕ → EdgeRouter
set_return_hold r hold = record r { return_hold = hold }

unfoldable pub set_handoff_grace : EdgeRouter → ℕ → EdgeRouter
set_handoff_grace r grace = record r { handoff_grace = grace }

unfoldable pub set_locked : EdgeRouter → Bool → EdgeRouter
set_locked r locked = record r { locked = locked }

unfoldable pub set_edge_mode : EdgeRouter → EdgeMode → EdgeRouter
set_edge_mode r mode = record r { edge_mode = mode }

unfoldable pub set_double_style : EdgeRouter → DoubleEdgeStyle → EdgeRouter
set_double_style r style = record r { double_style = style }

-- A screen of the new layout keeps the dims that the old one measured.
unfoldable pub keep_size : Layout → Screen → Screen
keep_size old s = elim (screen old s.id) [
  | none ↦ s
  | some o ↦ record s { width = o.width; height = o.height }
]

-- What a live change of the layout resets.
unfoldable pub relocate : EdgeRouter → Layout → Screen → EdgeRouter
relocate r l s =
    let x = min r.cursor_x (s.width - 1) in
    let y = min r.cursor_y (s.height - 1) in
    record r {
      layout = l;
      current_screen = r.local_screen;
      cursor_x = x;
      cursor_y = y;
      local_cursor_x = x;
      local_cursor_y = y;
      entry_edge = none;
      return_armed = false;
      return_accum = 0;
      return_edge = none;
      return_edge_accum = 0;
      push_edge = none;
      push_accum = 0;
      post_return_edge = none;
      post_return_at = none;
    }

unfoldable pub set_layout : EdgeRouter → Layout → Result RouterError EdgeRouter
unfolding keep_size relocate map_err
set_layout r l = do
  map_err (validate l)
  fail_if (is_some r.active_remote) drive_active
  fail_if (is_none (screen l r.local_screen)) no_local_screen
  let l' = record l { screens = map (keep_size r.layout) l.screens }
  s ← ok_or (screen l' r.local_screen) no_local_screen
  ok (relocate r l' s)

-- `a.abs_diff(b)`
abbrev pub abs_diff : ℕ → ℕ → ℕ
abs_diff a b = (a - b) + (b - a)

-- A pin that pulled the cursor back inside is owed by the push run; the run ends when it is used
-- up, and then the difference below stops at 0.
unfoldable pub correct_run : EdgeRouter → ℕ → ℕ → ℕ → Screen → Option Edge → EdgeRouter
correct_run r old_x old_y moved s none = r
correct_run r old_x old_y moved s (some edge) =
    let before = distance_from_edge edge old_x old_y s.width s.height in
    let after = distance_from_edge edge r.cursor_x r.cursor_y s.width s.height in
    let owed = after - before in
    record r {
      last_resync_reset =
          if r.push_accum == 0
          then r.last_resync_reset
          else some (record { jump_px = moved; cursor_x = r.cursor_x; cursor_y = r.cursor_y });
      push_edge = if leb r.push_accum owed then none else some edge;
      push_accum = r.push_accum - owed;
    }

unfoldable pub repin : EdgeRouter → ℕ → ℕ → EdgeRouter
repin r x y = record r { cursor_x = x; cursor_y = y; local_cursor_x = x; local_cursor_y = y }

unfoldable pub resync_on : EdgeRouter → ℕ → ℕ → Screen → EdgeRouter
unfolding correct_run repin
resync_on r x y s =
    let px = min x (s.width - 1) in
    let py = min y (s.height - 1) in
    let moved = max (abs_diff px r.cursor_x) (abs_diff py r.cursor_y) in
    if ltb resync_diverge_px moved
    then correct_run (repin r px py) r.cursor_x r.cursor_y moved s r.push_edge
    else repin r px py

unfoldable pub resync_if_local : EdgeRouter → ℕ → ℕ → EdgeRouter
unfolding resync_on
resync_if_local r x y =
    if is_some r.active_remote || not (r.current_screen == r.local_screen)
    then r
    else elim (screen r.layout r.local_screen) [ none ↦ r | some s ↦ resync_on r x y s ]

unfoldable pub shrink_local : EdgeRouter → Layout → Screen → EdgeRouter
shrink_local r l s = record r {
  layout = l;
  cursor_x = min r.cursor_x (s.width - 1);
  cursor_y = min r.cursor_y (s.height - 1);
  local_cursor_x = min r.local_cursor_x (s.width - 1);
  local_cursor_y = min r.local_cursor_y (s.height - 1);
  push_edge = none;
  push_accum = 0;
}

-- The end of an adoption, given the layout's answer and the screen found afterwards.
unfoldable pub adopt_local : EdgeRouter → Layout → Option Screen → EdgeRouter × Option (ℕ × ℕ)
unfolding shrink_local
adopt_local r l none = (record r { layout = l }, none)
adopt_local r l (some s) = (shrink_local r l s, some (s.width, s.height))

-- The router afterwards, and the dims now in force.
unfoldable pub adopt_local_screen_size : EdgeRouter → ℕ → ℕ → EdgeRouter × Option (ℕ × ℕ)
unfolding adopt_local
adopt_local_screen_size r width height =
    let adopted = set_screen_size r.layout r.local_screen width height in
    if adopted.1 then adopt_local r adopted.0 (screen adopted.0 r.local_screen) else (r, none)

unfoldable pub shrink_peer : EdgeRouter → Layout → ℕ → Screen → EdgeRouter
shrink_peer r l id s =
    let driven = r.current_screen == id in
    record r {
      layout = l;
      cursor_x = if driven then min r.cursor_x (s.width - 1) else r.cursor_x;
      cursor_y = if driven then min r.cursor_y (s.height - 1) else r.cursor_y;
      push_edge = none;
      push_accum = 0;
      return_accum = 0;
      return_edge = none;
      return_edge_accum = 0;
      return_run_since = none;
    }

unfoldable pub adopt_peer : EdgeRouter → Layout → ℕ → Option Screen → EdgeRouter × Option (ℕ × ℕ)
unfolding shrink_peer
adopt_peer r l id none = (record r { layout = l }, none)
adopt_peer r l id (some s) = (shrink_peer r l id s, some (s.width, s.height))

unfoldable pub adopt_peer_at : EdgeRouter → ℕ → ℕ → Option Screen → EdgeRouter × Option (ℕ × ℕ)
unfolding adopt_peer
adopt_peer_at r width height none = (r, none)
adopt_peer_at r width height (some peer) =
    let adopted = set_screen_size r.layout peer.id width height in
    if adopted.1 then adopt_peer r adopted.0 peer.id (screen adopted.0 peer.id) else (r, none)

unfoldable pub adopt_peer_screen_size : EdgeRouter → Text → ℕ → ℕ → EdgeRouter × Option (ℕ × ℕ)
unfolding adopt_peer_at
adopt_peer_screen_size r fingerprint width height =
    adopt_peer_at r width height (find (is_peer fingerprint) r.layout.screens)
