-- ===== src/Router/Home.antt =====
-- kvm-core/src/layout.rs: ending a drive and moving it on, with `return_to_local`,
-- `restore_local_at_edge`, `restore_local` and `handoff_to` of EdgeRouter.
use thekvm.Prelude.{
  ℕ, ◌-◌, min, Bool, true, false, not, ◌&&◌, Option, none, some, ◌==◌, if◌then◌else◌,
}
use thekvm.Prelude.Result.{Result, ok, ◌>>=◌, ◌>>◌, fail_if, ok_or}
use thekvm.Geometry.{
  Edge, left, right, top, bottom, is_double, is_mirror, is_horizontal, opposite, map_coordinate,
}
use thekvm.Layout.{Screen, screen}
use thekvm.Router.{
  EdgeRouter, RouterError, no_local_screen, not_active, unknown_target, return_inset_px,
}

-- `option == Some(id)`
abbrev pub is_id : Option ℕ → ℕ → Bool
is_id none i = false
is_id (some j) i = j == i

-- What every way home resets.
unfoldable pub come_home : EdgeRouter → ℕ → ℕ → EdgeRouter
come_home r x y = record r {
  current_screen = r.local_screen;
  cursor_x = x;
  cursor_y = y;
  local_cursor_x = x;
  local_cursor_y = y;
  active_remote = none;
  entry_edge = none;
  return_armed = false;
  push_edge = none;
  push_accum = 0;
  return_edge = none;
  return_edge_accum = 0;
  return_run_since = none;
}

unfoldable pub return_to_local : EdgeRouter → ℕ → ℕ → ℕ → Result RouterError EdgeRouter
unfolding come_home
return_to_local r from x y = do
  fail_if (not (is_id r.active_remote from)) not_active
  s ← ok_or (screen r.layout r.local_screen) no_local_screen
  ok (come_home r (min x (s.width - 1)) (min y (s.height - 1)))

-- The local edge that a return through `edge` of the peer lands on.
unfoldable pub landing_edge : EdgeRouter → Edge → Edge
unfolding opposite
landing_edge r edge =
    if is_double r.edge_mode && is_mirror r.double_style && is_horizontal edge
    then opposite edge
    else edge

-- The size of the driven screen; that of the local one if it is missing.
unfoldable pub remote_size : EdgeRouter → ℕ → Screen → ℕ × ℕ
remote_size r from s = elim (screen r.layout from) [
  | none ↦ (s.width, s.height)
  | some remote ↦ (remote.width, remote.height)
]

unfoldable pub return_coords : Edge → ℕ → ℕ → ℕ × ℕ → Screen → ℕ × ℕ
return_coords left x y remote s = (return_inset_px, map_coordinate y remote.1 s.height)
return_coords right x y remote s =
    (s.width - 1 - return_inset_px, map_coordinate y remote.1 s.height)
return_coords top x y remote s = (map_coordinate x remote.0 s.width, return_inset_px)
return_coords bottom x y remote s =
    (map_coordinate x remote.0 s.width, s.height - 1 - return_inset_px)

unfoldable pub land_at_edge : ℕ → EdgeRouter → Edge → ℕ × ℕ → Screen → EdgeRouter
unfolding come_home
land_at_edge now r landing at s =
    record (come_home r (min at.0 (s.width - 1)) (min at.1 (s.height - 1))) {
      post_return_edge = some landing;
      post_return_at = some now;
    }

unfoldable pub restore_local_at_edge : ℕ → EdgeRouter → ℕ → Edge → Result RouterError EdgeRouter
unfolding landing_edge remote_size return_coords land_at_edge
restore_local_at_edge now r from edge = do
  fail_if (not (is_id r.active_remote from)) not_active
  s ← ok_or (screen r.layout r.local_screen) no_local_screen
  let landing = landing_edge r edge
  let at = return_coords landing r.cursor_x r.cursor_y (remote_size r from s) s
  ok (land_at_edge now r landing at s)

unfoldable pub restore_local : EdgeRouter → ℕ → Result RouterError EdgeRouter
unfolding come_home remote_size
restore_local r from = do
  fail_if (not (is_id r.active_remote from)) not_active
  s ← ok_or (screen r.layout r.local_screen) no_local_screen
  let mapped_y = map_coordinate r.cursor_y (remote_size r from s).1 s.height
  let r' = come_home r (min r.local_cursor_x (s.width - 1)) (min mapped_y (s.height - 1))
  ok (record r' { post_return_edge = none; post_return_at = none })

-- A drive that the peer placed: armed, with no entry edge.
unfoldable pub peer_placed : ℕ → EdgeRouter → ℕ → ℕ → ℕ → EdgeRouter
peer_placed now r target x y =
    let at_home = r.current_screen == r.local_screen in
    record r {
      local_cursor_x = if at_home then r.cursor_x else r.local_cursor_x;
      local_cursor_y = if at_home then r.cursor_y else r.local_cursor_y;
      current_screen = target;
      cursor_x = x;
      cursor_y = y;
      active_remote = some target;
      entry_edge = none;
      return_armed = true;
      return_edge = none;
      return_edge_accum = 0;
      return_run_since = none;
      post_return_edge = none;
      post_return_at = none;
      handoff_at = some now;
    }

-- The flag says whether a remote screen is driven afterwards.
unfoldable pub handoff_to : ℕ → EdgeRouter → ℕ → ℕ → ℕ → Result RouterError (EdgeRouter × Bool)
unfolding come_home peer_placed
handoff_to now r target x y = do
  s ← ok_or (screen r.layout target) unknown_target
  let x' = min x (s.width - 1)
  let y' = min y (s.height - 1)
  let home = record (come_home r x' y') { post_return_edge = none; post_return_at = none }
  if r.local_screen == target then ok (home, false) else ok (peer_placed now r target x' y', true)
