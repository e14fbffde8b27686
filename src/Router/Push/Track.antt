-- ===== src/Router/Push/Track.antt =====
-- The local events that `EdgeRouter::route` emits, and the cursor that it books.
use thekvm.Prelude.{
  ℕ, ◌^◌, ◌<◌, ◌≤◌, ◌≡◌, refl, sym, Bool, true, false, ◌&&◌, if◌then◌else◌, Option, none, some,
  arith,
}
use mathlib.Core.Path.{subst}
use thekvm.Prelude.Int.{ℤ, pos, negsuc, sub_ℕ, pos_part, ◌+ℤ◌, clamp_i32}
use thekvm.Geometry.{Edge, is_edge, edge_for_overflow, overflow_px, clamp_span}
use thekvm.Event.{InputEvent, mouse_move}
use thekvm.Layout.{Screen, screen}
use thekvm.Router.{
  EdgeRouter, RoutedEvent, local, ClampReason, crossing_target, post_return_holds, push_budget,
  no_target, was_locked, in_startup_gate, post_return,
}
use thekvm.Router.Cross.{
  push_edge_step, push_credit, push_total, clamp_to_edge, open_crossing, local_step, local_motion,
  press_edge, press_gates, drop_push, stop, move_inside, step_inside,
}
use thekvm.Router.Route.{route}
use thekvm.Router.Invariant.{Inv}
use thekvm.Router.Push.Run.{route-local_motion}

-- A motion by (dx, dy) leads from one position to another.
abbrev pub Moves : ℤ → ℤ → EdgeRouter → EdgeRouter → Type 0
Moves dx dy r r' =
    (pos r.cursor_x +ℤ dx ≡ pos r'.cursor_x) × (pos r.cursor_y +ℤ dy ≡ pos r'.cursor_y)

-- A local outcome is a motion by what the cursor moved; any other outcome is not local.
abbrev pub Tracks : EdgeRouter → EdgeRouter × RoutedEvent → Type 0
Tracks r o =
    (event : InputEvent)
    → o.1 ≡ local event
    → (dx : ℤ) × (dy : ℤ) × (event ≡ mouse_move dx dy) × Moves dx dy r o.0

clamped-moves :
    (x a w : ℕ) (n : ℤ)
    → a ≡ x
    → x < w
    → w ≤ 2 ^ 31
    → pos x +ℤ clamp_i32 (sub_ℕ (clamp_span n w) a) ≡ pos (clamp_span n w)
unfolding ◌+ℤ◌ clamp_span
clamped-moves x a w n same h k = ground arith

inside-moves :
    (nx ny : ℤ) (w h : ℕ)
    → edge_for_overflow nx ny w h ≡ none
    → (nx ≡ pos (pos_part nx)) × (ny ≡ pos (pos_part ny))
unfolding edge_for_overflow
inside-moves (pos a) (pos b) w h e = (refl, refl)
inside-moves (pos a) (negsuc b) w h e = absurd (ground arith)
inside-moves (negsuc a) ny w h e = cc

local_inj : (a b : InputEvent) → local a ≡ local b → a ≡ b
local_inj a b e = cc

module _ (r : EdgeRouter) (s : Screen) (hx : r.cursor_x < s.width) (hy : r.cursor_y < s.height)
    (kx : s.width ≤ 2 ^ 31) (ky : s.height ≤ 2 ^ 31) where
  clamp_to_edge-Tracks :
      (q : EdgeRouter) (nx ny : ℤ) (reason : ClampReason)
      → q.cursor_x ≡ r.cursor_x
      → q.cursor_y ≡ r.cursor_y
      → Tracks r (clamp_to_edge q nx ny s.width s.height reason)
  unfolding clamp_to_edge
  clamp_to_edge-Tracks q nx ny reason ex ey event e = (
    clamp_i32 (sub_ℕ (clamp_span nx s.width) q.cursor_x),
    clamp_i32 (sub_ℕ (clamp_span ny s.height) q.cursor_y),
    local_inj event _ (sym e),
    (
      clamped-moves r.cursor_x q.cursor_x s.width nx ex hx kx,
      clamped-moves r.cursor_y q.cursor_y s.height ny ey hy ky,
    ),
  )

  open_crossing-Tracks :
      (now target : ℕ) (edge : Edge) (overflow : ℕ) (t : Screen)
      → Tracks r (open_crossing now r target edge overflow s t)
  unfolding open_crossing
  open_crossing-Tracks now target edge overflow t event e = cc

  stop-Tracks : (nx ny : ℤ) (reason : ClampReason) → Tracks r (stop r nx ny s reason)
  unfolding stop drop_push
  stop-Tracks nx ny reason = clamp_to_edge-Tracks (drop_push r) nx ny reason refl refl

  if-Tracks :
      (b : Bool) (o p : EdgeRouter × RoutedEvent)
      → Tracks r o
      → Tracks r p
      → Tracks r (if b then o else p)
  if-Tracks true o p t u = t
  if-Tracks false o p t u = u

  push_edge_step-Tracks :
      (now target : ℕ) (edge : Edge) (nx ny : ℤ) (o : Option Screen)
      → Tracks r (push_edge_step now r target edge nx ny s o)
  unfolding push_edge_step
  push_edge_step-Tracks now target edge nx ny none =
      let total =
        push_total r edge (push_credit r edge (overflow_px edge nx ny s.width s.height) s) in
      let held =
        clamp_to_edge-Tracks (record r { push_edge = some edge; push_accum = total }) nx ny
          push_budget refl refl in
      if-Tracks _ _ _ held held
  push_edge_step-Tracks now target edge nx ny (some t) =
      let total =
        push_total r edge (push_credit r edge (overflow_px edge nx ny s.width s.height) s) in
      if-Tracks _ _ _
        (clamp_to_edge-Tracks (record r { push_edge = some edge; push_accum = total }) nx ny
          push_budget refl refl)
        (open_crossing-Tracks now target edge (overflow_px edge nx ny s.width s.height) t)

  press_gates-Tracks :
      (now : ℕ) (edge : Edge) (nx ny : ℤ) (o : Option ℕ)
      → Tracks r (press_gates now r edge nx ny s o)
  unfolding press_gates
  press_gates-Tracks now edge nx ny none = stop-Tracks nx ny no_target
  press_gates-Tracks now edge nx ny (some target) =
      if-Tracks r.startup_gate _ _ (stop-Tracks nx ny in_startup_gate) (
        if-Tracks (is_edge r.post_return_edge edge && post_return_holds now r) _ _
          (stop-Tracks nx ny post_return)
          (push_edge_step-Tracks now target edge nx ny (screen r.layout target)))

  press_edge-Tracks : (now : ℕ) (edge : Edge) (nx ny : ℤ) → Tracks r (press_edge now r edge nx ny s)
  unfolding press_edge
  press_edge-Tracks now edge nx ny =
      if-Tracks r.locked _ _ (stop-Tracks nx ny was_locked)
        (press_gates-Tracks now edge nx ny (crossing_target r r.current_screen edge))

  local_step-Tracks :
      (now : ℕ) (dx dy : ℤ) (o : Option Edge)
      → edge_for_overflow (pos r.cursor_x +ℤ dx) (pos r.cursor_y +ℤ dy) s.width s.height ≡ o
      → Tracks r
          (local_step now r (mouse_move dx dy) (pos r.cursor_x +ℤ dx) (pos r.cursor_y +ℤ dy) s o)
  unfolding local_step move_inside step_inside
  local_step-Tracks now dx dy none past event e =
      let (ex, ey) =
        inside-moves (pos r.cursor_x +ℤ dx) (pos r.cursor_y +ℤ dy) s.width s.height past in
      (dx, dy, local_inj event _ (sym e), (ex, ey))
  local_step-Tracks now dx dy (some edge) past event e = press_edge-Tracks now edge _ _ event e

-- While control is local over a screen of at most 2^31 pixels a side, the motion that `route` lets
-- through takes the cursor exactly to the position that the router books, inside the screen, past
-- its border or against a closed edge.
pub route-Moves :
    (now : ℕ) (r : EdgeRouter) (dx dy : ℤ) (s : Screen) (event : InputEvent)
    → Inv r
    → r.active_remote ≡ none
    → screen r.layout r.current_screen ≡ some s
    → s.width ≤ 2 ^ 31
    → s.height ≤ 2 ^ 31
    → (route now r (mouse_move dx dy)).1 ≡ local event
    → (ox : ℤ) × (oy : ℤ) × (event ≡ mouse_move ox oy)
      × Moves ox oy r (route now r (mouse_move dx dy)).0
unfolding local_motion
route-Moves now r dx dy s event v idle e kx ky out =
    let (t, f, hx, hy) = v.cursor in
    subst (Tracks r) (sym (route-local_motion now r dx dy s idle e))
      (local_step-Tracks r s (ground (arith, e, f, hx)) (ground (arith, e, f, hy)) kx ky now dx dy
        (edge_for_overflow (pos r.cursor_x +ℤ dx) (pos r.cursor_y +ℤ dy) s.width s.height) refl)
      event out
