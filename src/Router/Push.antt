-- ===== src/Router/Push.antt =====
-- How `EdgeRouter::route` opens a crossing.
mod Run
pub mod Sustained
pub mod Track
use thekvm.Prelude.{
  ℕ, ◌+◌, ◌-◌, ◌<◌, ◌≤◌, ◌≡◌, refl, sym, ap, min, Bool, true, false, leb, if◌then◌else◌, some,
  arith,
}
use mathlib.Core.Path.{subst}
use thekvm.Prelude.Int.{ℤ, pos, ◌+ℤ◌}
use thekvm.Geometry.{Edge, is_edge, overflow_px, distance_from_edge}
use thekvm.Event.{InputEvent}
use thekvm.Layout.{Screen, screen}
use thekvm.Router.{EdgeRouter, RoutedEvent, handoff, edge_push_px, phantom_start_guard_px}
use thekvm.Router.Cross.{open_crossing, push_credit, push_total}
use thekvm.Router.Route.{route}
use thekvm.Router.Gates.{is_handoff, Crosses, handoff-Crosses}

push_continues :
    (same : Bool) (saved overflow distance : ℕ)
    → phantom_start_guard_px < distance
    → edge_push_px ≤ (
        let credit =
          if leb distance phantom_start_guard_px
          then overflow
          else min overflow (edge_push_px - 1) in
        if same then saved + credit else credit)
    → (same ≡ true) × (0 < saved)
push_continues true saved overflow distance far enough = (refl, ground arith)
push_continues false saved overflow distance far enough = absurd (ground arith)

handoff_inj :
    (o : EdgeRouter × RoutedEvent) (from from' target target' : ℕ) (edge edge' : Edge)
    (x x' y y' : ℕ) (event event' : InputEvent) (q : EdgeRouter)
    → o ≡ (q, handoff from target edge x y event)
    → o.1 ≡ handoff from' target' edge' x' y' event'
    → edge ≡ edge'
handoff_inj o from from' target target' edge edge' x x' y y' event event' q e f =
    ground (arith, ap (λ (p : EdgeRouter × RoutedEvent). p.1) e)

opened_edge :
    (now : ℕ) (r : EdgeRouter) (event : InputEvent) (from target : ℕ) (edge : Edge) (x y : ℕ)
    (rest : InputEvent)
    → (c : Crosses now r event) → (route now r event).1 ≡ handoff from target edge x y rest
    → c.edge ≡ edge
unfolding open_crossing
opened_edge now r event from target edge x y rest c out =
    handoff_inj (route now r event) _ from _ target c.edge edge _ x _ y _ rest _ c.opens.opened out

-- A crossing whose motion starts more than 64 pixels from the edge continues a push run on that very
-- edge: one event from mid-screen never crosses.
pub handoff_from_inside :
    (now : ℕ) (r : EdgeRouter) (event : InputEvent) (from target : ℕ) (edge : Edge) (x y : ℕ)
    (rest : InputEvent) (s : Screen)
    → (route now r event).1 ≡ handoff from target edge x y rest
    → screen r.layout r.current_screen ≡ some s
    → phantom_start_guard_px < distance_from_edge edge r.cursor_x r.cursor_y s.width s.height
    → (is_edge r.push_edge edge ≡ true) × (0 < r.push_accum)
unfolding push_total push_credit
handoff_from_inside now r event from target edge x y rest s out known far =
    let c = handoff-Crosses now r event (ap is_handoff out) in
    let same : c.edge ≡ edge = opened_edge now r event from target edge x y rest c out in
    let here : c.s ≡ s = ground (arith, known, c.on_screen) in
    let far' : phantom_start_guard_px
        < distance_from_edge c.edge r.cursor_x r.cursor_y c.s.width c.s.height =
      subst
        (λ e.
          phantom_start_guard_px < distance_from_edge e r.cursor_x r.cursor_y c.s.width c.s.height)
        (sym same)
        (subst
          (λ (t : Screen).
            phantom_start_guard_px < distance_from_edge edge r.cursor_x r.cursor_y t.width t.height)
          (sym here) far) in
    let (on_edge, saved) =
      push_continues (is_edge r.push_edge c.edge) r.push_accum
        (overflow_px c.edge (pos r.cursor_x +ℤ c.dx) (pos r.cursor_y +ℤ c.dy) c.s.width c.s.height)
        (distance_from_edge c.edge r.cursor_x r.cursor_y c.s.width c.s.height) far'
        c.opens.pushed in
    (subst (λ e. is_edge r.push_edge e ≡ true) same on_edge, saved)
