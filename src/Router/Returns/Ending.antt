-- ===== src/Router/Returns/Ending.antt =====
-- The event that ends a drive, and the state after it.
use thekvm.Prelude.{ℕ, ◌≡◌, ap, true, false, some}
use thekvm.Prelude.Int.{ℤ, pos, ◌+ℤ◌}
use thekvm.Geometry.{Edge, edge_for_overflow, overflow_px}
use thekvm.Event.{InputEvent, mouse_move}
use thekvm.Layout.{Screen, screen}
use thekvm.Router.{EdgeRouter, RoutedEvent, return_home, in_handoff_grace}
use thekvm.Router.Home.{landing_edge}
use thekvm.Router.Route.{route}
use thekvm.Router.Invariant.{Inv}
use thekvm.Router.Returns.{return-ComesHome}
use thekvm.Router.Returns.Presses.{is_return}
use thekvm.Router.Returns.Facing.{LeadsHome, faces_home_iff}
use thekvm.Router.Returns.Pressure.{IsPressed, IsEnough-iff}
use thekvm.Router.Returns.Refractory.{IsHome, landed-IsHome}

-- The event is a motion of the driven cursor past an edge that leads home, pressed long enough, out
-- of the grace of the crossing; the answer names that edge, and control is local again.
pub record EndsHome (now : ℕ) (r : EdgeRouter) (event : InputEvent) : Type 0 where
  pub dx : ℤ
  pub dy : ℤ
  pub is_motion : event ≡ mouse_move dx dy
  pub target : ℕ
  pub driving : r.active_remote ≡ some target
  pub s : Screen
  pub on_screen : screen r.layout r.current_screen ≡ some s
  pub edge : Edge
  pub past_edge :
      edge_for_overflow (pos r.cursor_x +ℤ dx) (pos r.cursor_y +ℤ dy) s.width s.height ≡ some edge
  pub leads : LeadsHome r edge
  pub no_grace : in_handoff_grace now r ≡ false
  pub pressed :
      IsPressed now r edge
        (overflow_px edge (pos r.cursor_x +ℤ dx) (pos r.cursor_y +ℤ dy) s.width s.height)
  pub answer : (route now r event).1 ≡ return_home r.current_screen edge r.entry_edge r.return_armed
  pub home : IsHome now (landing_edge r edge) (route now r event).0

-- From a state that keeps the invariant, `route` answers with a return home only for a motion of the
-- driven cursor past an edge that leads home, out of the grace that follows a crossing. Past the
-- entry edge of a drive that has not settled, such motions have 64 pixels in all; past any other
-- edge the run has 20 pixels, or 64 with at most 63 from one event before the drive has settled, and
-- it has lasted for the configured time. The answer names the screen, the edge and the entry, and
-- control is then local, on the local screen, with the edge that the return lands on shut.
pub return-EndsHome :
    (now : ℕ) (r : EdgeRouter) (event : InputEvent)
    → Inv r
    → is_return (route now r event).1 ≡ true
    → EndsHome now r event
return-EndsHome now r event v h =
    let c = return-ComesHome now r event h in
    record {
      dx = c.dx;
      dy = c.dy;
      is_motion = c.is_motion;
      target = c.target;
      driving = c.driving;
      s = c.s;
      on_screen = c.on_screen;
      edge = c.edge;
      past_edge = c.past_edge;
      leads = (faces_home_iff r c.edge).0 c.returns.leads_home;
      no_grace = c.returns.no_grace;
      pressed = (IsEnough-iff now r c.edge _).0 c.returns.run;
      answer = ap (λ (o : EdgeRouter × RoutedEvent). o.1) c.returns.came_home;
      home = landed-IsHome now r event v c;
    }
