-- ===== src/Router/Agreement.antt =====
-- `EdgeRouter::route` and the stateless rule of the receiver, `Layout::handoff_for_motion`.
use thekvm.Prelude.{ℕ, ◌-◌, ◌<◌, ◌≡◌, refl, ap, ◌∙◌, min, true, some, arith}
use mathlib.Core.Path.{subst}
use thekvm.Prelude.Int.{ℤ, pos, ◌+ℤ◌}
use thekvm.Geometry.{Edge, EdgeMode, DoubleEdgeStyle, edge_for_overflow, overflow_px}
use thekvm.Event.{mouse_move}
use thekvm.Layout.{Screen, Layout, screen}
use thekvm.Layout.Crossing.{crossing_target_for, landing, EdgeHandoff, handoff_for_motion}
use thekvm.Router.{EdgeRouter, RoutedEvent, handoff, crossing_target}
use thekvm.Router.Cross.{open_crossing, commit, remainder}
use thekvm.Router.Route.{route}
use thekvm.Router.Invariant.{Inv}
use thekvm.Router.Gates.{is_handoff, handoff-Crosses}

inside_min : (x w : ℕ) → x < w → min x (w - 1) ≡ x
inside_min x w h = ground arith

handoff_for_motion-found :
    (l : Layout) (i x y : ℕ) (dx dy : ℤ) (mode : EdgeMode) (style : DoubleEdgeStyle) (s t : Screen)
    (edge : Edge) (target : ℕ)
    → screen l i ≡ some s
    → x < s.width
    → y < s.height
    → edge_for_overflow (pos x +ℤ dx) (pos y +ℤ dy) s.width s.height ≡ some edge
    → crossing_target_for l i edge mode ≡ some target
    → screen l target ≡ some t
    → handoff_for_motion l i x y dx dy mode style
      ≡ some (record {
        from = i;
        target = target;
        edge = edge;
        target_x = (landing style edge x y s t).0;
        target_y = (landing style edge x y s t).1;
      })
unfolding handoff_for_motion
handoff_for_motion-found l i x y dx dy mode style s t edge target e hx hy past leads known =
    rw
      (e, inside_min x s.width hx, inside_min y s.height hy, past, leads, known, handoff_for_motion)
      (rw (inside_min x s.width hx, inside_min y s.height hy) refl)

carried :
    (r : EdgeRouter) (edge : Edge) (s : Screen) (dx dy dx' dy' : ℤ)
    → mouse_move dx dy ≡ mouse_move dx' dy'
    → remainder edge
        (overflow_px edge (pos r.cursor_x +ℤ dx') (pos r.cursor_y +ℤ dy') s.width s.height)
      ≡ remainder edge
          (overflow_px edge (pos r.cursor_x +ℤ dx) (pos r.cursor_y +ℤ dy) s.width s.height)
carried r edge s dx dy dx' dy' e = let a : dx ≡ dx' = cc in let b : dy ≡ dy' = cc in rw (a, b) refl

-- A crossing that the router opens in a state that keeps the invariant is the one that the
-- receiver's stateless rule computes from the same position and motion: the event that `route`
-- answers with names the screens, the edge and the landing of that rule and carries the rest of the
-- motion past that edge, the target is driven from then on, and the router puts its cursor on the
-- landing.
pub route-handoff_for_motion :
    (now : ℕ) (r : EdgeRouter) (dx dy : ℤ)
    → Inv r
    → is_handoff (route now r (mouse_move dx dy)).1 ≡ true
    → (h : EdgeHandoff) × (s : Screen) × (handoff_for_motion r.layout r.current_screen r.cursor_x
          r.cursor_y dx dy r.edge_mode r.double_style
        ≡ some h)
      × (screen r.layout r.current_screen ≡ some s)
      × ((route now r (mouse_move dx dy)).1
          ≡ handoff r.current_screen h.target h.edge h.target_x h.target_y (
              remainder h.edge (
                overflow_px h.edge (pos r.cursor_x +ℤ dx) (pos r.cursor_y +ℤ dy) s.width s.height)))
      × (h.from ≡ r.current_screen)
      × ((route now r (mouse_move dx dy)).0.active_remote ≡ some h.target)
      × ((route now r (mouse_move dx dy)).0.cursor_x ≡ h.target_x)
      × ((route now r (mouse_move dx dy)).0.cursor_y ≡ h.target_y)
unfolding crossing_target open_crossing commit
route-handoff_for_motion now r dx dy v opened =
    let c = handoff-Crosses now r (mouse_move dx dy) opened in
    let (s, e, hx, hy) = v.cursor in
    let same : s ≡ c.s = ground (arith, e, c.on_screen) in
    let inside_x : r.cursor_x < c.s.width = subst (λ (q : Screen). r.cursor_x < q.width) same hx in
    let inside_y : r.cursor_y < c.s.height =
      subst (λ (q : Screen). r.cursor_y < q.height) same hy in
    let past : edge_for_overflow (pos r.cursor_x +ℤ dx) (pos r.cursor_y +ℤ dy) c.s.width c.s.height
        ≡ some c.edge =
      ground (arith, c.is_motion, c.past_edge) in
    let result = c.opens.opened in
    (
      record {
        from = r.current_screen;
        target = c.target;
        edge = c.edge;
        target_x = (landing r.double_style c.edge r.cursor_x r.cursor_y c.s c.t).0;
        target_y = (landing r.double_style c.edge r.cursor_x r.cursor_y c.s c.t).1;
      },
      c.s,
      handoff_for_motion-found r.layout r.current_screen r.cursor_x r.cursor_y dx dy r.edge_mode
          r.double_style c.s c.t c.edge c.target c.on_screen inside_x inside_y past c.opens.leads
          c.opens.target_known,
      c.on_screen,
      ap (λ (o : EdgeRouter × RoutedEvent). o.1) result
          ∙ ap
              (handoff r.current_screen c.target c.edge
                (landing r.double_style c.edge r.cursor_x r.cursor_y c.s c.t).0
                (landing r.double_style c.edge r.cursor_x r.cursor_y c.s c.t).1)
              (carried r c.edge c.s dx dy c.dx c.dy c.is_motion),
      refl,
      ap (λ (o : EdgeRouter × RoutedEvent). o.0.active_remote) result,
      ap (λ (o : EdgeRouter × RoutedEvent). o.0.cursor_x) result,
      ap (λ (o : EdgeRouter × RoutedEvent). o.0.cursor_y) result,
    )
