-- ===== src/Router/Push/Run.antt =====
-- How `route` computes a press at an edge of the local screen, one condition at a time.
use thekvm.Prelude.{ℕ, ◌≡◌, refl, ap, ◌∙◌, Bool, true, false, ◌&&◌, if◌then◌else◌, none, some}
use thekvm.Prelude.Int.{ℤ, pos, ◌+ℤ◌}
use thekvm.Geometry.{Edge, is_edge, edge_for_overflow}
use thekvm.Event.{mouse_move}
use thekvm.Layout.{Screen, screen}
use thekvm.Router.{EdgeRouter, crossing_target, post_return_holds}
use thekvm.Router.Cross.{push_edge_step, press_gates, press_edge, local_step, local_motion}
use thekvm.Router.Route.{route, route_by, route_home}

pub if_false {ℓ} : {A : Type ℓ} (b : Bool) (p q : A) → b ≡ false → (if b then p else q) ≡ q
if_false true p q e = cc
if_false false p q e = refl

module _ (now : ℕ) (r : EdgeRouter) (dx dy : ℤ) (s : Screen) where
  -- A motion while control is local.
  pub route-local_motion :
      r.active_remote ≡ none
      → screen r.layout r.current_screen ≡ some s
      → route now r (mouse_move dx dy) ≡ local_motion now r dx dy s
  unfolding route route_by
  route-local_motion idle e =
      let moved : route_home now r (mouse_move dx dy) ≡ local_motion now r dx dy s =
        rw (e, route_home) in
      ap (route_by now r (mouse_move dx dy)) idle ∙ moved

  -- A press at an edge with a linked target, past every gate.
  pub route-push_edge_step :
      (edge : Edge) (target : ℕ) (t : Screen)
      → r.active_remote ≡ none
      → screen r.layout r.current_screen ≡ some s
      → edge_for_overflow (pos r.cursor_x +ℤ dx) (pos r.cursor_y +ℤ dy) s.width s.height ≡ some edge
      → r.locked ≡ false
      → r.startup_gate ≡ false
      → (is_edge r.post_return_edge edge && post_return_holds now r) ≡ false
      → crossing_target r r.current_screen edge ≡ some target
      → screen r.layout target ≡ some t
      → route now r (mouse_move dx dy)
        ≡ push_edge_step now r target edge (pos r.cursor_x +ℤ dx) (pos r.cursor_y +ℤ dy) s (some t)
  unfolding local_motion local_step press_edge press_gates
  route-push_edge_step edge target t idle e past free gate refractory leads known =
      let nx = pos r.cursor_x +ℤ dx in
      let ny = pos r.cursor_y +ℤ dy in
      let push = push_edge_step now r target edge nx ny s (screen r.layout target) in
      route-local_motion idle e
      ∙ ap (local_step now r (mouse_move dx dy) nx ny s) past
      ∙ if_false r.locked _ _ free
      ∙ ap (press_gates now r edge nx ny s) leads
      ∙ if_false r.startup_gate _ _ gate
      ∙ if_false (is_edge r.post_return_edge edge && post_return_holds now r) _ push refractory
      ∙ ap (push_edge_step now r target edge nx ny s) known
