-- ===== src/Router/Returns/Lingering.antt =====
-- The refractory over several motions: it lasts while the cursor stays near the edge.
use thekvm.Prelude.{
  ℕ, ◌-◌, ◌<◌, ◌≡◌, refl, sym, ap, ◌∙◌, Bool, false, ◌&&◌, Option, none, some, List, [], ◌∷◌,
  if◌then◌else◌, either, arith,
}
use mathlib.Core.Path.{subst}
use thekvm.Prelude.Int.{ℤ, pos, pos_part, ◌+ℤ◌}
use thekvm.Geometry.{Edge, is_edge, edge_for_overflow, overflow_px, distance_from_edge}
use thekvm.Event.{InputEvent, mouse_move}
use thekvm.Layout.{Screen, screen}
use thekvm.Router.{
  EdgeRouter, RoutedEvent, return_home, ClampReason, no_target, was_locked, in_startup_gate,
  post_return, crossing_target, post_return_holds,
}
use thekvm.Router.Home.{landing_edge}
use thekvm.Router.Cross.{
  clamp_to_edge, drop_push, refractory_lifts, step_inside, move_inside, commit, open_crossing,
  push_edge_step, stop, press_gates, press_edge, local_step, local_motion,
}
use thekvm.Router.Route.{route, route_by, route_home}
use thekvm.Router.Invariant.{Inv}
use thekvm.Router.Gates.{is_handoff}
use thekvm.Router.Returns.Refractory.{IsHome, return-IsHome, home-shut}

-- What a motion leaves alone while control stays local.
abbrev Kept : EdgeRouter → EdgeRouter → Type 0
Kept r q =
    (q.layout ≡ r.layout)
    × (q.local_screen ≡ r.local_screen)
    × (q.current_screen ≡ r.current_screen)
    × (q.post_return_edge ≡ r.post_return_edge)
    × (q.post_return_at ≡ r.post_return_at)

abbrev StaysKept : EdgeRouter → EdgeRouter × RoutedEvent → Type 0
StaysKept r o = o.0.active_remote ≡ none → Kept r o.0

module _ (now : ℕ) (r : EdgeRouter) (nx ny : ℤ) (s : Screen) where
  stop-Kept : (reason : ClampReason) → StaysKept r (stop r nx ny s reason)
  unfolding stop clamp_to_edge drop_push
  stop-Kept reason local = (refl, refl, refl, refl, refl)

  opened-Kept :
      (edge : Edge) (target overflow : ℕ) (t : Screen)
      → StaysKept r (open_crossing now r target edge overflow s t)
  unfolding open_crossing commit
  opened-Kept edge target overflow t local = cc

  push-Kept :
      (edge : Edge) (target : ℕ) (o : Option Screen)
      → StaysKept r (push_edge_step now r target edge nx ny s o)
  unfolding push_edge_step clamp_to_edge
  push-Kept edge target none =
      either (StaysKept r) _ _ _ (λ e local. (refl, refl, refl, refl, refl))
        (λ e local. (refl, refl, refl, refl, refl))
  push-Kept edge target (some t) =
      either (StaysKept r) _ _ _ (λ e local. (refl, refl, refl, refl, refl))
        (λ e. opened-Kept edge target (overflow_px edge nx ny s.width s.height) t)

  gates-Kept : (edge : Edge) (o : Option ℕ) → StaysKept r (press_gates now r edge nx ny s o)
  unfolding press_gates
  gates-Kept edge none = stop-Kept no_target
  gates-Kept edge (some target) =
      let push = push_edge_step now r target edge nx ny s (screen r.layout target) in
      let refractory = is_edge r.post_return_edge edge && post_return_holds now r in
      either (StaysKept r) r.startup_gate (stop r nx ny s in_startup_gate)
        (if refractory then stop r nx ny s post_return else push) (λ e. stop-Kept in_startup_gate)
        (λ e.
          either (StaysKept r) refractory (stop r nx ny s post_return) push
            (λ f. stop-Kept post_return) (λ f. push-Kept edge target (screen r.layout target)))

  press-Kept : (edge : Edge) → StaysKept r (press_edge now r edge nx ny s)
  unfolding press_edge
  press-Kept edge =
      either (StaysKept r) r.locked (stop r nx ny s was_locked)
        (press_gates now r edge nx ny s (crossing_target r r.current_screen edge))
        (λ e. stop-Kept was_locked) (λ e. gates-Kept edge (crossing_target r r.current_screen edge))

near_shut :
    (o : Option Edge) (landed : Edge) (x y : ℕ) (s : Screen)
    → o ≡ some landed
    → distance_from_edge landed x y s.width s.height < 64
    → refractory_lifts o x y s ≡ false
unfolding refractory_lifts
near_shut none landed x y s e near = cc
near_shut (some d) landed x y s e near =
    let same : landed ≡ d = cc in
    let near' : distance_from_edge d x y s.width s.height < 64 =
      subst (λ z. distance_from_edge z x y s.width s.height < 64) same near in
    ground arith

inside-Kept :
    (r : EdgeRouter) (x y : ℕ) (s : Screen)
    → refractory_lifts r.post_return_edge x y s ≡ false
    → Kept r (move_inside r x y s)
unfolding move_inside step_inside
inside-Kept r x y s shut = (
  refl,
  refl,
  refl,
  ap (λ (b : Bool). if b then none else r.post_return_edge) shut,
  ap (λ (b : Bool). if b then none else r.post_return_at) shut,
)

-- Control is local, and the cursor is within 64 pixels of the edge.
abbrev pub IsNear : Edge → Screen → EdgeRouter → Type 0
IsNear landed s q =
    (q.active_remote ≡ none)
    × (distance_from_edge landed q.cursor_x q.cursor_y s.width s.height < 64)

step-Kept :
    (now : ℕ) (r : EdgeRouter) (landed : Edge) (event : InputEvent) (nx ny : ℤ) (s : Screen)
    (o : Option Edge)
    → r.post_return_edge ≡ some landed
    → IsNear landed s (local_step now r event nx ny s o).0
    → Kept r (local_step now r event nx ny s o).0
unfolding local_step
step-Kept now r landed event nx ny s none shut (local, near) =
    inside-Kept r (pos_part nx) (pos_part ny) s
      (near_shut r.post_return_edge landed (pos_part nx) (pos_part ny) s shut near)
step-Kept now r landed event nx ny s (some edge) shut (local, near) =
    press-Kept now r nx ny s edge local

route-Kept :
    (now : ℕ) (r : EdgeRouter) (landed : Edge) (s : Screen) (dx dy : ℤ)
    → r.active_remote ≡ none
    → r.post_return_edge ≡ some landed
    → screen r.layout r.current_screen ≡ some s
    → IsNear landed s (route now r (mouse_move dx dy)).0
    → Kept r (route now r (mouse_move dx dy)).0
unfolding route route_by route_home local_motion
route-Kept now r landed s dx dy idle shut known near =
    let nx = pos r.cursor_x +ℤ dx in
    let ny = pos r.cursor_y +ℤ dy in
    let o = edge_for_overflow nx ny s.width s.height in
    let at_home : route_home now r (mouse_move dx dy) ≡ local_motion now r dx dy s =
      rw (known, route_home) refl in
    let same : route now r (mouse_move dx dy) ≡ local_step now r (mouse_move dx dy) nx ny s o =
      ap (route_by now r (mouse_move dx dy)) idle ∙ at_home in
    subst (λ (p : EdgeRouter × RoutedEvent). Kept r p.0) (sym same)
      (step-Kept now r landed (mouse_move dx dy) nx ny s o shut
        (subst (λ (p : EdgeRouter × RoutedEvent). IsNear landed s p.0) same near))

-- The router after motions, each at its time.
unfoldable pub moved : EdgeRouter → List (ℕ × ℤ × ℤ) → EdgeRouter
moved r [] = r
moved r ((now, dx, dy) ∷ motions) = moved (route now r (mouse_move dx dy)).0 motions

-- After each of the motions control is local and the cursor near the edge.
unfoldable pub Lingers : Edge → Screen → EdgeRouter → List (ℕ × ℤ × ℤ) → Type 0
Lingers landed s r [] = Unit
Lingers landed s r ((now, dx, dy) ∷ motions) =
    let next = (route now r (mouse_move dx dy)).0 in
    IsNear landed s next × Lingers landed s next motions

moved-IsHome :
    (now : ℕ) (landed : Edge) (s : Screen) (motions : List (ℕ × ℤ × ℤ)) (r : EdgeRouter)
    → IsHome now landed r
    → screen r.layout r.current_screen ≡ some s
    → Lingers landed s r motions
    → IsHome now landed (moved r motions)
      × (screen (moved r motions).layout (moved r motions).current_screen ≡ some s)
unfolding moved Lingers
moved-IsHome now landed s [] r home known near = (home, known)
moved-IsHome now landed s ((at, dx, dy) ∷ motions) r home known (near, later) =
    let next = (route at r (mouse_move dx dy)).0 in
    let (layout, locals, current, edge, since) =
      route-Kept at r landed s dx dy home.idle home.shut_edge known near in
    let home' : IsHome now landed next = record {
      idle = near.0;
      current = current ∙ home.current ∙ sym locals;
      shut_edge = edge ∙ home.shut_edge;
      shut_at = since ∙ home.shut_at;
    } in
    let known' : screen next.layout next.current_screen ≡ some s =
      ap (λ l. screen l next.current_screen) layout ∙ ap (λ i. screen r.layout i) current ∙ known in
    moved-IsHome now landed s motions next home' known' later

-- After an event brought a drive home through `edge` of the peer, from a state that keeps the
-- invariant, and any motions after each of which control is local and the cursor within 64 pixels
-- of the local edge that the return landed on, no motion past that edge opens a crossing while 250
-- milliseconds have not passed since the return.
pub return-Lingers_shut :
    (now later : ℕ) (r : EdgeRouter) (event : InputEvent) (from : ℕ) (edge : Edge)
    (entry : Option Edge) (armed : Bool) (s : Screen) (motions : List (ℕ × ℤ × ℤ)) (dx dy : ℤ)
    → Inv r
    → (route now r event).1 ≡ return_home from edge entry armed
    → screen (route now r event).0.layout (route now r event).0.current_screen ≡ some s
    → Lingers (landing_edge r edge) s (route now r event).0 motions
    → later - now < 250_000_000
    → edge_for_overflow
        (pos (moved (route now r event).0 motions).cursor_x +ℤ dx)
        (pos (moved (route now r event).0 motions).cursor_y +ℤ dy)
        s.width
        s.height
      ≡ some (landing_edge r edge)
    → is_handoff (route later (moved (route now r event).0 motions) (mouse_move dx dy)).1 ≡ false
return-Lingers_shut now later r event from edge entry armed s motions dx dy v out known near soon
      past =
    let home = return-IsHome now r event from edge entry armed v out in
    let (home', known') =
      moved-IsHome now (landing_edge r edge) s motions (route now r event).0 home known near in
    home-shut now later (moved (route now r event).0 motions) (landing_edge r edge) s dx dy home'
      known' soon past
