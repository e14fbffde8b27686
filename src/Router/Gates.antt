-- ===== src/Router/Gates.antt =====
-- What `EdgeRouter::route` asks of a crossing that it opens.
use thekvm.Prelude.{
  ℕ, ◌≤◌, ◌≡◌, refl, sym, ap, ◌∙◌, Bool, true, false, ◌&&◌, ltb, if◌then◌else◌, inl, inr, Option,
  none, some, arith, Option-cases,
}
use mathlib.Core.Path.{subst}
use thekvm.Prelude.Int.{ℤ, pos, ◌+ℤ◌}
use thekvm.Geometry.{Edge, is_edge, edge_for_overflow, overflow_px}
use thekvm.Event.{InputEvent, mouse_move}
use thekvm.Layout.{Screen, screen}
use thekvm.Router.{
  EdgeRouter, RoutedEvent, handoff, ClampReason, no_target, was_locked, in_startup_gate,
  post_return, push_budget, crossing_target, post_return_holds, edge_push_px,
}
use thekvm.Router.Drive.{drive_motion, drive_edge, press_return, press_escape}
use thekvm.Router.Cross.{
  clamp_to_edge, stop, push_credit, push_total, open_crossing, push_edge_step, press_gates,
  press_edge, local_step, local_motion,
}
use thekvm.Router.Route.{route, route_by, route_driven, route_home}

abbrev pub is_handoff : RoutedEvent → Bool
is_handoff (handoff from target edge x y event) = true
is_handoff _ = false

-- A test whose first branch opens nothing failed, if a crossing opened.
else_taken :
    (b : Bool) (p q : EdgeRouter × RoutedEvent)
    → is_handoff p.1 ≡ false
    → is_handoff (if b then p else q).1 ≡ true
    → (b ≡ false) × ((if b then p else q) ≡ q)
else_taken true p q h k = cc
else_taken false p q h k = (refl, refl)

-- What held when a motion of the local cursor over `s` opened a crossing to `t`, and the outcome.
pub record Opens (now : ℕ) (r : EdgeRouter) (result : EdgeRouter × RoutedEvent) (edge : Edge)
    (target overflow : ℕ) (s t : Screen) : Type 0 where
  pub unlocked : r.locked ≡ false
  pub gate_lifted : r.startup_gate ≡ false
  pub no_refractory : (is_edge r.post_return_edge edge && post_return_holds now r) ≡ false
  pub leads : crossing_target r r.current_screen edge ≡ some target
  pub target_known : screen r.layout target ≡ some t
  pub pushed : edge_push_px ≤ push_total r edge (push_credit r edge overflow s)
  pub opened : result ≡ open_crossing now r target edge overflow s t

stop-closed :
    (r : EdgeRouter) (nx ny : ℤ) (s : Screen) (reason : ClampReason)
    → is_handoff (stop r nx ny s reason).1 ≡ false
unfolding stop clamp_to_edge
stop-closed r nx ny s reason = refl

module _ (now : ℕ) (r : EdgeRouter) (edge : Edge) (nx ny : ℤ) (s : Screen) where
  push_edge_step-opens :
      (target : ℕ) (o : Option Screen)
      → is_handoff (push_edge_step now r target edge nx ny s o).1 ≡ true
      → (t : Screen) × (o ≡ some t)
        × (edge_push_px
            ≤ push_total r edge (push_credit r edge (overflow_px edge nx ny s.width s.height) s))
        × (push_edge_step now r target edge nx ny s o
            ≡ open_crossing now r target edge (overflow_px edge nx ny s.width s.height) s t)
  unfolding push_edge_step clamp_to_edge
  push_edge_step-opens target none h = absurd (ground arith)
  push_edge_step-opens target (some t) h =
      let overflow = overflow_px edge nx ny s.width s.height in
      let total = push_total r edge (push_credit r edge overflow s) in
      let (over, same) =
        else_taken (ltb total edge_push_px)
          (clamp_to_edge (record r { push_edge = some edge; push_accum = total }) nx ny s.width
            s.height push_budget)
          (open_crossing now r target edge overflow s t) refl h in
      (t, refl, ground arith, same)

  press_gates-Opens :
      (o : Option ℕ)
      → crossing_target r r.current_screen edge ≡ o
      → r.locked ≡ false
      → is_handoff (press_gates now r edge nx ny s o).1 ≡ true
      → (target : ℕ) × (t : Screen) × Opens now r
          (press_gates now r edge nx ny s o)
          edge
          target
          (overflow_px edge nx ny s.width s.height)
          s
          t
  unfolding press_gates
  press_gates-Opens none there open_now h = absurd (ground (arith, stop-closed r nx ny s no_target))
  press_gates-Opens (some target) there open_now h =
      let push = push_edge_step now r target edge nx ny s (screen r.layout target) in
      let refractory = is_edge r.post_return_edge edge && post_return_holds now r in
      let inner = if refractory then stop r nx ny s post_return else push in
      let (gate, e1) =
        else_taken r.startup_gate (stop r nx ny s in_startup_gate) inner
          (stop-closed r nx ny s in_startup_gate) h in
      let h1 : is_handoff inner.1 ≡ true = ap (λ p. is_handoff p.1) (sym e1) ∙ h in
      let (lifted, e2) =
        else_taken refractory (stop r nx ny s post_return) push (stop-closed r nx ny s post_return)
          h1 in
      let h2 : is_handoff push.1 ≡ true = ap (λ p. is_handoff p.1) (sym e2) ∙ h1 in
      let (t, known, total, same) = push_edge_step-opens target (screen r.layout target) h2 in
      (
        target,
        t,
        record {
          unlocked = open_now;
          gate_lifted = gate;
          no_refractory = lifted;
          leads = there;
          target_known = known;
          pushed = total;
          opened = e1 ∙ e2 ∙ same;
        },
      )

  press_edge-Opens :
      is_handoff (press_edge now r edge nx ny s).1 ≡ true
      → (target : ℕ) × (t : Screen) × Opens now r
          (press_edge now r edge nx ny s)
          edge
          target
          (overflow_px edge nx ny s.width s.height)
          s
          t
  unfolding press_edge
  press_edge-Opens h =
      let gates = press_gates now r edge nx ny s (crossing_target r r.current_screen edge) in
      let (free, e) =
        else_taken r.locked (stop r nx ny s was_locked) gates (stop-closed r nx ny s was_locked)
          h in
      let (target, t, o) =
        press_gates-Opens (crossing_target r r.current_screen edge) refl free
          (ap (λ p. is_handoff p.1) (sym e) ∙ h) in
      (
        target,
        t,
        subst (λ p. Opens now r p edge target (overflow_px edge nx ny s.width s.height) s t) (sym e)
            o,
      )

drive_closed :
    (now : ℕ) (r : EdgeRouter) (target : ℕ) (dx dy : ℤ)
    → is_handoff (drive_motion now r target dx dy).1 ≡ false
unfolding drive_motion drive_edge press_return press_escape
drive_closed now r target dx dy = ground arith

-- An event that opens a crossing: a motion of the local cursor past an edge of its screen.
pub record Crosses (now : ℕ) (r : EdgeRouter) (event : InputEvent) : Type 0 where
  pub dx : ℤ
  pub dy : ℤ
  pub is_motion : event ≡ mouse_move dx dy
  pub at_home : r.active_remote ≡ none
  pub s : Screen
  pub on_screen : screen r.layout r.current_screen ≡ some s
  pub edge : Edge
  pub past_edge :
      edge_for_overflow (pos r.cursor_x +ℤ dx) (pos r.cursor_y +ℤ dy) s.width s.height ≡ some edge
  pub target : ℕ
  pub t : Screen
  pub opens :
      Opens now r
        (route now r event)
        edge
        target
        (overflow_px edge (pos r.cursor_x +ℤ dx) (pos r.cursor_y +ℤ dy) s.width s.height)
        s
        t

local_step-Opens :
    (now : ℕ) (r : EdgeRouter) (event : InputEvent) (nx ny : ℤ) (s : Screen) (o : Option Edge)
    → is_handoff (local_step now r event nx ny s o).1 ≡ true
    → (edge : Edge) × (target : ℕ) × (t : Screen) × (o ≡ some edge)
      × Opens now r
          (local_step now r event nx ny s o)
          edge
          target
          (overflow_px edge nx ny s.width s.height)
          s
          t
unfolding local_step
local_step-Opens now r event nx ny s none h = cc
local_step-Opens now r event nx ny s (some edge) h =
    let (target, t, o) = press_edge-Opens now r edge nx ny s h in (edge, target, t, refl, o)

route_home-opens :
    (now : ℕ) (r : EdgeRouter) (event : InputEvent)
    → r.active_remote ≡ none
    → (route now r event) ≡ (route_home now r event)
    → is_handoff (route_home now r event).1 ≡ true
    → Crosses now r event
unfolding route_home local_motion
route_home-opens now r (mouse_move dx dy) idle same h =
    elim (Option-cases (screen r.layout r.current_screen)) [
      | inl q ↦ absurd (ground arith)
      | inr (s, e) ↦
          let nx = pos r.cursor_x +ℤ dx in
          let ny = pos r.cursor_y +ℤ dy in
          let moved : route_home now r (mouse_move dx dy) ≡ local_motion now r dx dy s =
            rw (e, route_home) in
          let (edge, target, t, past, o) =
            local_step-Opens now r (mouse_move dx dy) nx ny s
              (edge_for_overflow nx ny s.width s.height)
              (ap (λ p. is_handoff p.1) (sym moved) ∙ h) in
          record {
            dx = dx;
            dy = dy;
            is_motion = refl;
            at_home = idle;
            s = s;
            on_screen = e;
            edge = edge;
            past_edge = past;
            target = target;
            t = t;
            opens =
                subst (λ p. Opens now r p edge target (overflow_px edge nx ny s.width s.height) s t)
                  (sym (same ∙ moved)) o;
          }
    ]
route_home-opens now r _ idle same h = cc

route_driven-closed :
    (now : ℕ) (r : EdgeRouter) (target : ℕ) (event : InputEvent)
    → is_handoff (route_driven now r target event).1 ≡ false
unfolding route_driven
route_driven-closed now r target (mouse_move dx dy) = drive_closed now r target dx dy
route_driven-closed now r target _ = refl

-- A crossing opens only for a motion of the local cursor past an edge whose target is linked, while
-- the screen is not locked, no gate holds the edge, and the push has reached its budget; the
-- outcome is then the committed crossing.
pub handoff-Crosses :
    (now : ℕ) (r : EdgeRouter) (event : InputEvent)
    → is_handoff (route now r event).1 ≡ true
    → Crosses now r event
unfolding route route_by
handoff-Crosses now r event h = elim (Option-cases r.active_remote) [
  | inl idle ↦
      let same : route now r event ≡ route_home now r event = ap (route_by now r event) idle in
      route_home-opens now r event idle same (ap (λ p. is_handoff p.1) (sym same) ∙ h)
  | inr (target, q) ↦
      let same : route now r event ≡ route_driven now r target event =
        ap (route_by now r event) q in
      let closed = route_driven-closed now r target event in
      absurd (ground (arith, ap (λ p. is_handoff p.1) same))
]
