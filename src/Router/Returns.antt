-- ===== src/Router/Returns.antt =====
-- How `EdgeRouter::route` brings a drive home.
pub mod Presses
pub mod Facing
pub mod Pressure
pub mod Refractory
pub mod Enough
pub mod Ending
pub mod Lingering
pub mod Arming
use thekvm.Prelude.{
  ℕ, ◌+◌, ◌-◌, ◌≡◌, refl, sym, ap, ◌∙◌, true, false, if◌then◌else◌, inl, inr, Option, some, arith,
  Option-cases,
}
use mathlib.Core.Path.{subst}
use thekvm.Prelude.Int.{ℤ, pos, ◌+ℤ◌}
use thekvm.Geometry.{Edge, edge_for_overflow, overflow_px}
use thekvm.Event.{InputEvent, mouse_move}
use thekvm.Layout.{Screen, screen}
use thekvm.Router.{EdgeRouter, RoutedEvent, local, ClampReason, forward, in_handoff_grace}
use thekvm.Router.Drive.{
  faces_home, unarmed_entry, pin, reset_return_run, drive_motion, drive_edge, press_return,
  press_escape,
}
use thekvm.Router.Cross.{
  clamp_to_edge, local_motion, local_step, press_edge, press_gates, push_edge_step, open_crossing,
  stop,
}
use thekvm.Router.Route.{route, route_by, route_driven, route_home}
use thekvm.Router.Returns.Presses.{
  is_return, Forwards, then_taken, if_split, Returns, press_return-Returns, press_escape-Returns,
}

-- An event that brings a drive home: a motion of the driven cursor past an edge.
pub record ComesHome (now : ℕ) (r : EdgeRouter) (event : InputEvent) : Type 0 where
  pub dx : ℤ
  pub dy : ℤ
  pub is_motion : event ≡ mouse_move dx dy
  pub target : ℕ
  pub driving : r.active_remote ≡ some target
  pub s : Screen
  pub on_screen : screen r.layout r.current_screen ≡ some s
  pub edge : Edge
  pub past_edge :
      edge_for_overflow (pos r.cursor_x +ℤ dx) (pos r.cursor_y +ℤ dy) s.width s.height ≡ some edge
  pub returns :
      Returns now r target
        (route now r event)
        edge
        (overflow_px edge (pos r.cursor_x +ℤ dx) (pos r.cursor_y +ℤ dy) s.width s.height)

drive_edge-Returns :
    (now : ℕ) (r : EdgeRouter) (target : ℕ) (event : InputEvent) (edge : Edge) (nx ny : ℤ)
    (s : Screen)
    → is_return (drive_edge now r target event edge nx ny s).1 ≡ true
    → Returns now r target
        (drive_edge now r target event edge nx ny s)
        edge
        (overflow_px edge nx ny s.width s.height)
unfolding drive_edge
drive_edge-Returns now r target event edge nx ny s h =
    let escape = press_escape now r target event edge nx ny s in
    let back = press_return now r target event edge nx ny s in
    let inner = if unarmed_entry r edge then escape else back in
    let overflow = overflow_px edge nx ny s.width s.height in
    let (home, e) =
      then_taken (faces_home r edge) inner (pin (reset_return_run r) nx ny s, forward target event)
        refl h in
    let h1 : is_return inner.1 ≡ true = ap (λ p. is_return p.1) (sym e) ∙ h in
    let result : Returns now r target inner edge overflow =
      elim (if_split (unarmed_entry r edge) escape back) [
        | inl (entry, f) ↦
            subst (λ p. Returns now r target p edge overflow) (sym f)
              (press_escape-Returns now r target event edge nx ny s home entry
                (ap (λ p. is_return p.1) (sym f) ∙ h1))
        | inr (other, f) ↦
            subst (λ p. Returns now r target p edge overflow) (sym f)
              (press_return-Returns now r target event edge nx ny s home other
                (ap (λ p. is_return p.1) (sym f) ∙ h1))
      ] in
    subst (λ p. Returns now r target p edge overflow) (sym e) result

route_driven-ComesHome :
    (now : ℕ) (r : EdgeRouter) (target : ℕ) (event : InputEvent)
    → r.active_remote ≡ some target
    → route now r event ≡ route_driven now r target event
    → is_return (route_driven now r target event).1 ≡ true
    → ComesHome now r event
unfolding route_driven drive_motion
route_driven-ComesHome now r target (mouse_move dx dy) driving same h =
    elim (Option-cases (screen r.layout r.current_screen)) [
      | inl q ↦ absurd (ground arith)
      | inr (s, e) ↦
          let nx = pos r.cursor_x +ℤ dx in
          let ny = pos r.cursor_y +ℤ dy in
          elim (Option-cases (edge_for_overflow nx ny s.width s.height)) [
            | inl q ↦ absurd (ground arith)
            | inr (edge, past) ↦
                let moved : route_driven now r target (mouse_move dx dy)
                    ≡ drive_edge now r target (mouse_move dx dy) edge nx ny s =
                  rw (e, past, route_driven, drive_motion) in
                record {
                  dx = dx;
                  dy = dy;
                  is_motion = refl;
                  target = target;
                  driving = driving;
                  s = s;
                  on_screen = e;
                  edge = edge;
                  past_edge = past;
                  returns =
                      subst
                        (λ p. Returns now r target p edge (overflow_px edge nx ny s.width s.height))
                        (sym (same ∙ moved))
                        (drive_edge-Returns now r target (mouse_move dx dy) edge nx ny s
                          (ap (λ p. is_return p.1) (sym moved) ∙ h));
                }
          ]
    ]
route_driven-ComesHome now r target _ driving same h = cc

clamped_local :
    (r : EdgeRouter) (nx ny : ℤ) (s : Screen) (reason : ClampReason)
    → is_return (clamp_to_edge r nx ny s.width s.height reason).1 ≡ false
unfolding clamp_to_edge
clamped_local r nx ny s reason = refl

home_closed :
    (now : ℕ) (r : EdgeRouter) (dx dy : ℤ) (s : Screen)
    → is_return (local_motion now r dx dy s).1 ≡ false
unfolding local_motion local_step press_edge press_gates push_edge_step open_crossing stop
    clamp_to_edge
home_closed now r dx dy s = ground arith

route_home-closed :
    (now : ℕ) (r : EdgeRouter) (event : InputEvent) → is_return (route_home now r event).1 ≡ false
unfolding route_home
route_home-closed now r (mouse_move dx dy) =
    elim (Option-cases (screen r.layout r.current_screen)) [
      | inl q ↦ rw (q, route_home) refl
      | inr (s, e) ↦ rw (e, route_home) (home_closed now r dx dy s)
    ]
route_home-closed now r _ = refl

-- What `route` met when it answers with a return home.
pub return-ComesHome :
    (now : ℕ) (r : EdgeRouter) (event : InputEvent)
    → is_return (route now r event).1 ≡ true
    → ComesHome now r event
unfolding route route_by
return-ComesHome now r event h = elim (Option-cases r.active_remote) [
  | inl idle ↦
      let same : route now r event ≡ route_home now r event = ap (route_by now r event) idle in
      let closed = route_home-closed now r event in
      absurd (ground (arith, ap (λ p. is_return p.1) same))
  | inr (target, q) ↦
      let same : route now r event ≡ route_driven now r target event =
        ap (route_by now r event) q in
      route_driven-ComesHome now r target event q same (ap (λ p. is_return p.1) (sym same) ∙ h)
]

driven-Forwards :
    (now : ℕ) (r : EdgeRouter) (target : ℕ) (event : InputEvent)
    → Forwards target event (route_driven now r target event)
unfolding route_driven drive_motion drive_edge press_return press_escape
driven-Forwards now r target (mouse_move dx dy) = ground arith
driven-Forwards now r target (InputEvent.key k) = inr refl
driven-Forwards now r target (InputEvent.mouse_button b p) = inr refl
driven-Forwards now r target (InputEvent.wheel x y) = inr refl
driven-Forwards now r target (InputEvent.smooth_wheel x y) = inr refl
driven-Forwards now r target (InputEvent.pinch d) = inr refl
driven-Forwards now r target InputEvent.pinch_end = inr refl

-- While a remote screen is driven and the grace that follows a crossing lasts, every event is
-- forwarded to that screen as it is.
pub grace-forwards :
    (now : ℕ) (r : EdgeRouter) (target : ℕ) (event : InputEvent)
    → r.active_remote ≡ some target
    → in_handoff_grace now r ≡ true
    → (route now r event).1 ≡ forward target event
unfolding route route_by
grace-forwards now r target event driving grace =
    let same : route now r event ≡ route_driven now r target event =
      ap (route_by now r event) driving in
    elim (driven-Forwards now r target event) [
      | inl back ↦
          let c = return-ComesHome now r event (ap (λ p. is_return p.1) same ∙ back) in
          let free : in_handoff_grace now r ≡ false = c.returns.no_grace in absurd (ground arith)
      | inr q ↦ ap (λ (p : EdgeRouter × RoutedEvent). p.1) same ∙ q
    ]
