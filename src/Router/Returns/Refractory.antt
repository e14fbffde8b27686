-- ===== src/Router/Returns/Refractory.antt =====
-- The state after a return home, and the edge that it shuts.
use thekvm.Prelude.{
  ℕ, ◌-◌, ◌<◌, ◌≡◌, refl, sym, ap, ◌∙◌, Bool, true, false, ◌&&◌, ltb, inl, inr, Option, none, some,
  arith, Bool-cases,
}
use mathlib.Core.Path.{subst}
use thekvm.Prelude.Int.{ℤ, pos, ◌+ℤ◌}
use thekvm.Prelude.Result.{Result-cases}
use thekvm.Geometry.{Edge, is_edge, edge_for_overflow}
use thekvm.Event.{InputEvent, mouse_move}
use thekvm.Layout.{Screen, screen}
use thekvm.Router.{
  EdgeRouter, RoutedEvent, return_home, elapsed, post_return_holds, post_return_hold,
}
use thekvm.Router.Home.{is_id, landing_edge, restore_local_at_edge, land_at_edge, come_home}
use thekvm.Router.Drive.{extend_run, escape_run, go_home}
use thekvm.Router.Route.{route}
use thekvm.Router.Invariant.{Inv, after}
use thekvm.Router.Gates.{is_handoff, handoff-Crosses}
use thekvm.Router.Returns.{ComesHome, return-ComesHome}
use thekvm.Router.Returns.Presses.{is_return}

-- Control came home through `edge` of the peer at `now`.
pub record IsHome (now : ℕ) (landed : Edge) (r : EdgeRouter) : Type 0 where
  pub idle : r.active_remote ≡ none
  pub current : r.current_screen ≡ r.local_screen
  pub shut_edge : r.post_return_edge ≡ some landed
  pub shut_at : r.post_return_at ≡ some now

restored-IsHome :
    (now : ℕ) (base : EdgeRouter) (target : ℕ) (edge : Edge) (s : Screen)
    → is_id base.active_remote target ≡ true
    → screen base.layout base.local_screen ≡ some s
    → IsHome now (landing_edge base edge) (after base (restore_local_at_edge now base target edge))
unfolding restore_local_at_edge land_at_edge come_home
restored-IsHome now base target edge s active known =
    rw (active, known, restore_local_at_edge)
      (record { idle = refl; current = refl; shut_edge = refl; shut_at = refl })

go_home-after :
    (now : ℕ) (base : EdgeRouter) (target : ℕ) (edge : Edge)
    → after base (restore_local_at_edge now base target edge) ≡ go_home now base target edge
unfolding go_home
go_home-after now base target edge =
    elim (Result-cases (restore_local_at_edge now base target edge)) [
      | inl (q, e) ↦ rw (e, go_home) refl
      | inr (q, e) ↦ rw (e, go_home) refl
    ]

-- What a run leaves alone.
abbrev Keeps : Edge → EdgeRouter → EdgeRouter → Type 0
Keeps edge r base =
    (landing_edge base edge ≡ landing_edge r edge)
    × (base.active_remote ≡ r.active_remote)
    × (screen base.layout base.local_screen ≡ screen r.layout r.local_screen)

escape-Keeps : (r : EdgeRouter) (overflow : ℕ) (edge : Edge) → Keeps edge r (escape_run r overflow)
unfolding escape_run landing_edge
escape-Keeps r overflow edge = (refl, refl, refl)

extend-Keeps :
    (now : ℕ) (r : EdgeRouter) (overflow : ℕ) (edge : Edge)
    → Keeps edge r (extend_run now r edge overflow)
unfolding extend_run landing_edge
extend-Keeps now r overflow edge = elim (Bool-cases (is_edge r.return_edge edge)) [
  | inl q ↦ rw (q, extend_run) (refl, refl, refl)
  | inr q ↦ rw (q, extend_run) (refl, refl, refl)
]

is_id-some : (o : Option ℕ) (target : ℕ) → o ≡ some target → is_id o target ≡ true
is_id-some none target e = cc
is_id-some (some t) target e = ground arith

pub landed-IsHome :
    (now : ℕ) (r : EdgeRouter) (event : InputEvent)
    → Inv r
    → (c : ComesHome now r event) → IsHome now (landing_edge r c.edge) (route now r event).0
landed-IsHome now r event v c =
    let (s, known, hx, hy) = v.home_cursor in
    let base = c.returns.base in
    let keeps : Keeps c.edge r base = elim c.returns.same_base [
      | inl e ↦ subst (Keeps c.edge r) (sym e) (escape-Keeps r _ c.edge)
      | inr e ↦ subst (Keeps c.edge r) (sym e) (extend-Keeps now r _ c.edge)
    ] in
    let (same, active, there) = keeps in
    let home : IsHome now (landing_edge base c.edge) (go_home now base c.target c.edge) =
      subst (IsHome now (landing_edge base c.edge)) (go_home-after now base c.target c.edge) (
        restored-IsHome now base c.target c.edge s
          (is_id-some base.active_remote c.target (active ∙ c.driving)) (there ∙ known)) in
    let result : go_home now base c.target c.edge ≡ (route now r event).0 =
      ap (λ (o : EdgeRouter × RoutedEvent). o.0) (sym c.returns.came_home) in
    subst (λ q. IsHome now (landing_edge r c.edge) q) result
      (subst (λ e. IsHome now e (go_home now base c.target c.edge)) same home)

return_home_inj :
    (o o' : EdgeRouter × RoutedEvent) (from from' : ℕ) (edge edge' : Edge)
    (entry entry' : Option Edge) (armed armed' : Bool) (q : EdgeRouter)
    → o ≡ (q, return_home from edge entry armed)
    → o.1 ≡ return_home from' edge' entry' armed'
    → edge ≡ edge'
return_home_inj o o' from from' edge edge' entry entry' armed armed' q e f =
    ground (arith, ap (λ (p : EdgeRouter × RoutedEvent). p.1) e)

-- When an event brings a drive home through `edge` of the peer, control is local again, on the local
-- screen, and the local edge that the return lands on is the one that is shut from then on.
pub return-IsHome :
    (now : ℕ) (r : EdgeRouter) (event : InputEvent) (from : ℕ) (edge : Edge) (entry : Option Edge)
    (armed : Bool)
    → Inv r
    → (route now r event).1 ≡ return_home from edge entry armed
    → IsHome now (landing_edge r edge) (route now r event).0
return-IsHome now r event from edge entry armed v out =
    let c = return-ComesHome now r event (ap is_return out) in
    let same : c.edge ≡ edge =
      return_home_inj (route now r event) (route now r event) r.current_screen from c.edge edge
        r.entry_edge entry r.return_armed armed (go_home now c.returns.base c.target c.edge)
        c.returns.came_home out in
    subst (λ e. IsHome now (landing_edge r e) (route now r event).0) same
      (landed-IsHome now r event v c)

holds_after :
    (now later : ℕ) (o : Option ℕ) (e : Option Edge) (edge : Edge)
    → o ≡ some now
    → e ≡ some edge
    → later - now < post_return_hold
    → (is_edge e edge
        && (elim o [ none ↦ false | some t ↦ ltb (elapsed later t) post_return_hold ]))
      ≡ true
holds_after now later none e edge at there soon = cc
holds_after now later (some t) none edge at there soon = cc
holds_after now later (some t) (some d) edge at there soon = ground arith

shut :
    (now later : ℕ) (q : EdgeRouter) (edge : Edge)
    → IsHome now edge q
    → later - now < post_return_hold
    → (is_edge q.post_return_edge edge && post_return_holds later q) ≡ true
unfolding post_return_holds
shut now later q edge home soon =
    holds_after now later q.post_return_at q.post_return_edge edge home.shut_at home.shut_edge soon

same_edge :
    (q : EdgeRouter) (dx dy : ℤ) (s : Screen) (dx' dy' : ℤ) (s' : Screen) (edge edge' : Edge)
    → mouse_move dx dy ≡ mouse_move dx' dy'
    → screen q.layout q.current_screen ≡ some s
    → screen q.layout q.current_screen ≡ some s'
    → edge_for_overflow (pos q.cursor_x +ℤ dx) (pos q.cursor_y +ℤ dy) s.width s.height ≡ some edge
    → edge_for_overflow (pos q.cursor_x +ℤ dx') (pos q.cursor_y +ℤ dy') s'.width s'.height
      ≡ some edge'
    → edge' ≡ edge
same_edge q dx dy s dx' dy' s' edge edge' m e e' p p' = cc

-- While the refractory of a return lasts, no motion past its edge opens a crossing.
pub home-shut :
    (now later : ℕ) (q : EdgeRouter) (landed : Edge) (s : Screen) (dx dy : ℤ)
    → IsHome now landed q
    → screen q.layout q.current_screen ≡ some s
    → later - now < post_return_hold
    → edge_for_overflow (pos q.cursor_x +ℤ dx) (pos q.cursor_y +ℤ dy) s.width s.height ≡ some landed
    → is_handoff (route later q (mouse_move dx dy)).1 ≡ false
home-shut now later q landed s dx dy home known soon past =
    elim (Bool-cases (is_handoff (route later q (mouse_move dx dy)).1)) [
      | inr closed ↦ closed
      | inl opened ↦
          let d = handoff-Crosses later q (mouse_move dx dy) opened in
          let same : d.edge ≡ landed =
            same_edge q dx dy s d.dx d.dy d.s landed d.edge d.is_motion known d.on_screen past
              d.past_edge in
          let held : (is_edge q.post_return_edge landed && post_return_holds later q) ≡ true =
            shut now later q landed home soon in
          let free : (is_edge q.post_return_edge landed && post_return_holds later q) ≡ false =
            subst (λ e. (is_edge q.post_return_edge e && post_return_holds later q) ≡ false) same
              d.opens.no_refractory in
          absurd (ground arith)
    ]
