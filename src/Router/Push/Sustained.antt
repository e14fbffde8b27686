-- ===== src/Router/Push/Sustained.antt =====
-- Sustained pressure against a linked edge.
use thekvm.Prelude.{
  ℕ, ◌+◌, ◌<◌, ◌≤◌, ◌≡◌, refl, ap, ◌∙◌, Bool, true, false, ltb, if◌then◌else◌, none, some, arith,
  List, [], ◌∷◌, length,
}
use thekvm.Prelude.Int.{ℤ, pos, negsuc, ◌+ℤ◌}
use thekvm.Geometry.{
  Edge, left, right, top, bottom, is_edge, edge_for_overflow, overflow_px, distance_from_edge,
  clamp_span,
}
use thekvm.Event.{mouse_move}
use thekvm.Layout.{Screen, screen}
use thekvm.Router.{EdgeRouter, RoutedEvent, crossing_target, push_budget, edge_push_px}
use thekvm.Router.Cross.{push_edge_step, push_credit, push_total, clamp_to_edge, open_crossing}
use thekvm.Router.Route.{route}
use thekvm.Router.Gates.{is_handoff}
use thekvm.Router.Push.Run.{if_false, route-push_edge_step}

-- One pixel outwards.
abbrev pub outward_x : Edge → ℤ
outward_x left = negsuc 0
outward_x right = pos 1
outward_x _ = pos 0

abbrev pub outward_y : Edge → ℤ
outward_y top = negsuc 0
outward_y bottom = pos 1
outward_y _ = pos 0

-- The push that the router has saved up against an edge.
abbrev pub saved : EdgeRouter → Edge → ℕ
saved r edge = if is_edge r.push_edge edge then r.push_accum else 0

-- The local cursor stands on the border of a linked edge that no gate holds.
pub record Presses (r : EdgeRouter) (edge : Edge) (s t : Screen) (target : ℕ) : Type 0 where
  pub idle : r.active_remote ≡ none
  pub on_screen : screen r.layout r.current_screen ≡ some s
  pub inside : (r.cursor_x < s.width) × (r.cursor_y < s.height)
  pub border : distance_from_edge edge r.cursor_x r.cursor_y s.width s.height ≡ 0
  pub unlocked : r.locked ≡ false
  pub gate_lifted : r.startup_gate ≡ false
  pub no_refractory : is_edge r.post_return_edge edge ≡ false
  pub leads : crossing_target r r.current_screen edge ≡ some target
  pub known : screen r.layout target ≡ some t

-- One-pixel presses at the given instants.
unfoldable pub press : EdgeRouter → Edge → List ℕ → EdgeRouter
unfolding route
press r edge [] = r
press r edge (now ∷ nows) =
    press (route now r (mouse_move (outward_x edge) (outward_y edge))).0 edge nows

outward_edge :
    (edge : Edge) (x y w h : ℕ)
    → x < w
    → y < h
    → distance_from_edge edge x y w h ≡ 0
    → (edge_for_overflow (pos x +ℤ outward_x edge) (pos y +ℤ outward_y edge) w h ≡ some edge)
      × (overflow_px edge (pos x +ℤ outward_x edge) (pos y +ℤ outward_y edge) w h ≡ 1)
      × (clamp_span (pos x +ℤ outward_x edge) w ≡ x)
      × (clamp_span (pos y +ℤ outward_y edge) h ≡ y)
unfolding edge_for_overflow distance_from_edge overflow_px clamp_span ◌+ℤ◌
outward_edge left x y w h hx hy d = (ground arith, ground arith, ground arith, ground arith)
outward_edge right x y w h hx hy d = (ground arith, ground arith, ground arith, ground arith)
outward_edge top x y w h hx hy d = (ground arith, ground arith, ground arith, ground arith)
outward_edge bottom x y w h hx hy d = (ground arith, ground arith, ground arith, ground arith)

total_saved :
    (r : EdgeRouter) (edge : Edge) (overflow : ℕ) (s : Screen)
    → distance_from_edge edge r.cursor_x r.cursor_y s.width s.height ≡ 0
    → push_total r edge (push_credit r edge overflow s) ≡ saved r edge + overflow
unfolding push_total push_credit
total_saved r edge overflow s d = ground arith

if_true :
    (b : Bool) (held : ℕ → EdgeRouter × RoutedEvent) (q : EdgeRouter × RoutedEvent) (n : ℕ)
    → b ≡ true
    → (if b then held n else q).0 ≡ (held n).0
if_true true held q n e = refl
if_true false held q n e = cc

is_edge_refl : (edge : Edge) → is_edge (some edge) edge ≡ true
is_edge_refl left = refl
is_edge_refl right = refl
is_edge_refl top = refl
is_edge_refl bottom = refl

module _ (now : ℕ) (r : EdgeRouter) (edge : Edge) (s t : Screen) (target : ℕ)
    (p : Presses r edge s t target) where
  -- One press is one push step with an overflow of one pixel.
  press_step :
      route now r (mouse_move (outward_x edge) (outward_y edge))
      ≡ push_edge_step now r target edge
          (pos r.cursor_x +ℤ outward_x edge)
          (pos r.cursor_y +ℤ outward_y edge)
          s
          (some t)
  press_step =
      let (past, over, cx, cy) =
        outward_edge edge r.cursor_x r.cursor_y s.width s.height p.inside.0 p.inside.1 p.border in
      route-push_edge_step now r (outward_x edge) (outward_y edge) s edge target t p.idle
        p.on_screen past p.unlocked p.gate_lifted (ground (arith, p.no_refractory)) p.leads p.known

  total_press :
      push_total r edge (
        push_credit r edge
          (overflow_px edge
            (pos r.cursor_x +ℤ outward_x edge)
            (pos r.cursor_y +ℤ outward_y edge)
            s.width
            s.height)
          s)
      ≡ saved r edge + 1
  total_press =
      let (past, over, cx, cy) =
        outward_edge edge r.cursor_x r.cursor_y s.width s.height p.inside.0 p.inside.1 p.border in
      total_saved r edge _ s p.border ∙ ap (λ o. saved r edge + o) over

  press-opens :
      7 ≤ saved r edge
      → is_handoff (route now r (mouse_move (outward_x edge) (outward_y edge))).1 ≡ true
  unfolding push_edge_step open_crossing
  press-opens enough =
      let total = push_total r edge (
        push_credit r edge
          (overflow_px edge (pos r.cursor_x +ℤ outward_x edge) (pos r.cursor_y +ℤ outward_y edge)
            s.width s.height)
          s) in
      let closed : ltb total edge_push_px ≡ false = ground (arith, total_press) in
      ap (λ (o : EdgeRouter × RoutedEvent). is_handoff o.1) press_step
      ∙ ap (λ (o : EdgeRouter × RoutedEvent). is_handoff o.1) (if_false _ _ _ closed)

  -- The router after a press that stays local.
  abbrev pressed : EdgeRouter
  unfolding clamp_to_edge
  pressed =
      (clamp_to_edge (record r { push_edge = some edge; push_accum = saved r edge + 1 })
        (pos r.cursor_x +ℤ outward_x edge) (pos r.cursor_y +ℤ outward_y edge) s.width s.height
        push_budget).0

  press-pressed :
      saved r edge < 7 → (route now r (mouse_move (outward_x edge) (outward_y edge))).0 ≡ pressed
  unfolding push_edge_step clamp_to_edge
  press-pressed few =
      let held : ℕ → EdgeRouter × RoutedEvent = λ total.
        clamp_to_edge (record r { push_edge = some edge; push_accum = total })
          (pos r.cursor_x +ℤ outward_x edge) (pos r.cursor_y +ℤ outward_y edge) s.width s.height
          push_budget in
      let opened : EdgeRouter × RoutedEvent =
        open_crossing now r target edge
          (overflow_px edge (pos r.cursor_x +ℤ outward_x edge) (pos r.cursor_y +ℤ outward_y edge)
            s.width s.height)
          s t in
      ap (λ (o : EdgeRouter × RoutedEvent). o.0) press_step
      ∙ ap (λ (total : ℕ). (if ltb total edge_push_px then held total else opened).0) total_press
      ∙ if_true (ltb (saved r edge + 1) edge_push_px) held opened (saved r edge + 1) (ground arith)

  pressed-Presses : Presses pressed edge s t target
  unfolding clamp_to_edge crossing_target
  pressed-Presses =
      let (past, over, cx, cy) =
        outward_edge edge r.cursor_x r.cursor_y s.width s.height p.inside.0 p.inside.1 p.border in
      record {
        idle = p.idle;
        on_screen = p.on_screen;
        inside = (ground (arith, cx, p.inside), ground (arith, cy, p.inside));
        border = rw (cx, cy) p.border;
        unlocked = p.unlocked;
        gate_lifted = p.gate_lifted;
        no_refractory = p.no_refractory;
        leads = p.leads;
        known = p.known;
      }

  pressed-saved : saved pressed edge ≡ saved r edge + 1
  unfolding clamp_to_edge
  pressed-saved = ap (λ b. if b then saved r edge + 1 else 0) (is_edge_refl edge)

-- While control is local, pressing one pixel at a time against a linked edge that no gate holds
-- opens the crossing on the press that brings the saved push to eight pixels, whatever the times.
pub press-handoff :
    (r : EdgeRouter) (edge : Edge) (s t : Screen) (target : ℕ) (nows : List ℕ) (last : ℕ)
    → Presses r edge s t target
    → saved r edge + length nows ≡ 7
    → is_handoff (route last (press r edge nows) (mouse_move (outward_x edge) (outward_y edge))).1
      ≡ true
unfolding press
press-handoff r edge s t target [] last p enough =
    press-opens last r edge s t target p (omega arith)
press-handoff r edge s t target (now ∷ nows) last p enough =
    let same = press-pressed now r edge s t target p (omega arith) in
    ap
      (λ q.
        is_handoff
          (route last (press q edge nows) (mouse_move (outward_x edge) (outward_y edge))).1)
      same
    ∙ press-handoff (pressed now r edge s t target p) edge s t target nows last
        (pressed-Presses now r edge s t target p)
        (ap (λ k. k + length nows) (pressed-saved now r edge s t target p) ∙ omega arith)
