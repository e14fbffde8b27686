-- ===== src/Router/Invariant/Crossings.antt =====
-- The invariant under motion while control is local, and under `EdgeRouter::route`.
use thekvm.Prelude.{
  ℕ, ◌<◌, ◌≡◌, ◌≢◌, refl, sym, ap, ◌∙◌, true, false, ◌&&◌, ◌==◌, ltb, if◌then◌else◌, ◌⊎◌, inl, inr,
  Option, none, some, arith, is_some, Bool-cases, Option-cases,
}
use thekvm.Prelude.Int.{ℤ, pos, ◌+ℤ◌}
use thekvm.Prelude.Result.{ok}
use thekvm.Geometry.{Edge, is_edge, is_mirror, is_horizontal, edge_for_overflow, overflow_px}
use thekvm.Geometry.Bounds.{clamp_span-lt, edge_for_overflow-none}
use thekvm.Event.{InputEvent, mouse_move}
use thekvm.Layout.{Screen, screen, validate}
use thekvm.Layout.Landing.{landing-lt}
use thekvm.Layout.Lookup.{crossing_target-ne, crossing_target-found}
use thekvm.Layout.Validity.{validate_iff, screen-IsSound}
use thekvm.Router.{
  EdgeRouter, ClampReason, push_budget, no_target, in_startup_gate, post_return, was_locked,
  crossing_target, post_return_holds, edge_push_px,
}
use thekvm.Router.Cross.{
  clamp_to_edge, drop_push, move_inside, push_credit, push_total, commit, open_crossing,
  push_edge_step, stop, press_gates, press_edge, local_motion,
}
use thekvm.Router.Route.{route, route_by, route_driven, route_home}
use thekvm.Router.Invariant.{OnScreen, Inv, current_home, move_both, move_screen}
use thekvm.Router.Invariant.Drives.{drive_motion-Inv, Inv-if}

-- The style lands every crossing of the current screen inside its target: it is the mirror style,
-- or nothing lies above or below.
abbrev pub LandsInside : EdgeRouter → Type 0
LandsInside r =
    (edge : Edge)
    → ((is_mirror r.double_style ≡ true) ⊎ (is_horizontal edge ≡ true))
      ⊎ (crossing_target r r.current_screen edge ≡ none)

target_found :
    (r : EdgeRouter) (edge : Edge) (target : ℕ)
    → crossing_target r r.current_screen edge ≡ some target
    → (t : Screen) × (screen r.layout target ≡ some t)
unfolding crossing_target
target_found r edge target = crossing_target-found r.layout r.current_screen edge r.edge_mode target

target_ne :
    (r : EdgeRouter) (edge : Edge) (target : ℕ)
    → validate r.layout ≡ ok tt
    → crossing_target r r.current_screen edge ≡ some target
    → target ≢ r.current_screen
unfolding crossing_target
target_ne r edge target v there =
    crossing_target-ne r.layout r.current_screen edge r.edge_mode target
      ((validate_iff r.layout).0 v) there

module _ (r : EdgeRouter) (idle : is_some r.active_remote ≡ false) (s : Screen)
    (e : screen r.layout r.current_screen ≡ some s) where
  clamp_to_edge-Inv :
      (x y : ℤ) (reason : ClampReason) → Inv r → Inv (clamp_to_edge r x y s.width s.height reason).0
  unfolding clamp_to_edge
  clamp_to_edge-Inv x y reason v =
      let (t, f, hx, hy) = v.cursor in
      move_both v idle _ _ r.push_accum
        (s, e, clamp_span-lt x s.width (ground arith), clamp_span-lt y s.height (ground arith))
        v.below

module _ (r : EdgeRouter) (idle : is_some r.active_remote ≡ false) (s : Screen)
    (e : screen r.layout r.current_screen ≡ some s) where
  move_inside-Inv : (x y : ℕ) → x < s.width → y < s.height → Inv r → Inv (move_inside r x y s)
  unfolding move_inside
  move_inside-Inv x y hx hy v =
      let below = v.below in move_both v idle x y _ (s, e, hx, hy) (ground arith)

  commit-Inv :
      (now target : ℕ) (edge : Edge) (x y : ℕ)
      → OnScreen r.layout target x y
      → target ≢ r.current_screen
      → Inv r
      → Inv (commit now r target edge x y)
  unfolding commit
  commit-Inv now target edge x y on ne v =
      let home = current_home r.active_remote r.current_screen r.local_screen v.placed idle in
      let kept : (r.current_screen == r.local_screen) ≡ true = ground arith in
      rw kept (record {
        valid = v.valid;
        home_cursor =
            move_screen r.layout r.current_screen r.local_screen r.cursor_x r.cursor_y home
              v.cursor;
        cursor = on;
        placed = (refl, λ q. ne (q ∙ sym home));
        below = omega arith;
      })

  module _ (now target : ℕ) (edge : Edge) (x y : ℤ) (t : Screen)
      (found : screen r.layout target ≡ some t) (ne : target ≢ r.current_screen)
      (lands : (is_mirror r.double_style ≡ true) ⊎ (is_horizontal edge ≡ true)) where
    open_crossing-Inv :
        (overflow : ℕ) → Inv r → Inv (open_crossing now r target edge overflow s t).0
    unfolding open_crossing
    open_crossing-Inv overflow v =
        let good = screen-IsSound r.layout target t v.valid found in
        let (hx, hy) =
          landing-lt r.double_style edge r.cursor_x r.cursor_y s t lands good.wide good.high in
        commit-Inv now target edge _ _ (t, found, hx, hy) ne v

    push_edge_step-Inv :
        Inv r → Inv (push_edge_step now r target edge x y s (screen r.layout target)).0
    unfolding push_edge_step
    push_edge_step-Inv v =
        let overflow = overflow_px edge x y s.width s.height in
        let total = push_total r edge (push_credit r edge overflow s) in
        elim (Bool-cases (ltb total edge_push_px)) [
          | inl under ↦
              rw (under, push_edge_step)
                (clamp_to_edge-Inv (record r { push_edge = some edge; push_accum = total }) idle s e
                  x y push_budget
                  (record {
                    valid = v.valid;
                    home_cursor = v.home_cursor;
                    cursor = v.cursor;
                    placed = v.placed;
                    below = ground arith;
                  }))
          | inr over ↦ rw (found, over, push_edge_step) (open_crossing-Inv overflow v)
        ]

module _ (r : EdgeRouter) (idle : is_some r.active_remote ≡ false) (s : Screen)
    (e : screen r.layout r.current_screen ≡ some s) where
  stop-Inv : (x y : ℤ) (reason : ClampReason) → Inv r → Inv (stop r x y s reason).0
  unfolding stop
  stop-Inv x y reason v = clamp_to_edge-Inv (drop_push r) idle s e x y reason (record {
    valid = v.valid;
    home_cursor = v.home_cursor;
    cursor = v.cursor;
    placed = v.placed;
    below = omega arith;
  })

  module _ (now : ℕ) (lands : LandsInside r) where
    press_gates-Inv :
        (edge : Edge) (x y : ℤ) (o : Option ℕ)
        → crossing_target r r.current_screen edge ≡ o
        → Inv r
        → Inv (press_gates now r edge x y s o).0
    unfolding press_gates
    press_gates-Inv edge x y none there v = stop-Inv x y no_target v
    press_gates-Inv edge x y (some target) there v =
        let (t, found) = target_found r edge target there in
        let ne = target_ne r edge target v.valid there in
        let pushed =
          push_edge_step-Inv r idle s e now target edge x y t found ne
            (elim (lands edge) [ inl h ↦ h | inr h ↦ absurd (ground arith) ]) v in
        Inv-if r.startup_gate (stop r x y s in_startup_gate)
          (if is_edge r.post_return_edge edge && post_return_holds now r
            then stop r x y s post_return
            else push_edge_step now r target edge x y s (screen r.layout target))
          (stop-Inv x y in_startup_gate v)
          (Inv-if (is_edge r.post_return_edge edge && post_return_holds now r)
            (stop r x y s post_return)
            (push_edge_step now r target edge x y s (screen r.layout target))
            (stop-Inv x y post_return v) pushed)

    press_edge-Inv : (edge : Edge) (x y : ℤ) → Inv r → Inv (press_edge now r edge x y s).0
    unfolding press_edge
    press_edge-Inv edge x y v =
        Inv-if r.locked (stop r x y s was_locked)
          (press_gates now r edge x y s (crossing_target r r.current_screen edge))
          (stop-Inv x y was_locked v) (press_gates-Inv edge x y _ refl v)

    local_motion-Inv : (dx dy : ℤ) → Inv r → Inv (local_motion now r dx dy s).0
    unfolding local_motion
    local_motion-Inv dx dy v =
        let next_x = pos r.cursor_x +ℤ dx in
        let next_y = pos r.cursor_y +ℤ dy in
        elim (Option-cases (edge_for_overflow next_x next_y s.width s.height)) [
          | inl q ↦
              let (hx, hy, nx, ny) = edge_for_overflow-none next_x next_y s.width s.height q in
              rw (q, local_motion) (move_inside-Inv r idle s e _ _ hx hy v)
          | inr (edge, q) ↦ rw (q, local_motion) (press_edge-Inv edge next_x next_y v)
        ]

route_home-Inv :
    (now : ℕ) (r : EdgeRouter) (event : InputEvent)
    → is_some r.active_remote ≡ false
    → LandsInside r
    → Inv r
    → Inv (route_home now r event).0
unfolding route_home
route_home-Inv now r (mouse_move dx dy) idle lands v =
    elim (Option-cases (screen r.layout r.current_screen)) [
      | inl q ↦ rw (q, route_home) v
      | inr (s, e) ↦ rw (e, route_home) (local_motion-Inv r idle s e now lands dx dy v)
    ]
route_home-Inv now r _ idle lands v = v

route_driven-Inv :
    (now : ℕ) (r : EdgeRouter) (target : ℕ) (event : InputEvent)
    → Inv r
    → Inv (route_driven now r target event).0
unfolding route_driven
route_driven-Inv now r target (mouse_move dx dy) v = drive_motion-Inv now r target dx dy v
route_driven-Inv now r target _ v = v

route_by-Inv :
    (now : ℕ) (r : EdgeRouter) (event : InputEvent) (o : Option ℕ)
    → r.active_remote ≡ o
    → LandsInside r
    → Inv r
    → Inv (route_by now r event o).0
unfolding route_by
route_by-Inv now r event none q lands v = route_home-Inv now r event (ap is_some q) lands v
route_by-Inv now r event (some target) q lands v = route_driven-Inv now r target event v

-- Every event keeps the invariant, where crossings land inside their targets.
pub route-Inv :
    (now : ℕ) (r : EdgeRouter) (event : InputEvent)
    → LandsInside r
    → Inv r
    → Inv (route now r event).0
unfolding route
route-Inv now r event lands v = route_by-Inv now r event r.active_remote refl lands v
