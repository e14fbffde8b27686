-- ===== src/Router/Invariant/Drives.antt =====
-- The invariant under motion while a remote screen is driven.
use thekvm.Prelude.{
  ℕ, ◌<◌, ◌≡◌, Bool, true, false, if◌then◌else◌, inl, inr, some, arith, Bool-cases, Option-cases,
}
use thekvm.Prelude.Int.{ℤ, pos, ◌+ℤ◌}
use thekvm.Geometry.{Edge, is_edge, edge_for_overflow, overflow_px}
use thekvm.Geometry.Bounds.{clamp_span-lt, edge_for_overflow-none}
use thekvm.Event.{InputEvent}
use thekvm.Layout.{Screen, screen}
use thekvm.Router.{EdgeRouter, RoutedEvent}
use thekvm.Router.Drive.{
  off_edge, or_else, drive_inside, pin, extend_run, escape_run, go_home, press_return, press_escape,
  drive_edge, drive_motion, reset_return_run,
}
use thekvm.Router.Invariant.{Inv, move_cursor}
use thekvm.Router.Invariant.Moves.{restore_local_at_edge-Inv}

module _ (r : EdgeRouter) (s : Screen) (e : screen r.layout r.current_screen ≡ some s) where
  drive_inside-Inv : (x y : ℕ) → x < s.width → y < s.height → Inv r → Inv (drive_inside r x y s)
  unfolding drive_inside
  drive_inside-Inv x y hx hy v =
      elim (Bool-cases (off_edge (or_else r.return_edge r.entry_edge) x y s)) [
        | inl off ↦ rw off (move_cursor v x y (s, e, hx, hy))
        | inr near ↦ rw near (move_cursor v x y (s, e, hx, hy))
      ]

  pin-Inv : (x y : ℤ) → Inv r → Inv (pin r x y s)
  unfolding pin
  pin-Inv x y v =
      let (t, f, hx, hy) = v.cursor in
      move_cursor v _ _
        (s, e, clamp_span-lt x s.width (ground arith), clamp_span-lt y s.height (ground arith))

go_home-Inv :
    (now : ℕ) (r : EdgeRouter) (target : ℕ) (edge : Edge) → Inv r → Inv (go_home now r target edge)
unfolding go_home
go_home-Inv now r target edge v = restore_local_at_edge-Inv now r target edge v

extend_run-Inv :
    (now : ℕ) (r : EdgeRouter) (edge : Edge) (overflow : ℕ)
    → Inv r
    → Inv (extend_run now r edge overflow)
unfolding extend_run
extend_run-Inv now r edge overflow v = elim (Bool-cases (is_edge r.return_edge edge)) [
  | inl same ↦ rw same v
  | inr other ↦ rw other v
]

extend_run-screen :
    (now : ℕ) (r : EdgeRouter) (edge : Edge) (overflow : ℕ) (s : Screen)
    → screen r.layout r.current_screen ≡ some s
    → screen (extend_run now r edge overflow).layout (extend_run now r edge overflow).current_screen
      ≡ some s
unfolding extend_run
extend_run-screen now r edge overflow s e = elim (Bool-cases (is_edge r.return_edge edge)) [
  | inl same ↦ rw same e
  | inr other ↦ rw other e
]

-- A branch on any test keeps what both branches keep.
pub Inv-if :
    (b : Bool) (p q : EdgeRouter × RoutedEvent) → Inv p.0 → Inv q.0 → Inv (if b then p else q).0
Inv-if true p q h k = h
Inv-if false p q h k = k

module _ (now : ℕ) (r : EdgeRouter) (target : ℕ) (event : InputEvent) (edge : Edge) (x y : ℤ)
    (s : Screen) (e : screen r.layout r.current_screen ≡ some s) where
  press_return-Inv : Inv r → Inv (press_return now r target event edge x y s).0
  unfolding press_return
  press_return-Inv v =
      let run = extend_run now r edge (overflow_px edge x y s.width s.height) in
      let kept = extend_run-Inv now r edge (overflow_px edge x y s.width s.height) v in
      let here = extend_run-screen now r edge (overflow_px edge x y s.width s.height) s e in
      Inv-if _ _ _ (go_home-Inv now run target edge kept) (pin-Inv run s here x y kept)

  press_escape-Inv : Inv r → Inv (press_escape now r target event edge x y s).0
  unfolding press_escape
  press_escape-Inv v =
      let run = escape_run r (overflow_px edge x y s.width s.height) in
      Inv-if _ _ _ (go_home-Inv now run target edge (unfold escape_run in v))
        (pin-Inv run s (unfold escape_run in e) x y (unfold escape_run in v))

  drive_edge-Inv : Inv r → Inv (drive_edge now r target event edge x y s).0
  unfolding drive_edge
  drive_edge-Inv v =
      Inv-if _ _ _ (Inv-if _ _ _ (press_escape-Inv v) (press_return-Inv v))
        (pin-Inv (reset_return_run r) s e x y v)

-- One motion of the driven cursor.
pub drive_motion-Inv :
    (now : ℕ) (r : EdgeRouter) (target : ℕ) (dx dy : ℤ)
    → Inv r
    → Inv (drive_motion now r target dx dy).0
unfolding drive_motion
drive_motion-Inv now r target dx dy v = elim (Option-cases (screen r.layout r.current_screen)) [
  | inl q ↦ rw (q, drive_motion) v
  | inr (s, e) ↦
      let next_x = pos r.cursor_x +ℤ dx in
      let next_y = pos r.cursor_y +ℤ dy in
      elim (Option-cases (edge_for_overflow next_x next_y s.width s.height)) [
        | inl q ↦
            let (hx, hy, nx, ny) = edge_for_overflow-none next_x next_y s.width s.height q in
            rw (e, q, drive_motion) (drive_inside-Inv r s e _ _ hx hy v)
        | inr (edge, q) ↦
            rw (e, q, drive_motion) (drive_edge-Inv now r target _ edge next_x next_y s e v)
      ]
]
