-- ===== src/Router/Invariant/Moves.antt =====
-- The invariant under seeding, returning, restoring and peer-placed drives.
use thekvm.Prelude.{
  ℕ, ◌-◌, ◌≡◌, ◌≢◌, refl, sym, min, Bool, ◌==◌, inl, inr, arith, is_some, Bool-cases, Option-cases,
}
use thekvm.Prelude.Result.{Result, ok, err}
use thekvm.Geometry.{Edge}
use thekvm.Layout.{screen}
use thekvm.Router.{EdgeRouter, RouterError, seed_position}
use thekvm.Router.Home.{
  is_id, come_home, return_to_local, restore_local_at_edge, restore_local, peer_placed, handoff_to,
}
use thekvm.Layout.Validity.{screen-IsSound}
use thekvm.Router.Invariant.{
  OnScreen, Inv, after, at_home, clamped_home, current_home, min-lt, move_screen,
}

come_home-Inv :
    (r : EdgeRouter) (x y : ℕ)
    → Inv r
    → OnScreen r.layout r.local_screen x y
    → Inv (come_home r x y)
unfolding come_home
come_home-Inv r x y v on = at_home v x y on

-- A seed is clamped to the local screen.
pub seed_position-Inv :
    (r : EdgeRouter) (x y : ℕ) (gate : Bool) → Inv r → Inv (after r (seed_position r x y gate))
unfolding seed_position
seed_position-Inv r x y gate v = elim (Bool-cases (is_some r.active_remote)) [
  | inl q ↦ rw (q, seed_position) v
  | inr q ↦
      let (s, e, hx, hy) = v.home_cursor in
      let on = clamped_home v s e x y in
      let home = current_home r.active_remote r.current_screen r.local_screen v.placed q in
      rw (q, e, seed_position)
        (record {
          valid = v.valid;
          home_cursor = on;
          cursor = move_screen r.layout r.local_screen r.current_screen _ _ (sym home) on;
          placed = v.placed;
          below = omega arith;
        })
]

pub return_to_local-Inv :
    (r : EdgeRouter) (from x y : ℕ) → Inv r → Inv (after r (return_to_local r from x y))
unfolding return_to_local
return_to_local-Inv r from x y v = elim (Bool-cases (is_id r.active_remote from)) [
  | inr q ↦ rw (q, return_to_local) v
  | inl q ↦
      let (s, e, hx, hy) = v.home_cursor in
      rw (q, e, return_to_local) (at_home v _ _ (clamped_home v s e x y))
]

pub restore_local_at_edge-Inv :
    (now : ℕ) (r : EdgeRouter) (from : ℕ) (edge : Edge)
    → Inv r
    → Inv (after r (restore_local_at_edge now r from edge))
unfolding restore_local_at_edge
restore_local_at_edge-Inv now r from edge v = elim (Bool-cases (is_id r.active_remote from)) [
  | inr q ↦ rw (q, restore_local_at_edge) v
  | inl q ↦
      let (s, e, hx, hy) = v.home_cursor in
      rw (q, e, restore_local_at_edge) (at_home v _ _ (clamped_home v s e _ _))
]

pub restore_local-Inv : (r : EdgeRouter) (from : ℕ) → Inv r → Inv (after r (restore_local r from))
unfolding restore_local
restore_local-Inv r from v = elim (Bool-cases (is_id r.active_remote from)) [
  | inr q ↦ rw (q, restore_local) v
  | inl q ↦
      let (s, e, hx, hy) = v.home_cursor in
      rw (q, e, restore_local) (at_home v _ _ (clamped_home v s e _ _))
]

peer_placed-Inv :
    (now : ℕ) (r : EdgeRouter) (target x y : ℕ)
    → Inv r
    → OnScreen r.layout target x y
    → target ≢ r.local_screen
    → Inv (peer_placed now r target x y)
unfolding peer_placed
peer_placed-Inv now r target x y v on ne = elim (Bool-cases (r.current_screen == r.local_screen)) [
  | inl home ↦
      let same : r.current_screen ≡ r.local_screen = ground arith in
      rw home (record {
        valid = v.valid;
        home_cursor =
            move_screen r.layout r.current_screen r.local_screen r.cursor_x r.cursor_y same
              v.cursor;
        cursor = on;
        placed = (refl, ne);
        below = v.below;
      })
  | inr away ↦ rw away (record {
    valid = v.valid;
    home_cursor = v.home_cursor;
    cursor = on;
    placed = (refl, ne);
    below = v.below;
  })
]

-- The router that `handoff_to` leaves behind, whether it came home or drives on.
abbrev pub after_handoff : EdgeRouter → Result RouterError (EdgeRouter × Bool) → EdgeRouter
after_handoff r (ok (r', driving)) = r'
after_handoff r (err e) = r

pub handoff_to-Inv :
    (now : ℕ) (r : EdgeRouter) (target x y : ℕ)
    → Inv r
    → Inv (after_handoff r (handoff_to now r target x y))
unfolding handoff_to
handoff_to-Inv now r target x y v = elim (Option-cases (screen r.layout target)) [
  | inl q ↦ rw (q, handoff_to) v
  | inr (s, e) ↦ elim (Bool-cases (r.local_screen == target)) [
    | inl home ↦
        let same : r.local_screen ≡ target = ground arith in
        rw (e, home, handoff_to) (at_home v _ _ (clamped_home v s (rw same e) x y))
    | inr away ↦
        let ne : target ≢ r.local_screen = λ q. ground arith in
        let good = screen-IsSound r.layout target s v.valid e in
        let on : OnScreen r.layout target (min x (s.width - 1)) (min y (s.height - 1)) =
          (s, e, min-lt x s.width good.wide, min-lt y s.height good.high) in
        rw (e, away, handoff_to) (peer_placed-Inv now r target _ _ v on ne)
  ]
]
