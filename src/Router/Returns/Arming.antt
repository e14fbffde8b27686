-- ===== src/Router/Returns/Arming.antt =====
-- What arms the return of a drive.
use thekvm.Prelude.{
  ℕ, ◌≤◌, ◌≡◌, refl, sym, ap, ◌∙◌, Bool, true, false, ◌||◌, leb, if◌then◌else◌, inl, inr, Option,
  none, some, arith, Bool-cases, Option-cases,
}
use thekvm.Prelude.Int.{ℤ, pos, pos_part, ◌+ℤ◌}
use thekvm.Geometry.{Edge, edge_for_overflow, overflow_px, distance_from_edge}
use thekvm.Event.{InputEvent, mouse_move}
use thekvm.Layout.{Screen, screen}
use thekvm.Router.{EdgeRouter, RoutedEvent, settle_px}
use thekvm.Router.Home.{is_id, restore_local_at_edge, land_at_edge, come_home}
use thekvm.Router.Drive.{
  extend_run, escape_run, go_home, pin, reset_return_run, drive_inside, off_edge, or_else, settles,
  drive_motion, drive_edge, press_return, press_escape,
}
use thekvm.Router.Route.{route, route_by, route_driven}

go_home_unarmed :
    (now : ℕ) (r : EdgeRouter) (target : ℕ) (edge : Edge)
    → r.return_armed ≡ false
    → (go_home now r target edge).return_armed ≡ false
unfolding go_home restore_local_at_edge land_at_edge come_home
go_home_unarmed now r target edge h = elim (Bool-cases (is_id r.active_remote target)) [
  | inr q ↦ rw (q, go_home, restore_local_at_edge) h
  | inl q ↦ elim (Option-cases (screen r.layout r.local_screen)) [
    | inl gone ↦ rw (q, gone, go_home, restore_local_at_edge) h
    | inr (s, e) ↦ rw (q, e, go_home, restore_local_at_edge) refl
  ]
]

drive_edge_unarmed :
    (now : ℕ) (r : EdgeRouter) (target : ℕ) (event : InputEvent) (edge : Edge) (nx ny : ℤ)
    (s : Screen)
    → r.return_armed ≡ false
    → (drive_edge now r target event edge nx ny s).0.return_armed ≡ false
unfolding drive_edge press_return press_escape pin reset_return_run extend_run escape_run
drive_edge_unarmed now r target event edge nx ny s h =
    let over = overflow_px edge nx ny s.width s.height in
    ground (
      arith,
      go_home_unarmed now (extend_run now r edge over) target edge,
      go_home_unarmed now (escape_run r over) target edge,
    )

abbrev settled_from : Option Edge → ℕ → ℕ → Screen → Bool
settled_from none x y s = false
settled_from (some entry) x y s = leb settle_px (distance_from_edge entry x y s.width s.height)

settles_moved :
    (r : EdgeRouter) (x y : ℕ) (s : Screen) (b : Bool) (o : Option Edge)
    → r.entry_edge ≡ o
    → settles
        (if b
          then reset_return_run (record r { cursor_x = x; cursor_y = y })
          else record r { cursor_x = x; cursor_y = y })
        s
      ≡ settled_from o x y s
unfolding settles reset_return_run
settles_moved r x y s true none q = rw (q, settles) refl
settles_moved r x y s true (some entry) q = rw (q, settles) refl
settles_moved r x y s false none q = rw (q, settles) refl
settles_moved r x y s false (some entry) q = rw (q, settles) refl

right_holds : (a b c : Bool) → a ≡ false → b ≡ c → (a || b) ≡ true → c ≡ true
right_holds true b c h e k = cc
right_holds false b c h e k = sym e ∙ k

-- The cursor has settled at least 40 pixels from the edge that the drive entered through.
abbrev pub HasSettled : EdgeRouter → ℕ → ℕ → Screen → Type 0
HasSettled r x y s =
    (entry : Edge) × (r.entry_edge ≡ some entry)
    × (settle_px ≤ distance_from_edge entry x y s.width s.height)

settled_parts :
    (r : EdgeRouter) (x y : ℕ) (s : Screen) (o : Option Edge)
    → r.entry_edge ≡ o
    → settled_from o x y s ≡ true
    → HasSettled r x y s
settled_parts r x y s none q e = cc
settled_parts r x y s (some entry) q e = (entry, q, ground arith)

drive_inside_armed :
    (r : EdgeRouter) (x y : ℕ) (s : Screen)
    → r.return_armed ≡ false
    → (drive_inside r x y s).return_armed ≡ true
    → HasSettled r x y s
unfolding drive_inside
drive_inside_armed r x y s h armed =
    let off = off_edge (or_else r.return_edge r.entry_edge) x y s in
    settled_parts r x y s r.entry_edge refl
      (right_holds r.return_armed _ _ h (settles_moved r x y s off r.entry_edge refl) armed)

drive_motion_armed :
    (now : ℕ) (r : EdgeRouter) (target : ℕ) (dx dy : ℤ)
    → r.return_armed ≡ false
    → (drive_motion now r target dx dy).0.return_armed ≡ true
    → (s : Screen) × (screen r.layout r.current_screen ≡ some s)
      × HasSettled r (pos_part (pos r.cursor_x +ℤ dx)) (pos_part (pos r.cursor_y +ℤ dy)) s
unfolding drive_motion
drive_motion_armed now r target dx dy h armed =
    elim (Option-cases (screen r.layout r.current_screen)) [
      | inl q ↦ absurd (ground arith)
      | inr (s, e) ↦
          let nx = pos r.cursor_x +ℤ dx in
          let ny = pos r.cursor_y +ℤ dy in
          elim (Option-cases (edge_for_overflow nx ny s.width s.height)) [
            | inl q ↦
                let moved : (drive_motion now r target dx dy).0
                    ≡ drive_inside r (pos_part nx) (pos_part ny) s =
                  rw (e, q, drive_motion) refl in
                (
                  s,
                  e,
                  drive_inside_armed r (pos_part nx) (pos_part ny) s h
                      (ap (λ (p : EdgeRouter). p.return_armed) (sym moved) ∙ armed),
                )
            | inr (edge, q) ↦
                let moved : (drive_motion now r target dx dy).0
                    ≡ (drive_edge now r target (mouse_move dx dy) edge nx ny s).0 =
                  rw (e, q, drive_motion) refl in
                let closed = drive_edge_unarmed now r target (mouse_move dx dy) edge nx ny s h in
                absurd (ground (arith, ap (λ (p : EdgeRouter). p.return_armed) moved))
          ]
    ]

driven_armed :
    (now : ℕ) (r : EdgeRouter) (target : ℕ) (event : InputEvent)
    → r.return_armed ≡ false
    → (route_driven now r target event).0.return_armed ≡ true
    → (dx : ℤ) × (dy : ℤ) × (s : Screen) × (event ≡ mouse_move dx dy)
      × (screen r.layout r.current_screen ≡ some s)
      × HasSettled r (pos_part (pos r.cursor_x +ℤ dx)) (pos_part (pos r.cursor_y +ℤ dy)) s
unfolding route_driven
driven_armed now r target (mouse_move dx dy) h armed =
    let (s, e, settled) = drive_motion_armed now r target dx dy h armed in
    (dx, dy, s, refl, e, settled)
driven_armed now r target _ h armed = cc

-- While a remote screen is driven, an event arms a return that was not armed only if it is a motion
-- that takes the cursor at least 40 pixels from the edge that the drive entered through.
pub route-HasSettled :
    (now : ℕ) (r : EdgeRouter) (target : ℕ) (event : InputEvent)
    → r.active_remote ≡ some target
    → r.return_armed ≡ false
    → (route now r event).0.return_armed ≡ true
    → (dx : ℤ) × (dy : ℤ) × (s : Screen) × (event ≡ mouse_move dx dy)
      × (screen r.layout r.current_screen ≡ some s)
      × HasSettled r (pos_part (pos r.cursor_x +ℤ dx)) (pos_part (pos r.cursor_y +ℤ dy)) s
unfolding route route_by
route-HasSettled now r target event driving h armed = driven_armed now r target event h (
    ap (λ (p : EdgeRouter × RoutedEvent). p.0.return_armed)
      (sym (ap (route_by now r event) driving))
    ∙ armed)
