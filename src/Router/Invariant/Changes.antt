-- ===== src/Router/Invariant/Changes.antt =====
-- The invariant under construction, live layout changes and truth re-pins.
use thekvm.Prelude.{
  ℕ, ◌-◌, ◌≡◌, refl, sym, ap, ◌∙◌, min, max, Bool, true, false, not, ◌||◌, ◌==◌, ltb, if◌then◌else◌,
  inl, inr, Option, none, some, arith, is_some, map, Bool-cases, Option-cases,
}
use mathlib.Core.Option
use mathlib.Core.Path.{subst}
use thekvm.Prelude.Result.{ok, Result-cases}
use thekvm.Geometry.{Edge}
use thekvm.Layout.{Screen, Layout, screen, validate}
use thekvm.Layout.Validity.{IsSound, validate_iff, screen-IsSound}
use thekvm.Layout.Resize.{KeepsPlace, map-IsValid, find-map}
use thekvm.Router.{EdgeRouter, new, fresh, home_of, resync_diverge_px}
use thekvm.Router.Settings.{
  keep_size, relocate, set_layout, abs_diff, repin, correct_run, resync_on, resync_if_local,
}
use thekvm.Router.Invariant.{
  OnScreen, Placed, Inv, after, min-lt, current_home, move_both, move_screen,
}

fresh-Inv :
    (l : Layout) (me : ℕ) (s : Screen)
    → validate l ≡ ok tt
    → screen l me ≡ some s
    → Inv (fresh l me s)
unfolding fresh
fresh-Inv l me s q f =
    let good = screen-IsSound l me s q f in
    let pw = good.wide in
    let ph = good.high in
    record {
      valid = q;
      home_cursor = (s, f, omega arith, omega arith);
      cursor = (s, f, omega arith, omega arith);
      placed = refl;
      below = omega arith;
    }

-- A router that starts has its cursor on the local screen.
pub new-Inv : (l : Layout) (r : EdgeRouter) → new l ≡ ok r → Inv r
unfolding new
new-Inv l r e = elim (Result-cases (validate l)) [
  | inr (x, q) ↦ absurd (ground arith)
  | inl (u, q) ↦ elim (Option-cases (home_of l)) [
    | inl h ↦ absurd (ground arith)
    | inr (me, h) ↦ elim (Option-cases (screen l me)) [
      | inl f ↦ absurd (ground arith)
      | inr (s, f) ↦
          let made : fresh l me s ≡ r = ground arith in subst Inv made (fresh-Inv l me s q f)
    ]
  ]
]

correct_run-Inv :
    (r : EdgeRouter) (x y moved : ℕ) (s : Screen) (o : Option Edge)
    → Inv r
    → Inv (correct_run r x y moved s o)
unfolding correct_run
correct_run-Inv r x y moved s none v = v
correct_run-Inv r x y moved s (some edge) v = record {
  valid = v.valid;
  home_cursor = v.home_cursor;
  cursor = v.cursor;
  placed = v.placed;
  below = let b = v.below in omega arith;
}

repin-Inv :
    (r : EdgeRouter) (x y : ℕ)
    → is_some r.active_remote ≡ false
    → OnScreen r.layout r.local_screen x y
    → Inv r
    → Inv (repin r x y)
unfolding repin
repin-Inv r x y idle on v =
    let home = current_home r.active_remote r.current_screen r.local_screen v.placed idle in
    move_both v idle x y r.push_accum
      (move_screen r.layout r.local_screen r.current_screen x y (sym home) on) v.below

Inv-choice : (b : Bool) (p q : EdgeRouter) → Inv p → Inv q → Inv (if b then p else q)
Inv-choice true p q h k = h
Inv-choice false p q h k = k

resync_on-Inv :
    (r : EdgeRouter) (x y : ℕ) (s : Screen)
    → is_some r.active_remote ≡ false
    → screen r.layout r.local_screen ≡ some s
    → Inv r
    → Inv (resync_on r x y s)
unfolding resync_on
resync_on-Inv r x y s idle e v =
    let good = screen-IsSound r.layout r.local_screen s v.valid e in
    let px = min x (s.width - 1) in
    let py = min y (s.height - 1) in
    let pinned =
      repin-Inv r px py idle (s, e, min-lt x s.width good.wide, min-lt y s.height good.high) v in
    Inv-choice (ltb resync_diverge_px (max (abs_diff px r.cursor_x) (abs_diff py r.cursor_y)))
      (correct_run (repin r px py) r.cursor_x r.cursor_y
        (max (abs_diff px r.cursor_x) (abs_diff py r.cursor_y)) s r.push_edge)
      (repin r px py) (correct_run-Inv (repin r px py) r.cursor_x r.cursor_y _ s r.push_edge pinned)
      pinned

-- A truth re-pin puts the cursor on the local screen.
pub resync_if_local-Inv : (r : EdgeRouter) (x y : ℕ) → Inv r → Inv (resync_if_local r x y)
unfolding resync_if_local
resync_if_local-Inv r x y v =
    elim (Bool-cases (is_some r.active_remote || not (r.current_screen == r.local_screen))) [
      | inl away ↦ rw (away, resync_if_local) v
      | inr at ↦
          let (s, e, hx, hy) = v.home_cursor in
          rw (at, e, resync_if_local) (resync_on-Inv r x y s (ground arith) e v)
    ]

Placed-home : (active : Option ℕ) (home : ℕ) → is_some active ≡ false → Placed active home home
Placed-home none home h = refl
Placed-home (some t) home h = cc

keep_size-KeepsPlace : (l : Layout) → KeepsPlace (keep_size l)
unfolding keep_size
keep_size-KeepsPlace l = record { id = λ s. ground arith; place = λ s. ground arith }

keep_size-IsSound :
    (l : Layout) → validate l ≡ ok tt → (s : Screen) → IsSound s → IsSound (keep_size l s)
unfolding keep_size
keep_size-IsSound l valid s g = elim (Option-cases (screen l s.id)) [
  | inl q ↦ rw (q, keep_size) g
  | inr (o, q) ↦
      let old = screen-IsSound l s.id o valid q in
      rw (q, keep_size) (record { named = g.named; wide = old.wide; high = old.high })
]

relocate-Inv :
    (r : EdgeRouter) (l : Layout) (s : Screen)
    → validate l ≡ ok tt
    → screen l r.local_screen ≡ some s
    → is_some r.active_remote ≡ false
    → Inv (relocate r l s)
unfolding relocate
relocate-Inv r l s valid e idle =
    let good = screen-IsSound l r.local_screen s valid e in
    let on : OnScreen l r.local_screen (min r.cursor_x (s.width - 1))
        (min r.cursor_y (s.height - 1)) =
      (s, e, min-lt r.cursor_x s.width good.wide, min-lt r.cursor_y s.height good.high) in
    record {
      valid = valid;
      home_cursor = on;
      cursor = on;
      placed = Placed-home r.active_remote r.local_screen idle;
      below = omega arith;
    }

kept : EdgeRouter → Layout → Layout
kept r l = record l { screens = map (keep_size r.layout) l.screens }

kept-valid :
    (r : EdgeRouter) (l : Layout)
    → validate r.layout ≡ ok tt
    → validate l ≡ ok tt
    → validate (kept r l) ≡ ok tt
unfolding kept
kept-valid r l old valid = (validate_iff _).1 (
    map-IsValid l (keep_size r.layout) (keep_size-KeepsPlace r.layout)
      (keep_size-IsSound r.layout old) ((validate_iff l).0 valid))

screen-kept :
    (r : EdgeRouter) (l : Layout) (i : ℕ)
    → screen (kept r l) i ≡ Option.map (keep_size r.layout) (screen l i)
unfolding kept screen
screen-kept r l i = find-map (keep_size r.layout) (keep_size-KeepsPlace r.layout) i l.screens

-- A live layout change moves the cursor onto the new local screen, or is refused.
pub set_layout-Inv : (r : EdgeRouter) (l : Layout) → Inv r → Inv (after r (set_layout r l))
unfolding set_layout kept
set_layout-Inv r l v = elim (Result-cases (validate l)) [
  | inr (x, q) ↦ rw (q, set_layout) v
  | inl (u, q) ↦ elim (Bool-cases (is_some r.active_remote)) [
    | inl busy ↦ rw (q, busy, set_layout) v
    | inr idle ↦ elim (Option-cases (screen l r.local_screen)) [
      | inl gone ↦ rw (q, idle, gone, set_layout) v
      | inr (s, e) ↦
          let there : screen (kept r l) r.local_screen ≡ some (keep_size r.layout s) =
            screen-kept r l r.local_screen ∙ ap (Option.map (keep_size r.layout)) e in
          rw (q, idle, e, there, set_layout)
            (relocate-Inv r (kept r l) (keep_size r.layout s) (kept-valid r l v.valid q) there idle)
    ]
  ]
]
