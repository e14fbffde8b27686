-- ===== src/Router/Invariant.antt =====
-- The invariant of an EdgeRouter.
pub mod Moves
pub mod Drives
pub mod Crossings
pub mod Changes
pub mod Sizes
use thekvm.Prelude.{
  ℕ, ◌-◌, ◌<◌, ◌≤◌, ◌≡◌, ◌≢◌, refl, min, false, Option, none, some, arith, is_some,
}
use mathlib.Core.Path.{subst}
use thekvm.Prelude.Result.{Result, ok, err}
use thekvm.Layout.{Screen, Layout, screen, validate}
use thekvm.Router.{EdgeRouter, RouterError, edge_push_px}

-- A point of a screen of the layout.
abbrev pub OnScreen : Layout → ℕ → ℕ → ℕ → Type 0
OnScreen l i x y = (s : Screen) × (screen l i ≡ some s) × (x < s.width) × (y < s.height)

-- Control is local, or the driven screen is the current one and not the local one.
abbrev pub Placed : Option ℕ → ℕ → ℕ → Type 0
Placed none current home = current ≡ home
Placed (some target) current home = (target ≡ current) × (current ≢ home)

-- The layout is valid, both cursors lie on their screens, and the push budget is not reached.
pub record IsPlaced (l : Layout) (home current x y home_x home_y : ℕ) (active : Option ℕ)
    (budget : ℕ) : Type 0 where
  pub valid : validate l ≡ ok tt
  pub home_cursor : OnScreen l home home_x home_y
  pub cursor : OnScreen l current x y
  pub placed : Placed active current home
  pub below : budget < edge_push_px

abbrev pub Inv : EdgeRouter → Type 0
Inv r =
    IsPlaced r.layout r.local_screen r.current_screen r.cursor_x r.cursor_y r.local_cursor_x
      r.local_cursor_y r.active_remote r.push_accum

-- An operation that fails leaves the router as it was.
abbrev pub after : EdgeRouter → Result RouterError EdgeRouter → EdgeRouter
after r (ok r') = r'
after r (err e) = r

-- A clamped point lies on the screen.
pub min-lt : (x w : ℕ) → 0 < w → min x (w - 1) < w
min-lt x w h = omega arith

-- Control at home, at a point of the local screen.
pub at_home :
    {l : Layout} {home current x y home_x home_y : ℕ} {active : Option ℕ} {budget : ℕ}
    → IsPlaced l home current x y home_x home_y active budget
    → (px py : ℕ) → OnScreen l home px py
    → IsPlaced l home home px py px py none 0
at_home v px py on = record {
  valid = v.valid;
  home_cursor = on;
  cursor = on;
  placed = refl;
  below = omega arith;
}

-- The same, at a point clamped to the local screen.
pub clamped_home :
    {l : Layout} {home current x y home_x home_y : ℕ} {active : Option ℕ} {budget : ℕ}
    → IsPlaced l home current x y home_x home_y active budget
    → (s : Screen) → screen l home ≡ some s
    → (px py : ℕ) → OnScreen l home (min px (s.width - 1)) (min py (s.height - 1))
clamped_home v s e px py = let (t, f, hx, hy) = v.home_cursor in (s, e, ground arith, ground arith)

-- With no remote screen active the current screen is the local one.
pub current_home :
    (active : Option ℕ) (current home : ℕ)
    → Placed active current home
    → is_some active ≡ false
    → current ≡ home
current_home none current home p q = p
current_home (some t) current home p q = cc

pub move_screen : (l : Layout) (i j x y : ℕ) → i ≡ j → OnScreen l i x y → OnScreen l j x y
move_screen l i j x y e on = subst (λ k. OnScreen l k x y) e on

-- The cursor moves on its screen; the rest of what the invariant reads stays.
pub move_cursor :
    {l : Layout} {home current x y home_x home_y : ℕ} {active : Option ℕ} {budget : ℕ}
    → IsPlaced l home current x y home_x home_y active budget
    → (px py : ℕ) → OnScreen l current px py
    → IsPlaced l home current px py home_x home_y active budget
move_cursor v px py on = record {
  valid = v.valid;
  home_cursor = v.home_cursor;
  cursor = on;
  placed = v.placed;
  below = v.below;
}

-- While control is local both cursors move together.
pub move_both :
    {l : Layout} {home current x y home_x home_y : ℕ} {active : Option ℕ} {budget : ℕ}
    → IsPlaced l home current x y home_x home_y active budget
    → is_some active ≡ false
    → (px py total : ℕ) → OnScreen l current px py
    → total < edge_push_px
    → IsPlaced l home current px py px py active total
move_both {l} {home} {current} {active = active} v idle px py total on h = record {
  valid = v.valid;
  home_cursor =
      move_screen l current home px py (current_home active current home v.placed idle) on;
  cursor = on;
  placed = v.placed;
  below = h;
}
