-- ===== src/Router/Returns/Presses.antt =====
-- A press at an edge of the driven screen that ends the drive.
use thekvm.Prelude.{
  ℕ, ◌+◌, ◌≤◌, ◌≡◌, refl, sym, ◌∙◌, Bool, true, false, not, ◌&&◌, leb, if◌then◌else◌, ◌⊎◌, inl, inr,
  arith,
}
use thekvm.Prelude.Int.{ℤ}
use thekvm.Geometry.{Edge, overflow_px}
use thekvm.Event.{InputEvent}
use thekvm.Layout.{Screen}
use thekvm.Router.{EdgeRouter, RoutedEvent, forward, return_home, in_handoff_grace, return_push_px}
use thekvm.Router.Drive.{
  faces_home, unarmed_entry, extend_run, held_long, return_threshold, escape_run, go_home, pin,
  press_return, press_escape,
}

abbrev pub is_return : RoutedEvent → Bool
is_return (return_home from edge entry armed) = true
is_return _ = false

-- Any other outcome of a driven motion forwards the event.
abbrev pub Forwards : ℕ → InputEvent → EdgeRouter × RoutedEvent → Type 0
Forwards target event o = (is_return o.1 ≡ true) ⊎ (o.1 ≡ forward target event)

-- The first branch was taken, if a return came out and the other forwards.
pub then_taken :
    (b : Bool) (p q : EdgeRouter × RoutedEvent)
    → is_return q.1 ≡ false
    → is_return (if b then p else q).1 ≡ true
    → (b ≡ true) × ((if b then p else q) ≡ p)
then_taken true p q h k = (refl, refl)
then_taken false p q h k = cc

-- The run against the edge is long enough: the escape run on a disarmed entry edge, the held return
-- run on any other.
abbrev pub IsEnough : ℕ → EdgeRouter → Edge → ℕ → Type 0
IsEnough now r edge overflow =
    ((unarmed_entry r edge ≡ true) × (return_push_px ≤ r.return_accum + overflow))
    ⊎ ((unarmed_entry r edge ≡ false)
        × (return_threshold r ≤ (extend_run now r edge overflow).return_edge_accum)
        × (held_long now (extend_run now r edge overflow) ≡ true))

-- What a return home met: `edge` leads home, no grace protects the drive, and the run against the
-- edge is long enough: a disarmed entry edge needs the escape run, any other edge the return run,
-- held for the configured time.
pub record Returns (now : ℕ) (r : EdgeRouter) (target : ℕ) (result : EdgeRouter × RoutedEvent)
    (edge : Edge) (overflow : ℕ) : Type 0 where
  pub leads_home : faces_home r edge ≡ true
  pub no_grace : in_handoff_grace now r ≡ false
  pub run : IsEnough now r edge overflow
  pub base : EdgeRouter
  pub same_base : (base ≡ escape_run r overflow) ⊎ (base ≡ extend_run now r edge overflow)
  pub came_home : result ≡ (
    go_home now base target edge,
    return_home r.current_screen edge r.entry_edge r.return_armed,
  )

and_parts : (a b : Bool) → (a && b) ≡ true → (a ≡ true) × (b ≡ true)
and_parts true true e = (refl, refl)
and_parts true false e = cc
and_parts false b e = cc

not_parts : (a : Bool) → not a ≡ true → a ≡ false
not_parts true e = cc
not_parts false e = refl

pub if_split :
    (b : Bool) (p q : EdgeRouter × RoutedEvent)
    → ((b ≡ true) × ((if b then p else q) ≡ p)) ⊎ ((b ≡ false) × ((if b then p else q) ≡ q))
if_split true p q = inl (refl, refl)
if_split false p q = inr (refl, refl)

pub extend_threshold :
    (now : ℕ) (r : EdgeRouter) (edge : Edge) (overflow : ℕ)
    → return_threshold (extend_run now r edge overflow) ≡ return_threshold r
unfolding extend_run return_threshold
extend_threshold now r edge overflow = ground arith

pub extend_grace :
    (now : ℕ) (r : EdgeRouter) (edge : Edge) (overflow : ℕ)
    → in_handoff_grace now (extend_run now r edge overflow) ≡ in_handoff_grace now r
unfolding extend_run in_handoff_grace
extend_grace now r edge overflow = ground arith

module _ (now : ℕ) (r : EdgeRouter) (target : ℕ) (event : InputEvent) (edge : Edge) (nx ny : ℤ)
    (s : Screen) (home : faces_home r edge ≡ true) where
  pub press_return-Returns :
      unarmed_entry r edge ≡ false
      → is_return (press_return now r target event edge nx ny s).1 ≡ true
      → Returns now r target
          (press_return now r target event edge nx ny s)
          edge
          (overflow_px edge nx ny s.width s.height)
  unfolding press_return
  press_return-Returns other h =
      let overflow = overflow_px edge nx ny s.width s.height in
      let run = extend_run now r edge overflow in
      let (test, same) =
        then_taken
          (leb (return_threshold run) run.return_edge_accum
            && held_long now run
            && not (in_handoff_grace now run))
          (
            go_home now run target edge,
            return_home r.current_screen edge r.entry_edge r.return_armed,
          )
          (pin run nx ny s, forward target event) refl h in
      let (most, free) = and_parts _ _ test in
      let (long, held) = and_parts _ _ most in
      record {
        leads_home = home;
        no_grace = sym (extend_grace now r edge overflow) ∙ not_parts _ free;
        run = inr (other, ground (arith, extend_threshold now r edge overflow), held);
        base = run;
        same_base = inr refl;
        came_home = same;
      }

  pub press_escape-Returns :
      unarmed_entry r edge ≡ true
      → is_return (press_escape now r target event edge nx ny s).1 ≡ true
      → Returns now r target
          (press_escape now r target event edge nx ny s)
          edge
          (overflow_px edge nx ny s.width s.height)
  unfolding press_escape escape_run in_handoff_grace
  press_escape-Returns entry h =
      let overflow = overflow_px edge nx ny s.width s.height in
      let run = escape_run r overflow in
      let (test, same) =
        then_taken (leb return_push_px run.return_accum && not (in_handoff_grace now run))
          (
            go_home now run target edge,
            return_home r.current_screen edge r.entry_edge r.return_armed,
          )
          (pin run nx ny s, forward target event) refl h in
      let (long, free) = and_parts _ _ test in
      record {
        leads_home = home;
        no_grace = not_parts _ free;
        run = inl (entry, ground arith);
        base = run;
        same_base = inl refl;
        came_home = same;
      }
