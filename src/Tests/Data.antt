-- ===== src/Tests/Data.antt =====
-- The screens and routers of the runs.
use thekvm.Prelude.{any, find, ◌≡◌, refl, true, false, none, some, [], ◌∷◌, arith}
use thekvm.Prelude.Int.{pos}
use thekvm.Prelude.Result.{ok}
use thekvm.Prelude.Text.{codes, trim, trim_start, is_whitespace}
use thekvm.Geometry.{left, right, double, mirror}
use thekvm.Layout.{Screen, Layout, screen, validate}
use thekvm.Layout.Validity.{IsValid, validate_iff}
use thekvm.Router.{EdgeRouter, new}
use thekvm.Router.Invariant.{Inv}

abbrev pub desk : Screen
desk = record {
  id = 1;
  name = codes "desk";
  x = pos 0;
  y = pos 0;
  width = 1920;
  height = 1080;
  peer_fingerprint = none;
}

abbrev pub laptop : Screen
laptop = record {
  id = 2;
  name = codes "laptop";
  x = pos 1;
  y = pos 0;
  width = 1280;
  height = 800;
  peer_fingerprint = some (codes "ab");
}

abbrev pub pair : Layout
pair = record { screens = desk ∷ (laptop ∷ []); self_screen = some 1 }

abbrev pub idle : EdgeRouter
idle = record {
  layout = pair;
  local_screen = 1;
  current_screen = 1;
  cursor_x = 960;
  cursor_y = 540;
  local_cursor_x = 960;
  local_cursor_y = 540;
  active_remote = none;
  entry_edge = none;
  return_armed = false;
  return_accum = 0;
  return_edge = none;
  return_edge_accum = 0;
  edge_mode = double;
  double_style = mirror;
  push_edge = none;
  push_accum = 0;
  return_hold = 0;
  return_run_since = none;
  handoff_grace = 0;
  handoff_at = none;
  locked = false;
  startup_gate = false;
  post_return_edge = none;
  post_return_at = none;
  last_clamp = none;
  last_resync_reset = none;
}

-- At the right border, with seven pixels of push saved up.
abbrev pub pressing : EdgeRouter
pressing = record idle {
  cursor_x = 1919;
  local_cursor_x = 1919;
  push_edge = some right;
  push_accum = 7;
}

-- Driving the laptop at its left border, which leads home.
abbrev pub driving : EdgeRouter
driving = record idle {
  current_screen = 2;
  cursor_x = 0;
  cursor_y = 400;
  active_remote = some 2;
  entry_edge = some left;
  return_armed = true;
  return_edge = some left;
  return_edge_accum = 19;
}

pub idle_new : new pair ≡ ok idle
unfolding new validate trim trim_start is_whitespace any screen find
idle_new = refl

pub pair_valid : validate pair ≡ ok tt
unfolding validate trim trim_start is_whitespace any
pair_valid = refl

pub desk_found : screen pair 1 ≡ some desk
unfolding screen find
desk_found = refl

pub laptop_found : screen pair 2 ≡ some laptop
unfolding screen find
laptop_found = refl

pub pressing-Inv : Inv pressing
pressing-Inv = record {
  valid = pair_valid;
  home_cursor = (desk, desk_found, omega arith, omega arith);
  cursor = (desk, desk_found, omega arith, omega arith);
  placed = refl;
  below = omega arith;
}

pub driving-Inv : Inv driving
driving-Inv = record {
  valid = pair_valid;
  home_cursor = (desk, desk_found, omega arith, omega arith);
  cursor = (laptop, laptop_found, omega arith, omega arith);
  placed = (refl, λ e. ground arith);
  below = omega arith;
}

pub pair-IsValid : IsValid pair
pair-IsValid = (validate_iff pair).0 pair_valid
