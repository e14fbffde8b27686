-- ===== src/Pinch/Frames.antt =====
-- kvm-platform/src/mt_pinch.rs: what one frame does to a gesture.
use Prim.Native.Nat.{◌+◌}
use thekvm.Prelude.{
  ℕ, ◌+◌, ◌<◌, ◌≤◌, ◌≡◌, ◌≢◌, refl, Bool, true, false, not, ◌&&◌, Option, none, some, List, [], ◌∷◌,
  max, arith, is_some, get_or, either,
}
use thekvm.Prelude.Int.{ℤ, pos, negsuc, ◌+ℤ◌, ◌-ℤ◌, abs, abs_diff, sub_ℕ, quot, scale}
use thekvm.Pinch.{
  Point, PinchState, spread_of, mid_of, lifted, clamp_detents, is_scroll, scroll_frame, pinch_frame,
  next_frame, measured_frame, feed_contacts, takeover_frames,
}

-- Division truncates: what is left is smaller than the divisor.
pub quot_rest : (a : ℤ) (d : ℕ) → 0 < d → abs (a -ℤ scale (quot a d) d) < d
unfolding quot scale ◌-ℤ◌
quot_rest (pos n) d h = grind arith
quot_rest (negsuc n) d h = grind arith

clamp_detents_bound : (a : ℤ) → abs (scale (clamp_detents a) 120) ≤ 120000
unfolding clamp_detents scale
clamp_detents_bound (pos n) = ground arith
clamp_detents_bound (negsuc n) = ground arith

-- What holds of the machine between two frames.
pub record IsTracking (s : PinchState) : Type 0 where
  pub idle : s.engaged ≡ false → s.acc ≡ pos 0
  pub below : abs s.acc < max s.units_per_detent 1
  pub anchored : is_some s.anchor ≡ is_some s.prev
  pub placed : is_some s.anchor ≡ is_some s.prev_mid
  pub held : s.engaged ≡ true → is_some s.anchor ≡ true
  pub patient : s.engaged ≡ true → s.scroll_streak < takeover_frames

lifted-IsTracking : (s : PinchState) → IsTracking (lifted s)
unfolding lifted
lifted-IsTracking s = ground arith

scroll_frame-IsTracking :
    (s : PinchState) (spread : ℕ)
    → IsTracking s
    → is_some s.anchor ≡ true
    → IsTracking (scroll_frame s spread).0
unfolding scroll_frame
scroll_frame-IsTracking s spread h a = ground arith

pinch_frame-IsTracking :
    (s : PinchState) (anchor prev spread : ℕ)
    → IsTracking s
    → s.anchor ≡ some anchor
    → IsTracking (pinch_frame s anchor prev spread).0
unfolding pinch_frame
pinch_frame-IsTracking s anchor prev spread h a =
    let units = max s.units_per_detent 1 in
    let acc = s.acc +ℤ sub_ℕ spread prev in
    let rest = quot_rest acc units (ground arith) in ground (arith, rest)

next_frame-IsTracking :
    (s : PinchState) (anchor spread : ℕ) (mid : Point)
    → IsTracking s
    → s.anchor ≡ some anchor
    → IsTracking (next_frame s anchor spread mid).0
unfolding next_frame
next_frame-IsTracking s anchor spread mid h a =
    let p = get_or s.prev spread in
    let m : Point = get_or s.prev_mid mid in
    let t : PinchState = record s { prev = some spread; prev_mid = some mid } in
    let held : IsTracking t = ground (arith, h) in
    either (λ (r : PinchState × (ℤ × Bool)). IsTracking r.0)
      (is_scroll (abs (mid.0 -ℤ m.0) + abs (mid.1 -ℤ m.1)) (abs_diff spread p))
      (scroll_frame t spread) (pinch_frame t anchor p spread)
      (λ e. scroll_frame-IsTracking t spread held (ground arith))
      (λ e. pinch_frame-IsTracking t anchor p spread held a)

measured_frame-IsTracking :
    (o : Option ℕ) (s : PinchState) (spread : ℕ) (mid : Point)
    → IsTracking s
    → s.anchor ≡ o
    → IsTracking (measured_frame o s spread mid).0
unfolding measured_frame
measured_frame-IsTracking none s spread mid h e = ground (arith, h)
measured_frame-IsTracking (some anchor) s spread mid h e =
    next_frame-IsTracking s anchor spread mid h e

-- Every snapshot of contacts keeps the machine consistent: no unspent movement without a gesture,
-- less than one detent of it within one, an anchor exactly when there is a frame to compare with,
-- and fewer scroll frames in a row than end a gesture.
pub feed_contacts-IsTracking :
    (s : PinchState) (contacts : List Point)
    → IsTracking s
    → IsTracking (feed_contacts s contacts).0
unfolding feed_contacts
feed_contacts-IsTracking s [] h = lifted-IsTracking s
feed_contacts-IsTracking s (a ∷ []) h = lifted-IsTracking s
feed_contacts-IsTracking s (a ∷ (b ∷ [])) h =
    measured_frame-IsTracking s.anchor s (spread_of a b) (mid_of a b) h refl
feed_contacts-IsTracking s (a ∷ (b ∷ (c ∷ cs))) h = lifted-IsTracking s

-- What a frame reports fits the change of the gesture.
abbrev pub IsReport : PinchState → PinchState × (ℤ × Bool) → Type 0
IsReport s (t, (zoom, ended)) =
    (abs zoom ≤ 120000) × (zoom ≢ pos 0 → t.engaged ≡ true) × (ended ≡ (s.engaged && not t.engaged))

scroll_frame-IsReport : (s : PinchState) (spread : ℕ) → IsReport s (scroll_frame s spread)
unfolding scroll_frame
scroll_frame-IsReport s spread = ground arith

pinch_frame-IsReport :
    (s : PinchState) (anchor prev spread : ℕ) → IsReport s (pinch_frame s anchor prev spread)
unfolding pinch_frame
pinch_frame-IsReport s anchor prev spread =
    let units = max s.units_per_detent 1 in
    let bound = clamp_detents_bound (quot (s.acc +ℤ sub_ℕ spread prev) units) in
    ground (arith, bound)

next_frame-IsReport :
    (s : PinchState) (anchor spread : ℕ) (mid : Point) → IsReport s (next_frame s anchor spread mid)
unfolding next_frame
next_frame-IsReport s anchor spread mid =
    let p = get_or s.prev spread in
    let m : Point = get_or s.prev_mid mid in
    let t : PinchState = record s { prev = some spread; prev_mid = some mid } in
    either (IsReport s) (is_scroll (abs (mid.0 -ℤ m.0) + abs (mid.1 -ℤ m.1)) (abs_diff spread p))
      (scroll_frame t spread) (pinch_frame t anchor p spread) (λ e. scroll_frame-IsReport t spread)
      (λ e. pinch_frame-IsReport t anchor p spread)

measured_frame-IsReport :
    (o : Option ℕ) (s : PinchState) (spread : ℕ) (mid : Point)
    → s.anchor ≡ o
    → IsTracking s
    → IsReport s (measured_frame o s spread mid)
unfolding measured_frame
measured_frame-IsReport none s spread mid e h = ground (arith, h)
measured_frame-IsReport (some anchor) s spread mid e h = next_frame-IsReport s anchor spread mid

-- A frame zooms only within a gesture and by at most 1000 detents, and reports the end exactly when
-- it ends a gesture.
pub feed_contacts-IsReport :
    (s : PinchState) (contacts : List Point) → IsTracking s → IsReport s (feed_contacts s contacts)
unfolding feed_contacts lifted
feed_contacts-IsReport s [] h = ground arith
feed_contacts-IsReport s (a ∷ []) h = ground arith
feed_contacts-IsReport s (a ∷ (b ∷ [])) h =
    measured_frame-IsReport s.anchor s (spread_of a b) (mid_of a b) refl h
feed_contacts-IsReport s (a ∷ (b ∷ (c ∷ cs))) h = ground arith

distance_comm : (a b : ℤ) → abs (a -ℤ b) ≡ abs (b -ℤ a)
unfolding ◌-ℤ◌
distance_comm a b = ground arith

add_comm : (a b : ℤ) → a +ℤ b ≡ b +ℤ a
unfolding ◌+ℤ◌
add_comm a b = ground arith

-- The order of the two contacts does not matter.
pub feed_contacts_comm :
    (s : PinchState) (a b : Point) → feed_contacts s (a ∷ (b ∷ [])) ≡ feed_contacts s (b ∷ (a ∷ []))
unfolding feed_contacts
feed_contacts_comm s (ax, ay) (bx, by) =
    let spread : spread_of (ax, ay) (bx, by) ≡ spread_of (bx, by) (ax, ay) =
      rw (spread_of, distance_comm ax bx, distance_comm ay by) refl in
    let mid : mid_of (ax, ay) (bx, by) ≡ mid_of (bx, by) (ax, ay) =
      rw (mid_of, add_comm ax bx, add_comm ay by) refl in
    rw (feed_contacts, spread, mid) refl
