-- ===== src/Pinch.antt =====
-- kvm-platform/src/mt_pinch.rs: the pinch machine over the contacts of a trackpad, and the tap that
-- feeds it from the kernel's multitouch events.
-- A span is a number; the accumulator of a gesture is a signed integer.
pub mod Frames
pub mod Gestures
pub mod Spent
pub mod Tap
use thekvm.Prelude.{
  ℕ, ◌+◌, ◌*◌, ◌/◌, ◌%◌, ◌^◌, Bool, true, false, not, ◌&&◌, ◌||◌, Option, none, some, List, [], ◌∷◌,
  ltb, leb, get_or, if◌then◌else◌, max, min,
}
use thekvm.Prelude.Int.{
  ℤ, pos, negsuc, ◌+ℤ◌, ◌-ℤ◌, neg, abs, abs_diff, sub_ℕ, quot, scale, ltb_ℤ, eqb_ℤ,
}
use thekvm.Event.{InputEvent, pinch, pinch_end}

abbrev pub Point : Type 0
Point = ℤ × ℤ

abbrev pub pinch_engage_units : ℕ
pinch_engage_units = 192

abbrev pub scroll_dominance : ℕ
scroll_dominance = 2

abbrev pub scroll_noise_floor : ℕ
scroll_noise_floor = 4

abbrev pub takeover_frames : ℕ
takeover_frames = 5

abbrev pub detents_per_span : ℕ
detents_per_span = 24

pub record PinchState : Type 0 where
  pub anchor : Option ℕ
  pub prev : Option ℕ
  pub prev_mid : Option Point
  pub acc : ℤ
  pub units_per_detent : ℕ
  pub engaged : Bool
  pub scroll_streak : ℕ  -- u32

-- The sum of the distances along the two axes.
unfoldable pub spread_of : Point → Point → ℕ
spread_of (ax, ay) (bx, by) = abs (ax -ℤ bx) + abs (ay -ℤ by)

unfoldable pub mid_of : Point → Point → Point
mid_of (ax, ay) (bx, by) = (quot (ax +ℤ bx) 2, quot (ay +ℤ by) 2)

-- The contacts are not two: the gesture is forgotten.
unfoldable pub lifted : PinchState → PinchState
lifted s = record s {
  anchor = none;
  prev = none;
  prev_mid = none;
  acc = pos 0;
  engaged = false;
  scroll_streak = 0;
}

-- `i64::clamp(-1000, 1000)`
unfoldable pub clamp_detents : ℤ → ℤ
clamp_detents (pos n) = pos (min n 1000)
clamp_detents (negsuc n) = negsuc (min n 999)

-- A midpoint that moves more than twice as much as the spread, above the noise.
unfoldable pub is_scroll : ℕ → ℕ → Bool
is_scroll mid_step spread_step =
    leb scroll_noise_floor mid_step && ltb (spread_step * scroll_dominance) mid_step

unfoldable pub scroll_frame : PinchState → ℕ → PinchState × (ℤ × Bool)
scroll_frame s spread =
    let streak = (s.scroll_streak + 1) % 2 ^ 32 in
    if s.engaged && leb takeover_frames streak
    then (
      record s { anchor = some spread; engaged = false; scroll_streak = 0; acc = pos 0 },
      (pos 0, true),
    )
    else (record s { anchor = some spread; scroll_streak = streak }, (pos 0, false))

unfoldable pub pinch_frame : PinchState → ℕ → ℕ → ℕ → PinchState × (ℤ × Bool)
pinch_frame s anchor prev spread =
    let units = max s.units_per_detent 1 in
    let acc = s.acc +ℤ sub_ℕ spread prev in
    let det = quot acc units in
    if s.engaged || leb pinch_engage_units (abs_diff spread anchor)
    then (
      record s { scroll_streak = 0; engaged = true; acc = acc -ℤ scale det units },
      (scale (clamp_detents det) 120, false),
    )
    else (record s { scroll_streak = 0 }, (pos 0, false))

-- Two contacts after the first such frame.
unfoldable pub next_frame : PinchState → ℕ → ℕ → Point → PinchState × (ℤ × Bool)
unfolding scroll_frame pinch_frame is_scroll
next_frame s anchor spread mid =
    let prev = get_or s.prev spread in
    let prev_mid : Point = get_or s.prev_mid mid in
    let mid_step = abs (mid.0 -ℤ prev_mid.0) + abs (mid.1 -ℤ prev_mid.1) in
    let t = record s { prev = some spread; prev_mid = some mid } in
    if is_scroll mid_step (abs_diff spread prev)
    then scroll_frame t spread
    else pinch_frame t anchor prev spread

-- The first frame of two contacts only sets the anchor.
unfoldable pub measured_frame : Option ℕ → PinchState → ℕ → Point → PinchState × (ℤ × Bool)
unfolding next_frame
measured_frame none s spread mid =
    (record s { anchor = some spread; prev = some spread; prev_mid = some mid }, (pos 0, false))
measured_frame (some anchor) s spread mid = next_frame s anchor spread mid

-- The zoom in 120ths of a detent, and whether a gesture has ended.
unfoldable pub feed_contacts : PinchState → List Point → PinchState × (ℤ × Bool)
unfolding measured_frame lifted spread_of mid_of
feed_contacts s (a ∷ (b ∷ [])) = measured_frame s.anchor s (spread_of a b) (mid_of a b)
feed_contacts s _ = (lifted s, (pos 0, s.engaged))
