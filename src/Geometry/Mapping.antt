-- ===== src/Geometry/Mapping.antt =====
-- Facts about `map_coordinate`, the proportional map between two edges.
use thekvm.Prelude.{ℕ, ◌-◌, ◌*◌, ◌/◌, min, ◌≤◌, ◌<◌, ◌≡◌, arith}
use native.Mathlib.Nat.{div-le_of_le-mul, le-div_iff_mul-le, mul-div_cancel_left, div-mul-le_self}
use thekvm.Geometry.{map_coordinate}

-- `a` parts of `b`, taken of `c`, are at most `c`.
scaled-le : (a b c : ℕ) → a ≤ b → a * c / b ≤ c
scaled-le a b c h = div-le_of_le-mul b (grind arith)

mul_mono : (a b c : ℕ) → a ≤ b → a * c ≤ b * c
mul_mono a b c h = grind arith

scaled_mono : (a b c k : ℕ) → 0 < k → a ≤ b → a * c / k ≤ b * c / k
scaled_mono a b c k pk h =
    (le-div_iff_mul-le pk).1 (omega (arith, div-mul-le_self (a * c) k, mul_mono a b c h))

-- The image lies on a target edge that is not empty.
pub map_coordinate-lt : (v s t : ℕ) → 0 < t → map_coordinate v s t < t
unfolding map_coordinate
map_coordinate-lt v s t h = ground (arith, scaled-le (min v (s - 1)) (s - 1) (t - 1) (omega arith))

-- The map keeps the order.
pub map_coordinate_mono : (v w s t : ℕ) → v ≤ w → map_coordinate v s t ≤ map_coordinate w s t
unfolding map_coordinate
map_coordinate_mono v w s t h =
    ground (arith, scaled_mono (min v (s - 1)) (min w (s - 1)) (t - 1) (s - 1))

-- The map keeps the order of the positions, and every image lies on a target edge that is not empty.
pub map_coordinate_lem :
    (v w s t : ℕ)
    → v ≤ w
    → 0 < t
    → (map_coordinate v s t ≤ map_coordinate w s t) × (map_coordinate w s t < t)
map_coordinate_lem v w s t h p = (map_coordinate_mono v w s t h, map_coordinate-lt w s t p)

-- The ends of a source edge of more than one pixel go to the ends of a target edge that is not empty.
pub map_coordinate_ends :
    (s t : ℕ) → 1 < s → 0 < t → (map_coordinate 0 s t ≡ 0) × (map_coordinate (s - 1) s t ≡ t - 1)
unfolding map_coordinate
map_coordinate_ends s t hs ht = (
  ground (arith, div-le_of_le-mul (s - 1) {m = min 0 (s - 1) * (t - 1)} {n = 0} (grind arith)),
  ground (arith, mul-div_cancel_left (t - 1) {n = s - 1} (omega arith)),
)
