-- ===== src/Geometry/Bounds.antt =====
-- Where steps, clamps and landings lie.
use thekvm.Prelude.{ℕ, ◌<◌, ◌≡◌, none, some, arith}
use thekvm.Prelude.Int.{ℤ, pos_part, neg_part}
use thekvm.Geometry.{
  Edge, left, right, top, bottom, edge_for_overflow, overflow_px, clamp_span, entry_target_coords,
  span_along,
}

-- A step that leaves through no edge lies on the screen.
pub edge_for_overflow-none :
    (x y : ℤ) (w h : ℕ)
    → edge_for_overflow x y w h ≡ none
    → (pos_part x < w) × (pos_part y < h) × (neg_part x ≡ 0) × (neg_part y ≡ 0)
unfolding edge_for_overflow
edge_for_overflow-none x y w h e = ground arith

-- A step through an edge goes past it by at least a pixel.
pub overflow_px_pos :
    (x y : ℤ) (w h : ℕ) (edge : Edge)
    → 0 < w
    → 0 < h
    → edge_for_overflow x y w h ≡ some edge
    → 0 < overflow_px edge x y w h
unfolding edge_for_overflow overflow_px
overflow_px_pos x y w h left pw ph e = ground arith
overflow_px_pos x y w h right pw ph e = ground arith
overflow_px_pos x y w h top pw ph e = ground arith
overflow_px_pos x y w h bottom pw ph e = ground arith

pub clamp_span-lt : (z : ℤ) (span : ℕ) → 0 < span → clamp_span z span < span
unfolding clamp_span
clamp_span-lt z span h = ground arith

-- A landing point lies on the target if the mapped coordinate does.
pub entry_target_coords-lt :
    (edge : Edge) (w h mapped : ℕ)
    → 0 < w
    → 0 < h
    → mapped < span_along edge w h
    → ((entry_target_coords edge w h mapped).0 < w) × ((entry_target_coords edge w h mapped).1 < h)
unfolding entry_target_coords span_along
entry_target_coords-lt left w h mapped pw ph m = ground arith
entry_target_coords-lt right w h mapped pw ph m = ground arith
entry_target_coords-lt top w h mapped pw ph m = ground arith
entry_target_coords-lt bottom w h mapped pw ph m = ground arith
