-- ===== src/Layout/Landing.antt =====
-- Where crossings land on the target screen.
use thekvm.Prelude.{ℕ, ◌<◌, ◌≤◌, ◌-◌, false, ◌≡◌, ◌⊎◌, true, arith}
use thekvm.Geometry.{
  Edge, left, right, top, bottom, is_horizontal, DoubleEdgeStyle, mirror, fixed_left, fixed_right,
  is_mirror, entry_for_exit, opposite, map_coordinate, entry_target_coords, along_edge, span_along,
}
use thekvm.Geometry.Bounds.{entry_target_coords-lt}
use thekvm.Geometry.Mapping.{map_coordinate-lt, map_coordinate_ends}
use thekvm.Layout.{Screen}
use thekvm.Layout.Crossing.{landing}

-- The mapped coordinate fits the axis along which the landing edge runs.
module _ (t : Screen) (pw : 0 < t.width) (ph : 0 < t.height) (v s : ℕ) where
  mapped-lt :
      (edge entry : Edge)
      → span_along edge t.width t.height ≡ span_along entry t.width t.height
      → 0 < span_along edge t.width t.height
      → map_coordinate v s (span_along edge t.width t.height) < span_along entry t.width t.height
  mapped-lt edge entry same h =
      omega (arith, map_coordinate-lt v s (span_along edge t.width t.height) h)

span_along_pos :
    (edge : Edge) (t : Screen) → 0 < t.width → 0 < t.height → 0 < span_along edge t.width t.height
unfolding span_along
span_along_pos edge t pw ph = ground arith

span_along_entry :
    (style : DoubleEdgeStyle) (edge : Edge) (w h : ℕ)
    → (is_mirror style ≡ true) ⊎ (is_horizontal edge ≡ true)
    → span_along edge w h ≡ span_along (opposite (entry_for_exit style edge)) w h
unfolding span_along opposite entry_for_exit
span_along_entry mirror left w h c = ground arith
span_along_entry mirror right w h c = ground arith
span_along_entry mirror top w h c = ground arith
span_along_entry mirror bottom w h c = ground arith
span_along_entry fixed_left edge w h c = ground arith
span_along_entry fixed_right edge w h c = ground arith

-- A crossing lands on the target screen, in mirror style through any edge and in a fixed style
-- through a horizontal one.
pub landing-lt :
    (style : DoubleEdgeStyle) (edge : Edge) (x y : ℕ) (s t : Screen)
    → (is_mirror style ≡ true) ⊎ (is_horizontal edge ≡ true)
    → 0 < t.width
    → 0 < t.height
    → ((landing style edge x y s t).0 < t.width) × ((landing style edge x y s t).1 < t.height)
unfolding landing
landing-lt style edge x y s t c pw ph =
    entry_target_coords-lt (opposite (entry_for_exit style edge)) t.width t.height _ pw ph (
      mapped-lt t pw ph (along_edge edge x y) (span_along edge s.width s.height) edge
        (opposite (entry_for_exit style edge)) (span_along_entry style edge t.width t.height c)
        (span_along_pos edge t pw ph))

-- In a fixed style a crossing through the bottom or top edge at the right end of the screen lands
-- outside a target that is wider than high: the row is mapped over the target's width.
pub landing-outside :
    (style : DoubleEdgeStyle) (edge : Edge) (y : ℕ) (s t : Screen)
    → is_mirror style ≡ false
    → is_horizontal edge ≡ false
    → 1 < s.width
    → 0 < t.height
    → t.height < t.width
    → t.height ≤ (landing style edge (s.width - 1) y s t).1
unfolding landing along_edge span_along entry_target_coords opposite entry_for_exit
landing-outside fixed_left top y s t f v ws ht wide =
    omega (arith, (map_coordinate_ends s.width t.width ws (omega arith)).1)
landing-outside fixed_left bottom y s t f v ws ht wide =
    omega (arith, (map_coordinate_ends s.width t.width ws (omega arith)).1)
landing-outside fixed_right top y s t f v ws ht wide =
    omega (arith, (map_coordinate_ends s.width t.width ws (omega arith)).1)
landing-outside fixed_right bottom y s t f v ws ht wide =
    omega (arith, (map_coordinate_ends s.width t.width ws (omega arith)).1)
landing-outside fixed_left left y s t f v ws ht wide = cc
landing-outside fixed_left right y s t f v ws ht wide = cc
landing-outside fixed_right left y s t f v ws ht wide = cc
landing-outside fixed_right right y s t f v ws ht wide = cc
landing-outside mirror edge y s t f v ws ht wide = cc
