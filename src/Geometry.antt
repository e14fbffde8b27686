-- ===== src/Geometry.antt =====
-- kvm-core/src/layout.rs: edges, and the pixel arithmetic that the router and the layout share.
pub mod Bounds
pub mod Mapping
use thekvm.Prelude.{
  ℕ, ◌-◌, ◌*◌, ◌/◌, min, Bool, true, false, Option, none, some, leb, if◌then◌else◌,
}
use thekvm.Prelude.Int.{ℤ, pos, negsuc, pos_part, neg_part, ◌+ℤ◌}

pub data Edge : Type 0 where
  left right top bottom : Edge

unfoldable pub opposite : Edge → Edge
opposite left = right
opposite right = left
opposite top = bottom
opposite bottom = top

abbrev pub edge_eq : Edge → Edge → Bool
edge_eq left left = true
edge_eq right right = true
edge_eq top top = true
edge_eq bottom bottom = true
edge_eq _ _ = false

-- `option == Some(edge)`
abbrev pub is_edge : Option Edge → Edge → Bool
is_edge none e = false
is_edge (some d) e = edge_eq d e

-- `matches!(edge, Edge::Left | Edge::Right)`
abbrev pub is_horizontal : Edge → Bool
is_horizontal left = true
is_horizontal right = true
is_horizontal _ = false

-- Config::EdgeMode
pub data EdgeMode : Type 0 where
  single double : EdgeMode

abbrev pub is_double : EdgeMode → Bool
is_double single = false
is_double double = true

pub data DoubleEdgeStyle : Type 0 where
  mirror fixed_left fixed_right : DoubleEdgeStyle

abbrev pub is_mirror : DoubleEdgeStyle → Bool
is_mirror mirror = true
is_mirror _ = false

unfoldable pub entry_for_exit : DoubleEdgeStyle → Edge → Edge
unfolding opposite
entry_for_exit mirror exit = opposite exit
entry_for_exit fixed_left exit = left
entry_for_exit fixed_right exit = right

abbrev pub entry_inset_px : ℕ
entry_inset_px = 32

abbrev pub is_neg : ℤ → Bool
is_neg (pos n) = false
is_neg (negsuc n) = true

-- `value >= i64::from(bound)`
abbrev pub reaches : ℤ → ℕ → Bool
reaches (pos n) w = leb w n
reaches (negsuc n) w = false

-- The edge that a step to (next_x, next_y) leaves through.
unfoldable pub edge_for_overflow : ℤ → ℤ → ℕ → ℕ → Option Edge
edge_for_overflow next_x next_y width height =
    if is_neg next_x
    then some left
    else if reaches next_x width
    then some right
    else if is_neg next_y
    then some top
    else if reaches next_y height
    then some bottom
    else none

-- How far past an edge the step lands, 0 if it does not reach it: `(-next_x).max(0)` and
-- `(next_x - (width - 1)).max(0)`, and so for the other axis.
unfoldable pub overflow_px : Edge → ℤ → ℤ → ℕ → ℕ → ℕ
overflow_px left next_x next_y width height = neg_part next_x
overflow_px right next_x next_y width height = pos_part next_x - (width - 1)
overflow_px top next_x next_y width height = neg_part next_y
overflow_px bottom next_x next_y width height = pos_part next_y - (height - 1)

unfoldable pub edge_overflow : ℕ → ℕ → ℕ → ℕ → ℤ → ℤ → Option (Edge × ℕ)
unfolding edge_for_overflow overflow_px
edge_overflow width height x y dx dy =
    let next_x = pos x +ℤ dx in
    let next_y = pos y +ℤ dy in
    elim (edge_for_overflow next_x next_y width height) [
      | none ↦ none
      | some edge ↦ some (edge, overflow_px edge next_x next_y width height)
    ]

-- Pixels between a position and one screen edge.
unfoldable pub distance_from_edge : Edge → ℕ → ℕ → ℕ → ℕ → ℕ
distance_from_edge left x y width height = x
distance_from_edge right x y width height = width - 1 - x
distance_from_edge top x y width height = y
distance_from_edge bottom x y width height = height - 1 - y

-- Proportional position along an edge; the product is taken in u64, where it fits.
unfoldable pub map_coordinate : ℕ → ℕ → ℕ → ℕ
map_coordinate value source_span target_span =
    if leb source_span 1
    then 0
    else if leb target_span 1
    then 0
    else min value (source_span - 1) * (target_span - 1) / (source_span - 1)

-- Where a crossing lands on a target of the given size.
unfoldable pub entry_target_coords : Edge → ℕ → ℕ → ℕ → ℕ × ℕ
entry_target_coords left width height mapped = (width - 1 - entry_inset_px, mapped)
entry_target_coords right width height mapped = (min entry_inset_px (width - 1), mapped)
entry_target_coords top width height mapped = (mapped, height - 1 - entry_inset_px)
entry_target_coords bottom width height mapped = (mapped, min entry_inset_px (height - 1))

-- `value.clamp(0, span - 1)`
unfoldable pub clamp_span : ℤ → ℕ → ℕ
clamp_span (pos n) span = min n (span - 1)
clamp_span (negsuc n) span = 0

-- The coordinate that runs along an edge, and the spans of a screen along it.
unfoldable pub along_edge : Edge → ℕ → ℕ → ℕ
along_edge edge x y = if is_horizontal edge then y else x

unfoldable pub span_along : Edge → ℕ → ℕ → ℕ
span_along edge width height = if is_horizontal edge then height else width
