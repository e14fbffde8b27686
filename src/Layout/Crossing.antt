-- ===== src/Layout/Crossing.antt =====
-- kvm-core/src/layout.rs: the crossing rule that the router and a receiver share, and the receiver's
-- stateless exit.
use thekvm.Prelude.{ℕ, ◌-◌, min, ◌&&◌, Option, none, some, ◌==◌, if◌then◌else◌}
use thekvm.Prelude.Int.{ℤ, pos, ◌+ℤ◌}
use thekvm.Geometry.{
  Edge, EdgeMode, is_double, is_horizontal, DoubleEdgeStyle, entry_for_exit, opposite,
  edge_for_overflow, map_coordinate, entry_target_coords, along_edge, span_along,
}
use thekvm.Layout.{Screen, Layout, screen, neighbor_for_edge, single_peer_screen}

-- The lone peer behind a horizontal edge in double mode.
lone_peer_target : Layout → ℕ → Option ℕ
lone_peer_target l me = elim (single_peer_screen l) [
  | none ↦ none
  | some peer ↦ if peer == me then none else some peer
]

unfoldable pub crossing_target_for : Layout → ℕ → Edge → EdgeMode → Option ℕ
unfolding lone_peer_target
crossing_target_for l me edge edge_mode = elim (neighbor_for_edge l me edge) [
  | some neighbour ↦ some neighbour
  | none ↦ if is_double edge_mode && is_horizontal edge then lone_peer_target l me else none
]

pub record EdgeHandoff : Type 0 where
  pub from : ℕ
  pub target : ℕ
  pub edge : Edge
  pub target_x : ℕ
  pub target_y : ℕ

-- Where a crossing of `edge` at (x, y) of one screen lands on another.
unfoldable pub landing : DoubleEdgeStyle → Edge → ℕ → ℕ → Screen → Screen → ℕ × ℕ
unfolding entry_for_exit opposite map_coordinate entry_target_coords along_edge span_along
landing style edge x y source target =
    let mapped =
      map_coordinate (along_edge edge x y) (span_along edge source.width source.height)
        (span_along edge target.width target.height) in
    entry_target_coords (opposite (entry_for_exit style edge)) target.width target.height mapped

unfoldable pub handoff_for_motion :
    Layout → ℕ → ℕ → ℕ → ℤ → ℤ → EdgeMode → DoubleEdgeStyle → Option EdgeHandoff
unfolding crossing_target_for landing edge_for_overflow
handoff_for_motion l screen_id x y dx dy edge_mode style = elim (screen l screen_id) [
  | none ↦ none
  | some source ↦
      let x' = min x (source.width - 1) in
      let y' = min y (source.height - 1) in
      elim (edge_for_overflow (pos x' +ℤ dx) (pos y' +ℤ dy) source.width source.height) [
        | none ↦ none
        | some edge ↦ elim (crossing_target_for l screen_id edge edge_mode) [
          | none ↦ none
          | some target ↦ elim (screen l target) [
            | none ↦ none
            | some target_screen ↦
                let at = landing style edge x' y' source target_screen in
                some (record {
                  from = screen_id;
                  target = target;
                  edge = edge;
                  target_x = at.0;
                  target_y = at.1;
                })
          ]
        ]
      ]
]
