-- ===== src/Layout.antt =====
-- kvm-core/src/layout.rs: the screen arrangement, its lookups and its validation.
pub mod Crossing
pub mod Arrange
pub mod Validity
pub mod Lookup
pub mod Resize
pub mod Landing
pub mod Fresh
pub mod Placing
pub mod Pairing
use thekvm.Prelude.{
  ℕ, ◌+◌, ◌-◌, min, Bool, true, false, ◌&&◌, ◌||◌, Option, none, some, List, [], ◌∷◌, ltb, leb,
  ◌==◌, if◌then◌else◌, length, find, update_first, any,
}
use mathlib.Core.Option
use thekvm.Prelude.Int.{ℤ, pos, negsuc, ◌+ℤ◌, eqb_ℤ, wrap_i32}
use thekvm.Prelude.Text.{Text, text_eq, trim, is_empty}
use thekvm.Prelude.Result.{Result, ok, err, ◌>>=◌, ◌>>◌, fail_if}
use thekvm.Geometry.{Edge}

-- Grid positions `x` and `y` are i32, sizes u32. A screen id is its u32.
pub record Screen : Type 0 where
  pub id : ℕ
  pub name : Text
  pub x : ℤ
  pub y : ℤ
  pub width : ℕ
  pub height : ℕ
  pub peer_fingerprint : Option Text

pub record Layout : Type 0 where
  pub screens : List Screen
  pub self_screen : Option ℕ

abbrev pub has_id : ℕ → Screen → Bool
has_id i s = s.id == i

unfoldable pub screen : Layout → ℕ → Option Screen
screen l i = find (has_id i) l.screens

-- Adopts measured dims for one screen; the flag says whether anything was adopted.
unfoldable pub set_screen_size : Layout → ℕ → ℕ → ℕ → Layout × Bool
unfolding screen
set_screen_size l i width height =
    if width == 0 || height == 0 then (l, false) else elim (screen l i) [
      | none ↦ (l, false)
      | some found ↦ (
        record l {
          screens =
              update_first (has_id i) (λ s. record s { width = width; height = height }) l.screens;
        },
        true,
      )
    ]

unfoldable pub screen_by_name : Layout → Text → Option Screen
screen_by_name l name = find (λ s. text_eq s.name name) l.screens

unfoldable pub self_screen : Layout → Option Screen
unfolding screen
self_screen l = Option.bind l.self_screen (screen l)

-- The grid step behind an edge, in i32.
unfoldable pub beside : Edge → ℤ → ℤ → ℤ × ℤ
unfolding wrap_i32 ◌+ℤ◌
beside Edge.left x y = (wrap_i32 (x +ℤ negsuc 0), y)
beside Edge.right x y = (wrap_i32 (x +ℤ pos 1), y)
beside Edge.top x y = (x, wrap_i32 (y +ℤ negsuc 0))
beside Edge.bottom x y = (x, wrap_i32 (y +ℤ pos 1))

abbrev pub at_position : ℤ × ℤ → Screen → Bool
at_position p s = eqb_ℤ s.x p.0 && eqb_ℤ s.y p.1

unfoldable pub neighbor_for_edge : Layout → ℕ → Edge → Option ℕ
unfolding screen beside
neighbor_for_edge l me edge = elim (screen l me) [
  | none ↦ none
  | some mine ↦ Option.map (λ s. s.id) (find (at_position (beside edge mine.x mine.y)) l.screens)
]

-- The strict grid rule of `edge_target`.
unfoldable pub edge_target : Layout → ℕ → Edge → Option ℕ
unfolding neighbor_for_edge
edge_target l me edge = neighbor_for_edge l me edge

single_peer_loop : Option ℕ → List Screen → Option ℕ
single_peer_loop found [] = found
single_peer_loop found (s ∷ ss) = elim s.peer_fingerprint [
  | none ↦ single_peer_loop found ss
  | some f ↦ elim found [ some other ↦ none | none ↦ single_peer_loop (some s.id) ss ]
]

-- The peer's screen, when the layout links exactly one.
unfoldable pub single_peer_screen : Layout → Option ℕ
unfolding single_peer_loop
single_peer_screen l = single_peer_loop none l.screens

pub data LayoutError : Type 0 where
  too_many_screens : LayoutError
  empty_name : ℕ → LayoutError
  empty_geometry : ℕ → LayoutError
  duplicate_id : ℕ → LayoutError
  duplicate_position : ℤ × ℤ → LayoutError
  self_not_in_layout : ℕ → LayoutError

-- The loop of `validate`, with the sets of ids and positions seen so far; it returns the ids.
check_screens : List ℕ → List (ℤ × ℤ) → List Screen → Result LayoutError (List ℕ)
check_screens ids positions [] = ok ids
check_screens ids positions (s ∷ ss) =
    let rest = check_screens (s.id ∷ ids) ((s.x, s.y) ∷ positions) ss in
    if is_empty (trim s.name)
    then err (empty_name s.id)
    else if s.width == 0 || s.height == 0
    then err (empty_geometry s.id)
    else if any (λ i. i == s.id) ids
    then err (duplicate_id s.id)
    else if any (λ p. eqb_ℤ p.0 s.x && eqb_ℤ p.1 s.y) positions
    then err (duplicate_position (s.x, s.y))
    else rest

check_self : Option ℕ → List ℕ → Result LayoutError (Unit {0})
check_self none ids = ok tt
check_self (some me) ids = if any (λ i. i == me) ids then ok tt else err (self_not_in_layout me)

unfoldable pub validate : Layout → Result LayoutError (Unit {0})
unfolding check_screens check_self
validate l = do
  fail_if (ltb 64 (length l.screens)) too_many_screens
  ids ← check_screens [] [] l.screens
  check_self l.self_screen ids
