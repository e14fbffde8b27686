-- ===== src/Layout/Arrange.antt =====
-- kvm-core/src/layout.rs: building and editing a Layout.
use thekvm.Prelude.{
  ℕ, ◌+◌, ◌^◌, ◌-◌, min, max, Bool, false, not, ◌&&◌, Option, none, some, List, [], ◌∷◌,
  if◌then◌else◌, find, update_first, any, is_some,
}
use thekvm.Prelude.Int.{pos, ltb_ℤ}
use thekvm.Prelude.Text.{Text, codes, text_eq, trim, is_empty, to_ascii_lowercase}
use thekvm.Prelude.Result.{Result, ok, ◌>>=◌, ◌>>◌, fail_if, ok_or}
use thekvm.Geometry.{Edge}
use thekvm.Layout.{Screen, Layout, screen, self_screen, beside, at_position, neighbor_for_edge}

abbrev pub self_screen_id : ℕ
self_screen_id = 1

abbrev pub first_peer_screen_id : ℕ
first_peer_screen_id = 2

display_name : Text → Text → Text
display_name name fallback =
    let trimmed = trim name in if is_empty trimmed then fallback else trimmed

unfoldable pub pair_default : Text → Text → Text → Layout
unfolding display_name
pair_default self_name peer_name peer_fingerprint = record {
  screens =
      record {
        id = self_screen_id;
        name = display_name self_name (codes "This computer");
        x = pos 0;
        y = pos 0;
        width = 1920;
        height = 1080;
        peer_fingerprint = none;
      }
      ∷ (record {
        id = first_peer_screen_id;
        name = display_name peer_name (codes "Other computer");
        x = pos 1;
        y = pos 0;
        width = 1920;
        height = 1080;
        peer_fingerprint = some (to_ascii_lowercase peer_fingerprint);
      }
          ∷ []);
  self_screen = some self_screen_id;
}

-- `screen.peer_fingerprint.as_deref() == Some(fingerprint)`
abbrev pub is_peer : Text → Screen → Bool
is_peer fingerprint s = elim s.peer_fingerprint [ none ↦ false | some f ↦ text_eq f fingerprint ]

unfoldable pub leads_to_peer : Layout → ℕ → Edge → Bool
leads_to_peer l me edge = elim (neighbor_for_edge l me edge) [
  | none ↦ false
  | some id ↦ elim (screen l id) [ none ↦ false | some s ↦ is_some s.peer_fingerprint ]
]

unfoldable pub peer_exit_edge : Layout → Option Edge
unfolding leads_to_peer
peer_exit_edge l = elim l.self_screen [
  | none ↦ none
  | some me ↦ find (leads_to_peer l me) (Edge.left ∷ (Edge.right ∷ (Edge.top ∷ (Edge.bottom ∷ []))))
]

unfoldable pub side_from : Screen → Screen → Option Edge
side_from me peer =
    if ltb_ℤ peer.x me.x
    then some Edge.left
    else if ltb_ℤ me.x peer.x
    then some Edge.right
    else if ltb_ℤ peer.y me.y
    then some Edge.top
    else if ltb_ℤ me.y peer.y
    then some Edge.bottom
    else none

unfoldable pub side_of_peer : Layout → Text → Option Edge
unfolding side_from
side_of_peer l fingerprint = elim (self_screen l) [
  | none ↦ none
  | some me ↦ elim (find (is_peer fingerprint) l.screens) [
    | none ↦ none
    | some peer ↦ side_from me peer
  ]
]

unfoldable pub max_id : List Screen → ℕ
max_id [] = 0
max_id (s ∷ ss) = max s.id (max_id ss)

-- `max.saturating_add(1).max(1)`
unfoldable pub next_screen_id : Layout → ℕ
unfolding max_id
next_screen_id l = max (min (max_id l.screens + 1) (2 ^ 32 - 1)) 1

pub data PlaceError : Type 0 where
  no_local_screen position_occupied no_linked_peer : PlaceError

unfoldable pub place_peer : Layout → Text → Edge → Result PlaceError Layout
place_peer l fingerprint side = do
  me ← ok_or (self_screen l) no_local_screen
  let p = beside side me.x me.y
  fail_if (any (λ s. not (is_peer fingerprint s) && at_position p s) l.screens) position_occupied
  peer ← ok_or (find (is_peer fingerprint) l.screens) no_linked_peer
  ok (record l {
    screens = update_first (is_peer fingerprint) (λ s. record s { x = p.0; y = p.1 }) l.screens;
  })
