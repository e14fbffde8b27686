-- ===== src/Layout/Pairing.antt =====
-- The arrangement of a fresh pairing, `Layout::pair_default`.
use thekvm.Prelude.{◌≡◌, refl, some, find}
use thekvm.Prelude.Int.{wrap_i32, ◌+ℤ◌}
use thekvm.Prelude.Text.{Text, text_eq_refl, to_ascii_lowercase}
use mathlib.Core.Option
use thekvm.Geometry.{left, right}
use thekvm.Layout.{screen, self_screen, beside, neighbor_for_edge}
use thekvm.Layout.Arrange.{
  pair_default, peer_exit_edge, side_of_peer, side_from, leads_to_peer, self_screen_id,
  first_peer_screen_id,
}

-- In the default arrangement of a pairing, whatever the names and the fingerprint, the peer is behind
-- the right edge of the local screen, which is behind the left edge of the peer; the right edge is
-- the exit to the peer, and the side on which the peer's fingerprint is found.
pub pair_default_lem :
    (self_name peer_name fingerprint : Text)
    → (neighbor_for_edge (pair_default self_name peer_name fingerprint) self_screen_id right
        ≡ some first_peer_screen_id)
      × (neighbor_for_edge (pair_default self_name peer_name fingerprint) first_peer_screen_id left
          ≡ some self_screen_id)
      × (peer_exit_edge (pair_default self_name peer_name fingerprint) ≡ some right)
      × (side_of_peer
            (pair_default self_name peer_name fingerprint)
            (to_ascii_lowercase fingerprint)
          ≡ some right)
unfolding pair_default peer_exit_edge side_of_peer side_from leads_to_peer neighbor_for_edge beside
    screen self_screen find wrap_i32 ◌+ℤ◌ Option.bind
pair_default_lem self_name peer_name fingerprint =
    (refl, refl, refl, rw (text_eq_refl (to_ascii_lowercase fingerprint), side_of_peer) refl)
