-- ===== src/Tests/LayoutRuns.antt =====
-- Runs of the layout, the coordinates and the datagrams.
use thekvm.Prelude.{ℕ, ◌<◌, ◌≤◌, ◌≡◌, ◌↔◌, refl, List, [], ◌∷◌, arith, length}
use thekvm.Prelude.Int.{pos, negsuc}
use thekvm.Prelude.Result.{ok}
use thekvm.Geometry.{bottom, fixed_left, map_coordinate}
use thekvm.Geometry.Mapping.{map_coordinate_lem}
use thekvm.Event.{mouse_move}
use thekvm.Layout.{validate}
use thekvm.Layout.Crossing.{landing}
use thekvm.Layout.Landing.{landing-outside}
use thekvm.Layout.Validity.{IsValid, validate_iff}
use thekvm.Wire.{DatagramInput, encode_input_datagram, decode_input_datagram}
use thekvm.Wire.RoundTrip.{decode-encode_input_datagram}
use thekvm.Tests.Data.{desk, laptop, pair}

validate_iff_example : (validate pair ≡ ok tt) ↔ IsValid pair
validate_iff_example = validate_iff pair

landing-outside_example : 800 ≤ (landing fixed_left bottom 1919 1079 desk laptop).1
landing-outside_example =
    landing-outside fixed_left bottom 1079 desk laptop refl refl (omega arith) (omega arith)
      (omega arith)

map_coordinate_lem_example :
    (map_coordinate 10 1080 800 ≤ map_coordinate 1000 1080 800)
    × (map_coordinate 1000 1080 800 < 800)
map_coordinate_lem_example = map_coordinate_lem 10 1000 1080 800 (omega arith) (omega arith)

-- A motion of (-2, 300) with the sequence number 9.
abbrev motion : DatagramInput
motion = record { sequence = 9; event = mouse_move (negsuc 1) (pos 300) }

abbrev motion_bytes : List ℕ
motion_bytes =
    1
    ∷ (1
        ∷ (0
            ∷ (0
                ∷ (0
                    ∷ (0
                        ∷ (0
                            ∷ (0
                                ∷ (0
                                    ∷ (9
                                        ∷ (255
                                            ∷ (255
                                                ∷ (255
                                                    ∷ (254
                                                        ∷ (0 ∷ (0 ∷ (1 ∷ (44 ∷ [])))))))))))))))))

decode-encode_input_datagram_example :
    (decode_input_datagram motion_bytes ≡ ok motion) × (length motion_bytes ≤ 1200)
unfolding encode_input_datagram
decode-encode_input_datagram_example =
    decode-encode_input_datagram motion motion_bytes (omega arith)
      ((omega arith, omega arith), (omega arith, omega arith)) refl
