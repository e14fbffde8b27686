-- ===== src/Tests/PinchRuns.antt =====
-- Runs of the trackpad pinch.
use thekvm.Prelude.{ℕ, ◌≡◌, refl, true, false, none, some, List, [], ◌∷◌, All, arith}
use thekvm.Prelude.Int.{pos, negsuc, ◌+ℤ◌, ◌-ℤ◌, sub_ℕ, scale, quot}
use thekvm.Pinch.{Point, PinchState, feed_contacts, clamp_detents, is_scroll, mid_of, spread_of}
use thekvm.Pinch.Frames.{IsTracking, feed_contacts-IsTracking, IsReport, feed_contacts-IsReport}
use thekvm.Pinch.Gestures.{outcome, IsScrolledOut, outcome-IsScrolledOut}
use thekvm.Pinch.Spent.{last_spread, outcome_spent}
use thekvm.Pinch.Tap.{
  RawEv, open_node, poll, IsTap, IsQuiet, IsGesture, ingest-IsTap, ingest, poll-IsQuiet,
}

abbrev at : ℕ → Point
at x = (pos x, pos 0)

abbrev still : PinchState
still = record {
  anchor = none;
  prev = none;
  prev_mid = none;
  acc = pos 0;
  units_per_detent = 10;
  engaged = false;
  scroll_streak = 0;
}

spread_zooms_in :
    (outcome still ((at 0, at 100) ∷ ((at 0, at 120) ∷ ((at 0, at 300) ∷ [])))).1.0 ≡ pos 2160
unfolding outcome feed_contacts clamp_detents ◌+ℤ◌ ◌-ℤ◌ scale quot
spread_zooms_in = refl

abbrev engaged_at_300 : PinchState
engaged_at_300 = record still {
  anchor = some 100;
  prev = some 300;
  prev_mid = some (at 150);
  engaged = true;
}

engaged_at_300-IsTracking : IsTracking engaged_at_300
engaged_at_300-IsTracking = ground arith

closing_zooms_out : (feed_contacts engaged_at_300 (at 0 ∷ (at 210 ∷ []))).1.0 ≡ negsuc 1079
unfolding feed_contacts clamp_detents ◌+ℤ◌ ◌-ℤ◌ scale quot
closing_zooms_out = refl

feed_contacts-IsTracking_example :
    IsTracking (feed_contacts engaged_at_300 (at 0 ∷ (at 210 ∷ []))).0
feed_contacts-IsTracking_example =
    feed_contacts-IsTracking engaged_at_300 (at 0 ∷ (at 210 ∷ [])) engaged_at_300-IsTracking

feed_contacts-IsReport_example : IsReport engaged_at_300 (feed_contacts engaged_at_300 (at 0 ∷ []))
feed_contacts-IsReport_example =
    feed_contacts-IsReport engaged_at_300 (at 0 ∷ []) engaged_at_300-IsTracking

-- Two fingers that move together by 40 units a frame.
abbrev panning : List (Point × Point)
panning =
    (at 40, at 340)
    ∷ ((at 80, at 380)
        ∷ ((at 120, at 420) ∷ ((at 160, at 460) ∷ ((at 200, at 500) ∷ ((at 240, at 540) ∷ [])))))

outcome-IsScrolledOut_example : IsScrolledOut engaged_at_300 6 (outcome engaged_at_300 panning)
unfolding is_scroll mid_of spread_of ◌-ℤ◌ ◌+ℤ◌ quot
outcome-IsScrolledOut_example =
    outcome-IsScrolledOut engaged_at_300 300 (at 150) panning (λ e. omega arith)
      (refl, refl, (100, refl)) (refl, (refl, (refl, (refl, (refl, (refl, tt))))))

abbrev pulling : List (Point × Point)
pulling = (at 0, at 307) ∷ ((at 0, at 315) ∷ ((at 0, at 290) ∷ []))

outcome_spent_example :
    let r = outcome engaged_at_300 pulling in
    (scale r.1.0 10 +ℤ scale r.0.acc 120 ≡ scale (pos 0 +ℤ sub_ℕ (last_spread 300 pulling) 300) 120)
    × (r.0.engaged ≡ true)
unfolding is_scroll mid_of spread_of ◌-ℤ◌ ◌+ℤ◌ quot
outcome_spent_example =
    outcome_spent engaged_at_300 100 300 (at 150) pulling engaged_at_300-IsTracking refl refl refl
      refl ((refl, omega arith, (refl, omega arith, (refl, omega arith, tt))))

abbrev touched : List RawEv
touched =
    record { kind = 3; code = 0x39; value = pos 7 }
    ∷ (record { kind = 3; code = 0x35; value = pos 100 }
        ∷ (record { kind = 0; code = 0; value = pos 0 } ∷ []))

ingest-IsTap_example :
    IsTap (ingest (open_node (pos 3072)) (record { kind = 3; code = 0x39; value = pos 7 }))
unfolding open_node
ingest-IsTap_example =
    ingest-IsTap (open_node (pos 3072)) (record { kind = 3; code = 0x39; value = pos 7 })
      (ground arith, tt, tt)

poll-IsQuiet_example :
    All IsQuiet (poll ((open_node (pos 3072), touched) ∷ [])).0
    × IsGesture (poll ((open_node (pos 3072), touched) ∷ [])).1
unfolding open_node
poll-IsQuiet_example =
    poll-IsQuiet ((open_node (pos 3072), touched) ∷ []) ((((ground arith, tt, tt), refl), tt))
