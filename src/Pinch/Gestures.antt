-- ===== src/Pinch/Gestures.antt =====
-- kvm-platform/src/mt_pinch.rs: whole gestures, as runs of frames with two contacts.
use thekvm.Prelude.{
  ℕ, suc, ◌+◌, ◌<◌, ◌≡◌, refl, ap, ◌∙◌, Bool, true, false, ◌&&◌, Option, some, List, [], ◌∷◌, ltb,
  leb, if◌then◌else◌, arith, length,
}
use thekvm.Prelude.Int.{ℤ, pos, ◌+ℤ◌, ◌-ℤ◌, abs, abs_diff}
use thekvm.Pinch.{
  Point, PinchState, spread_of, mid_of, is_scroll, scroll_frame, pinch_frame, next_frame,
  measured_frame, feed_contacts, takeover_frames,
}

-- The machine after the frames, the sum of the zoom, and how often a gesture ended.
unfoldable pub outcome : PinchState → List (Point × Point) → PinchState × (ℤ × ℕ)
outcome s [] = (s, (pos 0, 0))
outcome s ((a, b) ∷ frames) =
    let r = feed_contacts s (a ∷ (b ∷ [])) in
    let rest = outcome r.0 frames in
    (rest.0, (r.1.0 +ℤ rest.1.0, (if r.1.1 then 1 else 0) + rest.1.1))

-- A frame moves the midpoint by more than twice what it moves the spread, above the noise.
abbrev pub scrolls : ℕ → Point → Point × Point → Bool
scrolls prev mid (a, b) =
    is_scroll (abs ((mid_of a b).0 -ℤ mid.0) + abs ((mid_of a b).1 -ℤ mid.1))
      (abs_diff (spread_of a b) prev)

-- Each frame scrolls from the one before.
abbrev pub IsScrolling : ℕ → Point → List (Point × Point) → Type 0
IsScrolling prev mid [] = Unit
IsScrolling prev mid ((a, b) ∷ frames) =
    (scrolls prev mid (a, b) ≡ true) × IsScrolling (spread_of a b) (mid_of a b) frames

-- The machine has a frame to compare with.
abbrev pub Follows : PinchState → ℕ → Point → Type 0
Follows s prev mid =
    (s.prev ≡ some prev) × (s.prev_mid ≡ some mid) × ((a : ℕ) × (s.anchor ≡ some a))

abbrev pub moved : PinchState → Point → Point → PinchState
moved s a b = record s { prev = some (spread_of a b); prev_mid = some (mid_of a b) }

next_scroll :
    (s : PinchState) (prev anchor : ℕ) (mid a b : Point)
    → s.prev ≡ some prev
    → s.prev_mid ≡ some mid
    → scrolls prev mid (a, b) ≡ true
    → next_frame s anchor (spread_of a b) (mid_of a b) ≡ scroll_frame (moved s a b) (spread_of a b)
unfolding next_frame
next_scroll s prev anchor mid a b p m e = rw (p, m) (rw e refl)

next_pinch :
    (s : PinchState) (prev anchor : ℕ) (mid a b : Point)
    → s.prev ≡ some prev
    → s.prev_mid ≡ some mid
    → scrolls prev mid (a, b) ≡ false
    → next_frame s anchor (spread_of a b) (mid_of a b)
      ≡ pinch_frame (moved s a b) anchor prev (spread_of a b)
unfolding next_frame
next_pinch s prev anchor mid a b p m e = rw (p, m) (rw e refl)

feed_next :
    (s : PinchState) (anchor : ℕ) (a b : Point)
    → s.anchor ≡ some anchor
    → feed_contacts s (a ∷ (b ∷ [])) ≡ next_frame s anchor (spread_of a b) (mid_of a b)
unfolding feed_contacts
feed_next s anchor a b k = ap (λ (o : Option ℕ). measured_frame o s (spread_of a b) (mid_of a b)) k

feed_scroll :
    (s : PinchState) (prev : ℕ) (mid a b : Point)
    → Follows s prev mid
    → scrolls prev mid (a, b) ≡ true
    → feed_contacts s (a ∷ (b ∷ [])) ≡ scroll_frame (moved s a b) (spread_of a b)
feed_scroll s prev mid a b (p, m, (anchor, k)) e =
    feed_next s anchor a b k ∙ next_scroll s prev anchor mid a b p m e

pub feed_pinch :
    (s : PinchState) (prev anchor : ℕ) (mid a b : Point)
    → s.prev ≡ some prev
    → s.prev_mid ≡ some mid
    → s.anchor ≡ some anchor
    → scrolls prev mid (a, b) ≡ false
    → feed_contacts s (a ∷ (b ∷ [])) ≡ pinch_frame (moved s a b) anchor prev (spread_of a b)
feed_pinch s prev anchor mid a b p m k e =
    feed_next s anchor a b k ∙ next_pinch s prev anchor mid a b p m e

-- How a run of scroll frames leaves the gesture: it ends, once, in the frame that makes five in a
-- row.
abbrev pub IsScrolledOut : PinchState → ℕ → PinchState × (ℤ × ℕ) → Type 0
IsScrolledOut s n (t, (zoom, ends)) =
    (zoom ≡ pos 0)
    × (t.engaged ≡ (s.engaged && ltb (s.scroll_streak + n) takeover_frames))
    × (ends ≡ (if s.engaged && leb takeover_frames (s.scroll_streak + n) then 1 else 0))

scroll_facts :
    (s : PinchState) (spread : ℕ)
    → (s.engaged ≡ true → s.scroll_streak < takeover_frames)
    → let r = scroll_frame s spread in
      (r.1.0 ≡ pos 0)
      × (r.0.prev ≡ s.prev)
      × (r.0.prev_mid ≡ s.prev_mid)
      × (r.0.anchor ≡ some spread)
      × (r.0.engaged ≡ (s.engaged && ltb (s.scroll_streak + 1) takeover_frames))
      × (r.1.1 ≡ (s.engaged && leb takeover_frames (s.scroll_streak + 1)))
      × (r.0.engaged ≡ true → r.0.scroll_streak ≡ s.scroll_streak + 1)
unfolding scroll_frame
scroll_facts s spread h = ground arith

scrolled_on :
    (s : PinchState) (n : ℕ) (r : PinchState × (ℤ × Bool)) (rest : PinchState × (ℤ × ℕ))
    → (s.engaged ≡ true → s.scroll_streak < takeover_frames)
    → r.1.0 ≡ pos 0
    → r.0.engaged ≡ (s.engaged && ltb (s.scroll_streak + 1) takeover_frames)
    → r.1.1 ≡ (s.engaged && leb takeover_frames (s.scroll_streak + 1))
    → (r.0.engaged ≡ true → r.0.scroll_streak ≡ s.scroll_streak + 1)
    → IsScrolledOut r.0 n rest
    → IsScrolledOut s (suc n) (rest.0, (r.1.0 +ℤ rest.1.0, (if r.1.1 then 1 else 0) + rest.1.1))
unfolding ◌+ℤ◌
scrolled_on s n r rest h z e d k i = ground arith

-- From a machine that has a frame to compare with, frames that each scroll never zoom; they end a
-- gesture that is under way in the frame that makes five scroll frames in a row, report the end
-- once, and start none.
pub outcome-IsScrolledOut :
    (s : PinchState) (prev : ℕ) (mid : Point) (frames : List (Point × Point))
    → (s.engaged ≡ true → s.scroll_streak < takeover_frames)
    → Follows s prev mid
    → IsScrolling prev mid frames
    → IsScrolledOut s (length frames) (outcome s frames)
unfolding outcome
outcome-IsScrolledOut s prev mid [] h f w = ground arith
outcome-IsScrolledOut s prev mid ((a, b) ∷ frames) h f (w, ws) =
    let first = feed_scroll s prev mid a b f w in
    let (zoom, p, m, k, going, end, streak) = scroll_facts (moved s a b) (spread_of a b) h in
    let r = scroll_frame (moved s a b) (spread_of a b) in
    let rest =
      outcome-IsScrolledOut r.0 (spread_of a b) (mid_of a b) frames (λ e. ground arith)
        (p, m, (spread_of a b, k)) ws in
    rw first (scrolled_on s (length frames) r (outcome r.0 frames) h zoom going end streak rest)
