-- ===== src/Pinch/Spent.antt =====
-- kvm-platform/src/mt_pinch.rs: the zoom of a gesture adds up to what the fingers moved.
use native.Mathlib.Nat.{div-lt_iff_lt-mul}
use thekvm.Prelude.{
  ◌/◌, ℕ, ◌+◌, ◌*◌, ◌<◌, ◌≡◌, refl, ap, sym, ◌∙◌, Bool, true, false, some, List, [], ◌∷◌, max,
  arith,
}
use thekvm.Prelude.Int.{
  ℤ, pos, negsuc, ◌+ℤ◌, ◌-ℤ◌, abs, abs_diff, sub_ℕ, quot, scale, int_laws, eq_of_parts, +ℤ_parts,
  +ℤ_assoc, sub_ℕ_parts, scale_parts,
}
use mathlib.Core.Path.{subst}
use thekvm.Pinch.{Point, PinchState, spread_of, mid_of, clamp_detents, pinch_frame}
use thekvm.Pinch.Frames.{IsTracking, feed_contacts-IsTracking}
use thekvm.Pinch.Gestures.{outcome, scrolls, moved, feed_pinch}

scale_add : (a b : ℤ) (d : ℕ) → scale (a +ℤ b) d ≡ scale a d +ℤ scale b d
scale_add a b d =
    let (pa, na) = scale_parts a d in
    let (pb, nb) = scale_parts b d in
    let (ps, ns) = scale_parts (a +ℤ b) d in
    let e = ap (λ (t : ℕ). t * d) (+ℤ_parts a b) in
    let whole = +ℤ_parts (scale a d) (scale b d) in
    eq_of_parts (scale (a +ℤ b) d) (scale a d +ℤ scale b d) (grind arith)

scale_comm : (a : ℤ) (d e : ℕ) → scale (scale a d) e ≡ scale (scale a e) d
scale_comm a d e =
    let (p, n) = scale_parts a d in
    let (q, m) = scale_parts a e in
    let (pp, nn) = scale_parts (scale a d) e in
    let (qq, mm) = scale_parts (scale a e) d in
    eq_of_parts (scale (scale a d) e) (scale (scale a e) d)
      (rw (pp, nn, qq, mm, p, n, q, m) (grind arith))

-- A movement of less than 1000 detents is not clamped.
quot_small : (a : ℤ) (d : ℕ) → 0 < d → abs a < 1000 * d → clamp_detents (quot a d) ≡ quot a d
unfolding clamp_detents quot
quot_small (pos n) d h k =
    let small : n / d < 1000 = (div-lt_iff_lt-mul h).1 (omega arith) in ground (arith, small)
quot_small (negsuc n) d h k =
    let small : (n + 1) / d < 1000 = (div-lt_iff_lt-mul h).1 (omega arith) in ground (arith, small)

-- Every frame moves the spread by less than 999 detents and does not scroll.
abbrev pub IsPinching : ℕ → ℕ → Point → List (Point × Point) → Type 0
IsPinching units prev mid [] = Unit
IsPinching units prev mid ((a, b) ∷ frames) =
    (scrolls prev mid (a, b) ≡ false)
    × (abs_diff (spread_of a b) prev < 999 * units)
    × IsPinching units (spread_of a b) (mid_of a b) frames

-- The spread of the last frame.
abbrev pub last_spread : ℕ → List (Point × Point) → ℕ
last_spread prev [] = prev
last_spread prev ((a, b) ∷ frames) = last_spread (spread_of a b) frames

split_off : (a b : ℤ) (d : ℕ) → scale b d +ℤ scale (a -ℤ b) d ≡ scale a d
split_off a b d =
    let whole : b +ℤ (a -ℤ b) ≡ a = omega int_laws in
    sym (scale_add b (a -ℤ b) d) ∙ ap (λ (x : ℤ). scale x d) whole

near_sum :
    (a : ℤ) (x y u : ℕ) → abs a < u → abs_diff x y < 999 * u → abs (a +ℤ sub_ℕ x y) < 1000 * u
unfolding ◌+ℤ◌
near_sum a x y u h k = ground arith

-- A frame of a gesture spends whole detents and keeps the rest.
pinch_spent :
    (s : PinchState) (anchor prev spread : ℕ)
    → s.engaged ≡ true
    → abs s.acc < max s.units_per_detent 1
    → abs_diff spread prev < 999 * max s.units_per_detent 1
    → let r = pinch_frame s anchor prev spread in
      (scale r.1.0 (max s.units_per_detent 1) +ℤ scale r.0.acc 120
        ≡ scale (s.acc +ℤ sub_ℕ spread prev) 120)
      × (r.0.engaged ≡ true)
      × (r.0.prev ≡ s.prev)
      × (r.0.prev_mid ≡ s.prev_mid)
      × (r.0.anchor ≡ s.anchor)
      × (r.0.units_per_detent ≡ s.units_per_detent)
unfolding pinch_frame
pinch_spent s anchor prev spread g h k =
    let u = max s.units_per_detent 1 in
    let acc = s.acc +ℤ sub_ℕ spread prev in
    let det = quot acc u in
    let near : abs acc < 1000 * u = near_sum s.acc spread prev u h k in
    rw (g, quot_small acc u (omega arith) near)
      (rw (scale_comm det 120 u) (split_off acc (scale det u) 120), refl, refl, refl, refl, refl)

regroup :
    (acc : ℤ) (last spread prev : ℕ)
    → acc +ℤ sub_ℕ spread prev +ℤ sub_ℕ last spread ≡ acc +ℤ sub_ℕ last prev
regroup acc last spread prev =
    let a = sub_ℕ_parts spread prev in
    let b = sub_ℕ_parts last spread in let c = sub_ℕ_parts last prev in omega int_laws

unmoved :
    (acc : ℤ) (u prev : ℕ) → scale (pos 0) u +ℤ scale acc 120 ≡ scale (acc +ℤ sub_ℕ prev prev) 120
unmoved acc u prev =
    let (z, n) = scale_parts (pos 0) u in
    let a = sub_ℕ_parts prev prev in
    let same : acc +ℤ sub_ℕ prev prev ≡ acc = omega int_laws in rw same (omega int_laws)

spent_on :
    (zoom rest acc end whole : ℤ) (left : ℤ) (u : ℕ)
    → scale zoom u +ℤ scale acc 120 ≡ scale whole 120
    → scale rest u +ℤ scale end 120 ≡ scale (acc +ℤ left) 120
    → scale (zoom +ℤ rest) u +ℤ scale end 120 ≡ scale (whole +ℤ left) 120
spent_on zoom rest acc end whole left u e f =
    ap (λ (x : ℤ). x +ℤ scale end 120) (scale_add zoom rest u)
    ∙ +ℤ_assoc (scale zoom u) (scale rest u) (scale end 120)
    ∙ ap (λ (x : ℤ). scale zoom u +ℤ x) (f ∙ scale_add acc left 120)
    ∙ sym (+ℤ_assoc (scale zoom u) (scale acc 120) (scale left 120))
    ∙ ap (λ (x : ℤ). x +ℤ scale left 120) e
    ∙ sym (scale_add whole left 120)

-- In a gesture whose frames do not scroll and each move the spread by less than 999 detents, no
-- movement is lost: the zoom reported over the whole run, times the units of a detent, with 120
-- times what is left unspent, is 120 times the change of the spread since the run began with what
-- was unspent then; and the gesture goes on.
pub outcome_spent :
    (s : PinchState) (anchor prev : ℕ) (mid : Point) (frames : List (Point × Point))
    → IsTracking s
    → s.engaged ≡ true
    → s.anchor ≡ some anchor
    → s.prev ≡ some prev
    → s.prev_mid ≡ some mid
    → IsPinching (max s.units_per_detent 1) prev mid frames
    → let r = outcome s frames in
      (scale r.1.0 (max s.units_per_detent 1) +ℤ scale r.0.acc 120
        ≡ scale (s.acc +ℤ sub_ℕ (last_spread prev frames) prev) 120)
      × (r.0.engaged ≡ true)
unfolding outcome
outcome_spent s anchor prev mid [] h g k p m w = (unmoved s.acc (max s.units_per_detent 1) prev, g)
outcome_spent s anchor prev mid ((a, b) ∷ frames) h g k p m (w, near, ws) =
    let first = feed_pinch s prev anchor mid a b p m k w in
    let t = moved s a b in
    let r = pinch_frame t anchor prev (spread_of a b) in
    let (spent, going, p', m', k', u) = pinch_spent t anchor prev (spread_of a b) g h.below near in
    let tracking : IsTracking r.0 =
      subst (λ (x : PinchState × (ℤ × Bool)). IsTracking x.0) first
        (feed_contacts-IsTracking s (a ∷ (b ∷ [])) h) in
    let rest =
      outcome_spent r.0 anchor (spread_of a b) (mid_of a b) frames tracking going (k' ∙ k) p' m'
        (rw u ws) in
    let end = outcome r.0 frames in
    let left = sub_ℕ (last_spread (spread_of a b) frames) (spread_of a b) in
    let onward =
      subst
        (λ (k : ℕ). scale end.1.0 (max k 1) +ℤ scale end.0.acc 120 ≡ scale (r.0.acc +ℤ left) 120) u
        rest.0 in
    let sum =
      spent_on r.1.0 end.1.0 r.0.acc end.0.acc (s.acc +ℤ sub_ℕ (spread_of a b) prev) left
        (max s.units_per_detent 1) spent onward in
    let total = regroup s.acc (last_spread (spread_of a b) frames) (spread_of a b) prev in
    rw first (sum ∙ ap (λ (x : ℤ). scale x 120) total, rest.1)
