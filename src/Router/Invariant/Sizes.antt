-- ===== src/Router/Invariant/Sizes.antt =====
-- The invariant under adopted screen sizes.
use thekvm.Prelude.{
  ℕ, ◌<◌, ◌≤◌, ◌≡◌, ◌≢◌, ap, ◌∙◌, true, ◌==◌, if◌then◌else◌, inl, inr, some, arith, find, ==_refl,
  Bool-cases, Option-cases,
}
use thekvm.Prelude.Text.{Text}
use thekvm.Prelude.Result.{ok}
use thekvm.Layout.{Screen, Layout, screen, set_screen_size, validate}
use thekvm.Layout.Arrange.{is_peer}
use thekvm.Layout.Validity.{validate_iff, screen-IsSound}
use thekvm.Layout.Lookup.{screen_of_find}
use thekvm.Layout.Resize.{set_screen_size-IsValid, screen-set_screen_size}
use thekvm.Router.{EdgeRouter}
use thekvm.Router.Settings.{
  shrink_local, adopt_local, adopt_local_screen_size, shrink_peer, adopt_peer, adopt_peer_at,
  adopt_peer_screen_size,
}
use thekvm.Router.Invariant.{OnScreen, Inv}

-- A screen of a resized layout is at least as large as the clamp allows.
module _ (l : Layout) (i w h : ℕ) (valid : validate l ≡ ok tt)
    (done : (set_screen_size l i w h).1 ≡ true) where
  abbrev l' : Layout
  l' = (set_screen_size l i w h).0

  sized-valid : validate l' ≡ ok tt
  sized-valid = (validate_iff l').1 (set_screen_size-IsValid l i w h ((validate_iff l).0 valid))

  sized_screen :
      (s : Screen) → screen l i ≡ some s → screen l' i ≡ some (record s { width = w; height = h })
  sized_screen s e =
      screen-set_screen_size l i w h i s done e
      ∙ ap (λ b. some (if b then record s { width = w; height = h } else s)) (==_refl i)

  -- A point stays on its screen if it is clamped to the new size wherever that screen is resized.
  sized_point :
      (j x y px py : ℕ)
      → OnScreen l j x y
      → ((i == j) ≡ true → (px < w) × (py < h))
      → (i ≢ j → (px ≤ x) × (py ≤ y))
      → OnScreen l' j px py
  sized_point j x y px py (s, e, hx, hy) at off = elim (Bool-cases (i == j)) [
    | inl hit ↦
        let (bx, by) = at hit in
        (
          record s { width = w; height = h },
          screen-set_screen_size l i w h j s done e
              ∙ ap (λ b. some (if b then record s { width = w; height = h } else s)) hit,
          bx,
          by,
        )
    | inr miss ↦
        let (bx, by) = off (λ q. ground arith) in
        (
          s,
          screen-set_screen_size l i w h j s done e
              ∙ ap (λ b. some (if b then record s { width = w; height = h } else s)) miss,
          omega arith,
          omega arith,
        )
  ]

-- An adopted size of the local screen clamps both cursors to it.
pub adopt_local_screen_size-Inv :
    (r : EdgeRouter) (w h : ℕ) → Inv r → Inv (adopt_local_screen_size r w h).0
unfolding adopt_local_screen_size adopt_local shrink_local
adopt_local_screen_size-Inv r w h v =
    elim (Bool-cases (set_screen_size r.layout r.local_screen w h).1) [
      | inr refused ↦ rw (refused, adopt_local_screen_size) v
      | inl done ↦
          let (s, e, hx, hy) = v.home_cursor in
          let there = sized_screen r.layout r.local_screen w h v.valid done s e in
          let valid = sized-valid r.layout r.local_screen w h v.valid done in
          let good = screen-IsSound _ r.local_screen _ valid there in
          let pw = good.wide in
          let ph = good.high in
          rw (done, there, adopt_local_screen_size)
            (record {
              valid = valid;
              home_cursor =
                  sized_point r.layout r.local_screen w h v.valid done r.local_screen
                    r.local_cursor_x r.local_cursor_y _ _ v.home_cursor
                    (λ q. (omega arith, omega arith)) (λ q. (omega arith, omega arith));
              cursor =
                  sized_point r.layout r.local_screen w h v.valid done r.current_screen r.cursor_x
                    r.cursor_y _ _ v.cursor (λ q. (omega arith, omega arith))
                    (λ q. (omega arith, omega arith));
              placed = v.placed;
              below = omega arith;
            })
    ]

adopt_peer_at-Inv :
    (r : EdgeRouter) (w h : ℕ) (peer : Screen) (t : Screen)
    → peer.id ≢ r.local_screen
    → screen r.layout peer.id ≡ some t
    → Inv r
    → Inv (adopt_peer_at r w h (some peer)).0
unfolding adopt_peer_at adopt_peer shrink_peer
adopt_peer_at-Inv r w h peer t away e v =
    elim (Bool-cases (set_screen_size r.layout peer.id w h).1) [
      | inr refused ↦ rw (refused, adopt_peer_at) v
      | inl done ↦
          let there = sized_screen r.layout peer.id w h v.valid done t e in
          let valid = sized-valid r.layout peer.id w h v.valid done in
          let good = screen-IsSound _ peer.id _ valid there in
          let pw = good.wide in
          let ph = good.high in
          rw (done, there, adopt_peer_at)
            (record {
              valid = valid;
              home_cursor =
                  sized_point r.layout peer.id w h v.valid done r.local_screen r.local_cursor_x
                    r.local_cursor_y _ _ v.home_cursor (λ q. absurd (away (ground arith)))
                    (λ q. (omega arith, omega arith));
              cursor =
                  sized_point r.layout peer.id w h v.valid done r.current_screen r.cursor_x
                    r.cursor_y _ _ v.cursor (λ q. (ground arith, ground arith))
                    (λ q. (ground arith, ground arith));
              placed = v.placed;
              below = omega arith;
            })
    ]

-- A peer's adopted size clamps the cursor while that peer is driven; the local screen carries no
-- peer's fingerprint.
pub adopt_peer_screen_size-Inv :
    (r : EdgeRouter) (fingerprint : Text) (w h : ℕ)
    → ((p : Screen) → find (is_peer fingerprint) r.layout.screens ≡ some p → p.id ≢ r.local_screen)
    → Inv r
    → Inv (adopt_peer_screen_size r fingerprint w h).0
unfolding adopt_peer_screen_size
adopt_peer_screen_size-Inv r fingerprint w h away v =
    elim (Option-cases (find (is_peer fingerprint) r.layout.screens)) [
      | inl q ↦ rw (q, adopt_peer_screen_size) (unfold adopt_peer_at in v)
      | inr (p, q) ↦
          let (t, e) = screen_of_find r.layout (is_peer fingerprint) p q in
          rw (q, adopt_peer_screen_size) (adopt_peer_at-Inv r w h p t (away p q) e v)
    ]
