-- ===== src/Layout/Lookup.antt =====
-- Neighbours and crossing targets of a layout.
use mathlib.Core.Path.{subst}
use thekvm.Prelude.{
  ℕ, ◌≡◌, sym, ap, ◌∙◌, ◌≢◌, ◌⊎◌, inl, inr, Bool, true, Option, none, some, List, [], ◌∷◌, ==_refl,
  arith, find, find-passes, find_found, find-any, any-find, any, Distinct-unique, Option-cases,
}
use thekvm.Prelude.Int.{ℤ, pos, negsuc, IsI32, eqb_ℤ_iff, wrap_i32, ◌+ℤ◌}
use thekvm.Geometry.{Edge, opposite, EdgeMode}
use thekvm.Layout.{
  Screen, Layout, screen, has_id, at_position, beside, neighbor_for_edge, single_peer_loop,
  single_peer_screen,
}
use thekvm.Layout.Crossing.{crossing_target_for}
use thekvm.Layout.Validity.{IsValid, position}

pub screen-id : (l : Layout) (i : ℕ) (s : Screen) → screen l i ≡ some s → s.id ≡ i
unfolding screen
screen-id l i s e = let h = find-passes (has_id i) l.screens e in ground arith

-- A screen that some search finds is found by its id.
pub screen_of_find :
    (l : Layout) (q : Screen → Bool) (s : Screen)
    → find q l.screens ≡ some s
    → (t : Screen) × (screen l s.id ≡ some t)
unfolding screen
screen_of_find l q s e = find_found (has_id s.id) q l.screens s e (==_refl s.id)

-- A neighbour is the screen at the position beside.
pub neighbor-parts :
    (l : Layout) (me : ℕ) (edge : Edge) (t : ℕ)
    → neighbor_for_edge l me edge ≡ some t
    → (mine : Screen) × (s : Screen) × (screen l me ≡ some mine)
      × (find (at_position (beside edge mine.x mine.y)) l.screens ≡ some s)
      × (s.id ≡ t)
unfolding neighbor_for_edge
neighbor-parts l me edge t e = elim (Option-cases (screen l me)) [
  | inl q ↦ absurd (ground arith)
  | inr (mine, q) ↦ elim (Option-cases (find (at_position (beside edge mine.x mine.y)) l.screens)) [
    | inl q' ↦ absurd (ground arith)
    | inr (s, q') ↦ (mine, s, q, q', ground arith)
  ]
]

at_position-eq : (p : ℤ × ℤ) (s : Screen) → at_position p s ≡ true → (s.x ≡ p.0) × (s.y ≡ p.1)
at_position-eq (px, py) s h = ground (arith, eqb_ℤ_iff s.x px, eqb_ℤ_iff s.y py)

down-ne : (x : ℤ) → wrap_i32 (x +ℤ negsuc 0) ≢ x
unfolding wrap_i32 ◌+ℤ◌
down-ne (pos n) e = ground arith
down-ne (negsuc n) e = ground arith

up-ne : (x : ℤ) → wrap_i32 (x +ℤ pos 1) ≢ x
unfolding wrap_i32 ◌+ℤ◌
up-ne (pos n) e = ground arith
up-ne (negsuc n) e = ground arith

up-down : (x : ℤ) → IsI32 x → wrap_i32 (wrap_i32 (x +ℤ negsuc 0) +ℤ pos 1) ≡ x
unfolding wrap_i32 ◌+ℤ◌
up-down (pos n) h = ground arith
up-down (negsuc n) h = ground arith

down-up : (x : ℤ) → IsI32 x → wrap_i32 (wrap_i32 (x +ℤ pos 1) +ℤ negsuc 0) ≡ x
unfolding wrap_i32 ◌+ℤ◌
down-up (pos n) h = ground arith
down-up (negsuc n) h = ground arith

-- The position beside a screen is another one.
pub beside-ne : (edge : Edge) (x y : ℤ) → beside edge x y ≢ (x, y)
unfolding beside
beside-ne Edge.left x y e = down-ne x (ap (λ p. p.0) e)
beside-ne Edge.right x y e = up-ne x (ap (λ p. p.0) e)
beside-ne Edge.top x y e = down-ne y (ap (λ p. p.1) e)
beside-ne Edge.bottom x y e = up-ne y (ap (λ p. p.1) e)

-- Stepping back returns.
pub beside-opposite :
    (edge : Edge) (x y : ℤ)
    → IsI32 x
    → IsI32 y
    → beside (opposite edge) (beside edge x y).0 (beside edge x y).1 ≡ (x, y)
unfolding beside opposite
beside-opposite Edge.left x y hx hy = ap (λ z. (z, y)) (up-down x hx)
beside-opposite Edge.right x y hx hy = ap (λ z. (z, y)) (down-up x hx)
beside-opposite Edge.top x y hx hy = ap (λ z. (x, z)) (up-down y hy)
beside-opposite Edge.bottom x y hx hy = ap (λ z. (x, z)) (down-up y hy)

at_position-position : (p : ℤ × ℤ) (s : Screen) → at_position p s ≡ true → position s ≡ p
at_position-position (px, py) s h = let (a, b) = at_position-eq (px, py) s h in cc

at_position_self : (s : Screen) → at_position (position s) s ≡ true
at_position_self s = ground (arith, eqb_ℤ_iff s.x s.x, eqb_ℤ_iff s.y s.y)

-- In a valid layout a screen is found by its id and by its position.
pub screen_found :
    (l : Layout) (q : Screen → Bool) (s : Screen)
    → IsValid l
    → find q l.screens ≡ some s
    → screen l s.id ≡ some s
screen_found l q s v e =
    let (t, f) = screen_of_find l q s e in
    f
    ∙ ap some (
        unfold screen in
        Distinct-unique (λ y. y.id) (has_id s.id) q l.screens t s v.ids f e (screen-id l s.id t f))

position_found :
    (l : Layout) (q : Screen → Bool) (s : Screen)
    → IsValid l
    → find q l.screens ≡ some s
    → find (at_position (position s)) l.screens ≡ some s
position_found l q s v e =
    let (t, f) = find_found (at_position (position s)) q l.screens s e (at_position_self s) in
    f
    ∙ ap some (
        Distinct-unique position (at_position (position s)) q l.screens t s v.positions f e
          (at_position-position (position s) t (find-passes _ l.screens f)))

find_of_screen :
    (l : Layout) (i : ℕ) (s : Screen) → screen l i ≡ some s → find (has_id i) l.screens ≡ some s
unfolding screen
find_of_screen l i s e = e

module _ (l : Layout) (me t : ℕ) (edge : Edge) (v : IsValid l) (mine s : Screen) where
  ne_of_parts :
      screen l me ≡ some mine
      → find (at_position (beside edge mine.x mine.y)) l.screens ≡ some s
      → s.id ≡ t
      → t ≢ me
  ne_of_parts em es ei h =
      let same : mine ≡ s =
        Distinct-unique (λ y. y.id) (has_id me) _ l.screens mine s v.ids
          (find_of_screen l me mine em) es (screen-id l me mine em ∙ sym h ∙ sym ei) in
      beside-ne edge mine.x mine.y
        (sym (at_position-position _ s (find-passes _ l.screens es)) ∙ ap position (sym same))

  back_of_parts :
      screen l me ≡ some mine
      → IsI32 mine.x
      → IsI32 mine.y
      → find (at_position (beside edge mine.x mine.y)) l.screens ≡ some s
      → s.id ≡ t
      → neighbor_for_edge l t (opposite edge) ≡ some me
  unfolding neighbor_for_edge
  back_of_parts em hx hy es ei =
      let there : screen l t ≡ some s = rw (← ei) (screen_found l _ s v es) in
      let at = at_position-position _ s (find-passes _ l.screens es) in
      let back : beside (opposite edge) s.x s.y ≡ position mine =
        ap (λ p. beside (opposite edge) p.0 p.1) at ∙ beside-opposite edge mine.x mine.y hx hy in
      let found = position_found l (has_id me) mine v (find_of_screen l me mine em) in
      rw (there, neighbor_for_edge) (rw back (rw found (ap some (screen-id l me mine em))))

-- In a valid layout no screen is its own neighbour.
pub neighbor-ne :
    (l : Layout) (me : ℕ) (edge : Edge) (t : ℕ)
    → IsValid l
    → neighbor_for_edge l me edge ≡ some t
    → t ≢ me
neighbor-ne l me edge t v e =
    let (mine, s, em, es, ei) = neighbor-parts l me edge t e in
    ne_of_parts l me t edge v mine s em es ei

-- In a valid layout, for a screen whose position fits an i32, the neighbour behind an edge is another
-- screen, and the opposite edge of the neighbour leads back.
pub neighbor_symmetric :
    (l : Layout) (me : ℕ) (edge : Edge) (t : ℕ)
    → IsValid l
    → (at : Screen) → screen l me ≡ some at
    → IsI32 at.x × IsI32 at.y
    → neighbor_for_edge l me edge ≡ some t
    → (t ≢ me) × (neighbor_for_edge l t (opposite edge) ≡ some me)
neighbor_symmetric l me edge t v at there fits e =
    let (mine, s, em, es, ei) = neighbor-parts l me edge t e in
    let same : at ≡ mine = ground (arith, there, em) in
    let (hx, hy) = subst (λ (q : Screen). IsI32 q.x × IsI32 q.y) same fits in
    (neighbor-ne l me edge t v e, back_of_parts l me t edge v mine s em hx hy es ei)

-- The lone peer's screen is in the layout.
single_peer_loop-found :
    (xs : List Screen) (found : Option ℕ) (t : ℕ)
    → single_peer_loop found xs ≡ some t
    → (found ≡ some t) ⊎ (any (has_id t) xs ≡ true)
unfolding single_peer_loop any
single_peer_loop-found [] found t e = inl e
single_peer_loop-found (s ∷ ss) found t e =
    ground (arith, single_peer_loop-found ss found t, single_peer_loop-found ss (some s.id) t)

single_peer_screen-found :
    (l : Layout) (t : ℕ) → single_peer_screen l ≡ some t → any (has_id t) l.screens ≡ true
unfolding single_peer_screen
single_peer_screen-found l t e = ground (arith, single_peer_loop-found l.screens none t e)

-- A crossing's target is a screen of the layout other than the one that is left.
pub crossing_target-ne :
    (l : Layout) (me : ℕ) (edge : Edge) (m : EdgeMode) (t : ℕ)
    → IsValid l
    → crossing_target_for l me edge m ≡ some t
    → t ≢ me
unfolding crossing_target_for
crossing_target-ne l me edge m t v e = elim (Option-cases (neighbor_for_edge l me edge)) [
  | inl q ↦ ground arith
  | inr (n, q) ↦ neighbor-ne l me edge t v (ground arith)
]

neighbor-any :
    (l : Layout) (me : ℕ) (edge : Edge) (t : ℕ)
    → neighbor_for_edge l me edge ≡ some t
    → any (has_id t) l.screens ≡ true
neighbor-any l me edge t e =
    let (mine, s, em, es, ei) = neighbor-parts l me edge t e in
    let (u, f) = screen_of_find l _ s es in
    rw (← ei) (find-any (has_id s.id) l.screens u (find_of_screen l s.id u f))

pub crossing_target-found :
    (l : Layout) (me : ℕ) (edge : Edge) (m : EdgeMode) (t : ℕ)
    → crossing_target_for l me edge m ≡ some t
    → (s : Screen) × (screen l t ≡ some s)
unfolding crossing_target_for screen
crossing_target-found l me edge m t e =
    any-find (has_id t) l.screens
      (ground (arith, neighbor-any l me edge t, single_peer_screen-found l t))
