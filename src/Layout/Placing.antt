-- ===== src/Layout/Placing.antt =====
-- `Layout::place_peer` and `Layout::side_of_peer`.
use thekvm.Prelude.{
  ℕ, ◌-◌, ◌^◌, ◌<◌, ◌≡◌, refl, sym, ap, ◌∙◌, Bool, false, not, ◌&&◌, inl, inr, Option, none, some,
  List, [], ◌∷◌, arith, find, update_first, any, Bool-cases, Option-cases, ◌==◌,
}
use mathlib.Core.Option
use thekvm.Prelude.Int.{ℤ, pos_part, neg_part, wrap_i32, ◌+ℤ◌}
use thekvm.Prelude.Text.{Text}
use thekvm.Prelude.Result.{Result, ok, err}
use thekvm.Geometry.{Edge, left, right, top, bottom}
use thekvm.Layout.{Screen, Layout, screen, has_id, self_screen, beside, at_position}
use thekvm.Layout.Arrange.{
  is_peer, side_from, side_of_peer, PlaceError, position_occupied, no_linked_peer, place_peer,
}

module _ {ℓ} {A : Type ℓ} (p q : A → Bool) (f : A → A) where
  -- A search is not touched by the replacement of an element that it does not find.
  find-update_first_other :
      ((x : A) → q (f x) ≡ q x)
      → (xs : List A) (a : A) → find q xs ≡ some a
      → p a ≡ false
      → find q (update_first p f xs) ≡ some a
  unfolding find update_first
  find-update_first_other keeps [] a e h = cc
  find-update_first_other keeps (x ∷ xs) a e h = elim (Bool-cases (q x)) [
    | inl hit ↦
        let same : x ≡ a = ground arith in
        let other : p x ≡ false = ap p same ∙ h in rw (other, hit) (ap some same)
    | inr miss ↦
        let more : find q xs ≡ some a = ground arith in
        elim (Bool-cases (p x)) [
          | inl here ↦ rw (here, keeps x, miss) more
          | inr there ↦ rw (there, miss) (find-update_first_other keeps xs a more h)
        ]
  ]

module _ {ℓ} {A : Type ℓ} (p : A → Bool) (f : A → A) where
  find-update_first_same :
      ((x : A) → p (f x) ≡ p x)
      → (xs : List A) (a : A) → find p xs ≡ some a
      → find p (update_first p f xs) ≡ some (f a)
  unfolding find update_first
  find-update_first_same keeps [] a e = cc
  find-update_first_same keeps (x ∷ xs) a e = elim (Bool-cases (p x)) [
    | inl hit ↦
        let same : x ≡ a = ground arith in rw (hit, keeps x, hit) (ap (λ y. some (f y)) same)
    | inr miss ↦
        let more : find p xs ≡ some a = ground arith in
        rw (miss, miss) (find-update_first_same keeps xs a more)
  ]

-- A position whose neighbours fit an i32 as well.
abbrev pub IsInner : ℤ → Type 0
IsInner a = (pos_part a < 2 ^ 31 - 1) × (neg_part a < 2 ^ 31)

side_from-beside :
    (me : Screen) (side : Edge) (peer : Screen)
    → IsInner me.x
    → IsInner me.y
    → peer.x ≡ (beside side me.x me.y).0
    → peer.y ≡ (beside side me.x me.y).1
    → side_from me peer ≡ some side
unfolding side_from beside wrap_i32 ◌+ℤ◌
side_from-beside me left peer hx hy ex ey = ground (arith, ex, ey)
side_from-beside me right peer hx hy ex ey = ground (arith, ex, ey)
side_from-beside me top peer hx hy ex ey = ground (arith, ex, ey)
side_from-beside me bottom peer hx hy ex ey = ground (arith, ex, ey)

abbrev placed_ok : Layout → Result PlaceError Layout
placed_ok l = ok l

ok_inj : (a b : Layout) → placed_ok a ≡ placed_ok b → a ≡ b
ok_inj a b e = cc

-- The peer at its new place.
abbrev moved_to : ℤ × ℤ → Screen → Screen
moved_to p s = record s { x = p.0; y = p.1 }

module _ (l : Layout) (fingerprint : Text) (side : Edge) (l' : Layout) (me : Screen)
    (here : self_screen l ≡ some me) (placed : place_peer l fingerprint side ≡ ok l') where
  place_peer-parts :
      (peer : Screen) × (find (is_peer fingerprint) l.screens ≡ some peer)
      × (l' ≡ record l {
        screens = update_first (is_peer fingerprint) (moved_to (beside side me.x me.y)) l.screens;
      })
  unfolding place_peer
  place_peer-parts =
      let at = beside side me.x me.y in
      let arranged : Layout = record l {
        screens = update_first (is_peer fingerprint) (moved_to at) l.screens;
      } in
      elim (Bool-cases (any (λ s. not (is_peer fingerprint s) && at_position at s) l.screens)) [
        | inl taken ↦
            let e : place_peer l fingerprint side ≡ err position_occupied =
              rw (here, taken, place_peer) refl in
            absurd (ground arith)
        | inr free ↦ elim (Option-cases (find (is_peer fingerprint) l.screens)) [
          | inl q ↦
              let e : place_peer l fingerprint side ≡ err no_linked_peer =
                rw (here, free, q, place_peer) refl in
              absurd (ground arith)
          | inr (peer, q) ↦
              let e : place_peer l fingerprint side ≡ ok arranged =
                rw (here, free, q, place_peer) refl in
              (peer, q, ok_inj l' arranged (sym placed ∙ e))
        ]
      ]

  self_kept :
      (o : Option ℕ) (f : Screen → Screen)
      → ((x : Screen) → (f x).id ≡ x.id)
      → is_peer fingerprint me ≡ false
      → Option.bind o (screen l) ≡ some me
      → Option.bind o (λ i. find (has_id i) (update_first (is_peer fingerprint) f l.screens))
        ≡ some me
  unfolding screen Option.bind
  self_kept none f keeps other e = cc
  self_kept (some i) f keeps other e =
      find-update_first_other (is_peer fingerprint) (has_id i) f (λ x. ap (λ k. k == i) (keeps x))
        l.screens me e other

  -- A peer that `place_peer` puts on a side of the local screen, which is not its own and whose
  -- position is not at the end of the i32 range, is on that side for `side_of_peer`.
  pub side_of_peer-place_peer :
      is_peer fingerprint me ≡ false
      → IsInner me.x
      → IsInner me.y
      → side_of_peer l' fingerprint ≡ some side
  unfolding side_of_peer self_screen screen
  side_of_peer-place_peer other hx hy =
      let (peer, found, result) = place_peer-parts in
      let at = beside side me.x me.y in
      let peer_there : find (is_peer fingerprint)
            (update_first (is_peer fingerprint) (moved_to at) l.screens)
          ≡ some (moved_to at peer) =
        find-update_first_same (is_peer fingerprint) (moved_to at) (λ x. refl) l.screens peer
          found in
      let arranged : Layout = record l {
        screens = update_first (is_peer fingerprint) (moved_to at) l.screens;
      } in
      let me_there : self_screen arranged ≡ some me =
        self_kept l.self_screen (moved_to at) (λ x. refl) other here in
      let sides : side_from me (moved_to at peer) ≡ some side =
        side_from-beside me side (moved_to at peer) hx hy refl refl in
      ap (λ k. side_of_peer k fingerprint) result ∙ rw (me_there, peer_there, side_of_peer) sides
