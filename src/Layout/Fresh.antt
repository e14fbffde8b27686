-- ===== src/Layout/Fresh.antt =====
-- `Layout::next_screen_id` and the ids in use.
use thekvm.Prelude.{
  ℕ, ◌-◌, ◌^◌, ◌<◌, ◌≤◌, ◌≡◌, arith, List, [], ◌∷◌, All, All-map, none, some, Option-cases, inl,
  inr, find-All,
}
use thekvm.Layout.{Screen, Layout, screen}
use thekvm.Layout.Lookup.{screen-id}
use thekvm.Layout.Arrange.{max_id, next_screen_id}

max_id-bounds : (ss : List Screen) → All (λ s. s.id ≤ max_id ss) ss
unfolding max_id
max_id-bounds [] = tt
max_id-bounds (s ∷ ss) = (omega arith, All-map (λ t h. ground (arith, h)) ss (max_id-bounds ss))

max_id-below : (n : ℕ) (ss : List Screen) → 0 < n → All (λ s. s.id < n) ss → max_id ss < n
unfolding max_id
max_id-below n [] p h = p
max_id-below n (s ∷ ss) p h = ground (arith, h.0, max_id-below n ss p h.1)

screen-bound : (l : Layout) (i : ℕ) (s : Screen) → screen l i ≡ some s → s.id ≤ max_id l.screens
unfolding screen
screen-bound l i s e =
    find-All (λ t. t.id ≤ max_id l.screens) _ l.screens (max_id-bounds l.screens) e

-- While every id is below u32::MAX, the next screen id is an id of no screen, and at least 1.
pub next_screen_id-fresh :
    (l : Layout)
    → All (λ s. s.id < 2 ^ 32 - 1) l.screens
    → (screen l (next_screen_id l) ≡ none) × (0 < next_screen_id l)
unfolding next_screen_id
next_screen_id-fresh l small =
    let below = max_id-below (2 ^ 32 - 1) l.screens (omega arith) small in
    (
      elim (Option-cases (screen l (next_screen_id l))) [
        | inl none_there ↦ none_there
        | inr (s, e) ↦
            let same : s.id ≡ next_screen_id l = screen-id l (next_screen_id l) s e in
            let bound : s.id ≤ max_id l.screens = screen-bound l (next_screen_id l) s e in
            absurd (ground (arith, same, bound, below))
      ],
      ground arith,
    )
