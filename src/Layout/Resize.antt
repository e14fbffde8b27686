-- ===== src/Layout/Resize.antt =====
-- Changing the sizes of screens: ids, positions and validity.
use thekvm.Prelude.{
  ℕ, ◌<◌, ◌≡◌, refl, sym, ap, ◌∙◌, ◌≢◌, Bool, true, false, ◌||◌, some, List, [], ◌∷◌, map, ◌==◌,
  ◌⊎◌, if◌then◌else◌, arith, length, suc, Bool-cases, inl, inr, find, update_first, All, Distinct,
  Option-cases,
}
use mathlib.Core.Option
use mathlib.Core.Path.{subst}
use thekvm.Layout.{Screen, Layout, screen, has_id, set_screen_size}
use thekvm.Layout.Validity.{IsSound, IsValid, position}

-- A change that keeps what `validate` compares.
pub record KeepsPlace (f : Screen → Screen) : Type 0 where
  pub id : (s : Screen) → (f s).id ≡ s.id
  pub place : (s : Screen) → position (f s) ≡ position s

module _ (f : Screen → Screen) (k : KeepsPlace f) where
  -- A changed layout is looked up by changing what is found.
  pub find-map :
      (j : ℕ) (xs : List Screen) → find (has_id j) (map f xs) ≡ Option.map f (find (has_id j) xs)
  unfolding find
  find-map j [] = refl
  find-map j (x ∷ xs) = ground (arith, k.id x, find-map j xs)

  pub find-update_first :
      (i j : ℕ) (xs : List Screen)
      → find (has_id j) (update_first (has_id i) f xs)
        ≡ (if i == j then Option.map f (find (has_id i) xs) else find (has_id j) xs)
  unfolding find update_first
  find-update_first i j [] = ground arith
  find-update_first i j (x ∷ xs) = ground (arith, k.id x, find-update_first i j xs)

  All-map-IsSound :
      (xs : List Screen)
      → ((s : Screen) → IsSound s → IsSound (f s))
      → All IsSound xs
      → All IsSound (map f xs)
  All-map-IsSound [] g h = tt
  All-map-IsSound (x ∷ xs) g h = (g x h.0, All-map-IsSound xs g h.1)

  All-update-IsSound :
      (i : ℕ) (xs : List Screen)
      → ((s : Screen) → IsSound s → IsSound (f s))
      → All IsSound xs
      → All IsSound (update_first (has_id i) f xs)
  unfolding update_first
  All-update-IsSound i [] g h = tt
  All-update-IsSound i (x ∷ xs) g h = elim (Bool-cases (x.id == i)) [
    | inl hit ↦ rw hit (g x h.0, h.1)
    | inr miss ↦ rw miss (h.0, All-update-IsSound i xs g h.1)
  ]

-- Keys that a change keeps stay distinct.
module _ {κ} {K : Type κ} (key : Screen → K) (f : Screen → Screen)
    (same : (s : Screen) → key (f s) ≡ key s) where
  All-ne_map :
      (c d : K) (xs : List Screen)
      → d ≡ c
      → All (λ y. key y ≢ c) xs
      → All (λ y. key y ≢ d) (map f xs)
  All-ne_map c d [] e h = tt
  All-ne_map c d (x ∷ xs) e h = (λ q. h.0 (sym (same x) ∙ q ∙ e), All-ne_map c d xs e h.1)

  Distinct-map : (xs : List Screen) → Distinct key xs → Distinct key (map f xs)
  Distinct-map [] h = tt
  Distinct-map (x ∷ xs) h = (All-ne_map (key x) (key (f x)) xs (same x) h.0, Distinct-map xs h.1)

  All-ne_update :
      (p : Screen → Bool) (c : K) (xs : List Screen)
      → All (λ y. key y ≢ c) xs
      → All (λ y. key y ≢ c) (update_first p f xs)
  unfolding update_first
  All-ne_update p c [] h = tt
  All-ne_update p c (x ∷ xs) h = elim (Bool-cases (p x)) [
    | inl hit ↦ rw hit (λ q. h.0 (sym (same x) ∙ q), h.1)
    | inr miss ↦ rw miss (h.0, All-ne_update p c xs h.1)
  ]

  Distinct-update :
      (p : Screen → Bool) (xs : List Screen) → Distinct key xs → Distinct key (update_first p f xs)
  unfolding update_first
  Distinct-update p [] h = tt
  Distinct-update p (x ∷ xs) h = elim (Bool-cases (p x)) [
    | inl hit ↦ rw hit (subst (λ c. All (λ y. key y ≢ c) xs) (sym (same x)) h.0, h.1)
    | inr miss ↦ rw miss (All-ne_update p (key x) xs h.0, Distinct-update p xs h.1)
  ]

length-update_first :
    (p : Screen → Bool) (f : Screen → Screen) (xs : List Screen)
    → length (update_first p f xs) ≡ length xs
unfolding update_first
length-update_first p f [] = refl
length-update_first p f (x ∷ xs) = ground (arith, length-update_first p f xs)

length-map_screens : (f : Screen → Screen) (xs : List Screen) → length (map f xs) ≡ length xs
length-map_screens f [] = refl
length-map_screens f (x ∷ xs) = ap suc (length-map_screens f xs)

module _ (l : Layout) (f : Screen → Screen) (k : KeepsPlace f)
    (good : (s : Screen) → IsSound s → IsSound (f s)) (v : IsValid l) where
  pub map-IsValid : IsValid (record l { screens = map f l.screens })
  unfolding screen
  map-IsValid = record {
    few = omega (arith, length-map_screens f l.screens);
    sound = All-map-IsSound f k l.screens good v.sound;
    ids = Distinct-map (λ s. s.id) f k.id l.screens v.ids;
    positions = Distinct-map position f k.place l.screens v.positions;
    self =
        λ me h. let (s, e) = v.self me h in (f s, find-map f k me l.screens ∙ ap (Option.map f) e);
  }

  pub update_first-IsValid :
      (i : ℕ) → IsValid (record l { screens = update_first (has_id i) f l.screens })
  unfolding screen
  update_first-IsValid i = record {
    few = omega (arith, length-update_first (has_id i) f l.screens);
    sound = All-update-IsSound f k i l.screens good v.sound;
    ids = Distinct-update (λ s. s.id) f k.id (has_id i) l.screens v.ids;
    positions = Distinct-update position f k.place (has_id i) l.screens v.positions;
    self = λ me h. still_found i me (v.self me h);
  }
    where
      still_found :
          (i me : ℕ)
          → (s : Screen) × (screen l me ≡ some s)
          → (s : Screen) × (find (has_id me) (update_first (has_id i) f l.screens) ≡ some s)
      still_found i me (s, e) = elim (Bool-cases (i == me)) [
        | inl hit ↦
            let at : i ≡ me = ground arith in
            (f s, find-update_first f k i me l.screens ∙ rw hit (rw at (ap (Option.map f) e)))
        | inr miss ↦ (s, find-update_first f k i me l.screens ∙ rw miss e)
      ]

resize : ℕ → ℕ → Screen → Screen
resize w h s = record s { width = w; height = h }

resize-KeepsPlace : (w h : ℕ) → KeepsPlace (resize w h)
unfolding resize
resize-KeepsPlace w h = record { id = λ s. refl; place = λ s. refl }

resize-IsSound : (w h : ℕ) → 0 < w → 0 < h → (s : Screen) → IsSound s → IsSound (resize w h s)
unfolding resize
resize-IsSound w h pw ph s g = record { named = g.named; wide = pw; high = ph }

resized : Layout → ℕ → ℕ → ℕ → Layout
resized l i w h = record l { screens = update_first (has_id i) (resize w h) l.screens }

-- Either nothing is adopted, or the dims are positive and one screen has them.
set_screen_size-parts :
    (l : Layout) (i w h : ℕ)
    → (set_screen_size l i w h ≡ (l, false))
      ⊎ ((0 < w) × (0 < h) × (set_screen_size l i w h ≡ (resized l i w h, true)))
unfolding set_screen_size resized resize
set_screen_size-parts l i w h = elim (Bool-cases (w == 0 || h == 0)) [
  | inl empty ↦ inl (ground arith)
  | inr sized ↦ elim (Option-cases (screen l i)) [
    | inl missing ↦ inl (ground arith)
    | inr (s, found) ↦ inr (ground arith, ground arith, ground arith)
  ]
]

-- `set_screen_size` keeps a valid layout valid, whatever it is asked to adopt.
pub set_screen_size-IsValid :
    (l : Layout) (i w h : ℕ) → IsValid l → IsValid (set_screen_size l i w h).0
set_screen_size-IsValid l i w h v = elim (set_screen_size-parts l i w h) [
  | inl e ↦ subst IsValid (sym (ap (λ p. p.0) e)) v
  | inr (pw, ph, e) ↦ subst IsValid (sym (ap (λ p. p.0) e)) (
      unfold resized in
      update_first-IsValid l (resize w h) (resize-KeepsPlace w h) (resize-IsSound w h pw ph) v i)
]

screen-resized :
    (l : Layout) (i w h j : ℕ) (s : Screen)
    → screen l j ≡ some s
    → screen (resized l i w h) j ≡ some (if i == j then record s { width = w; height = h } else s)
unfolding screen resized
screen-resized l i w h j s e = elim (Bool-cases (i == j)) [
  | inl hit ↦
      let at : i ≡ j = ground arith in
      find-update_first (resize w h) (resize-KeepsPlace w h) i j l.screens
      ∙ rw hit (rw at (unfold resize in ap (Option.map (resize w h)) e))
  | inr miss ↦ find-update_first (resize w h) (resize-KeepsPlace w h) i j l.screens ∙ rw miss e
]

-- When `set_screen_size` reports an adoption, the screen it names has the adopted dims, and every other
-- screen is as it was.
pub screen-set_screen_size :
    (l : Layout) (i w h j : ℕ) (s : Screen)
    → (set_screen_size l i w h).1 ≡ true
    → screen l j ≡ some s
    → screen (set_screen_size l i w h).0 j
      ≡ some (if i == j then record s { width = w; height = h } else s)
screen-set_screen_size l i w h j s d e = elim (set_screen_size-parts l i w h) [
  | inl q ↦ cc (ap (λ p. p.1) q)
  | inr (pw, ph, q) ↦ ap (λ p. screen p.0 j) q ∙ screen-resized l i w h j s e
]
