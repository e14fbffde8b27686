-- ===== src/Layout/Validity.antt =====
-- `Layout::validate` against an independent description of a valid layout.
use thekvm.Prelude.{
  ℕ, ◌≤◌, ◌<◌, ◌≡◌, refl, sym, ◌≢◌, inl, inr, ◌↔◌, true, false, ◌&&◌, Option, none, some, List, [],
  ◌∷◌, ◌||◌, ◌==◌, arith, length, any, All, All-map, All-zip, Distinct, find-All, find-any,
  any-find,
}
use thekvm.Prelude.Int.{ℤ, eqb_ℤ, eqb_ℤ_iff}
use thekvm.Prelude.Text.{trim, is_empty}
use thekvm.Prelude.Result.{ok, Result-cases}
use thekvm.Layout.{Screen, Layout, screen, has_id, check_screens, check_self, validate}

abbrev pub position : Screen → ℤ × ℤ
position s = (s.x, s.y)

-- A screen that `validate` takes: a name that is not blank, and a size.
pub record IsSound (s : Screen) : Type 0 where
  pub named : is_empty (trim s.name) ≡ false
  pub wide : 0 < s.width
  pub high : 0 < s.height

-- A valid layout: few sound screens with ids and positions of their own, and the local one among
-- them.
pub record IsValid (l : Layout) : Type 0 where
  pub few : length l.screens ≤ 64
  pub sound : All IsSound l.screens
  pub ids : Distinct (λ s. s.id) l.screens
  pub positions : Distinct position l.screens
  pub self : (me : ℕ) → l.self_screen ≡ some me → (s : Screen) × (screen l me ≡ some s)

abbrev Unseen : List ℕ → Screen → Type 0
Unseen ids s = any (λ i. i == s.id) ids ≡ false

abbrev Unplaced : List (ℤ × ℤ) → Screen → Type 0
Unplaced ps s = any (λ p. eqb_ℤ p.0 s.x && eqb_ℤ p.1 s.y) ps ≡ false

-- What one pass of the loop asks of the screens that are left.
record Passes (ids : List ℕ) (ps : List (ℤ × ℤ)) (ss : List Screen) : Type 0 where
  sound : All IsSound ss
  ids_apart : Distinct (λ s. s.id) ss
  positions_apart : Distinct position ss
  new_ids : All (Unseen ids) ss
  new_positions : All (Unplaced ps) ss

Unseen-tail : (i : ℕ) (ids : List ℕ) (s : Screen) → Unseen (i ∷ ids) s → (s.id ≢ i) × Unseen ids s
unfolding any
Unseen-tail i ids s h = (λ e. ground arith, ground arith)

Unplaced-tail :
    (p : ℤ × ℤ) (ps : List (ℤ × ℤ)) (s : Screen)
    → Unplaced (p ∷ ps) s
    → (position s ≢ p) × Unplaced ps s
unfolding any
Unplaced-tail (px, py) ps s h =
    (λ e. ground (arith, eqb_ℤ_iff px s.x, eqb_ℤ_iff py s.y), ground arith)

Unseen-cons : (i : ℕ) (ids : List ℕ) (s : Screen) → s.id ≢ i → Unseen ids s → Unseen (i ∷ ids) s
unfolding any
Unseen-cons i ids s h k = ground (arith, sym {a = i} {b = s.id})

Unplaced-cons :
    (p : ℤ × ℤ) (ps : List (ℤ × ℤ)) (s : Screen)
    → position s ≢ p
    → Unplaced ps s
    → Unplaced (p ∷ ps) s
unfolding any
Unplaced-cons (px, py) ps s h k = ground (arith, eqb_ℤ_iff px s.x, eqb_ℤ_iff py s.y)

-- The loop's result holds the ids seen before and those of the screens.
check_screens-ids :
    (ids : List ℕ) (ps : List (ℤ × ℤ)) (ss : List Screen) {r : List ℕ} (me : ℕ)
    → check_screens ids ps ss ≡ ok r
    → any (λ i. i == me) r ≡ (any (has_id me) ss || any (λ i. i == me) ids)
unfolding check_screens any
check_screens-ids ids ps [] me e = ground arith
check_screens-ids ids ps (s ∷ ss) {r = r} me e =
    ground (arith, check_screens-ids (s.id ∷ ids) ((s.x, s.y) ∷ ps) ss {r = r} me)

module _ (s : Screen) (ss : List Screen) (ids : List ℕ) (ps : List (ℤ × ℤ)) where
  -- One round of the loop.
  check_screens_step :
      {r : List ℕ}
      → check_screens ids ps (s ∷ ss) ≡ ok r
      → IsSound s
        × Unseen ids s
        × Unplaced ps s
        × (check_screens (s.id ∷ ids) ((s.x, s.y) ∷ ps) ss ≡ ok r)
  unfolding check_screens
  check_screens_step {r = r} e = (ground arith, ground arith, ground arith, ground arith)

  check_screens_round :
      {r : List ℕ}
      → IsSound s
      → Unseen ids s
      → Unplaced ps s
      → check_screens (s.id ∷ ids) ((s.x, s.y) ∷ ps) ss ≡ ok r
      → check_screens ids ps (s ∷ ss) ≡ ok r
  unfolding check_screens
  check_screens_round {r = r} good u v e = ground arith

check_screens→Passes :
    (ids : List ℕ) (ps : List (ℤ × ℤ)) (ss : List Screen) {r : List ℕ}
    → check_screens ids ps ss ≡ ok r
    → Passes ids ps ss
check_screens→Passes ids ps [] e = record {
  sound = tt;
  ids_apart = tt;
  positions_apart = tt;
  new_ids = tt;
  new_positions = tt;
}
check_screens→Passes ids ps (s ∷ ss) e =
    let (good, u, v, more) = check_screens_step s ss ids ps e in
    let rest = check_screens→Passes (s.id ∷ ids) ((s.x, s.y) ∷ ps) ss more in
    record {
      sound = (good, rest.sound);
      ids_apart = (All-map (λ y h. (Unseen-tail s.id ids y h).0) ss rest.new_ids, rest.ids_apart);
      positions_apart = (
        All-map (λ y h. (Unplaced-tail (s.x, s.y) ps y h).0) ss rest.new_positions,
        rest.positions_apart,
      );
      new_ids = (u, All-map (λ y h. (Unseen-tail s.id ids y h).1) ss rest.new_ids);
      new_positions =
          (v, All-map (λ y h. (Unplaced-tail (s.x, s.y) ps y h).1) ss rest.new_positions);
    }

Passes→check_screens :
    (ids : List ℕ) (ps : List (ℤ × ℤ)) (ss : List Screen)
    → Passes ids ps ss
    → (r : List ℕ) × (check_screens ids ps ss ≡ ok r)
Passes→check_screens ids ps [] p = (ids, unfold check_screens in refl)
Passes→check_screens ids ps (s ∷ ss) p =
    let (r, e) = Passes→check_screens (s.id ∷ ids) ((s.x, s.y) ∷ ps) ss (record {
      sound = p.sound.1;
      ids_apart = p.ids_apart.1;
      positions_apart = p.positions_apart.1;
      new_ids = All-zip (λ y h k. Unseen-cons s.id ids y h k) ss p.ids_apart.0 p.new_ids.1;
      new_positions =
          All-zip (λ y h k. Unplaced-cons (s.x, s.y) ps y h k) ss p.positions_apart.0
            p.new_positions.1;
    }) in
    (r, check_screens_round s ss ids ps p.sound.0 p.new_ids.0 p.new_positions.0 e)

All-Unseen : (ss : List Screen) → All (Unseen []) ss
unfolding any
All-Unseen [] = tt
All-Unseen (s ∷ ss) = (refl, All-Unseen ss)

All-Unplaced : (ss : List Screen) → All (Unplaced []) ss
unfolding any
All-Unplaced [] = tt
All-Unplaced (s ∷ ss) = (refl, All-Unplaced ss)

self_found :
    (l : Layout) {r : List ℕ} (me : ℕ)
    → check_screens [] [] l.screens ≡ ok r
    → any (λ i. i == me) r ≡ any (has_id me) l.screens
unfolding any
self_found l {r = r} me e = ground (arith, check_screens-ids [] [] l.screens {r = r} me e)

validate-parts :
    (l : Layout)
    → validate l ≡ ok tt
    → (r : List ℕ) × (length l.screens ≤ 64)
      × (check_screens [] [] l.screens ≡ ok r)
      × (check_self l.self_screen r ≡ ok tt)
unfolding validate
validate-parts l e = elim (Result-cases (check_screens [] [] l.screens)) [
  | inl (r, q) ↦ (r, ground arith, q, ground arith)
  | inr (x, q) ↦ absurd (ground arith)
]

validate_of_parts :
    (l : Layout) (r : List ℕ)
    → length l.screens ≤ 64
    → check_screens [] [] l.screens ≡ ok r
    → check_self l.self_screen r ≡ ok tt
    → validate l ≡ ok tt
unfolding validate
validate_of_parts l r few e k = ground arith

check_self_lem :
    (l : Layout) (r : List ℕ)
    → check_screens [] [] l.screens ≡ ok r
    → (check_self l.self_screen r ≡ ok tt)
      ↔ ((me : ℕ) → l.self_screen ≡ some me → any (has_id me) l.screens ≡ true)
unfolding check_self
check_self_lem l r e = go l.self_screen
  where
    go :
        (o : Option ℕ)
        → (check_self o r ≡ ok tt) ↔ ((me : ℕ) → o ≡ some me → any (has_id me) l.screens ≡ true)
    go none = (λ q me h. cc, λ f. refl)
    go (some i) = (
      λ q me h. ground (arith, self_found l {r = r} i e, self_found l {r = r} me e),
      λ f. ground (arith, self_found l {r = r} i e, f i refl),
    )

-- `validate` accepts exactly the valid layouts.
pub validate_iff : (l : Layout) → (validate l ≡ ok tt) ↔ IsValid l
unfolding screen
validate_iff l = (
  λ e.
      let (r, few, loop, self) = validate-parts l e in
      let p = check_screens→Passes [] [] l.screens loop in
      record {
        few = few;
        sound = p.sound;
        ids = p.ids_apart;
        positions = p.positions_apart;
        self = λ me h. any-find (has_id me) l.screens ((check_self_lem l r loop).0 self me h);
      },
  λ v.
      let (r, loop) = Passes→check_screens [] [] l.screens (record {
        sound = v.sound;
        ids_apart = v.ids;
        positions_apart = v.positions;
        new_ids = All-Unseen l.screens;
        new_positions = All-Unplaced l.screens;
      }) in
      validate_of_parts l r v.few loop (
        (check_self_lem l r loop).1
          (λ me h. let (s, f) = v.self me h in find-any (has_id me) l.screens s f)),
)

-- Each screen of a valid layout has a name and a size.
pub screen-IsSound :
    (l : Layout) (i : ℕ) (s : Screen) → validate l ≡ ok tt → screen l i ≡ some s → IsSound s
unfolding screen
screen-IsSound l i s v e = find-All IsSound (has_id i) l.screens ((validate_iff l).0 v).sound e
