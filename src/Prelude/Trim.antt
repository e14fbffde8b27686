-- ===== src/Prelude/Trim.antt =====
-- `str::trim` and `to_ascii_lowercase`: what they leave, and what they leave as it is.
use mathlib.Core.Path.{◌≡◌, refl, sym, ap, ◌∙◌, subst}
use mathlib.Core.Logic.{inl, inr}
use mathlib.Core.Bool.{true, false}
use mathlib.Core.List.{List, [], ◌∷◌, ◌++◌, reverse, reverse-append, reverse-reverse, reverse-cons}
use Prim.Native.Nat.{ℕ, ◌≤◌}
use native.Mathlib.Omega.{arith}
use thekvm.Prelude.Tests.{Bool-cases}
use thekvm.Prelude.Lists.{length, All, All-map, All-append}
use thekvm.Prelude.Text.{
  Text, is_whitespace, is_hexdigit, lower, to_ascii_lowercase, trim_start, trim,
}

pub All-reverse {ℓ κ} : {A : Type ℓ} (P : A → Type κ) (xs : List A) → All P xs → All P (reverse xs)
All-reverse P [] h = h
All-reverse P (x ∷ xs) (h, hs) =
    subst (All P) (sym (reverse-cons x xs))
      (All-append P (reverse xs) (x ∷ []) (All-reverse P xs hs) (h, tt))

-- What is cut off at the start.
cut_off : (s : Text) → (pre : Text) × (s ≡ pre ++ trim_start s)
unfolding trim_start
cut_off [] = ([], refl)
cut_off (c ∷ s) = elim (Bool-cases (is_whitespace c)) [
  | inl e ↦ let (pre, f) = cut_off s in (c ∷ pre, rw e (ap (λ (t : Text). c ∷ t) f))
  | inr e ↦ ([], rw e refl)
]

length-trim_start : (s : Text) → length (trim_start s) ≤ length s
unfolding trim_start
length-trim_start [] = omega arith
length-trim_start (c ∷ s) = ground (arith, length-trim_start s)

trim_start-trim_start : (s : Text) → trim_start (trim_start s) ≡ trim_start s
unfolding trim_start
trim_start-trim_start [] = refl
trim_start-trim_start (c ∷ s) = elim (Bool-cases (is_whitespace c)) [
  | inl e ↦ rw e (trim_start-trim_start s)
  | inr e ↦ rw (e, trim_start, e) refl
]

-- A text that starts with no white space has no prefix that does.
prefix_kept : (a b : Text) → trim_start (a ++ b) ≡ a ++ b → trim_start a ≡ a
unfolding trim_start
prefix_kept [] b h = refl
prefix_kept (c ∷ a) b h = elim (Bool-cases (is_whitespace c)) [
  | inl e ↦
      let shorter = length-trim_start (a ++ b) in
      let f : trim_start (a ++ b) ≡ c ∷ (a ++ b) = ground arith in
      let g = ap length f in absurd (omega arith)
  | inr e ↦ rw e refl
]

-- No white space at either end.
abbrev pub IsTrimmed : Text → Type 0
IsTrimmed s = (trim_start s ≡ s) × (trim_start (reverse s) ≡ reverse s)

pub trim_unchanged : (s : Text) → IsTrimmed s → trim s ≡ s
unfolding trim
trim_unchanged s (a, b) = rw (a, b) (reverse-reverse s)

pub trim-IsTrimmed : (s : Text) → IsTrimmed (trim s)
unfolding trim
trim-IsTrimmed s =
    let t = trim_start s in
    let u = trim_start (reverse t) in
    let (pre, e) = cut_off (reverse t) in
    let whole : t ≡ reverse u ++ reverse pre =
      sym (reverse-reverse t) ∙ ap reverse e ∙ reverse-append pre u in
    let kept : trim_start (reverse u ++ reverse pre) ≡ reverse u ++ reverse pre =
      subst (λ (x : Text). trim_start x ≡ x) whole (trim_start-trim_start s) in
    (
      prefix_kept (reverse u) (reverse pre) kept,
      rw (reverse-reverse u) (trim_start-trim_start (reverse t)),
    )

pub trim-trim : (s : Text) → trim (trim s) ≡ trim s
trim-trim s = trim_unchanged (trim s) (trim-IsTrimmed s)

black_start : (s : Text) → All (λ c. is_whitespace c ≡ false) s → trim_start s ≡ s
unfolding trim_start
black_start [] h = refl
black_start (c ∷ s) (h, hs) = rw h refl

-- A text without white space is trimmed.
pub black-IsTrimmed : (s : Text) → All (λ c. is_whitespace c ≡ false) s → IsTrimmed s
black-IsTrimmed s h =
    (black_start s h, black_start (reverse s) (All-reverse (λ c. is_whitespace c ≡ false) s h))

pub hexdigit-black : (c : ℕ) → is_hexdigit c ≡ true → is_whitespace c ≡ false
unfolding is_hexdigit is_whitespace
hexdigit-black c h = ground arith

pub hex-IsTrimmed : (s : Text) → All (λ c. is_hexdigit c ≡ true) s → IsTrimmed s
hex-IsTrimmed s h = black-IsTrimmed s (All-map (λ c. hexdigit-black c) s h)

lower-lower : (c : ℕ) → lower (lower c) ≡ lower c
unfolding lower
lower-lower c = ground arith

pub lowercase-lowercase :
    (s : Text) → to_ascii_lowercase (to_ascii_lowercase s) ≡ to_ascii_lowercase s
unfolding to_ascii_lowercase
lowercase-lowercase [] = refl
lowercase-lowercase (c ∷ s) = rw (lower-lower c, lowercase-lowercase s) refl

All-trim_start {κ} : (P : ℕ → Type κ) (s : Text) → All P s → All P (trim_start s)
unfolding trim_start
All-trim_start P [] h = h
All-trim_start P (c ∷ s) (h, hs) = elim (Bool-cases (is_whitespace c)) [
  | inl e ↦ rw e (All-trim_start P s hs)
  | inr e ↦ rw e (h, hs)
]

pub All-trim {κ} : (P : ℕ → Type κ) (s : Text) → All P s → All P (trim s)
unfolding trim
All-trim P s h = All-reverse P (trim_start (reverse (trim_start s))) (
    All-trim_start P (reverse (trim_start s)) (All-reverse P (trim_start s) (All-trim_start P s h)))
