-- ===== src/Prelude/Lists.antt =====
-- Lists measured by native numbers, searched by a test, and predicates on all their elements.
use Prim.Native.Nat.{ℕ, suc, ◌+◌}
use mathlib.Core.Path.{◌≡◌}
use mathlib.Core.Bool.{Bool, true, false, ◌&&◌, ◌||◌}
use mathlib.Core.Logic.{inl, inr}
use mathlib.Core.List.{List, [], ◌∷◌, ◌++◌}
use mathlib.Core.Option.{Option, none, some}
use native.Mathlib.Omega.{arith}
use mathlib.Core.Path.{subst, sym, ap, refl, ◌∙◌}
use mathlib.Core.Logic.{◌≢◌}
use thekvm.Prelude.Tests.{if◌then◌else◌, Bool-cases}

module _ {ℓ} {A : Type ℓ} where
  abbrev pub length : List A → ℕ
  length [] = 0
  length (x ∷ xs) = suc (length xs)

  pub length-append : (xs ys : List A) → length (xs ++ ys) ≡ length xs + length ys
  length-append [] ys = omega arith
  length-append (x ∷ xs) ys = omega (arith, length-append xs ys)

  abbrev pub All {κ} : (A → Type κ) → List A → Type κ
  All P [] = Unit {κ}
  All P (x ∷ xs) = P x × All P xs

  pub All-append {κ} : (P : A → Type κ) (xs ys : List A) → All P xs → All P ys → All P (xs ++ ys)
  All-append P [] ys h k = k
  All-append P (x ∷ xs) ys h k = (h.0, All-append P xs ys h.1 k)

module _ {ℓ} {A : Type ℓ} where
  -- The first element that passes the test.
  unfoldable pub find : (A → Bool) → List A → Option A
  find p [] = none
  find p (x ∷ xs) = if p x then some x else find p xs

  -- The first element that passes the test is replaced.
  unfoldable pub update_first : (A → Bool) → (A → A) → List A → List A
  update_first p f [] = []
  update_first p f (x ∷ xs) = if p x then f x ∷ xs else x ∷ update_first p f xs

  unfoldable pub any : (A → Bool) → List A → Bool
  any p [] = false
  any p (x ∷ xs) = p x || any p xs

  unfoldable pub all : (A → Bool) → List A → Bool
  all p [] = true
  all p (x ∷ xs) = p x && all p xs

module _ {ℓ} {A : Type ℓ} where
  pub find-passes : (p : A → Bool) (xs : List A) {a : A} → find p xs ≡ some a → p a ≡ true
  unfolding find
  find-passes p [] e = cc
  find-passes p (x ∷ xs) {a = a} e = ground (arith, find-passes p xs {a = a})

  pub find-All {κ} :
      (P : A → Type κ) (p : A → Bool) (xs : List A) {a : A} → All P xs → find p xs ≡ some a → P a
  unfolding find
  find-All P p [] h e = cc
  find-All P p (x ∷ xs) {a = a} h e = elim (Bool-cases (p x)) [
    | inl hit ↦ let q : x ≡ a = ground arith in subst P q h.0
    | inr miss ↦ find-All P p xs h.1 (ground arith)
  ]

module _ {ℓ} {A : Type ℓ} where
  -- If some element passes, a search finds one.
  pub find_found :
      (p q : A → Bool) (xs : List A) (a : A)
      → find q xs ≡ some a
      → p a ≡ true
      → (b : A) × (find p xs ≡ some b)
  unfolding find
  find_found p q [] a e h = cc
  find_found p q (x ∷ xs) a e h = elim (Bool-cases (p x)) [
    | inl hit ↦ (x, ground arith)
    | inr miss ↦
        let more : find q xs ≡ some a = ground arith in
        let (b, f) = find_found p q xs a more h in (b, ground arith)
  ]

  pub any-All : (p : A → Bool) (xs : List A) → any p xs ≡ false → All (λ x. p x ≡ false) xs
  unfolding any
  any-All p [] h = tt
  any-All p (x ∷ xs) h = (ground arith, any-All p xs (ground arith))

  pub All-any : (p : A → Bool) (xs : List A) → All (λ x. p x ≡ false) xs → any p xs ≡ false
  unfolding any
  All-any p [] h = refl
  All-any p (x ∷ xs) h = ground (arith, All-any p xs h.1)

  pub any-find : (p : A → Bool) (xs : List A) → any p xs ≡ true → (b : A) × (find p xs ≡ some b)
  unfolding any find
  any-find p [] h = cc
  any-find p (x ∷ xs) h = elim (Bool-cases (p x)) [
    | inl hit ↦ (x, ground arith)
    | inr miss ↦
        let more : any p xs ≡ true = ground arith in
        let (b, f) = any-find p xs more in (b, ground arith)
  ]

  pub find-any : (p : A → Bool) (xs : List A) (a : A) → find p xs ≡ some a → any p xs ≡ true
  unfolding any find
  find-any p [] a h = cc
  find-any p (x ∷ xs) a h = ground (arith, find-any p xs a)

  pub All-map {κ μ} :
      {P : A → Type κ} {Q : A → Type μ} (f : (a : A) → P a → Q a) (xs : List A)
      → All P xs
      → All Q xs
  All-map f [] h = tt
  All-map f (x ∷ xs) h = (f x h.0, All-map f xs h.1)

module _ {ℓ κ} {A : Type ℓ} {K : Type κ} (f : A → K) where
  -- No two elements have the same key.
  abbrev pub Distinct : List A → Type (ℓ ⊔ κ)
  Distinct [] = Unit {ℓ ⊔ κ}
  Distinct (x ∷ xs) = All (λ y. f y ≢ f x) xs × Distinct xs

  pub Distinct-unique :
      (p q : A → Bool) (xs : List A) (a b : A)
      → Distinct xs
      → find p xs ≡ some a
      → find q xs ≡ some b
      → f a ≡ f b
      → a ≡ b
  unfolding find
  Distinct-unique p q [] a b d ea eb e = cc
  Distinct-unique p q (x ∷ xs) a b d ea eb e = elim (Bool-cases (p x)) [
    | inl px ↦ elim (Bool-cases (q x)) [
      | inl qx ↦ ground arith
      | inr qx ↦
          let fb : find q xs ≡ some b = ground arith in
          let xa : x ≡ a = ground arith in
          absurd (find-All (λ y. f y ≢ f x) q xs d.0 fb (sym e ∙ ap f (sym xa)))
    ]
    | inr px ↦ elim (Bool-cases (q x)) [
      | inl qx ↦
          let fa : find p xs ≡ some a = ground arith in
          let xb : x ≡ b = ground arith in
          absurd (find-All (λ y. f y ≢ f x) p xs d.0 fa (e ∙ ap f (sym xb)))
      | inr qx ↦ Distinct-unique p q xs a b d.1 (ground arith) (ground arith) e
    ]
  ]

module _ {ℓ} {A : Type ℓ} where
  pub All-zip {κ μ ν} :
      {P : A → Type κ} {Q : A → Type μ} {R : A → Type ν} (f : (a : A) → P a → Q a → R a)
      (xs : List A)
      → All P xs
      → All Q xs
      → All R xs
  All-zip f [] h k = tt
  All-zip f (x ∷ xs) h k = (f x h.0 k.0, All-zip f xs h.1 k.1)
