-- ===== src/Prelude/Deciding.antt =====
-- Checks that succeed exactly when a condition holds, one after the other.
use mathlib.Core.Path.{◌≡◌, refl}
use mathlib.Core.Logic.{◌⊎◌, inl, inr}
use mathlib.Core.Bool.{Bool, true, false}
use mathlib.Core.List.{List, [], ◌∷◌}
use native.Mathlib.Omega.{arith}
use thekvm.Prelude.Lists.{all, All}
use thekvm.Prelude.Result.{Result, ok, err, ◌>>=◌, ◌>>◌, fail_if}

-- The check succeeds with the value when the condition holds, and fails when it does not.
abbrev pub Decides {ℓ} : {E : Type 0} {A : Type ℓ} → Result E A → A → Type 0 → Type ℓ
Decides {E = E} r a P = ((r ≡ ok a) × P) ⊎ ((e : E) × (r ≡ err e) × (P → ⊥))

pub fail_if-Decides :
    {E P : Type 0} (b : Bool) (e : E)
    → (b ≡ false → P)
    → (P → b ≡ false)
    → Decides (fail_if b e) tt P
fail_if-Decides true e f g = inr (e, refl, λ p. ground (arith, g p))
fail_if-Decides false e f g = inl (refl, f refl)

pub seq-Decides {ℓ} :
    {E : Type 0} {A : Type ℓ} {P Q : Type 0} (m : Result E (Unit {0})) (k : Result E A) (a : A)
    → Decides m tt P
    → Decides k a Q
    → Decides (m >> k) a (P × Q)
seq-Decides m k a (inr (e, f, never)) d = inr (e, rw f refl, λ (p, q). never p)
seq-Decides m k a (inl (f, p)) (inl (g, q)) = inl (rw f g, (p, q))
seq-Decides m k a (inl (f, p)) (inr (e, g, never)) = inr (e, rw f g, λ (p, q). never q)

pub ok-Decides {ℓ} : {E : Type 0} {A : Type ℓ} (a : A) → Decides {E = E} (ok a) a Unit
ok-Decides a = inl (refl, tt)

pub bind-Decides {ℓ} :
    {E : Type 0} {A : Type ℓ} {P Q : Type 0} (m : Result E A) (f : A → Result E (Unit {0})) (a : A)
    → Decides m a P
    → Decides (f a) tt Q
    → Decides (m >>= f) tt (P × Q)
bind-Decides m f a (inr (e, g, never)) d = inr (e, rw g refl, λ (p, q). never p)
bind-Decides m f a (inl (g, p)) (inl (h, q)) = inl (rw g h, (p, q))
bind-Decides m f a (inl (g, p)) (inr (e, h, never)) = inr (e, rw g h, λ (p, q). never q)

pub Decides-map {ℓ} :
    {E : Type 0} {A : Type ℓ} {P Q : Type 0} (r : Result E A) (a : A)
    → (P → Q)
    → (Q → P)
    → Decides r a P
    → Decides r a Q
Decides-map r a f g (inl (e, p)) = inl (e, f p)
Decides-map r a f g (inr (e, h, never)) = inr (e, h, λ q. never (g q))

-- A check that is followed by the value only.
pub before {ℓ} :
    {E : Type 0} {A : Type ℓ} {P : Type 0} (m : Result E (Unit {0})) (a : A)
    → Decides m tt P
    → Decides (m >> ok a) a P
before m a d =
    Decides-map (m >> ok a) a (λ (p, q). p) (λ p. (p, tt)) (seq-Decides m (ok a) a d (ok-Decides a))

-- Two checks and then a third.
pub three {ℓ} :
    {E : Type 0} {A : Type ℓ} {P Q R : Type 0} (l m : Result E (Unit {0})) (r : Result E A) (a : A)
    → Decides l tt P
    → Decides m tt Q
    → Decides r a R
    → Decides (l >> m >> r) a (P × Q × R)
three l m r a d e f =
    Decides-map (l >> m >> r) a (λ ((p, q), x). (p, q, x)) (λ (p, q, x). ((p, q), x))
      (seq-Decides (l >> m) r a (seq-Decides l m tt d e) f)

pub all-All {ℓ} :
    {A : Type ℓ} (p : A → Bool) (xs : List A) → all p xs ≡ true → All (λ x. p x ≡ true) xs
unfolding all
all-All p [] h = tt
all-All p (x ∷ xs) h = (ground arith, all-All p xs (ground arith))

pub All-all {ℓ} :
    {A : Type ℓ} (p : A → Bool) (xs : List A) → All (λ x. p x ≡ true) xs → all p xs ≡ true
unfolding all
All-all p [] h = refl
All-all p (x ∷ xs) (h, hs) = ground (arith, All-all p xs hs)
