-- ===== src/Prelude/Dict.antt =====
-- A `HashMap` from numbers as an association list; the program never depends on its order.
use Prim.Native.Nat.{ℕ, ◌+◌, ◌≤◌, ◌<◌}
use mathlib.Core.Path.{◌≡◌, refl, subst}
use mathlib.Core.Logic.{inl, inr}
use mathlib.Core.Bool.{true}
use mathlib.Core.Option.{Option, none, some}
use mathlib.Core.List.{List, [], ◌∷◌}
use native.Mathlib.Omega.{arith}
use thekvm.Prelude.Tests.{◌==◌, ==_refl, ==_iff, Bool-cases, if◌then◌else◌, is_some}
use thekvm.Prelude.Lists.{length, All}

abbrev pub Dict {ℓ} : Type ℓ → Type ℓ
Dict V = List (ℕ × V)

module _ {ℓ} {V : Type ℓ} where
  unfoldable pub get : Dict V → ℕ → Option V
  get [] k = none
  get ((j, v) ∷ m) k = if j == k then some v else get m k

  unfoldable pub remove : Dict V → ℕ → Dict V
  remove [] k = []
  remove ((j, v) ∷ m) k = let rest = remove m k in if j == k then rest else (j, v) ∷ rest

  -- The old value is replaced where it stands.
  unfoldable pub put : Dict V → ℕ → V → Dict V
  put [] k v = (k, v) ∷ []
  put ((j, w) ∷ m) k v = if j == k then (k, v) ∷ m else (j, w) ∷ put m k v

  pub get-put :
      (m : Dict V) (k j : ℕ) (v : V) → get (put m k v) j ≡ (if k == j then some v else get m j)
  unfolding get put
  get-put [] k j v = refl
  get-put ((i, w) ∷ m) k j v = ground (arith, get-put m k j v)

  pub get-remove : (m : Dict V) (k j : ℕ) → get (remove m k) j ≡ (if k == j then none else get m j)
  unfolding get remove
  get-remove [] k j = ground arith
  get-remove ((i, w) ∷ m) k j = ground (arith, get-remove m k j)

  pub length-put :
      (m : Dict V) (k : ℕ) (v : V)
      → length (put m k v) ≡ (if is_some (get m k) then length m else length m + 1)
  unfolding get put
  length-put [] k v = omega arith
  length-put ((i, w) ∷ m) k v = ground (arith, length-put m k v)

  pub length-remove : (m : Dict V) (k : ℕ) → length (remove m k) ≤ length m
  unfolding remove
  length-remove [] k = omega arith
  length-remove ((i, w) ∷ m) k = ground (arith, length-remove m k)

  pub remove_shorter :
      (m : Dict V) (k : ℕ) → is_some (get m k) ≡ true → length (remove m k) < length m
  unfolding get remove
  remove_shorter [] k h = cc
  remove_shorter ((i, w) ∷ m) k h = ground (arith, remove_shorter m k, length-remove m k)

  pub remove-put : (m : Dict V) (k : ℕ) (v : V) → remove (put m k v) k ≡ remove m k
  unfolding remove put
  remove-put [] k v = rw (==_refl k) refl
  remove-put ((i, w) ∷ m) k v = ground (arith, remove-put m k v)

  pub get-put_same : (m : Dict V) (k : ℕ) (v : V) → get (put m k v) k ≡ some v
  unfolding get put
  get-put_same m k v = rw (get-put m k k v, ==_refl k) refl

  pub get-remove_same : (m : Dict V) (k : ℕ) → get (remove m k) k ≡ none
  unfolding get remove
  get-remove_same m k = rw (get-remove m k k, ==_refl k) refl

module _ {ℓ κ} {V : Type ℓ} (P : ℕ × V → Type κ) where
  pub All-put : (m : Dict V) (k : ℕ) (v : V) → All P m → P (k, v) → All P (put m k v)
  unfolding put
  All-put [] k v h p = (p, tt)
  All-put ((i, w) ∷ m) k v (h, hs) p = elim (Bool-cases (i == k)) [
    | inl e ↦ rw e (p, hs)
    | inr e ↦ rw e (h, All-put m k v hs p)
  ]

  pub All-remove : (m : Dict V) (k : ℕ) → All P m → All P (remove m k)
  unfolding remove
  All-remove [] k h = tt
  All-remove ((i, w) ∷ m) k (h, hs) = elim (Bool-cases (i == k)) [
    | inl e ↦ rw e (All-remove m k hs)
    | inr e ↦ rw e (h, All-remove m k hs)
  ]

  pub All-get : (m : Dict V) (k : ℕ) {v : V} → All P m → get m k ≡ some v → P (k, v)
  unfolding get
  All-get [] k h e = cc
  All-get ((i, w) ∷ m) k {v = v} (h, hs) e = elim (Bool-cases (i == k)) [
    | inl t ↦
        let i_k : i ≡ k = (==_iff i k).0 t in
        let w_v : w ≡ v = ground arith in let pair : (i, w) ≡ (k, v) = cc in subst P pair h
    | inr t ↦ All-get m k hs (ground arith)
  ]
